-- ===== src/Placement.antt =====
-- Placing a volunteer in a role and ending an assignment: the views `assignment_create`,
-- `assignment_end` and `volunteer_reactivate` of apps/org/views.py, with `RoleAssignmentForm` and
-- `RoleAssignmentEndForm` of apps/org/forms.py. The form fields are parsed dates, or none.
pub mod Convictions
pub mod Forever
pub mod Held
pub mod Leaving
pub mod Operation
pub mod OwnFile
pub mod People
pub mod Permanent
pub mod Preserved
pub mod Reviewed
use risk_management.Common.{
  ℕ, ◌+◌, Bool, true, false, not, ◌&&◌, Option, none, some, List, [], ◌∷◌, ◌++◌, ◌==◌,
  if◌then◌else◌, find, any, select,
}
use risk_management.Calendar.{Date}
use risk_management.Org.{
  Volunteer, Role, Assignment, is_disqualified, active_roles, assignment_refused, end_assignment,
}
use risk_management.Audit.{create, update, deactivate, reactivate, role_assignment, volunteer}
use risk_management.Access.{User}
use risk_management.Access.Self.{may_record_against}
use risk_management.Access.Scope.{scope_volunteers, scope_roles, scope_assignments}
use risk_management.Requirements.Sync.{sync_volunteer_requirements}
use risk_management.Requirements.Progress.{refused}
use risk_management.Requirements.Commit.{commit}
use risk_management.Tenant.{
  Tenant, Env, Result, ok, raised, ◌>>=◌, ◌>>◌, refuse_if, or_raise, no_such_row, form_invalid,
  permanently_disqualified, audit, entity,
}

abbrev pub seen : {A : Type 0} → List A → Bool
seen [] = false
seen (x ∷ xs) = true

-- `_writable_volunteer_or_404`
unfoldable pub writable_volunteer : Env → User → Tenant → Result (Unit {0})
unfolding scope_volunteers may_record_against
writable_volunteer env u t = do
  refuse_if
      (not (seen (scope_volunteers env.directory (some u) ((t.volunteer, t.assignments) ∷ []))))
      no_such_row
  refused (may_record_against env.directory u t.volunteer)

abbrev holds : Tenant → Role → Bool
holds t r = any (λ (s : Role). s.pk == r.pk) (active_roles t.assignments)

-- The roles that the form offers, of the active ones of active departments.
unfoldable pub role_choices : Env → User → List Role → Tenant → List Role
unfolding scope_roles
role_choices env u roles t =
    if is_disqualified t.volunteer.screening_block
    then []
    else select (λ r. not (holds t r)) (scope_roles env.directory (some u) roles)

-- `form.is_valid()`, and the row that it fills.
unfoldable pub validated : Env → User → List Role → ℕ → Option Date → Tenant → Result Assignment
unfolding role_choices assignment_refused
validated env u roles role started_on t = do
  r ← or_raise form_invalid (find (λ (r : Role). r.pk == role) (role_choices env u roles t))
  on ← or_raise form_invalid started_on
  let a : Assignment = record {
    pk = t.next_pk;
    role = r;
    started_on = on;
    ended_on = none;
    is_active = true;
  }
  refuse_if (assignment_refused t.volunteer a) form_invalid
  ok a

-- The view is in no transaction: the save commits before the reconciliation that is counted.
unfoldable pub assignment_create : Env → User → List Role → ℕ → Option Date → Tenant → Result Tenant
unfolding writable_volunteer validated commit
assignment_create env u roles role started_on t = do
  writable_volunteer env u t
  a ← validated env u roles role started_on t
  let saved = commit env (record t {
    assignments = t.assignments ++ a ∷ [];
    pending_syncs = t.pending_syncs + 1;
    next_pk = t.next_pk + 1;
  })
  ok (
      audit env create (entity role_assignment a.pk)
        (sync_volunteer_requirements env env.today false saved).0)

unfoldable pub put_assignment : Assignment → List Assignment → List Assignment
put_assignment a [] = []
put_assignment a (x ∷ xs) = (if x.pk == a.pk then a else x) ∷ put_assignment a xs

-- `get_object_or_404` on the current assignments in scope.
abbrev pub current_assignment : Env → User → ℕ → Tenant → Option Assignment
current_assignment env u k t =
    find (λ (a : Assignment). (a.pk == k) && a.is_active)
      (scope_assignments env.directory (some u) t.assignments)

-- Whoever has no assignment left no longer serves.
unfoldable pub stop_serving : Env → Tenant → Tenant
stop_serving env t =
    if not (seen (active_roles t.assignments)) && t.volunteer.is_active
    then audit env deactivate (entity volunteer t.volunteer.pk) (record t {
      volunteer = record (t.volunteer) { is_active = false };
      pending_syncs = t.pending_syncs + 1;
    })
    else t

abbrev pub day_or_today : Env → Option Date → Date
day_or_today env none = env.today
day_or_today env (some on) = on

-- `assignment.end(ended_on)`
unfoldable pub end_one : Date → Assignment → Tenant → Tenant
unfolding put_assignment
end_one on a t = record t {
  assignments = put_assignment (end_assignment on a) t.assignments;
  pending_syncs = t.pending_syncs + 1;
}

unfoldable pub assignment_end : Env → User → ℕ → Option Date → Tenant → Result Tenant
unfolding scope_assignments may_record_against end_one stop_serving commit
assignment_end env u k ended_on t = do
  a ← or_raise no_such_row (current_assignment env u k t)
  refused (may_record_against env.directory u t.volunteer)
  let ended = end_one (day_or_today env ended_on) a t
  let synced = (sync_volunteer_requirements env env.today false (stop_serving env ended)).0
  ok (audit env update (entity role_assignment k) (commit env synced))

-- An error is a message on the page and nothing else.
unfoldable pub volunteer_reactivate : Env → User → Tenant → Result Tenant
unfolding writable_volunteer commit
volunteer_reactivate env u t = do
  writable_volunteer env u t
  refuse_if (is_disqualified t.volunteer.screening_block) permanently_disqualified
  ok (
      audit env reactivate (entity volunteer t.volunteer.pk) (
        commit env (record t {
          volunteer = record (t.volunteer) { is_active = true };
          pending_syncs = t.pending_syncs + 1;
        })))
