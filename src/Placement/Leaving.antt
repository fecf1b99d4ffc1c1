-- ===== src/Placement/Leaving.antt =====
-- The view `volunteer_deactivate` of apps/org/views.py with `VolunteerDeactivateForm` of
-- apps/org/forms.py: taking a volunteer out of service.
use risk_management.Common.{◌+◌, Bool, true, false, not, Option, none, some, if◌then◌else◌, length}
use risk_management.Calendar.{Date, before}
use risk_management.Org.{active_roles, end_all}
use risk_management.Audit.{deactivate, volunteer}
use risk_management.Access.{User}
use risk_management.Tenant.{
  Tenant, Env, Result, ok, ◌>>=◌, ◌>>◌, refuse_if, or_raise, already_inactive, form_invalid, audit,
  entity,
}
use risk_management.Requirements.Commit.{commit}
use risk_management.Placement.{writable_volunteer}

-- `clean_stopped_serving_on`
unfoldable pub clean_stopped_serving_on : Date → Option Date → Option Date
clean_stopped_serving_on today none = none
clean_stopped_serving_on today (some on) = if before today on then none else some on

-- The loop over the current assignments, each of them saved.
abbrev pub end_current : Bool → Date → Tenant → Tenant
end_current false on t = t
end_current true on t = record t {
  assignments = end_all on t.assignments;
  pending_syncs = t.pending_syncs + length (active_roles t.assignments);
}

-- The volunteer as the view saves them.
abbrev pub left_service : Tenant → Tenant
left_service t = record t {
  volunteer = record (t.volunteer) { is_active = false };
  pending_syncs = t.pending_syncs + 1;
}

-- What is posted: the last day, and whether the current assignments end with it.
unfoldable pub volunteer_deactivate : Env → User → Option Date → Bool → Tenant → Result Tenant
unfolding writable_volunteer clean_stopped_serving_on commit
volunteer_deactivate env u stopped_serving_on end_assignments t = do
  writable_volunteer env u t
  refuse_if (not t.volunteer.is_active) already_inactive
  on ← or_raise form_invalid (clean_stopped_serving_on env.today stopped_serving_on)
  ok (
      commit env (
        audit env deactivate (entity volunteer t.volunteer.pk)
          (end_current end_assignments on (left_service t))))
