-- ===== src/Admins/Pages.antt =====
-- The views of apps/accounts/views.py that change an account, its access, its file or a level.
use risk_management.Common.{
  ℕ, ◌+◌, Bool, true, false, ◌&&◌, Option, none, some, List, [], ◌∷◌, ◌++◌, map, ◌==◌, leb,
  if◌then◌else◌, same_id, any, find,
}
use risk_management.Audit.{
  create, update, deactivate, reactivate, access_changed, user, volunteer, access_level,
}
use risk_management.Org.{Volunteer, not_blocked}
use risk_management.Access.{
  AccessLevel, User, UserAccessGrant, level_refused, grant_for, another_unscoped_admin_exists,
}
use risk_management.Access.Grant.{apply_grant}
use risk_management.Access.Guards.{would_strand_the_church, no_access_level, deactivated}
use risk_management.Tenant.{
  Env, Result, ok, ◌>>=◌, ◌>>◌, refuse_if, or_raise, no_such_row, form_invalid, own_account,
  last_administrator, church_stranded, backlog_unlocked, own_choice, already_linked, wider_than_own,
}
use risk_management.Admins.{
  Console, recorded, manages_users, level_of, within, access_grant_form, filled,
  own_review_backlog_unlocked_by_removing, active_count,
}

-- `get_object_or_404(User, pk=pk)`
abbrev pub account_at : ℕ → Console → Option User
account_at k c = find (λ (u : User). u.pk == k) c.directory.users

unfoldable pub admin_access : Env → User → ℕ → ℕ → List ℕ → Console → Result Console
unfolding manages_users access_grant_form apply_grant would_strand_the_church
admin_access env u k level_key department_keys c = do
  manages_users c u
  subject ← or_raise no_such_row (account_at k c)
  (level, departments) ← or_raise form_invalid (access_grant_form c u level_key department_keys)
  refuse_if (would_strand_the_church c.directory subject.pk level) church_stranded
  dir ← or_raise wider_than_own (apply_grant c.directory (some u) subject.pk level departments)
  ok (recorded env access_changed user subject.pk (record c { directory = dir }))

-- The three refusals of a deactivation.
unfoldable pub may_deactivate : User → User → Console → Result (Unit {0})
unfolding would_strand_the_church own_review_backlog_unlocked_by_removing
may_deactivate u subject c = do
  refuse_if (leb (active_count c.directory.users) 1) last_administrator
  refuse_if (would_strand_the_church c.directory subject.pk no_access_level) church_stranded
  refuse_if (own_review_backlog_unlocked_by_removing c.directory c.reviews u subject.pk)
      backlog_unlocked

abbrev pub reactivated : ℕ → List User → List User
reactivated k users =
    map (λ (u : User). if u.pk == k then record u { is_active = true } else u) users

abbrev pub with_users : List User → Console → Console
with_users users c = record c { directory = record (c.directory) { users = users } }

abbrev pub toggled : Env → User → Console → Bool → Result Console → Result Console
toggled env subject c true deactivation = deactivation
toggled env subject c false deactivation = ok (
    recorded env reactivate user subject.pk
      (with_users (reactivated subject.pk c.directory.users) c))

unfoldable pub admin_toggle_active : Env → User → ℕ → Console → Result Console
unfolding manages_users may_deactivate deactivated
admin_toggle_active env u k c = do
  manages_users c u
  subject ← or_raise no_such_row (account_at k c)
  refuse_if (subject.pk == u.pk) own_account
  toggled env subject c subject.is_active (do
    may_deactivate u subject c
    ok (
        recorded env deactivate user subject.pk
          (with_users (deactivated subject.pk c.directory.users) c)))

-- `volunteer.user_id = subject.pk; volunteer.save()`
abbrev pub linked_file : ℕ → ℕ → Volunteer → Volunteer
linked_file k owner v = if v.pk == k then record v { user_id = some owner } else v

unfoldable pub admin_link_volunteer : Env → User → ℕ → ℕ → Console → Result Console
unfolding manages_users
admin_link_volunteer env u k volunteer_key c = do
  manages_users c u
  subject ← or_raise no_such_row (account_at k c)
  v ←
      or_raise no_such_row
        (find (λ (v : Volunteer). (v.pk == volunteer_key) && same_id v.user_id none) c.files)
  refuse_if ((subject.pk == u.pk) && another_unscoped_admin_exists c.directory u.pk) own_choice
  ok (
      recorded env update volunteer v.pk
        (record c { files = map (linked_file v.pk subject.pk) c.files }))

abbrev new_file : ℕ → ℕ → Volunteer
new_file k owner = record {
  pk = k;
  birth_year = none;
  birth_month = none;
  screening_block = not_blocked;
  screening_block_recorded_at = none;
  is_active = true;
  user_id = some owner;
}

unfoldable pub admin_create_volunteer : Env → User → ℕ → Console → Result Console
unfolding manages_users
admin_create_volunteer env u k c = do
  manages_users c u
  subject ← or_raise no_such_row (account_at k c)
  refuse_if (any (λ (v : Volunteer). same_id v.user_id (some subject.pk)) c.files) already_linked
  ok (
      recorded env create volunteer c.next_pk (record c {
        files = c.files ++ new_file c.next_pk subject.pk ∷ [];
        next_pk = c.next_pk + 1;
      }))

-- `AccessLevelForm.clean` on the level as it is filled in.
unfoldable pub access_level_form : Console → User → AccessLevel → Option AccessLevel
access_level_form c u level =
    if level_refused level
    then none
    else if within (level_of (grant_for c.directory (some u))) level
    then some level
    else none

unfoldable pub access_level_create : Env → User → AccessLevel → Console → Result Console
unfolding manages_users access_level_form
access_level_create env u fields c = do
  manages_users c u
  level ←
      or_raise form_invalid
        (access_level_form c u (record fields { pk = some c.next_pk; is_builtin = false }))
  ok (
      recorded env access_changed access_level c.next_pk
        (record c { levels = level ∷ c.levels; next_pk = c.next_pk + 1 }))

-- A saved level is the one that every grant of it reads.
abbrev pub put_level : AccessLevel → AccessLevel → AccessLevel
put_level level old = if same_id old.pk level.pk then level else old

abbrev pub regraded : AccessLevel → UserAccessGrant → UserAccessGrant
regraded level g = record g { access_level = put_level level g.access_level }

abbrev pub with_level : Env → ℕ → AccessLevel → Console → Console
with_level env k level c = recorded env access_changed access_level k (record c {
  levels = map (put_level level) c.levels;
  directory = record (c.directory) { grants = map (regraded level) c.directory.grants };
})

unfoldable pub access_level_edit : Env → User → ℕ → AccessLevel → Console → Result Console
unfolding manages_users access_level_form
access_level_edit env u k fields c = do
  manages_users c u
  old ← or_raise no_such_row (find (λ (l : AccessLevel). same_id l.pk (some k)) c.levels)
  level ← or_raise form_invalid (access_level_form c u (filled old fields))
  ok (with_level env k level c)

-- The pages, each with what is posted to it.
pub data AdminRequest : Type 0 where
  change_access : ℕ → ℕ → List ℕ → AdminRequest
  toggle_active : ℕ → AdminRequest
  link_volunteer : ℕ → ℕ → AdminRequest
  create_volunteer : ℕ → AdminRequest
  create_level : AccessLevel → AdminRequest
  edit_level : ℕ → AccessLevel → AdminRequest

unfoldable pub administer : Env → User → AdminRequest → Console → Result Console
unfolding admin_access admin_toggle_active admin_link_volunteer admin_create_volunteer
    access_level_create access_level_edit
administer env u (change_access k level departments) c = admin_access env u k level departments c
administer env u (toggle_active k) c = admin_toggle_active env u k c
administer env u (link_volunteer k v) c = admin_link_volunteer env u k v c
administer env u (create_volunteer k) c = admin_create_volunteer env u k c
administer env u (create_level fields) c = access_level_create env u fields c
administer env u (edit_level k fields) c = access_level_edit env u k fields c
