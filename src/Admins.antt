-- ===== src/Admins.antt =====
-- The pages of apps/accounts/views.py on which administrators manage one another, with
-- `AccessGrantForm` and `AccessLevelForm` of apps/core/forms.py and
-- `own_review_backlog_unlocked_by_removing` of apps/core/access.py. Inviting somebody, which also
-- sends a link, is not among them.
pub mod Pages
pub mod Managed
pub mod Stranded
pub mod Backlog
use risk_management.Common.{
  ℕ, ◌+◌, Bool, true, false, not, ◌&&◌, ◌||◌, Option, none, some, List, [], ◌∷◌, ◌++◌, map, ◌==◌,
  leb, if◌then◌else◌, same_id, any, all, select, find, length,
}
use risk_management.Audit.{AuditAction, EntityType, AuditEvent}
use risk_management.Org.{Volunteer}
use risk_management.Access.{
  AccessLevel, User, UserAccessGrant, Directory, covers, grant_for, scope_department_ids, requires,
  manage_users, is_unscoped, active_user_in, grantees, sees_whole_church,
}
use risk_management.Access.Scope.{id_in}
use risk_management.Review.{ReviewItem, is_open}
use risk_management.Tenant.{
  Env, Result, ok, raised, ◌>>=◌, ◌>>◌, refuse_if, or_raise, capability_missing,
}

-- What these pages read and write.
pub record Console : Type 0 where
  pub directory : Directory
  pub levels : List AccessLevel
  -- The active ones.
  pub departments : List ℕ
  pub files : List Volunteer
  pub reviews : List ReviewItem
  pub trail : List AuditEvent
  pub next_pk : ℕ

abbrev pub recorded : Env → AuditAction → EntityType → ℕ → Console → Console
recorded env action kind k c = record c {
  trail =
      c.trail
      ++ record {
        actor_user_id = env.actor.user_id;
        action = action;
        entity_type = kind;
        entity_id = k;
      }
        ∷ [];
}

-- `@requires(Capability.MANAGE_USERS)`
unfoldable pub manages_users : Console → User → Result (Unit {0})
unfolding requires
manages_users c u =
    refuse_if (not (requires c.directory (some u) false (manage_users ∷ []))) capability_missing

-- `level_for`
abbrev pub level_of : Option UserAccessGrant → Option AccessLevel
level_of none = none
level_of (some g) = some g.access_level

-- Whether the level lies within the granter's own, if they have one.
abbrev pub within : Option AccessLevel → AccessLevel → Bool
within none level = true
within (some own) level = covers own level

-- The levels that `AccessGrantForm` offers.
unfoldable pub offered_levels : Console → User → List AccessLevel
offered_levels c u =
    select (within (level_of (grant_for c.directory (some u))))
      (select (λ (l : AccessLevel). l.is_active) c.levels)

abbrev in_scope : Option (List ℕ) → List ℕ → List ℕ
in_scope none departments = departments
in_scope (some ids) departments = select (id_in ids) departments

-- The departments that it offers.
unfoldable pub offered_departments : Console → User → List ℕ
offered_departments c u = in_scope (scope_department_ids c.directory (some u)) c.departments

abbrev pub chosen : List ℕ → List ℕ → Option AccessLevel → Option (AccessLevel × List ℕ)
chosen offered departments none = none
chosen offered departments (some level) =
    if all (id_in offered) departments then some (level, departments) else none

-- `AccessGrantForm`, with the keys that are posted.
unfoldable pub access_grant_form : Console → User → ℕ → List ℕ → Option (AccessLevel × List ℕ)
unfolding offered_levels offered_departments
access_grant_form c u level departments =
    chosen (offered_departments c u) departments
      (find (λ (l : AccessLevel). same_id l.pk (some level)) (offered_levels c u))

-- The fields of `AccessLevelForm`: the switch of a built-in level is disabled.
abbrev pub filled : AccessLevel → AccessLevel → AccessLevel
filled level fields = record fields {
  pk = level.pk;
  is_builtin = level.is_builtin;
  is_active = if level.is_builtin then level.is_active else fields.is_active;
}

-- True where the guard refuses the deactivation of `subject` by `actor`.
unfoldable pub own_review_backlog_unlocked_by_removing :
    Directory → List ReviewItem → User → ℕ → Bool
own_review_backlog_unlocked_by_removing dir reviews actor subject =
    if (actor.pk == subject) || not (is_unscoped dir (some actor))
    then false
    else if active_user_in dir (
        grantees
          (λ g. sees_whole_church g && not ((g.user_id == actor.pk) || (g.user_id == subject))) dir)
    then false
    else any (λ i. is_open i.status && same_id i.recorded_by_user_id (some actor.pk)) reviews

-- `User.objects.filter(is_active=True).count()`
abbrev pub active_count : List User → ℕ
active_count users = length (select (λ (u : User). u.is_active) users)
