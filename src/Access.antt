-- ===== src/Access.antt =====
-- apps/core/access.py, and `AccessLevel` and `UserAccessGrant` of apps/core/models.py: what an
-- administrator holds and what it lets them do and see. A refusal is a data type with a
-- constructor for each message.
pub mod Covers
pub mod Self
pub mod Scope
pub mod Guards
pub mod Grant
use risk_management.Common.{
  ℕ, Bool, true, false, not, ◌&&◌, ◌||◌, Option, none, some, List, [], ◌∷◌, map, ◌==◌, same_id,
  if◌then◌else◌, is_some, any, all, select, find, length,
}
use risk_management.Audit.{Actor}
use risk_management.Org.{Volunteer, Assignment}

pub data Capability : Type 0 where
  view_volunteers edit_volunteers manage_assignments record_screening record_crc : Capability
  manage_org manage_requirements view_audit manage_users : Capability

abbrev pub all_capabilities : List Capability
all_capabilities =
    view_volunteers ∷ edit_volunteers ∷ manage_assignments ∷ record_screening ∷ record_crc
    ∷ manage_org ∷ manage_requirements ∷ view_audit ∷ manage_users ∷ []

pub record AccessLevel : Type 0 where
  -- None for one that is not saved.
  pub pk : Option ℕ
  pub is_builtin : Bool
  pub is_scoped : Bool
  pub is_active : Bool
  pub can_view_volunteers : Bool
  pub can_edit_volunteers : Bool
  pub can_manage_assignments : Bool
  pub can_record_screening : Bool
  pub can_record_crc : Bool
  pub can_manage_org : Bool
  pub can_manage_requirements : Bool
  pub can_view_audit : Bool
  pub can_manage_users : Bool

-- `getattr(level, f"can_{capability}")`
unfoldable pub grants : AccessLevel → Capability → Bool
grants l view_volunteers = l.can_view_volunteers
grants l edit_volunteers = l.can_edit_volunteers
grants l manage_assignments = l.can_manage_assignments
grants l record_screening = l.can_record_screening
grants l record_crc = l.can_record_crc
grants l manage_org = l.can_manage_org
grants l manage_requirements = l.can_manage_requirements
grants l view_audit = l.can_view_audit
grants l manage_users = l.can_manage_users

-- True where `AccessLevel.clean` refuses the level.
unfoldable pub level_refused : AccessLevel → Bool
level_refused l = l.is_scoped && l.can_view_audit

unfoldable pub capabilities : AccessLevel → List Capability
unfolding grants
capabilities l = select (grants l) all_capabilities

abbrev pub capability_code : Capability → ℕ
capability_code view_volunteers = 0
capability_code edit_volunteers = 1
capability_code manage_assignments = 2
capability_code record_screening = 3
capability_code record_crc = 4
capability_code manage_org = 5
capability_code manage_requirements = 6
capability_code view_audit = 7
capability_code manage_users = 8

abbrev pub member : List Capability → Capability → Bool
member held c = any (λ d. capability_code d == capability_code c) held

-- `level.covers(other)`
unfoldable pub covers : AccessLevel → AccessLevel → Bool
unfolding capabilities
covers l other =
    if all (member (capabilities l)) (capabilities other)
    then not (l.is_scoped && not other.is_scoped)
    else false

pub record UserAccessGrant : Type 0 where
  pub user_id : ℕ
  pub access_level : AccessLevel
  pub departments : List ℕ

pub record User : Type 0 where
  pub pk : ℕ
  pub is_authenticated : Bool
  pub is_active : Bool

-- The rows that the access rules read.
pub record Directory : Type 0 where
  pub on_public_schema : Bool
  pub users : List User
  pub grants : List UserAccessGrant

-- `grant_for`, whose cache on the request's user only saves queries.
unfoldable pub grant_for : Directory → Option User → Option UserAccessGrant
grant_for dir none = none
grant_for dir (some u) =
    if not u.is_authenticated || not u.is_active
    then none
    else if dir.on_public_schema
    then none
    else find (λ g. g.user_id == u.pk) dir.grants

-- `None` for "every department" is `none`.
abbrev pub grant_scope : Option UserAccessGrant → Option (List ℕ)
grant_scope none = some []
grant_scope (some g) = if g.access_level.is_scoped then some g.departments else none

unfoldable pub scope_department_ids : Directory → Option User → Option (List ℕ)
scope_department_ids dir none = none
scope_department_ids dir (some u) = grant_scope (grant_for dir (some u))

abbrev pub level_holds : Option UserAccessGrant → Capability → Bool
level_holds none c = false
level_holds (some g) c = g.access_level.is_active && grants g.access_level c

unfoldable pub has_capability : Directory → Option User → Capability → Bool
has_capability dir u c = level_holds (grant_for dir u) c

abbrev pub is_unscoped : Directory → Option User → Bool
is_unscoped dir u = not (is_some (scope_department_ids dir u))

-- `requires(*capabilities, any_of=…)`: whether the view is entered.
unfoldable pub requires : Directory → Option User → Bool → List Capability → Bool
requires dir u any_of wanted =
    if any_of then any (has_capability dir u) wanted else all (has_capability dir u) wanted

-- `User.objects.filter(pk__in=ids, is_active=True).exists()`
abbrev pub active_user_in : Directory → List ℕ → Bool
active_user_in dir ids = any (λ u. u.is_active && any (λ i. u.pk == i) ids) dir.users

abbrev pub sees_whole_church : UserAccessGrant → Bool
sees_whole_church g = not g.access_level.is_scoped && g.access_level.is_active

abbrev pub grantees : (UserAccessGrant → Bool) → Directory → List ℕ
grantees p dir = map (λ g. g.user_id) (select p dir.grants)

unfoldable pub another_unscoped_admin_exists : Directory → ℕ → Bool
another_unscoped_admin_exists dir exclude_user_id =
    if dir.on_public_schema
    then false
    else active_user_in dir
        (grantees (λ g. sees_whole_church g && not (g.user_id == exclude_user_id)) dir)
