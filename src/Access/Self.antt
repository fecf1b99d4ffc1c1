-- ===== src/Access/Self.antt =====
-- "Nobody screens themselves": the rule of apps/core/access.py at its two doors, the view's and
-- the service's, and the actor that apps/core/audit.py derives from a request.
use risk_management.Common.{
  ℕ, ◌≡◌, ◌≢◌, Bool, true, false, not, ◌||◌, Option, none, some, List, [], arith, ◌==◌,
  if◌then◌else◌,
}
use risk_management.Audit.{Actor}
use risk_management.Org.{Volunteer}
use risk_management.Access.{
  User, Directory, UserAccessGrant, grant_for, grant_scope, scope_department_ids, is_unscoped,
  another_unscoped_admin_exists,
}

pub data SelfRefusal : Type 0 where
  needs_whole_church ask_another : SelfRefusal

abbrev pub owns : Option ℕ → ℕ → Bool
owns none pk = false
owns (some linked) pk = pk == linked

-- `_self_refusal`
unfoldable pub self_refusal : Directory → Bool → ℕ → Option SelfRefusal
self_refusal dir is_limited user_id =
    if is_limited
    then some needs_whole_church
    else if another_unscoped_admin_exists dir user_id
    then some ask_another
    else none

-- `may_record_against`: the refusal, or none where the user may write.
unfoldable pub may_record_against : Directory → User → Volunteer → Option SelfRefusal
unfolding self_refusal
may_record_against dir u v =
    if not (owns v.user_id u.pk)
    then none
    else self_refusal dir (not (is_unscoped dir (some u))) u.pk

abbrev pub owned_by_actor : Option ℕ → Option ℕ → Bool
owned_by_actor none linked = false
owned_by_actor (some k) linked = owns linked k

abbrev self_refusal_for : Directory → Bool → Option ℕ → Option SelfRefusal
self_refusal_for dir is_limited none = none
self_refusal_for dir is_limited (some k) = self_refusal dir is_limited k

-- `refuse_self_recording`: the refusal that is raised, if one is.
unfoldable pub refuse_self_recording : Directory → Actor → Volunteer → Option SelfRefusal
unfolding self_refusal
refuse_self_recording dir actor v =
    if not (owned_by_actor actor.user_id v.user_id)
    then none
    else self_refusal_for dir (actor.access_level_is_scoped || actor.access_level_unknown)
        actor.user_id

abbrev departments_of : Option (List ℕ) → List ℕ
departments_of none = []
departments_of (some ids) = ids

abbrev scoped_by : Option UserAccessGrant → Bool
scoped_by none = false
scoped_by (some g) = g.access_level.is_scoped

-- `actor_from_request` for a request whose access lookups succeed, or fail (`resolved`).
unfoldable pub actor_from_request : Directory → Bool → User → Actor
unfolding grant_for
actor_from_request dir resolved u =
    if not u.is_authenticated
    then record {
      user_id = none;
      access_level_is_scoped = false;
      access_level_unknown = false;
      department_ids = [];
    }
    else if resolved
    then record {
      user_id = some u.pk;
      access_level_is_scoped = scoped_by (grant_for dir (some u));
      access_level_unknown = false;
      department_ids = departments_of (grant_scope (grant_for dir (some u)));
    }
    else record {
      user_id = some u.pk;
      access_level_is_scoped = false;
      access_level_unknown = true;
      department_ids = [];
    }

module _ (dir : Directory) (u : User) (v : Volunteer) (signed_in : u.is_authenticated ≡ true) where
  -- For a signed-in administrator with a grant, the service refuses a self-recording exactly
  -- where the view does, with the same message.
  pub refuse_self_recording-may_record_against :
      (g : UserAccessGrant)
      → grant_for dir (some u) ≡ some g
      → refuse_self_recording dir (actor_from_request dir true u) v ≡ may_record_against dir u v
  unfolding refuse_self_recording may_record_against actor_from_request scope_department_ids
  refuse_self_recording-may_record_against g held = ground (arith, held)

  -- With or without a grant, what the service refuses the view refuses.
  pub service_refusal_is_view_refusal :
      refuse_self_recording dir (actor_from_request dir true u) v ≢ none
      → may_record_against dir u v ≢ none
  unfolding refuse_self_recording may_record_against actor_from_request scope_department_ids
  service_refusal_is_view_refusal refused allowed = ground (arith, refused, allowed)

  -- An administrator without a grant, on their own file, when nobody else sees the whole church,
  -- is refused by the view and let through by the service.
  pub no_grant_differs :
      grant_for dir (some u) ≡ none
      → owns v.user_id u.pk ≡ true
      → another_unscoped_admin_exists dir u.pk ≡ false
      → (may_record_against dir u v ≡ some needs_whole_church)
        × (refuse_self_recording dir (actor_from_request dir true u) v ≡ none)
  unfolding refuse_self_recording may_record_against actor_from_request scope_department_ids
  no_grant_differs nothing own last = ground (arith, nothing, own, last)
