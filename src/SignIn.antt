-- ===== src/SignIn.antt =====
-- apps/tenants/routing.py and the rows of apps/accounts/models.py that it searches: the schemas of
-- the platform, the church that a name stands for, and the schemas that an address or a passkey
-- opens. The order of the list of churches is the order of the query, by name.
pub mod Links
pub mod Sessions
pub mod Spent
pub mod Events
pub mod Accepted
pub mod Once
pub mod Issued
pub mod Targets
pub mod Ceremony
pub mod Attempts
use risk_management.Common.{
  ℕ, ◌+◌, Bool, true, false, not, ◌&&◌, ◌||◌, Option, none, some, List, [], ◌∷◌, ◌++◌, map, String,
  ◌==◌, leb, if◌then◌else◌, find, select,
}
use risk_management.Audit.{AuditEvent}
use text.Mathlib.Text.{◌==◌ as same_text}

pub data LinkPurpose : Type 0 where
  invite recovery : LinkPurpose

-- Moments are in seconds.
pub record LoginLink : Type 0 where
  pub pk : ℕ
  pub user_id : ℕ
  pub token_hash : String
  pub purpose : LinkPurpose
  pub issued_by : Option ℕ
  pub expires_at : ℕ
  pub consumed_at : Option ℕ

pub record Account : Type 0 where
  pub pk : ℕ
  pub email_index : String
  pub is_active : Bool

pub record Passkey : Type 0 where
  pub pk : ℕ
  pub user_id : ℕ
  pub credential_id : String
  pub public_key : String
  pub sign_count : ℕ
  pub is_active : Bool
  pub last_used_at : Option ℕ

pub data ChallengePurpose : Type 0 where
  register authenticate : ChallengePurpose

pub record WebAuthnChallenge : Type 0 where
  pub pk : ℕ
  pub challenge : String
  pub purpose : ChallengePurpose
  pub user_id : Option ℕ
  pub session_key : String
  pub created_at : ℕ
  pub consumed_at : Option ℕ

-- The accounts' tables of one schema; the public one has them too.
pub record Schema : Type 0 where
  pub name : String
  pub users : List Account
  pub links : List LoginLink
  pub passkeys : List Passkey
  -- The newest first.
  pub challenges : List WebAuthnChallenge
  pub trail : List AuditEvent

-- The row of a church.
pub record TenantRow : Type 0 where
  pub schema_name : String
  pub is_active : Bool

pub record Platform : Type 0 where
  pub churches : List TenantRow
  pub schemas : List Schema
  pub next_pk : ℕ

abbrev pub public : String
public = "public"

abbrev pub is_empty_text : String → Bool
is_empty_text String.[] = true
is_empty_text _ = false

-- The rows of a table of the schema with this name.
abbrev pub table : {A : Type 0} → (Schema → List A) → Option Schema → List A
table t none = []
table t (some s) = t s

abbrev pub schema_named : String → Platform → Option Schema
schema_named name p = find (λ (s : Schema). same_text s.name name) p.schemas

abbrev pub users_in : String → Platform → List Account
users_in name p = table (λ s. s.users) (schema_named name p)

abbrev pub links_in : String → Platform → List LoginLink
links_in name p = table (λ s. s.links) (schema_named name p)

abbrev pub passkeys_in : String → Platform → List Passkey
passkeys_in name p = table (λ s. s.passkeys) (schema_named name p)

-- `LoginLink.is_expired`
unfoldable pub is_expired : ℕ → LoginLink → Bool
is_expired now l = leb l.expires_at now

-- `LoginLink.is_usable`
unfoldable pub is_usable : ℕ → LoginLink → Bool
unfolding is_expired
is_usable now l = elim l.consumed_at [ none ↦ not (is_expired now l) | some t ↦ false ]

-- A live church of this name, which is not the public schema.
unfoldable pub resolve_tenant : String → Platform → Option TenantRow
resolve_tenant name p =
    if is_empty_text name || same_text name public
    then none
    else find (λ (c : TenantRow). same_text c.schema_name name && c.is_active) p.churches

pub record LoginTarget : Type 0 where
  pub schema_name : String
  pub tenant : Option TenantRow
  pub user_pk : ℕ

abbrev pub owner_at : String → Option TenantRow → Option ℕ → List LoginTarget
owner_at name tenant none = []
owner_at name tenant (some pk) = record { schema_name = name; tenant = tenant; user_pk = pk } ∷ []

-- `Tenant.objects.filter(is_active=True).exclude(schema_name=public)`
abbrev pub live_churches : Platform → List TenantRow
live_churches p =
    select (λ (c : TenantRow). c.is_active && not (same_text c.schema_name public)) p.churches

abbrev pub pk_of : Option Account → Option ℕ
pk_of none = none
pk_of (some u) = some u.pk

abbrev pub owner_of : Option Passkey → Option ℕ
owner_of none = none
owner_of (some k) = some k.user_id

-- What the search does in each church in turn, where it finds an owner.
abbrev pub targets_in : (String → Option ℕ) → List TenantRow → List LoginTarget
targets_in owner [] = []
targets_in owner (c ∷ rest) =
    owner_at c.schema_name (some c) (owner c.schema_name) ++ targets_in owner rest

-- An address is stripped and lowered by Python, and hashed under a key of the schema.
module _ (normalise : String → String) (blind_index : String → String → String) where
  unfoldable pub email_index : String → String → String
  email_index schema email =
      let normalised = normalise email in
      if is_empty_text normalised then "" else blind_index schema normalised

  unfoldable pub find_user_pk : Platform → String → String → Option ℕ
  unfolding email_index
  find_user_pk p normalised schema = pk_of (
      find (λ (u : Account). same_text u.email_index (email_index schema normalised) && u.is_active)
        (users_in schema p))

  unfoldable pub find_login_targets : String → Platform → List LoginTarget
  find_login_targets email p =
      let normalised = normalise email in
      if is_empty_text normalised
      then []
      else owner_at public none (find_user_pk p normalised public)
        ++ targets_in (find_user_pk p normalised) (live_churches p)

unfoldable pub passkey_owner : Platform → String → String → Option ℕ
passkey_owner p credential schema = owner_of (
    find (λ (k : Passkey). same_text k.credential_id credential && k.is_active)
      (passkeys_in schema p))

abbrev pub found_or : String → Option TenantRow → Option ℕ → Option LoginTarget → Option LoginTarget
found_or name tenant none later = later
found_or name tenant (some pk) later =
    some (record { schema_name = name; tenant = tenant; user_pk = pk })

-- The first church that has an owner.
abbrev pub first_in : (String → Option ℕ) → List TenantRow → Option LoginTarget
first_in owner [] = none
first_in owner (c ∷ rest) =
    found_or c.schema_name (some c) (owner c.schema_name) (first_in owner rest)

unfoldable pub find_passkey_target : String → Platform → Option LoginTarget
find_passkey_target credential p =
    if is_empty_text credential
    then none
    else found_or public none (passkey_owner p credential public)
        (first_in (passkey_owner p credential) (live_churches p))
