-- ===== src/SignIn/Ceremony.antt =====
-- apps/accounts/webauthn_service.py: registering a passkey and signing in with one. The two checks of
-- the WebAuthn library, the challenges that it draws, and the reading of the browser's answer are
-- arguments. The options that go to the browser are left out, but for the challenge in them.
use risk_management.Common.{
  ℕ, ◌+◌, Bool, true, false, not, ◌&&◌, Option, none, some, List, ◌∷◌, map, String, ◌==◌, ltb,
  same_id, is_none, if◌then◌else◌, find, any, select,
}
use text.Mathlib.Text.{◌==◌ as same_text}
use risk_management.SignIn.{
  Account, Passkey, WebAuthnChallenge, ChallengePurpose, register, authenticate, Schema, Platform,
  LoginTarget, public, table, schema_named, users_in, passkeys_in, find_passkey_target,
}

abbrev pub challenges_in : String → Platform → List WebAuthnChallenge
challenges_in name p = table (λ s. s.challenges) (schema_named name p)

-- `is_expired` and `is_usable` of a challenge
unfoldable pub challenge_is_usable : ℕ → WebAuthnChallenge → Bool
challenge_is_usable now c = is_none c.consumed_at && not (ltb (c.created_at + 300) now)

abbrev pub alter_each : String → (Schema → Schema) → List Schema → List Schema
alter_each name f schemas = map (λ (s : Schema). if same_text s.name name then f s else s) schemas

abbrev pub alter : String → (Schema → Schema) → Platform → Platform
alter name f p = record p { schemas = alter_each name f p.schemas }

abbrev pub consume_one : ℕ → ℕ → WebAuthnChallenge → WebAuthnChallenge
consume_one k now c = if c.pk == k then record c { consumed_at = some now } else c

abbrev pub consuming : ℕ → ℕ → Schema → Schema
consuming k now s = record s { challenges = map (consume_one k now) s.challenges }

-- `challenge.consume()` in the schema that it was written in
unfoldable pub consume_challenge : String → ℕ → ℕ → Platform → Platform
consume_challenge name k now p = alter name (consuming k now) p

-- `_prune_challenges`
abbrev pub prune : ℕ → List WebAuthnChallenge → List WebAuthnChallenge
prune now challenges =
    select (λ (c : WebAuthnChallenge). not (ltb (c.created_at + 600) now)) challenges

unfoldable pub begin_ceremony :
    ℕ → String → String → ChallengePurpose → Option ℕ → String → Platform → Platform
begin_ceremony now bound drawn purpose user session p =
    let challenge : WebAuthnChallenge = record {
      pk = p.next_pk;
      challenge = drawn;
      purpose = purpose;
      user_id = user;
      session_key = session;
      created_at = now;
      consumed_at = none;
    } in
    record (alter bound (λ s. record s { challenges = challenge ∷ prune now s.challenges }) p) {
      next_pk = p.next_pk + 1;
    }

-- `begin_registration`
unfoldable pub begin_registration : ℕ → String → String → Account → String → Platform → Platform
unfolding begin_ceremony
begin_registration now bound drawn user session p =
    begin_ceremony now bound drawn register (some user.pk) session p

-- `begin_authentication`, where the session has its key by then
unfoldable pub begin_authentication : ℕ → String → String → String → Platform → Platform
unfolding begin_ceremony
begin_authentication now bound drawn session p =
    begin_ceremony now bound drawn authenticate none session p

abbrev pub is_sign_in : ChallengePurpose → Bool
is_sign_in register = false
is_sign_in authenticate = true

-- The challenges that a sign-in from this session may still answer.
abbrev pub awaits : String → WebAuthnChallenge → Bool
awaits session c =
    is_sign_in c.purpose && (same_text c.session_key session && is_none c.consumed_at)

abbrev pub awaits_registration : ℕ → WebAuthnChallenge → Bool
awaits_registration user c =
    not (is_sign_in c.purpose) && (same_id c.user_id (some user) && is_none c.consumed_at)

abbrev pub passkey_at : String → List Passkey → Option Passkey
passkey_at id keys = find (λ (k : Passkey). same_text k.credential_id id && k.is_active) keys

abbrev pub in_church : String → Option LoginTarget → Platform → Option (String × Passkey)
in_church id none p = none
in_church id (some t) p =
    if is_none t.tenant then none else elim (passkey_at id (passkeys_in t.schema_name p)) [
      | none ↦ none
      | some k ↦ some (t.schema_name, k)
    ]

-- What the library says of a registration: the credential's name, its key and its count.
pub record Registered : Type 0 where
  pub credential_id : String
  pub public_key : String
  pub sign_count : ℕ

abbrev passkey_of : ℕ → Account → Registered → Passkey
passkey_of pk user r = record {
  pk = pk;
  user_id = user.pk;
  credential_id = r.credential_id;
  public_key = r.public_key;
  sign_count = r.sign_count;
  is_active = true;
  last_used_at = none;
}

-- The passkey is new, or a registered one is refused, an inactive one too.
abbrev pub stored : String → Account → Option Registered → Platform → Platform × Option Passkey
stored bound user none p = (p, none)
stored bound user (some r) p =
    if any (λ (k : Passkey). same_text k.credential_id r.credential_id) (passkeys_in bound p)
    then (p, none)
    else let k = passkey_of p.next_pk user r in
      (
        record (alter bound (λ s. record s { passkeys = k ∷ s.passkeys }) p) {
          next_pk = p.next_pk + 1;
        },
        some k,
      )

abbrev pub registered_with :
    (String → String → Option Registered)
    → ℕ
    → String
    → Account
    → String
    → Option WebAuthnChallenge
    → Platform
    → Platform × Option Passkey
registered_with verify now bound user answer none p = (p, none)
registered_with verify now bound user answer (some c) p =
    if not (challenge_is_usable now c)
    then (p, none)
    else stored bound user (verify answer c.challenge) (consume_challenge bound c.pk now p)

-- The platform after it, and the passkey unless it is refused. The label is left out.
unfoldable pub finish_registration :
    (String → String → Option Registered)
    → ℕ
    → String
    → Account
    → String
    → Platform
    → Platform × Option Passkey
finish_registration verify now bound user answer p =
    registered_with verify now bound user answer
      (find (awaits_registration user.pk) (challenges_in bound p)) p

-- The passkey and its schema: the local one, or from the public schema that of the church which owns
-- it (`_bind_schema_owning_passkey`).
unfoldable pub passkey_for : String → String → Platform → Option (String × Passkey)
passkey_for bound id p = elim (passkey_at id (passkeys_in bound p)) [
  | some k ↦ some (bound, k)
  | none ↦ (if same_text bound public then in_church id (find_passkey_target id p) p else none)
]

abbrev pub touched : ℕ → ℕ → ℕ → Passkey → Passkey
touched k now count x =
    if x.pk == k
    then record x {
      sign_count = if count == 0 then x.sign_count else count;
      last_used_at = some now;
    }
    else x

abbrev pub touching : ℕ → ℕ → ℕ → Schema → Schema
touching k now count s = record s { passkeys = map (touched k now count) s.passkeys }

abbrev pub active_user : Option Account → Option Account
active_user none = none
active_user (some u) = if u.is_active then some u else none

-- The platform after an attempt, the schema that the request is left in, and who signed in.
abbrev pub Attempt : Type 0
Attempt = Platform × String × Option Account

module _ (credential_id_of : String → Option String)
    (verify_assertion : String → String → String → ℕ → Option ℕ) where
  abbrev pub counted : ℕ → String → Passkey → Option ℕ → Platform → Attempt
  counted now schema k none p = (p, schema, none)
  counted now schema k (some count) p = (
    alter schema (touching k.pk now count) p,
    schema,
    active_user (find (λ (u : Account). u.pk == k.user_id) (users_in schema p)),
  )

  abbrev pub asserted :
      ℕ → String → String → WebAuthnChallenge → Option (String × Passkey) → Platform → Attempt
  asserted now bound answer c none p = (p, bound, none)
  asserted now bound answer c (some (schema, k)) p =
      counted now schema k (verify_assertion answer c.challenge k.public_key k.sign_count) p

  abbrev pub answered : ℕ → String → String → WebAuthnChallenge → Option String → Platform → Attempt
  answered now bound answer c none p = (p, bound, none)
  answered now bound answer c (some id) p = asserted now bound answer c (passkey_for bound id p) p

  abbrev pub attempted : ℕ → String → String → Option WebAuthnChallenge → Platform → Attempt
  attempted now bound answer none p = (p, bound, none)
  attempted now bound answer (some c) p =
      if not (challenge_is_usable now c)
      then (p, bound, none)
      else answered now bound answer c (credential_id_of answer)
          (consume_challenge bound c.pk now p)

  -- Spending a challenge changes no passkey, so it does not matter that it comes before the search.
  unfoldable pub finish_authentication : ℕ → String → String → String → Platform → Attempt
  finish_authentication now bound session answer p =
      attempted now bound answer (find (awaits session) (challenges_in bound p)) p

-- `remove_passkey`: none where the account has no such passkey.
abbrev pub switched_off : ℕ → Passkey → Passkey
switched_off k x = if x.pk == k then record x { is_active = false } else x

unfoldable pub remove_passkey : String → ℕ → ℕ → Platform → Option Platform
remove_passkey bound user k p =
    if any (λ (x : Passkey). (x.pk == k) && ((x.user_id == user) && x.is_active))
      (passkeys_in bound p)
    then some (alter bound (λ s. record s { passkeys = map (switched_off k) s.passkeys }) p)
    else none
