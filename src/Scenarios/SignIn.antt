-- ===== src/Scenarios/SignIn.antt =====
-- Applications of the theorems on sign-in, with a signer that writes a payload out and never lets one
-- expire, and a hash that changes nothing.
use Prim.Native.Char.{Char, char, code}
use Prim.Native.String.{◌++◌ as joined}
use risk_management.Common.{
  ◌≡◌, ◌<◌, ◌↔◌, ◌⊎◌, refl, arith, true, Option, none, some, List, [], ◌∷◌, String, ◌==◌,
  if◌then◌else◌, Elem, some_inj,
}
use risk_management.SignIn.{
  recovery, LoginLink, Account, Passkey, Schema, TenantRow, Platform, LoginTarget, public,
  resolve_tenant, is_usable, is_expired, users_in, find_login_targets,
}
use risk_management.SignIn.Links.{
  Payload, Signer, SignerIsSound, Lifetimes, lifetime, max_age, bind, accepted, issue_link,
  verify_payload, verify_link, consume_link, link_issued_in,
}
use risk_management.Common.{ℕ, ◌≤◌, ◌+◌, ◌∙◌, sym, Bool-cases, inl, inr}
use text.Mathlib.Text.{◌==◌ as same_text}
use risk_management.SignIn.{WebAuthnChallenge, authenticate}
use risk_management.SignIn.Ceremony.{challenges_in}
use risk_management.SignIn.Attempts.{open_for}
use risk_management.SignIn.Sessions.{
  PasskeyRequest, drawing, answering, sign_ins, draws, sign_ins-draws,
}
use risk_management.SignIn.Events.{Event, run}
use risk_management.SignIn.Accepted.{verify_link_lets_in}
use risk_management.SignIn.Once.{consume_link_once}
use risk_management.SignIn.Issued.{issue_link-verify_link}
use risk_management.SignIn.Targets.{find_login_targets-OpensAt, OpensAt, OneIndex}

-- Each character of the schema behind a mark, then a stop, then the token.
abbrev written : String → String → String
written String.[] token = String.◌∷◌ (char 46 tt) token
written (String.◌∷◌ c s) token = String.◌∷◌ (char 45 tt) (String.◌∷◌ c (written s token))

abbrev with_char : Char → Option Payload → Option Payload
with_char c none = none
with_char c (some p) = some (record p { schema = String.◌∷◌ c p.schema })

abbrev read_back : String → Option Payload
read_back String.[] = none
read_back (String.◌∷◌ m String.[]) =
    if code m == 46 then some (record { schema = ""; token = "" }) else none
read_back (String.◌∷◌ m (String.◌∷◌ c rest)) =
    let more = with_char c (read_back rest) in
    if code m == 46 then some (record { schema = ""; token = String.◌∷◌ c rest }) else more

read_back-written :
    (s t : String) → read_back (written s t) ≡ some (record { schema = s; token = t })
read_back-written String.[] String.[] = refl
read_back-written String.[] (String.◌∷◌ c t) = refl
read_back-written (String.◌∷◌ c s) t = rw (read_back-written s t) refl

abbrev signer : Signer
signer = record { dumps = λ at p. written p.schema p.token; loads = λ now age text. read_back text }

signer-SignerIsSound : SignerIsSound signer
signer-SignerIsSound = record {
  loads_dumped = λ at now age p early. read_back-written p.schema p.token;
  loads_agree = λ now now' age age' text p q e f. some_inj (cc);
}

abbrev same_hash : String → String
same_hash s = s

abbrev lifetimes : Lifetimes
lifetimes = record { recovery_minutes = 30; invite_days = 7 }

abbrev grace : TenantRow
grace = record { schema_name = "grace"; is_active = true }

abbrev lee : Account
lee = record { pk = 5; email_index = "grace:lee@example.org"; is_active = true }

abbrev lee_link : LoginLink
lee_link = record {
  pk = 1;
  user_id = 5;
  token_hash = "s3cret";
  purpose = recovery;
  issued_by = none;
  expires_at = 2800;
  consumed_at = none;
}

abbrev lee_key : Passkey
lee_key = record {
  pk = 3;
  user_id = 5;
  credential_id = "cred";
  public_key = "public key";
  sign_count = 0;
  is_active = true;
  last_used_at = none;
}

abbrev schemas_with : List LoginLink → List Schema
schemas_with links =
    record { name = "public"; users = []; links = []; passkeys = []; challenges = []; trail = [] }
    ∷ record {
      name = "grace";
      users = lee ∷ [];
      links = links;
      passkeys = lee_key ∷ [];
      challenges = [];
      trail = [];
    }
    ∷ []

abbrev platform : Platform
platform = record { churches = grace ∷ []; schemas = schemas_with []; next_pk = 1 }

abbrev with_lee_link : Platform
with_lee_link = record platform { schemas = schemas_with (lee_link ∷ []); next_pk = 2 }

abbrev url : String
url = written "grace" "s3cret"

verify_link_lets_in_example :
    (("grace" ≡ public)
      ⊎ ((c : TenantRow) × Elem c (grace ∷ []) × (c.schema_name ≡ "grace") × (c.is_active ≡ true)))
    × (Elem lee_link (lee_link ∷ []) × (lee_link.consumed_at ≡ none) × (1100 < 2800))
    × (Elem lee (lee ∷ []) × (lee.pk ≡ lee_link.user_id) × (lee.is_active ≡ true))
unfolding verify_link verify_payload bind resolve_tenant accepted is_usable is_expired
verify_link_lets_in_example =
    verify_link_lets_in signer same_hash lifetimes 1100 "public" url "grace" with_lee_link lee
      lee_link refl

abbrev next_events : List (Event signer same_hash lifetimes)
next_events = Event.spending 1300 "public" url ∷ Event.users_changed "grace" (lee ∷ []) ∷ []

consume_link_once_example :
    (verify_link signer same_hash lifetimes 1400 "public" url (
      run signer same_hash lifetimes next_events
        (consume_link signer same_hash lifetimes 1200 "public" url with_lee_link).0)).1
    ≡ none
unfolding consume_link verify_link verify_payload bind resolve_tenant accepted is_usable is_expired
consume_link_once_example =
    consume_link_once signer same_hash lifetimes signer-SignerIsSound 1200 "public" url
      with_lee_link refl next_events 1400 "public"

abbrev freshly_issued : Option (Platform × String)
freshly_issued =
    issue_link signer same_hash lifetimes 1000 "grace" (some 2) "s3cret" lee recovery none platform

abbrev after_issue : Platform
after_issue = record platform {
  schemas =
      record { name = "public"; users = []; links = []; passkeys = []; challenges = []; trail = [] }
      ∷ record {
        name = "grace";
        users = lee ∷ [];
        links = lee_link ∷ [];
        passkeys = lee_key ∷ [];
        challenges = [];
        trail = link_issued_in "grace" (some 2) 5;
      }
      ∷ [];
  next_pk = 2;
}

issue_link-verify_link_example :
    (l : LoginLink) × (verify_link signer same_hash lifetimes 1100 "public" url after_issue
      ≡ ("grace", some (lee, l)))
    × (l.purpose ≡ recovery)
unfolding issue_link bind resolve_tenant lifetime max_age
issue_link-verify_link_example =
    issue_link-verify_link signer same_hash lifetimes signer-SignerIsSound 1000 "grace" (some 2)
      "s3cret" lee recovery none platform after_issue url refl refl refl refl refl (omega arith)
      1100 (omega arith) "public"

abbrev lowered : String → String
lowered s = s

abbrev index_in : String → String → String
index_in schema email = joined schema (joined ":" email)

abbrev lee_target : LoginTarget
lee_target = record { schema_name = "grace"; tenant = some grace; user_pk = 5 }

-- Of each schema's accounts there is one at most.
one_account : (schema : String) (u : Account) → Elem u (users_in schema platform) → u.pk ≡ 5
one_account schema u m = elim (Bool-cases (same_text "public" schema)) [
  | inl e ↦ absurd (rw e at m)
  | inr e ↦ elim (Bool-cases (same_text "grace" schema)) [
    | inl g ↦ elim (rw (e, g) at m) [ inl same ↦ rw same refl | inr never ↦ absurd never ]
    | inr g ↦ absurd (rw (e, g) at m)
  ]
]

platform-OneIndex : OneIndex lowered index_in platform "lee@example.org"
platform-OneIndex schema u v m n same = one_account schema u m ∙ sym (one_account schema v n)

find_login_targets-OpensAt_example :
    Elem lee_target (find_login_targets lowered index_in "lee@example.org" platform)
    ↔ OpensAt lowered index_in platform "lee@example.org" lee_target
find_login_targets-OpensAt_example =
    find_login_targets-OpensAt lowered index_in platform "lee@example.org" platform-OneIndex
      lee_target refl

abbrev drawn : WebAuthnChallenge
drawn = record {
  pk = 9;
  challenge = "draw";
  purpose = authenticate;
  user_id = none;
  session_key = "s1";
  created_at = 1000;
  consumed_at = none;
}

-- The visitor starts in the public schema, and the passkey is a church's.
abbrev awaiting : Platform
awaiting = record platform {
  schemas =
      record {
        name = "public";
        users = [];
        links = [];
        passkeys = [];
        challenges = drawn ∷ [];
        trail = [];
      }
      ∷ record {
        name = "grace";
        users = lee ∷ [];
        links = [];
        passkeys = lee_key ∷ [];
        challenges = [];
        trail = [];
      }
      ∷ [];
}

abbrev echo : String → Option String
echo answer = some answer

abbrev always_verified : String → String → String → ℕ → Option ℕ
always_verified answer challenge key count = some 1

-- A session draws, another one answers, and the first answers twice.
abbrev attempts : List PasskeyRequest
attempts =
    drawing 1050 "draw again" "s1"
    ∷ answering 1060 "s2" "cred"
    ∷ answering 1100 "s1" "cred"
    ∷ answering 1110 "s1" "cred"
    ∷ []

sign_ins-draws_example :
    sign_ins "public" "s1" echo always_verified attempts awaiting
    ≤ draws "public" "s1" echo always_verified attempts
      + open_for "s1" (challenges_in "public" awaiting)
sign_ins-draws_example = sign_ins-draws "public" "s1" echo always_verified attempts awaiting
