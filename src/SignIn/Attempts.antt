-- ===== src/SignIn/Attempts.antt =====
-- What an attempt to sign in with a passkey does to the challenges that a session has open.
use risk_management.Common.{
  ℕ, suc, ◌≡◌, ◌≤◌, refl, ◌∙◌, inl, inr, true, false, Option, none, some, List, [], ◌∷◌, map,
  String, ◌==◌, ==_refl, arith, Bool-cases, some_inj, is_some, length, select, find,
}
use text.Mathlib.Text.{◌==◌ as same_text}
use risk_management.SignIn.{Passkey, WebAuthnChallenge, Schema, Platform, table}
use risk_management.SignIn.Ceremony.{
  challenges_in, challenge_is_usable, alter_each, consume_one, consuming, consume_challenge, awaits,
  passkey_for, touching, counted, asserted, answered, attempted, finish_authentication,
}

-- How many challenges of the session can still be answered.
abbrev pub open_for : String → List WebAuthnChallenge → ℕ
open_for session challenges = length (select (awaits session) challenges)

abbrev pub challenges_of : String → List Schema → List WebAuthnChallenge
challenges_of name schemas =
    table (λ s. s.challenges) (find (λ (s : Schema). same_text s.name name) schemas)

pub challenges_of-consuming :
    (name : String) (k now : ℕ) (schemas : List Schema)
    → challenges_of name (alter_each name (consuming k now) schemas)
      ≡ map (consume_one k now) (challenges_of name schemas)
challenges_of-consuming name k now [] = refl
challenges_of-consuming name k now (s ∷ schemas) = elim (Bool-cases (same_text s.name name)) [
  | inl e ↦ rw (e, e) refl
  | inr e ↦ rw (e, e) (challenges_of-consuming name k now schemas)
]

challenges_of-touching :
    (name other : String) (k now count : ℕ) (schemas : List Schema)
    → challenges_of name (alter_each other (touching k now count) schemas)
      ≡ challenges_of name schemas
challenges_of-touching name other k now count [] = refl
challenges_of-touching name other k now count (s ∷ schemas) =
    elim (Bool-cases (same_text s.name other)) [
      | inl o ↦ elim (Bool-cases (same_text s.name name)) [
        | inl e ↦ rw (o, e) refl
        | inr e ↦ rw (o, e) (challenges_of-touching name other k now count schemas)
      ]
      | inr o ↦ elim (Bool-cases (same_text s.name name)) [
        | inl e ↦ rw (o, e) refl
        | inr e ↦ rw (o, e) (challenges_of-touching name other k now count schemas)
      ]
    ]

consumed_awaits_not :
    (session : String) (now : ℕ) (c : WebAuthnChallenge)
    → awaits session (record c { consumed_at = some now }) ≡ false
consumed_awaits_not session now c = ground arith

pub open_for-consume_one :
    (session : String) (k now : ℕ) (cs : List WebAuthnChallenge)
    → open_for session (map (consume_one k now) cs) ≤ open_for session cs
open_for-consume_one session k now [] = omega arith
open_for-consume_one session k now (c ∷ cs) =
    let rest = open_for-consume_one session k now cs in
    elim (Bool-cases (c.pk == k)) [
      | inl q ↦ rw (q, consumed_awaits_not session now c) (ground (arith, rest))
      | inr q ↦ rw q (ground (arith, rest))
    ]

open_for-consumed :
    (session : String) (now : ℕ) (cs : List WebAuthnChallenge) (c : WebAuthnChallenge)
    → find (awaits session) cs ≡ some c
    → suc (open_for session (map (consume_one c.pk now) cs)) ≤ open_for session cs
open_for-consumed session now [] c h = cc
open_for-consumed session now (x ∷ cs) c h = elim (Bool-cases (awaits session x)) [
  | inl e ↦
      let same : x ≡ c = some_inj (rw e at h) in
      let key : (x.pk == c.pk) ≡ true = rw same (==_refl c.pk) in
      rw (key, consumed_awaits_not session now x, e)
        (omega (arith, open_for-consume_one session c.pk now cs))
  | inr e ↦
      let rest = open_for-consumed session now cs c (rw e at h) in
      elim (Bool-cases (x.pk == c.pk)) [
        | inl q ↦ rw (q, consumed_awaits_not session now x, e) rest
        | inr q ↦ rw (q, e) rest
      ]
]

module _ (credential_id_of : String → Option String)
    (verify_assertion : String → String → String → ℕ → Option ℕ) where
  pub answered-challenges :
      (now : ℕ) (name bound answer : String) (c : WebAuthnChallenge) (id : Option String)
      (p : Platform)
      → challenges_in name (answered credential_id_of verify_assertion now bound answer c id p).0
        ≡ challenges_in name p
  answered-challenges now name bound answer c none p = refl
  answered-challenges now name bound answer c (some id) p = found (passkey_for bound id p)
    where
      spent :
          (schema : String) (k : Passkey) (o : Option ℕ)
          → challenges_in name (counted credential_id_of verify_assertion now schema k o p).0
            ≡ challenges_in name p
      spent schema k none = refl
      spent schema k (some count) = challenges_of-touching name schema k.pk now count p.schemas

      found :
          (o : Option (String × Passkey))
          → challenges_in name (asserted credential_id_of verify_assertion now bound answer c o p).0
            ≡ challenges_in name p
      found none = refl
      found (some (schema, k)) =
          spent schema k (verify_assertion answer c.challenge k.public_key k.sign_count)

  -- A sign-in with a passkey spends a challenge of its session.
  pub finish_authentication_spends :
      (now : ℕ) (bound session answer : String) (p : Platform)
      → is_some
          (finish_authentication credential_id_of verify_assertion now bound session answer p).2
        ≡ true
      → let after =
          (finish_authentication credential_id_of verify_assertion now bound session answer p).0 in
        suc (open_for session (challenges_in bound after))
        ≤ open_for session (challenges_in bound p)
  unfolding finish_authentication consume_challenge
  finish_authentication_spends now bound session answer p h =
      spends (find (awaits session) (challenges_in bound p)) refl h
    where
      spends :
          (o : Option WebAuthnChallenge)
          → find (awaits session) (challenges_in bound p) ≡ o
          → is_some (attempted credential_id_of verify_assertion now bound answer o p).2 ≡ true
          → suc (
              open_for session (
                challenges_in bound
                  (attempted credential_id_of verify_assertion now bound answer o p).0))
            ≤ open_for session (challenges_in bound p)
      spends none e h = cc
      spends (some c) e h = elim (Bool-cases (challenge_is_usable now c)) [
        | inr bad ↦ (let t : false ≡ true = rw bad at h in cc)
        | inl good ↦
            let q = consume_challenge bound c.pk now p in
            let same : challenges_in bound
                  (answered credential_id_of verify_assertion now bound answer c
                    (credential_id_of answer) q).0
                ≡ map (consume_one c.pk now) (challenges_in bound p) =
              answered-challenges now bound bound answer c (credential_id_of answer) q
              ∙ challenges_of-consuming bound c.pk now p.schemas in
            rw (good, same) (open_for-consumed session now (challenges_in bound p) c e)
      ]
