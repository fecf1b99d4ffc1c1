-- ===== src/SignIn/Sessions.antt =====
-- How often a session signs in with a passkey, over a series of requests to
-- apps/accounts/webauthn_service.py from any number of sessions of one schema.
use risk_management.Common.{
  ℕ, ◌+◌, ◌≤◌, sym, ◌∙◌, subst, inl, inr, Bool, true, false, ◌&&◌, Option, none, some, List, [],
  ◌∷◌, String, arith, Bool-cases, is_some, select, find,
}
use text.Mathlib.Text.{◌==◌ as same_text}
use text.Mathlib.TextEquality.{eq_iff}
use risk_management.SignIn.{WebAuthnChallenge, Schema, Platform, authenticate}
use risk_management.SignIn.Ceremony.{
  challenges_in, challenge_is_usable, alter_each, consume_challenge, awaits, attempted, prune,
  finish_authentication, begin_authentication,
}
use risk_management.SignIn.Attempts.{
  open_for, challenges_of, challenges_of-consuming, open_for-consume_one, answered-challenges,
  finish_authentication_spends,
}

-- A session draws a challenge, or sends an answer.
pub data PasskeyRequest : Type 0 where
  drawing : ℕ → String → String → PasskeyRequest
  answering : ℕ → String → String → PasskeyRequest

abbrev one_if : Bool → ℕ
one_if true = 1
one_if false = 0

open_for-select :
    (session : String) (q : WebAuthnChallenge → Bool) (cs : List WebAuthnChallenge)
    → open_for session (select q cs) ≤ open_for session cs
open_for-select session q [] = omega arith
open_for-select session q (c ∷ cs) =
    let rest = open_for-select session q cs in
    elim (Bool-cases (q c)) [
      | inl e ↦ rw e (ground (arith, rest))
      | inr e ↦ rw e (ground (arith, rest))
    ]

module _ (bound session : String) where
  drawn_for :
      (now : ℕ) (c : WebAuthnChallenge) (schemas : List Schema)
      → open_for session (
          challenges_of bound
            (alter_each bound (λ s. record s { challenges = c ∷ prune now s.challenges }) schemas))
        ≤ one_if (awaits session c) + open_for session (challenges_of bound schemas)
  drawn_for now c [] = omega arith
  drawn_for now c (s ∷ schemas) = elim (Bool-cases (same_text s.name bound)) [
    | inl e ↦
        rw (e, e)
          (let pruned : open_for session (prune now s.challenges) ≤ open_for session s.challenges =
              open_for-select session _ s.challenges in
            elim (Bool-cases (awaits session c)) [
              | inl a ↦ rw a (ground (arith, pruned))
              | inr a ↦ rw a (ground (arith, pruned))
            ])
    | inr e ↦ rw (e, e) (drawn_for now c schemas)
  ]

  begin_authentication_draws :
      (now : ℕ) (drawn by : String) (p : Platform)
      → open_for session (challenges_in bound (begin_authentication now bound drawn by p))
        ≤ one_if (same_text by session) + open_for session (challenges_in bound p)
  unfolding begin_authentication
  begin_authentication_draws now drawn by p =
      let c : WebAuthnChallenge = record {
        pk = p.next_pk;
        challenge = drawn;
        purpose = authenticate;
        user_id = none;
        session_key = by;
        created_at = now;
        consumed_at = none;
      } in
      let bounded = drawn_for now c p.schemas in
      elim (Bool-cases (same_text by session)) [
        | inl e ↦ rw e (rw e at bounded)
        | inr e ↦ rw e (rw e at bounded)
      ]

  module _ (credential_id_of : String → Option String)
      (verify_assertion : String → String → String → ℕ → Option ℕ) where
    -- An answer of any session opens no challenge.
    finish_authentication_opens_none :
        (now : ℕ) (by answer : String) (p : Platform)
        → open_for session (
            challenges_in bound
              (finish_authentication credential_id_of verify_assertion now bound by answer p).0)
          ≤ open_for session (challenges_in bound p)
    unfolding finish_authentication consume_challenge
    finish_authentication_opens_none now by answer p = of (find (awaits by) (challenges_in bound p))
      where
        of :
            (o : Option WebAuthnChallenge)
            → open_for session (
                challenges_in bound
                  (attempted credential_id_of verify_assertion now bound answer o p).0)
              ≤ open_for session (challenges_in bound p)
        of none = omega arith
        of (some c) = elim (Bool-cases (challenge_is_usable now c)) [
          | inr bad ↦ rw bad (omega arith)
          | inl good ↦
              let q = consume_challenge bound c.pk now p in
              let same =
                answered-challenges credential_id_of verify_assertion now bound bound answer c
                  (credential_id_of answer) q
                ∙ challenges_of-consuming bound c.pk now p.schemas in
              rw (good, same) (open_for-consume_one session c.pk now (challenges_in bound p))
        ]

    -- The platform after the request.
    unfoldable pub requested : PasskeyRequest → Platform → Platform
    unfolding begin_authentication finish_authentication
    requested (drawing now drawn by) p = begin_authentication now bound drawn by p
    requested (answering now by answer) p =
        (finish_authentication credential_id_of verify_assertion now bound by answer p).0

    -- Whether it is an answer of the session that signs somebody in.
    unfoldable pub signs_in : PasskeyRequest → Platform → Bool
    unfolding finish_authentication
    signs_in (drawing now drawn by) p = false
    signs_in (answering now by answer) p =
        same_text by session
        && is_some (finish_authentication credential_id_of verify_assertion now bound by answer p).2

    -- How often the session signs in, and how often it draws.
    unfoldable pub sign_ins : List PasskeyRequest → Platform → ℕ
    unfolding requested signs_in
    sign_ins [] p = 0
    sign_ins (r ∷ later) p = one_if (signs_in r p) + sign_ins later (requested r p)

    abbrev pub draws : List PasskeyRequest → ℕ
    draws [] = 0
    draws (drawing now drawn by ∷ later) = one_if (same_text by session) + draws later
    draws (answering now by answer ∷ later) = draws later

    answer_spends :
        (now : ℕ) (by answer : String) (p : Platform)
        → one_if (signs_in (answering now by answer) p)
            + open_for session (challenges_in bound (requested (answering now by answer) p))
          ≤ open_for session (challenges_in bound p)
    unfolding requested signs_in
    answer_spends now by answer p =
        let Spent : String → Type 0 = λ x.
          one_if (
              is_some
                (finish_authentication credential_id_of verify_assertion now bound x answer p).2)
            + open_for session (
                challenges_in bound
                  (finish_authentication credential_id_of verify_assertion now bound x answer p).0)
          ≤ open_for session (challenges_in bound p) in
        let own : Spent session =
          elim (Bool-cases (
            is_some
              (finish_authentication credential_id_of verify_assertion now bound session answer
                p).2)) [
                  | inl e ↦ rw e (
                      omega (
                        arith,
                        finish_authentication_spends credential_id_of verify_assertion now bound
                            session answer p e,
                      ))
                  | inr e ↦
                      rw e (omega (arith, finish_authentication_opens_none now session answer p))
                ] in
        elim (Bool-cases (same_text by session)) [
          | inr e ↦ rw e (omega (arith, finish_authentication_opens_none now by answer p))
          | inl e ↦ rw e (subst Spent (sym ((eq_iff by session).0 e)) own)
        ]

    -- Over a series of challenges drawn and answers sent for signing in, by any sessions of one
    -- schema, in any order and at any times, a session signs in with a passkey at most as often
    -- as it has drawn challenges, plus those it had open at the start, whatever the browsers
    -- answer.
    pub sign_ins-draws :
        (rs : List PasskeyRequest) (p : Platform)
        → sign_ins rs p ≤ draws rs + open_for session (challenges_in bound p)
    unfolding sign_ins
    sign_ins-draws [] p = omega arith
    sign_ins-draws (drawing now drawn by ∷ rs) p =
        let rest = sign_ins-draws rs (begin_authentication now bound drawn by p) in
        omega (arith, rest, begin_authentication_draws now drawn by p)
    sign_ins-draws (answering now by answer ∷ rs) p =
        let rest = sign_ins-draws rs (requested (answering now by answer) p) in
        omega (arith, rest, answer_spends now by answer p)
