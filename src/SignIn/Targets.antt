-- ===== src/SignIn/Targets.antt =====
-- The schemas that an address, or a passkey, opens.
use risk_management.Common.{
  ℕ, ◌≡◌, ◌↔◌, ◌⊎◌, refl, subst, inl, inr, true, false, not, ◌&&◌, Option, none, some, List, [],
  ◌∷◌, ◌++◌, String, Option-cases, Elem, Elem-of-append, Elem-append_left, Elem-append_right,
  Elem-select, some_inj, no_value, find, find-Elem, find-some, and_true, ap, sym, ◌∙◌, Bool,
}
use text.Mathlib.Text.{◌==◌ as same_text}
use text.Mathlib.TextEquality.{eq_iff}
use risk_management.SignIn.{
  TenantRow, Platform, LoginTarget, Account, users_in, email_index, public, is_empty_text, owner_at,
  targets_in, first_in, live_churches, find_user_pk, find_login_targets, passkey_owner,
  find_passkey_target,
}

abbrev target : String → Option TenantRow → ℕ → LoginTarget
target name tenant pk = record { schema_name = name; tenant = tenant; user_pk = pk }

Elem-owner_at :
    (t : LoginTarget) (name : String) (tenant : Option TenantRow) (o : Option ℕ)
    → Elem t (owner_at name tenant o) ↔ ((pk : ℕ) × (o ≡ some pk) × (t ≡ target name tenant pk))
Elem-owner_at t name tenant none = (λ h. absurd h, λ h. cc)
Elem-owner_at t name tenant (some k) = (
  λ h. elim h [ inl e ↦ (k, refl, e) | inr none_left ↦ absurd none_left ],
  λ h. let (pk, e, q) = h in inl (rw (some_inj e) q),
)

abbrev In : (String → Option ℕ) → List TenantRow → LoginTarget → Type 0
In owner churches t =
    (c : TenantRow) × Elem c churches
    × ((pk : ℕ) × (owner c.schema_name ≡ some pk) × (t ≡ target c.schema_name (some c) pk))

Elem-targets_in :
    (owner : String → Option ℕ) (churches : List TenantRow) (t : LoginTarget)
    → Elem t (targets_in owner churches) ↔ In owner churches t
Elem-targets_in owner [] t = (λ h. absurd h, λ h. absurd h.1)
Elem-targets_in owner (c ∷ rest) t =
    let (to, from) = Elem-targets_in owner rest t in
    let (down, up) = Elem-owner_at t c.schema_name (some c) (owner c.schema_name) in
    (
      λ h.
          elim (Elem-of-append t (owner_at c.schema_name (some c) (owner c.schema_name))
            (targets_in owner rest) h) [
              | inl m ↦ (c, inl refl, down m)
              | inr m ↦ (let (d, n, found) = to m in (d, inr n, found))
            ],
      λ h.
          let (d, n, found) = h in
          elim n [
            | inl same ↦
                Elem-append_left t (owner_at c.schema_name (some c) (owner c.schema_name))
                  (targets_in owner rest)
                  (up (
                    subst
                      (λ (x : TenantRow).
                        (pk : ℕ) × (owner x.schema_name ≡ some pk)
                        × (t ≡ target x.schema_name (some x) pk))
                      same found))
            | inr later ↦
                Elem-append_right t (owner_at c.schema_name (some c) (owner c.schema_name))
                  (targets_in owner rest) (from (d, later, found))
          ],
    )

-- The owner is the public schema's, or that of a live church.
abbrev OwnedAt : (String → Option ℕ) → Platform → LoginTarget → Type 0
OwnedAt owner p t =
    ((pk : ℕ) × (owner public ≡ some pk) × (t ≡ target public none pk))
    ⊎ ((c : TenantRow) × (Elem c p.churches
          × ((c.is_active && not (same_text c.schema_name public)) ≡ true))
        × ((pk : ℕ) × (owner c.schema_name ≡ some pk) × (t ≡ target c.schema_name (some c) pk)))

In-live_churches :
    (owner : String → Option ℕ) (p : Platform) (t : LoginTarget)
    → In owner (live_churches p) t ↔ (
        (c : TenantRow) × (Elem c p.churches
          × ((c.is_active && not (same_text c.schema_name public)) ≡ true))
        × ((pk : ℕ) × (owner c.schema_name ≡ some pk) × (t ≡ target c.schema_name (some c) pk)))
In-live_churches owner p t =
    let live = λ (c : TenantRow). c.is_active && not (same_text c.schema_name public) in
    (
      λ h. let (c, m, found) = h in (c, (Elem-select c live p.churches).0 m, found),
      λ h. let (c, m, found) = h in (c, (Elem-select c live p.churches).1 m, found),
    )

Elem-all_targets :
    (owner : String → Option ℕ) (p : Platform) (t : LoginTarget)
    → Elem t (owner_at public none (owner public) ++ targets_in owner (live_churches p))
      ↔ OwnedAt owner p t
Elem-all_targets owner p t =
    let here = owner_at public none (owner public) in
    let there = targets_in owner (live_churches p) in
    let (down, up) = Elem-owner_at t public none (owner public) in
    let (to, from) = Elem-targets_in owner (live_churches p) t in
    let (out, back) = In-live_churches owner p t in
    (
      λ h. elim (Elem-of-append t here there h) [ inl m ↦ inl (down m) | inr m ↦ inr (out (to m)) ],
      λ h. elim h [
        | inl m ↦ Elem-append_left t here there (up m)
        | inr m ↦ Elem-append_right t here there (from (back m))
      ],
    )

module _ (normalise : String → String) (blind_index : String → String → String) (p : Platform)
    (email : String) where
  -- The account is active, and its index in the schema is that of the address.
  abbrev pub HasAddress : String → ℕ → Type 0
  HasAddress schema pk =
      (u : Account) × Elem u (users_in schema p)
      × (u.email_index ≡ email_index normalise blind_index schema (normalise email))
      × (u.is_active ≡ true)
      × (u.pk ≡ pk)

  -- The column is unique in each schema.
  abbrev pub OneIndex : Type 0
  OneIndex =
      (schema : String) (u v : Account)
      → Elem u (users_in schema p)
      → Elem v (users_in schema p)
      → u.email_index ≡ v.email_index
      → u.pk ≡ v.pk

  -- The account is one of the public schema, or of a live church, and has the address there.
  abbrev pub OpensAt : LoginTarget → Type 0
  OpensAt t =
      ((pk : ℕ) × HasAddress public pk × (t ≡ target public none pk))
      ⊎ ((c : TenantRow) × (Elem c p.churches
            × ((c.is_active && not (same_text c.schema_name public)) ≡ true))
          × ((pk : ℕ) × HasAddress c.schema_name pk × (t ≡ target c.schema_name (some c) pk)))

  abbrev answers : String → Account → Bool
  answers schema u =
      same_text u.email_index (email_index normalise blind_index schema (normalise email))
      && u.is_active

  answers-HasAddress :
      (schema : String) (u : Account)
      → Elem u (users_in schema p)
      → answers schema u ≡ true
      → HasAddress schema u.pk
  answers-HasAddress schema u m h =
      let (same, active) = and_true _ _ h in (u, m, (eq_iff _ _).0 same, active, refl)

  find_user_pk-HasAddress :
      (schema : String) (pk : ℕ)
      → find_user_pk normalise blind_index p (normalise email) schema ≡ some pk
      → HasAddress schema pk
  unfolding find_user_pk
  find_user_pk-HasAddress schema pk h =
      elim (Option-cases (find (answers schema) (users_in schema p))) [
        | inl n ↦ absurd (no_value (rw n at h))
        | inr (u, e) ↦
            let (m, right) = find-Elem (answers schema) (users_in schema p) u e in
            subst (HasAddress schema) (some_inj (rw e at h)) (answers-HasAddress schema u m right)
      ]

  module _ (one_index : OneIndex) where
    HasAddress-find_user_pk :
        (schema : String) (pk : ℕ)
        → HasAddress schema pk
        → find_user_pk normalise blind_index p (normalise email) schema ≡ some pk
    unfolding find_user_pk
    HasAddress-find_user_pk schema pk (u, m, index, active, key) =
        let right_row : answers schema u ≡ true = rw ((eq_iff _ _).1 index, active) refl in
        let (v, found) = find-some (answers schema) (users_in schema p) u m right_row in
        let (n, right) = find-Elem (answers schema) (users_in schema p) v found in
        let same = (eq_iff _ _).0 (and_true _ _ right).0 in
        rw found (ap some (one_index schema v u n m (same ∙ sym index) ∙ key))

    -- For an address that is not blank, the search finds the active accounts that have it in the
    -- public schema and in every live church, and nothing else, where no two accounts of a schema
    -- share an index.
    pub find_login_targets-OpensAt :
        (t : LoginTarget)
        → is_empty_text (normalise email) ≡ false
        → Elem t (find_login_targets normalise blind_index email p) ↔ OpensAt t
    unfolding find_login_targets
    find_login_targets-OpensAt t some_text =
        let (to, from) =
          Elem-all_targets (find_user_pk normalise blind_index p (normalise email)) p t in
        (
          λ m. elim (to (rw some_text at m)) [
            | inl (pk, owns, same) ↦ inl (pk, find_user_pk-HasAddress public pk owns, same)
            | inr (c, live, (pk, owns, same)) ↦
                inr (c, live, (pk, find_user_pk-HasAddress c.schema_name pk owns, same))
          ],
          λ o. rw some_text (
              from (elim o [
                | inl (pk, has, same) ↦ inl (pk, HasAddress-find_user_pk public pk has, same)
                | inr (c, live, (pk, has, same)) ↦
                    inr (c, live, (pk, HasAddress-find_user_pk c.schema_name pk has, same))
              ])),
        )

abbrev pub first : List LoginTarget → Option LoginTarget
first [] = none
first (t ∷ rest) = some t

first_in-targets_in :
    (owner : String → Option ℕ) (churches : List TenantRow)
    → first_in owner churches ≡ first (targets_in owner churches)
first_in-targets_in owner [] = refl
first_in-targets_in owner (c ∷ rest) = elim (Option-cases (owner c.schema_name)) [
  | inl n ↦ rw n (first_in-targets_in owner rest)
  | inr (pk, e) ↦ rw e refl
]

-- The search for a passkey, which stops at the first schema that has it, finds the first of all the
-- schemas that have it, the public one before the churches.
pub find_passkey_target-first :
    (credential : String) (p : Platform)
    → is_empty_text credential ≡ false
    → find_passkey_target credential p
      ≡ first (
          owner_at public none (passkey_owner p credential public)
          ++ targets_in (passkey_owner p credential) (live_churches p))
unfolding find_passkey_target
find_passkey_target-first credential p some_text =
    elim (Option-cases (passkey_owner p credential public)) [
      | inl n ↦
          rw (some_text, n) (first_in-targets_in (passkey_owner p credential) (live_churches p))
      | inr (pk, e) ↦ rw (some_text, e) refl
    ]
