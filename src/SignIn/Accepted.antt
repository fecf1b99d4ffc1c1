-- ===== src/SignIn/Accepted.antt =====
-- What it takes for a sign-in link to be accepted.
use risk_management.Common.{
  ℕ, ap, ◌<◌, ◌==◌, ==_iff, ◌≡◌, refl, sym, subst, ◌∙◌, inl, inr, Bool, true, false, ◌&&◌, ◌||◌,
  Option, none, some, List, String, arith, Bool-cases, Option-cases, some_inj, no_value,
  if◌then◌else◌, find-Elem, Elem, ◌⊎◌,
}
use text.Mathlib.Text.{◌==◌ as same_text}
use text.Mathlib.TextEquality.{eq_iff}
use risk_management.SignIn.{
  LoginLink, Account, TenantRow, Platform, public, is_empty_text, links_in, users_in, is_usable,
  is_expired, resolve_tenant,
}
use risk_management.SignIn.Links.{
  Payload, Signer, Lifetimes, token_link, account_of, max_age, bind, accepted, settled,
  verify_payload, verify_link,
}

resolve_tenant_is_live :
    (name : String) (p : Platform) (c : TenantRow)
    → resolve_tenant name p ≡ some c
    → (c.schema_name ≡ name) × Elem c p.churches × (c.is_active ≡ true)
unfolding resolve_tenant
resolve_tenant_is_live name p c h =
    elim (Bool-cases (is_empty_text name || same_text name public)) [
      | inl e ↦ absurd (no_value (rw e at h))
      | inr e ↦
          let (m, q) =
            find-Elem (λ (d : TenantRow). same_text d.schema_name name && d.is_active) p.churches c
              (rw e at h) in
          let (named, active) = both (same_text c.schema_name name) c.is_active q in
          ((eq_iff c.schema_name name).0 named, m, active)
    ]
  where
    both : (a b : Bool) → (a && b) ≡ true → (a ≡ true) × (b ≡ true)
    both a b h = ground (arith, h)

-- A request is only ever bound to the public schema or to a live church, of the name in the payload.
pub bind_is_live :
    (name bound : String) (p : Platform)
    → bind name p ≡ some bound
    → (bound ≡ name)
      × ((bound ≡ public)
          ⊎ ((c : TenantRow) × Elem c p.churches × (c.schema_name ≡ bound) × (c.is_active ≡ true)))
unfolding bind
bind_is_live name bound p h = elim (Bool-cases (same_text name public)) [
  | inl e ↦
      let q : public ≡ bound = some_inj (rw e at h) in
      (sym q ∙ sym ((eq_iff name public).0 e), inl (sym q))
  | inr e ↦ elim (Option-cases (resolve_tenant name p)) [
    | inl n ↦ absurd (no_value (rw (e, n) at h))
    | inr (c, r) ↦
        let q : c.schema_name ≡ bound = some_inj (rw (e, r) at h) in
        let (named, m, active) = resolve_tenant_is_live name p c r in
        (sym q ∙ named, inr (c, m, q, active))
  ]
]

module _ (signer : Signer) (hash : String → String) (config : Lifetimes) where
  -- An accepted link: what the request is bound to, and the row.
  pub record Accepted (now : ℕ) (said : Payload) (p : Platform) (schema : String) (u : Account)
      (l : LoginLink) : Type 0 where
    pub bound_to : bind said.schema p ≡ some schema
    pub row_of : token_link (hash said.token) (links_in schema p) ≡ some l
    pub usable : is_usable now l ≡ true
    pub owner : account_of l (users_in schema p) ≡ some u
    pub active : u.is_active ≡ true

  accepted-some :
      (now : ℕ) (users : List Account) (o : Option LoginLink) (u : Account) (l : LoginLink)
      → accepted now users o ≡ some (u, l)
      → (o ≡ some l)
        × (is_usable now l ≡ true)
        × (account_of l users ≡ some u)
        × (u.is_active ≡ true)
  unfolding accepted
  accepted-some now users none u l h = cc
  accepted-some now users (some m) u l h = elim (Bool-cases (is_usable now m)) [
    | inr e ↦ absurd (no_value (rw e at h))
    | inl e ↦ elim (Option-cases (account_of m users)) [
      | inl n ↦ absurd (no_value (rw (e, n) at h))
      | inr (v, q) ↦
          let (on, pair) = guarded v.is_active (v, m) (u, l) (rw (e, q) at h) in
          let same_user : v ≡ u = ap (λ (z : Account × LoginLink). z.0) pair in
          let same_link : m ≡ l = ap (λ (z : Account × LoginLink). z.1) pair in
          (
            ap some same_link,
            subst (λ (x : LoginLink). is_usable now x ≡ true) same_link e,
            subst (λ (x : LoginLink). account_of x users ≡ some u) same_link
                (q ∙ ap some same_user),
            subst (λ (x : Account). x.is_active ≡ true) same_user on,
          )
    ]
  ]
    where
      guarded :
          (b : Bool) (x y : Account × LoginLink)
          → (if b then some x else none) ≡ some y
          → (b ≡ true) × (x ≡ y)
      guarded true x y g = (refl, some_inj g)
      guarded false x y g = cc

  no_pair :
      {a b : String} {x : Account × LoginLink}
      → ◌≡◌ {A = String × Option (Account × LoginLink)} (a, none) (b, some x)
      → ⊥
  no_pair q = cc

  settled-some :
      (a b : String) (o : Option (Account × LoginLink)) (x : Account × LoginLink)
      → settled a o ≡ (b, some x)
      → (a ≡ b) × (o ≡ some x)
  settled-some a b none x q = absurd (no_pair q)
  settled-some a b (some y) x q = (
    ap (λ (z : String × Option (Account × LoginLink)). z.0) q,
    ap (λ (z : String × Option (Account × LoginLink)). z.1) q,
  )

  verify_payload-Accepted :
      (now : ℕ) (bound schema : String) (said : Payload) (p : Platform) (u : Account)
      (l : LoginLink)
      → verify_payload signer hash config now bound (some said) p ≡ (schema, some (u, l))
      → Accepted now said p schema u l
  unfolding verify_payload
  verify_payload-Accepted now bound schema said p u l h =
      elim (Bool-cases (is_empty_text said.schema || is_empty_text said.token)) [
        | inl e ↦ absurd (no_pair (rw e at h))
        | inr e ↦ elim (Option-cases (bind said.schema p)) [
          | inl n ↦ absurd (no_pair (rw (e, n) at h))
          | inr (b, q) ↦
              let (same, o) = settled-some b schema _ (u, l) (rw (e, q) at h) in
              let (row, usable, owner, active) = accepted-some now _ _ u l o in
              record {
                bound_to = q ∙ ap some same;
                row_of = subst (λ s. token_link (hash said.token) (links_in s p) ≡ some l) same row;
                usable = usable;
                owner = subst (λ s. account_of l (users_in s p) ≡ some u) same owner;
                active = active;
              }
        ]
      ]

  pub verify_link-Accepted :
      (now : ℕ) (bound payload schema : String) (p : Platform) (u : Account) (l : LoginLink)
      → verify_link signer hash config now bound payload p ≡ (schema, some (u, l))
      → (said : Payload) × (signer.loads now (max_age config) payload ≡ some said)
        × Accepted now said p schema u l
  unfolding verify_link verify_payload
  verify_link-Accepted now bound payload schema p u l h =
      elim (Option-cases (signer.loads now (max_age config) payload)) [
        | inl e ↦ absurd (no_pair (rw e at h))
        | inr (said, e) ↦ (said, e, verify_payload-Accepted now bound schema said p u l (rw e at h))
      ]

  -- Whoever a link lets in has an active account, in the public schema or that of a live church; the
  -- link is a row of that schema for that account, has not been spent and has not expired; and the
  -- request is bound to that schema.
  pub verify_link_lets_in :
      (now : ℕ) (bound payload schema : String) (p : Platform) (u : Account) (l : LoginLink)
      → verify_link signer hash config now bound payload p ≡ (schema, some (u, l))
      → ((schema ≡ public)
          ⊎ ((c : TenantRow) × Elem c p.churches × (c.schema_name ≡ schema) × (c.is_active ≡ true)))
        × (Elem l (links_in schema p) × (l.consumed_at ≡ none) × (now < l.expires_at))
        × (Elem u (users_in schema p) × (u.pk ≡ l.user_id) × (u.is_active ≡ true))
  unfolding is_usable is_expired
  verify_link_lets_in now bound payload schema p u l h =
      let (said, read, ok) = verify_link-Accepted now bound payload schema p u l h in
      let (owned, same) =
        find-Elem (λ (v : Account). v.pk == l.user_id) (users_in schema p) u ok.owner in
      (
        (bind_is_live said.schema schema p ok.bound_to).1,
        (
          (find-Elem (λ (m : LoginLink). same_text m.token_hash (hash said.token))
              (links_in schema p) l ok.row_of).0,
          (usable_when now l ok.usable).0,
          (usable_when now l ok.usable).1,
        ),
        (owned, (==_iff u.pk l.user_id).0 same, ok.active),
      )
    where
      usable_when :
          (t : ℕ) (m : LoginLink)
          → is_usable t m ≡ true
          → (m.consumed_at ≡ none) × (t < m.expires_at)
      usable_when t m e = elim (Option-cases m.consumed_at) [
        | inl n ↦ (n, ground (arith, (rw n at e)))
        | inr (c, q) ↦ (let no : false ≡ true = rw q at e in cc)
      ]
