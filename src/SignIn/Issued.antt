-- ===== src/SignIn/Issued.antt =====
-- A link that has just been issued lets its account in.
use risk_management.Common.{
  ℕ, ◌+◌, ◌≡◌, ◌≤◌, ◌<◌, refl, sym, subst, ap, inl, inr, Bool, true, false, ◌||◌, Option, none,
  some, List, [], ◌∷◌, String, ◌==◌, arith, Bool-cases, is_some, find, if◌then◌else◌, unguarded,
}
use risk_management.Audit.{AuditEvent}
use text.Mathlib.Text.{◌==◌ as same_text}
use text.Mathlib.TextPositions.{eq_refl}
use risk_management.SignIn.{
  LinkPurpose, LoginLink, Account, Schema, Platform, is_empty_text, links_in, users_in, is_usable,
  is_expired, table, resolve_tenant,
}
use risk_management.SignIn.Links.{
  Payload, Signer, SignerIsSound, Lifetimes, lifetime, change_schema, with_links, token_link,
  account_of, issue_link, max_age, bind, accepted, link_issued_in, verify_payload, verify_link,
}

abbrev users_of : String → List Schema → List Account
users_of name schemas = table (λ s. s.users) (find (λ (s : Schema). same_text s.name name) schemas)

users_of-change_schema :
    (name other : String) (f : List LoginLink → List LoginLink) (events : List AuditEvent)
    (schemas : List Schema)
    → users_of name (change_schema other f events schemas) ≡ users_of name schemas
users_of-change_schema name other f events [] = refl
users_of-change_schema name other f events (s ∷ schemas) =
    elim (Bool-cases (same_text s.name other)) [
      | inl o ↦ elim (Bool-cases (same_text s.name name)) [
        | inl e ↦ rw (o, e) refl
        | inr e ↦ rw (o, e) (users_of-change_schema name other f events schemas)
      ]
      | inr o ↦ elim (Bool-cases (same_text s.name name)) [
        | inl e ↦ rw (o, e) refl
        | inr e ↦ rw (o, e) (users_of-change_schema name other f events schemas)
      ]
    ]

-- A row that is put in front is there, where the schema has an account.
links_in-with_links :
    (name : String) (l : LoginLink) (k : ℕ) (events : List AuditEvent) (schemas : List Schema)
    → is_some (find (λ (u : Account). u.pk == k) (users_of name schemas)) ≡ true
    → table
        (λ s. s.links)
        (find
          (λ (s : Schema). same_text s.name name)
          (change_schema name (λ links. l ∷ links) events schemas))
      ≡ l ∷ table (λ s. s.links) (find (λ (s : Schema). same_text s.name name) schemas)
links_in-with_links name l k events [] h = cc
links_in-with_links name l k events (s ∷ schemas) h = elim (Bool-cases (same_text s.name name)) [
  | inl e ↦ rw (e, e) refl
  | inr e ↦ rw (e, e) (links_in-with_links name l k events schemas (rw e at h))
]

-- The row that is issued.
abbrev issued_row : ℕ → String → Account → LinkPurpose → Option ℕ → Lifetimes → ℕ → LoginLink
issued_row at token_hash u purpose by config k = record {
  pk = k;
  user_id = u.pk;
  token_hash = token_hash;
  purpose = purpose;
  issued_by = by;
  expires_at = at + lifetime config purpose;
  consumed_at = none;
}

accepted-fresh :
    (now : ℕ) (h : String) (u : Account) (l : LoginLink) (users : List Account)
    (links : List LoginLink)
    → same_text l.token_hash h ≡ true
    → is_usable now l ≡ true
    → account_of l users ≡ some u
    → u.is_active ≡ true
    → accepted now users (token_link h (l ∷ links)) ≡ some (u, l)
unfolding accepted
accepted-fresh now h u l users links same usable known active =
    rw (same, usable, known) (only u.is_active active)
  where
    only :
        (b : Bool)
        → b ≡ true
        → ◌≡◌ {A = Option (Account × LoginLink)} (if b then some (u, l) else none) (some (u, l))
    only b e = rw e refl

module _ (signer : Signer) (hash : String → String) (config : Lifetimes) where
  verify_link-read :
      (now : ℕ) (from text bound : String) (said : Payload) (p : Platform) (x : Account × LoginLink)
      → signer.loads now (max_age config) text ≡ some said
      → (is_empty_text said.schema || is_empty_text said.token) ≡ false
      → bind said.schema p ≡ some bound
      → accepted now (users_in bound p) (token_link (hash said.token) (links_in bound p)) ≡ some x
      → verify_link signer hash config now from text p ≡ (bound, some x)
  unfolding verify_link verify_payload
  verify_link-read now from text bound said p x read full live ok = rw (read, full, live, ok) refl

  -- With a signer that is sound, a link that was issued for an active account, from the public
  -- schema or a live church, is accepted for that account until it expires, if a recovery link
  -- lives no longer than an invitation.
  pub issue_link-verify_link :
      SignerIsSound signer
      → (at : ℕ) (bound : String) (actor : Option ℕ) (secret : String) (u : Account)
        (purpose : LinkPurpose) (by : Option ℕ) (p after : Platform) (payload : String)
      → issue_link signer hash config at bound actor secret u purpose by p ≡ some (after, payload)
      → (is_empty_text bound || is_empty_text secret) ≡ false
      → bind bound p ≡ some bound
      → find (λ (a : Account). a.pk == u.pk) (users_in bound p) ≡ some u
      → u.is_active ≡ true
      → lifetime config purpose ≤ max_age config
      → (now : ℕ) → now < at + lifetime config purpose
      → (from : String)
      → (l : LoginLink) × (verify_link signer hash config now from payload after
          ≡ (bound, some (u, l)))
        × (l.purpose ≡ purpose)
  unfolding issue_link bind resolve_tenant is_usable is_expired
  issue_link-verify_link laws at bound actor secret u purpose by p after payload h full live known
        active short now early from =
      let (fresh, made) = unguarded _ _ h in
      let said : Payload = record { schema = bound; token = secret } in
      let l = issued_row at (hash secret) u purpose by config p.next_pk in
      let q : Platform =
        record (with_links bound (λ links. l ∷ links) (link_issued_in bound actor u.pk) p) {
          next_pk = p.next_pk + 1;
        } in
      let read : signer.loads now (max_age config) (signer.dumps at said) ≡ some said =
        laws.loads_dumped at now (max_age config) said (omega (arith, early, short)) in
      let rows : links_in bound q ≡ l ∷ links_in bound p =
        links_in-with_links bound l u.pk (link_issued_in bound actor u.pk) p.schemas
          (ap is_some known) in
      let users : users_in bound q ≡ users_in bound p =
        users_of-change_schema bound bound (λ links. l ∷ links) (link_issued_in bound actor u.pk)
          p.schemas in
      let bound_to : bind bound q ≡ some bound = live in
      let ok : accepted now (users_in bound q) (token_link (hash secret) (links_in bound q))
          ≡ some (u, l) =
        subst (λ us. accepted now us (token_link (hash secret) (links_in bound q)) ≡ some (u, l))
          (sym users)
          (subst (λ ls. accepted now (users_in bound p) (token_link (hash secret) ls) ≡ some (u, l))
            (sym rows)
            (accepted-fresh now (hash secret) u l (users_in bound p) (links_in bound p)
              (eq_refl (hash secret)) (ground (arith, early)) known active)) in
      let verified =
        verify_link-read now from (signer.dumps at said) bound said q (u, l) read full bound_to
          ok in
      (
        l,
        subst
            (λ (z : Platform × String).
              verify_link signer hash config now from z.1 z.0 ≡ (bound, some (u, l)))
            made verified,
        refl,
      )
