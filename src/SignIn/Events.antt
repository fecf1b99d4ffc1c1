-- ===== src/SignIn/Events.antt =====
-- What happens on the platform keeps a spent link spent.
use risk_management.Common.{
  ℕ, ◌≡◌, refl, sym, subst, inl, inr, true, false, Option, none, some, List, [], ◌∷◌, map, String,
  Bool-cases, any, if◌then◌else◌,
}
use risk_management.Audit.{AuditEvent}
use text.Mathlib.Text.{◌==◌ as same_text}
use text.Mathlib.TextEquality.{eq_iff}
use risk_management.SignIn.{LinkPurpose, LoginLink, Account, Schema, TenantRow, Platform, links_in}
use risk_management.SignIn.Links.{
  Signer, Lifetimes, with_links, consume_row, consume, issue_link, verify_link, spent_by,
  consume_link,
}
use risk_management.SignIn.Spent.{
  spent_in, links_of, change_schema-other, change_schema-same, spent_in-found, spent_in-consume_row,
  spent_in-taken,
}

-- The users' table of one schema is replaced.
abbrev with_users : String → List Account → Platform → Platform
with_users name users p = record p {
  schemas =
      map (λ (s : Schema). if same_text s.name name then record s { users = users } else s)
        p.schemas;
}

links_of-with_users :
    (name other : String) (users : List Account) (p : Platform)
    → links_in name (with_users other users p) ≡ links_in name p
links_of-with_users name other users p = go p.schemas
  where
    go :
        (schemas : List Schema)
        → links_of name (
            map
              (λ (s : Schema). if same_text s.name other then record s { users = users } else s)
              schemas)
          ≡ links_of name schemas
    go [] = refl
    go (s ∷ schemas) = elim (Bool-cases (same_text s.name other)) [
      | inl o ↦ elim (Bool-cases (same_text s.name name)) [
        | inl e ↦ rw (o, e) refl
        | inr e ↦ rw (o, e) (go schemas)
      ]
      | inr o ↦ elim (Bool-cases (same_text s.name name)) [
        | inl e ↦ rw (o, e) refl
        | inr e ↦ rw (o, e) (go schemas)
      ]
    ]

module _ (signer : Signer) (hash : String → String) (config : Lifetimes) where
  -- What happens on the platform: links are issued and spent, accounts and churches change.
  pub data Event : Type 0 where
    issuing : ℕ → String → Option ℕ → String → Account → LinkPurpose → Option ℕ → Event
    spending : ℕ → String → String → Event
    users_changed : String → List Account → Event
    churches_changed : List TenantRow → Event

  abbrev issued : Platform → Option (Platform × String) → Platform
  issued p none = p
  issued p (some (after, url)) = after

  unfoldable pub happen : Event → Platform → Platform
  unfolding issue_link consume_link
  happen (issuing now bound actor secret user purpose by) p =
      issued p (issue_link signer hash config now bound actor secret user purpose by p)
  happen (spending now bound payload) p = (consume_link signer hash config now bound payload p).0
  happen (users_changed name users) p = with_users name users p
  happen (churches_changed churches) p = record p { churches = churches }

  unfoldable pub run : List Event → Platform → Platform
  unfolding happen
  run [] p = p
  run (e ∷ rest) p = run rest (happen e p)

  with_links-spent :
      (schema other h : String) (f : List LoginLink → List LoginLink) (events : List AuditEvent)
      (p : Platform)
      → (schema ≡ other → spent_in h (f (links_in schema p)) ≡ true)
      → spent_in h (links_in schema p) ≡ true
      → spent_in h (links_in schema (with_links other f events p)) ≡ true
  with_links-spent schema other h f events p kept s = elim (Bool-cases (same_text schema other)) [
    | inl e ↦
        let q = (eq_iff schema other).0 e in
        subst (λ o. spent_in h (links_in schema (with_links o f events p)) ≡ true) q
          (subst (λ (l : List LoginLink). spent_in h l ≡ true)
            (sym (
              change_schema-same schema f events p.schemas h
                (spent_in-found h (links_in schema p) s)))
            (kept q))
    | inr e ↦
        subst (λ (l : List LoginLink). spent_in h l ≡ true)
          (sym (change_schema-other schema other f events p.schemas e)) s
  ]

  consume-spent :
      (now k : ℕ) (schema other h : String) (p : Platform)
      → spent_in h (links_in schema p) ≡ true
      → spent_in h (links_in schema (consume now other k p)) ≡ true
  unfolding consume
  consume-spent now k schema other h p s =
      with_links-spent schema other h (map (consume_row k now)) [] p
        (λ q. spent_in-consume_row h k now (links_in schema p) s) s

  spent_by-spent :
      (now : ℕ) (v : String × Option (Account × LoginLink)) (schema h : String) (p : Platform)
      → spent_in h (links_in schema p) ≡ true
      → spent_in h (links_in schema (spent_by now v p)) ≡ true
  unfolding spent_by
  spent_by-spent now (other, none) schema h p s = s
  spent_by-spent now (other, some (u, l)) schema h p s = consume-spent now l.pk schema other h p s

  -- Whatever happens, a spent row stays spent.
  happen-spent :
      (e : Event) (schema h : String) (p : Platform)
      → spent_in h (links_in schema p) ≡ true
      → spent_in h (links_in schema (happen e p)) ≡ true
  unfolding happen issue_link consume_link
  happen-spent (issuing now bound actor secret user purpose by) schema h p s =
      elim (Bool-cases
        (any (λ (l : LoginLink). same_text l.token_hash (hash secret)) (links_in bound p))) [
          | inl e ↦ rw e s
          | inr e ↦ rw e (
              with_links-spent schema bound h (λ links. _ ∷ links) _ p
                (λ q.
                  let apart = spent_in-taken h (hash secret) (links_in schema p) s (
                    subst
                      (λ b.
                        any (λ (l : LoginLink). same_text l.token_hash (hash secret)) (links_in b p)
                        ≡ false)
                      (sym q) e) in
                  rw apart s)
                s)
        ]
  happen-spent (spending now bound payload) schema h p s =
      spent_by-spent now (verify_link signer hash config now bound payload p) schema h p s
  happen-spent (users_changed name users) schema h p s =
      subst (λ (l : List LoginLink). spent_in h l ≡ true)
        (sym (links_of-with_users schema name users p)) s
  happen-spent (churches_changed churches) schema h p s = s

  pub run-spent :
      (es : List Event) (schema h : String) (p : Platform)
      → spent_in h (links_in schema p) ≡ true
      → spent_in h (links_in schema (run es p)) ≡ true
  unfolding run
  run-spent [] schema h p s = s
  run-spent (e ∷ es) schema h p s = run-spent es schema h (happen e p) (happen-spent e schema h p s)
