-- ===== src/SignIn/Spent.antt =====
-- The row of a link that has been spent, in a table that changes.
use risk_management.Common.{
  ℕ, ◌≡◌, refl, subst, inl, inr, Bool, true, false, some, List, [], ◌∷◌, map, String, ◌==◌, arith,
  Bool-cases, Option-cases, is_some, some_inj, any, find, if◌then◌else◌,
}
use risk_management.Audit.{AuditEvent}
use text.Mathlib.Text.{◌==◌ as same_text}
use text.Mathlib.TextEquality.{eq_iff}
use risk_management.SignIn.{LoginLink, Schema, table, is_usable}
use risk_management.SignIn.Links.{change_schema, token_link, consume_row}

-- The row that a hash stands for has been spent.
abbrev pub spent_in : String → List LoginLink → Bool
spent_in hash [] = false
spent_in hash (l ∷ links) =
    let later = spent_in hash links in
    if same_text l.token_hash hash then is_some l.consumed_at else later

abbrev pub links_of : String → List Schema → List LoginLink
links_of name schemas = table (λ s. s.links) (find (λ (s : Schema). same_text s.name name) schemas)

pub change_schema-other :
    (name other : String) (f : List LoginLink → List LoginLink) (events : List AuditEvent)
    (schemas : List Schema)
    → same_text name other ≡ false
    → links_of name (change_schema other f events schemas) ≡ links_of name schemas
change_schema-other name other f events [] apart = refl
change_schema-other name other f events (s ∷ schemas) apart =
    elim (Bool-cases (same_text s.name name)) [
      | inl e ↦
          let same : s.name ≡ name = (eq_iff s.name name).0 e in
          let elsewhere : same_text s.name other ≡ false = rw same apart in rw (elsewhere, e) refl
      | inr e ↦ elim (Bool-cases (same_text s.name other)) [
        | inl o ↦ rw (o, e) (change_schema-other name other f events schemas apart)
        | inr o ↦ rw (o, e) (change_schema-other name other f events schemas apart)
      ]
    ]

-- Where there is a row, the schema is there, and the change reaches its rows.
pub change_schema-same :
    (name : String) (f : List LoginLink → List LoginLink) (events : List AuditEvent)
    (schemas : List Schema) (hash : String)
    → is_some (token_link hash (links_of name schemas)) ≡ true
    → links_of name (change_schema name f events schemas) ≡ f (links_of name schemas)
change_schema-same name f events [] hash h = cc
change_schema-same name f events (s ∷ schemas) hash h = elim (Bool-cases (same_text s.name name)) [
  | inl e ↦ rw (e, e) refl
  | inr e ↦ rw (e, e) (change_schema-same name f events schemas hash (rw e at h))
]

pub spent_in-found :
    (hash : String) (links : List LoginLink)
    → spent_in hash links ≡ true
    → is_some (token_link hash links) ≡ true
spent_in-found hash [] h = cc
spent_in-found hash (l ∷ links) h = elim (Bool-cases (same_text l.token_hash hash)) [
  | inl e ↦ rw e refl
  | inr e ↦ rw e (spent_in-found hash links (rw e at h))
]

pub spent_in-consume_row :
    (hash : String) (k now : ℕ) (links : List LoginLink)
    → spent_in hash links ≡ true
    → spent_in hash (map (consume_row k now) links) ≡ true
spent_in-consume_row hash k now [] h = h
spent_in-consume_row hash k now (l ∷ links) h = elim (Bool-cases (same_text l.token_hash hash)) [
  | inl e ↦ elim (Bool-cases (l.pk == k)) [ inl q ↦ rw (q, e) refl | inr q ↦ rw (q, e) (rw e at h) ]
  | inr e ↦
      let later = spent_in-consume_row hash k now links (rw e at h) in
      elim (Bool-cases (l.pk == k)) [ inl q ↦ rw (q, e) later | inr q ↦ rw (q, e) later ]
]

pub spent_in-taken :
    (hash other : String) (links : List LoginLink)
    → spent_in hash links ≡ true
    → any (λ (l : LoginLink). same_text l.token_hash other) links ≡ false
    → same_text other hash ≡ false
spent_in-taken hash other links h fresh = elim (Bool-cases (same_text other hash)) [
  | inl e ↦ absurd (clash links (rw ((eq_iff other hash).0 e) at fresh) h)
  | inr e ↦ e
]
  where
    clash :
        (ls : List LoginLink)
        → any (λ (l : LoginLink). same_text l.token_hash hash) ls ≡ false
        → spent_in hash ls ≡ true
        → ⊥
    clash [] n s = cc
    clash (l ∷ ls) n s = elim (Bool-cases (same_text l.token_hash hash)) [
      | inl e ↦ (let t : true ≡ false = rw e at n in cc)
      | inr e ↦ clash ls (rw e at n) (rw e at s)
    ]

pub spent_in-consumed :
    (hash : String) (now : ℕ) (links : List LoginLink) (l : LoginLink)
    → token_link hash links ≡ some l
    → spent_in hash (map (consume_row l.pk now) links) ≡ true
spent_in-consumed hash now [] l h = cc
spent_in-consumed hash now (m ∷ links) l h = elim (Bool-cases (same_text m.token_hash hash)) [
  | inl e ↦
      let same : m ≡ l = some_inj (rw e at h) in
      let key : (m.pk == l.pk) ≡ true = rw same (key_refl l.pk) in rw (key, e) refl
  | inr e ↦
      let later = spent_in-consumed hash now links l (rw e at h) in
      elim (Bool-cases (m.pk == l.pk)) [ inl q ↦ rw (q, e) later | inr q ↦ rw (q, e) later ]
]
  where
    key_refl : (n : ℕ) → (n == n) ≡ true
    key_refl n = ground arith

pub token_link-spent :
    (hash : String) (now : ℕ) (links : List LoginLink) (l : LoginLink)
    → spent_in hash links ≡ true
    → token_link hash links ≡ some l
    → is_usable now l ≡ false
unfolding is_usable
token_link-spent hash now [] l s h = cc
token_link-spent hash now (m ∷ links) l s h = elim (Bool-cases (same_text m.token_hash hash)) [
  | inl e ↦
      used l
        (subst (λ (x : LoginLink). is_some x.consumed_at ≡ true) (some_inj (rw e at h)) (rw e at s))
  | inr e ↦ token_link-spent hash now links l (rw e at s) (rw e at h)
]
  where
    used : (x : LoginLink) → is_some x.consumed_at ≡ true → is_usable now x ≡ false
    used x u = elim (Option-cases x.consumed_at) [
      | inl e ↦ (let t : false ≡ true = rw e at u in cc)
      | inr (t, e) ↦ rw e refl
    ]
