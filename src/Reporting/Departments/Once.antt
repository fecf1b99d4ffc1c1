-- ===== src/Reporting/Departments/Once.antt =====
-- Each requirement counts once in a department, however many roles its volunteer has there.
use risk_management.Common.{
  ℕ, ◌≡◌, refl, sym, ◌∙◌, ap, inl, inr, Bool, true, false, ◌&&◌, ◌||◌, List, [], ◌∷◌, ◌++◌, map,
  ◌==◌, ==_refl, ==_iff, if◌then◌else◌, any, select, Bool-cases, All,
}
use risk_management.Requirements.Instance.{RequirementInstance}
use risk_management.Reporting.{Row}
use risk_management.Reporting.Departments.{
  Served, served_departments, fanned, joined, has_key, kept, of_department,
}

-- A list of instances without those whose key is there, or comes before.
pub unique : List ℕ → List RequirementInstance → List RequirementInstance
unique keys [] = []
unique keys (i ∷ rest) =
    let others = unique keys rest in
    let more = unique (i.pk ∷ keys) rest in if any (λ k. k == i.pk) keys then others else i ∷ more

-- The keys that have been seen in a department.
abbrev pub keys_of : ℕ → List (ℕ × ℕ) → List ℕ
keys_of d seen = map (λ (s : ℕ × ℕ). s.1) (select (λ (s : ℕ × ℕ). s.0 == d) seen)

has_key-keys_of :
    (seen : List (ℕ × ℕ)) (d k : ℕ) → has_key seen d k ≡ any (λ i. i == k) (keys_of d seen)
has_key-keys_of [] d k = refl
has_key-keys_of (s ∷ seen) d k = elim (Bool-cases (s.0 == d)) [
  | inl e ↦ rw e (ap (λ b. (s.1 == k) || b) (has_key-keys_of seen d k))
  | inr e ↦ rw e (has_key-keys_of seen d k)
]

module _ (d : ℕ) (seen : List (ℕ × ℕ)) (i : RequirementInstance) (rows : List Served) where
  abbrev Splits : List (ℕ × ℕ) → Type 0
  Splits before =
      of_department d (kept before rows) ≡ unique (keys_of d before) (of_department d rows)

  kept-here :
      Splits seen
      → Splits ((d, i.pk) ∷ seen)
      → of_department d (kept seen ((d, i) ∷ rows))
        ≡ unique (keys_of d seen) (i ∷ of_department d rows)
  unfolding kept unique
  kept-here old new =
      let known = sym (has_key-keys_of seen d i.pk) in
      elim (Bool-cases (has_key seen d i.pk)) [
        | inl h ↦ rw (h, known ∙ h) old
        | inr h ↦ rw (h, known ∙ h, ==_refl d) (ap (λ l. i ∷ l) (rw (==_refl d) at new))
      ]

  kept-there :
      (e : ℕ)
      → (e == d) ≡ false
      → Splits seen
      → Splits ((e, i.pk) ∷ seen)
      → of_department d (kept seen ((e, i) ∷ rows)) ≡ unique (keys_of d seen) (of_department d rows)
  unfolding kept
  kept-there e other old new = elim (Bool-cases (has_key seen e i.pk)) [
    | inl h ↦ rw h old
    | inr h ↦ rw (h, other) (rw other at new)
  ]

pub kept-unique :
    (d : ℕ) (seen : List (ℕ × ℕ)) (rows : List Served)
    → of_department d (kept seen rows) ≡ unique (keys_of d seen) (of_department d rows)
unfolding kept unique
kept-unique d seen [] = refl
kept-unique d seen ((e, i) ∷ rows) = elim (Bool-cases (e == d)) [
  | inl here ↦
      let same : e ≡ d = (==_iff e d).0 here in
      rw (same, ==_refl d)
        (kept-here d seen i rows (kept-unique d seen rows) (kept-unique d ((d, i.pk) ∷ seen) rows))
  | inr there ↦ rw there (
      kept-there d seen i rows e there (kept-unique d seen rows)
        (kept-unique d ((e, i.pk) ∷ seen) rows))
]

of_department-append :
    (d : ℕ) (xs ys : List Served)
    → of_department d (xs ++ ys) ≡ of_department d xs ++ of_department d ys
of_department-append d [] ys = refl
of_department-append d (x ∷ xs) ys = elim (Bool-cases (x.0 == d)) [
  | inl e ↦ rw e (ap (λ l. x.1 ∷ l) (of_department-append d xs ys))
  | inr e ↦ rw e (of_department-append d xs ys)
]

abbrev pub holds_key : List ℕ → ℕ → Bool
holds_key keys k = any (λ j. j == k) keys

unique-repeats :
    (keys : List ℕ) (d : ℕ) (ds : List ℕ) (i : RequirementInstance)
    (rest : List RequirementInstance)
    → holds_key keys i.pk ≡ true
    → unique keys (of_department d (fanned ds i) ++ rest) ≡ unique keys rest
unfolding unique
unique-repeats keys d [] i rest h = refl
unique-repeats keys d (e ∷ ds) i rest h = elim (Bool-cases (e == d)) [
  | inl here ↦ rw (here, h) (unique-repeats keys d ds i rest h)
  | inr there ↦ rw there (unique-repeats keys d ds i rest h)
]

unique-fanned :
    (keys : List ℕ) (d : ℕ) (ds : List ℕ) (i : RequirementInstance)
    (rest : List RequirementInstance)
    → holds_key keys i.pk ≡ false
    → unique keys (of_department d (fanned ds i) ++ rest)
      ≡ (if holds_key ds d then i ∷ unique (i.pk ∷ keys) rest else unique keys rest)
unfolding unique
unique-fanned keys d [] i rest h = refl
unique-fanned keys d (e ∷ ds) i rest h = elim (Bool-cases (e == d)) [
  | inl here ↦
      rw (here, h)
        (ap (λ l. i ∷ l) (unique-repeats (i.pk ∷ keys) d ds i rest (rw (==_refl i.pk) refl)))
  | inr there ↦ rw there (unique-fanned keys d ds i rest h)
]

-- The rows' keys are different, as those of a table are.
abbrev pub Distinct : List Row → Type 0
Distinct [] = Unit {0}
Distinct (r ∷ rows) =
    All (λ (s : Row). (r.instance.pk == s.instance.pk) ≡ false) rows × Distinct rows

abbrev pub Fresh : List ℕ → List Row → Type 0
Fresh keys rows = All (λ (s : Row). holds_key keys s.instance.pk ≡ false) rows

Fresh-cons :
    (k : ℕ) (keys : List ℕ) (rows : List Row)
    → All (λ (s : Row). (k == s.instance.pk) ≡ false) rows
    → Fresh keys rows
    → Fresh (k ∷ keys) rows
Fresh-cons k keys [] apart fresh = tt
Fresh-cons k keys (r ∷ rows) apart fresh =
    (rw apart.0 fresh.0, Fresh-cons k keys rows apart.1 fresh.1)

-- Whether the summary counts the row in the department, by the join.
abbrev pub counted : List ℕ → ℕ → Row → Bool
counted departments d r =
    (r.definition.is_active && r.file.0.is_active)
    && holds_key (served_departments departments r.file.1) d

pub unique-joined :
    (departments : List ℕ) (d : ℕ) (keys : List ℕ) (rows : List Row)
    → Distinct rows
    → Fresh keys rows
    → unique keys (of_department d (joined departments rows))
      ≡ map (λ (r : Row). r.instance) (select (counted departments d) rows)
unfolding joined unique
unique-joined departments d keys [] distinct fresh = refl
unique-joined departments d keys (r ∷ rows) distinct fresh =
    elim (Bool-cases (r.definition.is_active && r.file.0.is_active)) [
      | inl active ↦
          let ds = served_departments departments r.file.1 in
          rw
            (
              active,
              of_department-append d (fanned ds r.instance) (joined departments rows),
              unique-fanned keys d ds r.instance (of_department d (joined departments rows))
                  fresh.0,
            )
            (elim (Bool-cases (holds_key ds d)) [
              | inl here ↦ rw here (
                  ap (λ l. r.instance ∷ l)
                    (unique-joined departments d (r.instance.pk ∷ keys) rows distinct.1
                      (Fresh-cons r.instance.pk keys rows distinct.0 fresh.1)))
              | inr there ↦ rw there (unique-joined departments d keys rows distinct.1 fresh.1)
            ])
      | inr idle ↦ rw idle (unique-joined departments d keys rows distinct.1 fresh.1)
    ]
