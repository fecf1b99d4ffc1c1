-- ===== src/Reporting/Compliance.antt =====
-- The compliance report: its verdicts, its totals and its rate.
use risk_management.Common.{
  ℕ, ◌+◌, ◌*◌, ◌/◌, ◌%◌, ◌≡◌, ◌≤◌, refl, inl, inr, Bool, true, false, not, Option, some, List, [],
  ◌∷◌, arith, Bool-cases, length, select, ◌==◌, all, subst, ◌⊎◌, ◌↔◌, and_true, Elem, Elem-select,
}
use native.Mathlib.Nat.{div-le_of_le-mul, div-add-mod}
use native.Mathlib.Decide.{dec_lt}
use risk_management.Calendar.{Date}
use risk_management.Org.{disqualified}
use risk_management.Access.{User, Directory}
use risk_management.Access.Scope.{File}
use risk_management.Requirements.Instance.{
  RequirementInstance, Bucket, overdue_bucket, outstanding, satisfied, due_soon, bucket,
  is_not_applicable,
}
use risk_management.Reporting.{
  VolunteerRow, is_compliant, status_label, StatusLabel, build_compliance_report, rounded, rate,
  code_of, falls_in,
}

rounded-le : (n d : ℕ) → 1 ≤ d → n ≤ 100 * d → rounded n d ≤ 100
rounded-le n d h k =
    let bound : n / d ≤ 100 = div-le_of_le-mul d (omega (arith, k)) in
    elim (dec_lt (n / d) 100) [
      | yes small ↦ ground (arith, small)
      | no large ↦
          let whole : n / d ≡ 100 = omega (arith, bound, large) in
          let sum : d * 100 + n % d ≡ n = subst (λ q. d * q + n % d ≡ n) whole (div-add-mod n d) in
          let exact : n % d ≡ 0 = omega (arith, sum, k) in rw (whole, exact) (ground (arith, h))
    ]

select_parts {ℓ} :
    {A : Type ℓ} (p : A → Bool) (xs : List A)
    → length (select p xs) + length (select (λ x. not (p x)) xs) ≡ length xs
select_parts p [] = refl
select_parts p (x ∷ xs) = ground (arith, select_parts p xs)

nothing_owed :
    (today : Date) (b : Bucket) (l : List RequirementInstance)
    → (code_of satisfied == code_of b) ≡ false
    → all (λ (i : RequirementInstance). is_not_applicable i.status) l ≡ true
    → select (falls_in today b) l ≡ []
unfolding bucket
nothing_owed today b [] other free = refl
nothing_owed today b (i ∷ l) other free = elim (Bool-cases (is_not_applicable i.status)) [
  | inl e ↦ rw (e, other) (nothing_owed today b l other (rw e at free))
  | inr e ↦ absurd (ground (arith, e, free))
]

rate_le :
    (good rows : List VolunteerRow)
    → length good ≤ length rows
    → (n : ℕ) → rate good rows ≡ some n
    → n ≤ 100
rate_le good [] h n e = cc
rate_le good (r ∷ rows) h n e =
    let same : rounded (100 * length good) (length (r ∷ rows)) ≡ n = cc in
    subst (λ k. k ≤ 100) same
      (rounded-le (100 * length good) (length (r ∷ rows)) (omega arith) (omega (arith, h)))

-- Somebody without an active requirement that is owed is counted as compliant, also when they are
-- permanently disqualified.
pub is_compliant_when_barred :
    (today : Date) (row : VolunteerRow)
    → row.file.0.screening_block ≡ disqualified
    → all (λ (i : RequirementInstance). is_not_applicable i.status) row.instances ≡ true
    → (is_compliant today row ≡ true) × (status_label today row ≡ StatusLabel.disqualified)
unfolding status_label is_compliant
is_compliant_when_barred today row barred free =
    let none_overdue = nothing_owed today overdue_bucket row.instances refl free in
    let none_outstanding = nothing_owed today outstanding row.instances refl free in
    (rw (none_overdue, none_outstanding), rw barred)

-- Every requirement of the row is satisfied, or not due before long.
abbrev pub Met : Date → VolunteerRow → Type 0
Met today row =
    (i : RequirementInstance)
    → Elem i row.instances
    → (bucket today i ≡ satisfied) ⊎ (bucket today i ≡ due_soon)

none_selected :
    (p : RequirementInstance → Bool) (l : List RequirementInstance)
    → (length (select p l) == 0) ≡ true
    → (i : RequirementInstance) → Elem i l
    → p i ≡ false
none_selected p [] h i m = absurd m
none_selected p (x ∷ l) h i m = elim (Bool-cases (p x)) [
  | inl e ↦ absurd (ground (arith, rw e at h))
  | inr e ↦ elim m [ inl same ↦ rw same e | inr later ↦ none_selected p l (rw e at h) i later ]
]

none_to_select :
    (p : RequirementInstance → Bool) (l : List RequirementInstance)
    → ((i : RequirementInstance) → Elem i l → p i ≡ false)
    → (length (select p l) == 0) ≡ true
none_to_select p [] h = refl
none_to_select p (x ∷ l) h = rw (h x (inl refl)) (none_to_select p l λ i m. h i (inr m))

either_bucket :
    (b : Bucket)
    → (code_of b == code_of overdue_bucket) ≡ false
    → (code_of b == code_of outstanding) ≡ false
    → (b ≡ satisfied) ⊎ (b ≡ due_soon)
either_bucket satisfied h k = inl refl
either_bucket due_soon h k = inr refl
either_bucket overdue_bucket h k = cc
either_bucket outstanding h k = cc

no_other :
    (b : Bucket)
    → (b ≡ satisfied) ⊎ (b ≡ due_soon)
    → ((code_of b == code_of overdue_bucket) ≡ false) × ((code_of b == code_of outstanding) ≡ false)
no_other b (inl e) = rw e (refl, refl)
no_other b (inr e) = rw e (refl, refl)

is_compliant-Met :
    (today : Date) (row : VolunteerRow) → (is_compliant today row ≡ true) ↔ Met today row
unfolding is_compliant
is_compliant-Met today row = (
  λ h i m.
      let (late, owed) = and_true _ _ h in
      either_bucket (bucket today i)
        (none_selected (falls_in today overdue_bucket) row.instances late i m)
        (none_selected (falls_in today outstanding) row.instances owed i m),
  λ h.
      rw
        (
          none_to_select (falls_in today overdue_bucket) row.instances
              (λ i m. (no_other (bucket today i) (h i m)).0),
          none_to_select (falls_in today outstanding) row.instances
              (λ i m. (no_other (bucket today i) (h i m)).1),
        )
        refl,
)

module _ (dir : Directory) (u : Option User) (department : Option ℕ) (include_inactive : Bool)
    (today : Date) (instances_of : File → List RequirementInstance) (files : List File) where
  pub build_compliance_report-Met :
      (row : VolunteerRow)
      → let r =
          build_compliance_report dir u department include_inactive today instances_of files in
        (Elem row r.compliant ↔ (Elem row r.rows × Met today row))
        × (length r.compliant + length r.non_compliant ≡ length r.rows)
        × ((n : ℕ) → r.compliance_rate ≡ some n → n ≤ 100)
  unfolding build_compliance_report
  build_compliance_report-Met row =
      let (out, back) = Elem-select row (is_compliant today) _ in
      (
        (
          λ m. let (there, good) = out m in (there, (is_compliant-Met today row).0 good),
          λ h. back (h.0, (is_compliant-Met today row).1 h.1),
        ),
        select_parts (is_compliant today) _,
        rate_le _ _ (omega (arith, select_parts (is_compliant today))),
      )
