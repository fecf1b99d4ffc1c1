-- ===== src/Reporting/Departments/Lines.antt =====
-- What each line of the departments' summary counts.
use risk_management.Common.{
  Option, length, subst, Elem-map, ℕ, ◌≡◌, refl, ◌∙◌, ap, inl, inr, Bool, true, ◌&&◌, List, [], ◌∷◌,
  map, arith, ◌==◌, ==_iff, if◌then◌else◌, any, select, Bool-cases, Elem,
}
use risk_management.Org.{Assignment}
use risk_management.Calendar.{Date}
use risk_management.Access.{User, Directory}
use risk_management.Access.Scope.{File, id_in, Elem-id_in, scope_departments}
use risk_management.Requirements.Instance.{RequirementInstance}
use risk_management.Reporting.{Row, serves, bucket_counts}
use risk_management.Reporting.Departments.{
  in_department, served_departments, joined, grouped, DepartmentSummary, build_department_summary,
}
use risk_management.Reporting.Departments.Once.{
  holds_key, Distinct, Fresh, counted, kept-unique, unique-joined,
}

served-serves :
    (departments : List ℕ) (d : ℕ) (assignments : List Assignment)
    → id_in departments d ≡ true
    → holds_key (served_departments departments assignments) d
      ≡ any (λ a. a.is_active && in_department d a) assignments
served-serves departments d [] h = refl
served-serves departments d (a ∷ rest) h = elim (Bool-cases (a.role.department == d)) [
  | inl e ↦
      let known : id_in departments a.role.department ≡ true =
        rw ((==_iff a.role.department d).0 e) h in
      elim (Bool-cases a.is_active) [
        | inl on ↦ rw (on, known, e) refl
        | inr off ↦ rw off (served-serves departments d rest h)
      ]
  | inr e ↦ elim (Bool-cases (a.is_active && id_in departments a.role.department)) [
    | inl on ↦ ground (arith, on, e, served-serves departments d rest h)
    | inr off ↦ rw off (ground (arith, e, served-serves departments d rest h))
  ]
]

-- Requirements that are in use, of somebody who is active and serves in the department now.
abbrev pub owed_in : ℕ → List Row → List RequirementInstance
owed_in d rows =
    map (λ (r : Row). r.instance)
      (select
        (λ (r : Row).
          (r.definition.is_active && r.file.0.is_active) && serves (in_department d) r.file)
        rows)

select_same :
    {A : Type 0} (p q : A → Bool) → ((x : A) → p x ≡ q x) → (l : List A) → select p l ≡ select q l
select_same p q h [] = refl
select_same p q h (x ∷ l) =
    rw (h x) (ap (λ rest. if q x then x ∷ rest else rest) (select_same p q h l))

grouped-owed_in :
    (departments : List ℕ) (d : ℕ) (rows : List Row)
    → Distinct rows
    → id_in departments d ≡ true
    → grouped departments rows d ≡ owed_in d rows
unfolding grouped
grouped-owed_in departments d rows distinct shown =
    kept-unique d [] (joined departments rows)
    ∙ unique-joined departments d [] rows distinct (nothing_seen rows)
    ∙ ap (λ l. map (λ (r : Row). r.instance) l)
        (select_same (counted departments d) _
          (λ r.
            ap (λ b. (r.definition.is_active && r.file.0.is_active) && b)
              (served-serves departments d r.file.1 shown))
          rows)
  where
    nothing_seen : (rows : List Row) → Fresh [] rows
    nothing_seen [] = tt
    nothing_seen (r ∷ rows) = (refl, nothing_seen rows)

-- In each department's line, a requirement in use of somebody who is active and serves there now is
-- counted once, however many roles they hold there, and nothing else is; the line's counts are the
-- buckets of those, and only departments in scope have a line. The keys of the rows are different.
pub build_department_summary-owed_in :
    (dir : Directory) (u : Option User) (today : Date) (departments : List ℕ) (files : List File)
    (rows : List Row) (s : DepartmentSummary)
    → Distinct rows
    → Elem s (build_department_summary dir u today departments files rows)
    → Elem s.department (scope_departments dir u departments)
      × (s.requirements ≡ length (owed_in s.department rows))
      × (s.counts ≡ bucket_counts today (owed_in s.department rows))
unfolding build_department_summary
build_department_summary-owed_in dir u today departments files rows s distinct m =
    let shown = scope_departments dir u departments in
    let (d, n, e) = Elem-map _ shown s m in
    let same = grouped-owed_in shown d rows distinct (Elem-id_in shown d n) in
    subst
      (λ (x : DepartmentSummary).
        Elem x.department shown
        × (x.requirements ≡ length (owed_in x.department rows))
        × (x.counts ≡ bucket_counts today (owed_in x.department rows)))
      e (n, ap length same, ap (bucket_counts today) same)
