-- ===== src/Reporting/Departments.antt =====
-- `build_department_summary` of apps/reporting/services.py: for each active department in scope, the
-- volunteers who serve there and the requirements of theirs. The join has a row for each instance and
-- each assignment, in the order of the instances.
pub mod Once
pub mod Lines
use risk_management.Common.{
  ℕ, ◌+◌, Bool, true, false, not, ◌&&◌, Option, some, List, [], ◌∷◌, ◌++◌, map, ◌==◌, if◌then◌else◌,
  any, select, length,
}
use risk_management.Calendar.{Date}
use risk_management.Org.{Assignment}
use risk_management.Access.{User, Directory}
use risk_management.Access.Scope.{File, id_in, scope_departments}
use risk_management.Requirements.Instance.{RequirementInstance}
use risk_management.Reporting.{Row, Counts, serves, bucket_counts}

-- A row of the join: `served_department_id`, and the instance.
abbrev pub Served : Type 0
Served = ℕ × RequirementInstance

abbrev pub in_department : ℕ → Assignment → Bool
in_department d a = a.role.department == d

-- The departments of a volunteer's current assignments, of those asked for.
abbrev pub served_departments : List ℕ → List Assignment → List ℕ
served_departments departments assignments =
    map (λ (a : Assignment). a.role.department)
      (select (λ (a : Assignment). a.is_active && id_in departments a.role.department) assignments)

abbrev pub fanned : List ℕ → RequirementInstance → List Served
fanned departments i = map (λ d. (d, i)) departments

unfoldable pub joined : List ℕ → List Row → List Served
joined departments [] = []
joined departments (r ∷ rows) =
    let rest = joined departments rows in
    if r.definition.is_active && r.file.0.is_active
    then fanned (served_departments departments r.file.1) r.instance ++ rest
    else rest

abbrev pub has_key : List (ℕ × ℕ) → ℕ → ℕ → Bool
has_key seen d k = any (λ (s : ℕ × ℕ). (s.0 == d) && (s.1 == k)) seen

-- The loop that leaves out what it has seen.
unfoldable pub kept : List (ℕ × ℕ) → List Served → List Served
kept seen [] = []
kept seen ((d, i) ∷ rows) =
    let rest = kept seen rows in
    let more = kept ((d, i.pk) ∷ seen) rows in if has_key seen d i.pk then rest else (d, i) ∷ more

-- `grouped[d]`
abbrev pub of_department : ℕ → List Served → List RequirementInstance
of_department d rows = map (λ (s : Served). s.1) (select (λ (s : Served). s.0 == d) rows)

unfoldable pub grouped : List ℕ → List Row → ℕ → List RequirementInstance
unfolding joined kept
grouped departments rows d = of_department d (kept [] (joined departments rows))

pub record DepartmentSummary : Type 0 where
  pub department : ℕ
  pub volunteers : ℕ
  pub requirements : ℕ
  pub counts : Counts
  pub needs_action : ℕ

-- The count of the annotation: each file is one volunteer.
abbrev serving_in : ℕ → List File → ℕ
serving_in d files =
    length (select (λ (f : File). f.0.is_active && serves (in_department d) f) files)

abbrev summary_of : ℕ → ℕ → List RequirementInstance → Counts → DepartmentSummary
summary_of d volunteers here n = record {
  department = d;
  volunteers = volunteers;
  requirements = length here;
  counts = n;
  needs_action = n.overdue + n.outstanding;
}

-- `departments` are the active ones.
unfoldable pub build_department_summary :
    Directory → Option User → Date → List ℕ → List File → List Row → List DepartmentSummary
unfolding scope_departments grouped bucket_counts
build_department_summary dir u today departments files rows =
    let shown = scope_departments dir u departments in
    map
      (λ d.
        summary_of d (serving_in d files) (grouped shown rows d)
          (bucket_counts today (grouped shown rows d)))
      shown
