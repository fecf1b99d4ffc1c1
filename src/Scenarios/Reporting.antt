-- ===== src/Scenarios/Reporting.antt =====
-- Applications of the theorems on the dashboard and the compliance report.
use risk_management.Common.{
  Elem, inl, refl, ℕ, ◌≡◌, ◌↔◌, ◌≤◌, ◌+◌, none, some, false, [], ◌∷◌, map, length,
}
use risk_management.Calendar.{date}
use risk_management.Org.{Volunteer}
use risk_management.Access.Scope.{File}
use risk_management.Requirements.Instance.{RequirementInstance, not_started}
use risk_management.Reporting.{
  Row, VolunteerRow, Filters, build_buckets, counts, bucket_counts, instance_queryset,
  build_compliance_report,
}
use risk_management.Reporting.Partition.{counts-build_buckets}
use risk_management.Reporting.Compliance.{Met, build_compliance_report-Met}
use risk_management.Access.{scope_department_ids, grant_for}
use risk_management.Access.Scope.{scope_departments}
use risk_management.Reporting.Departments.{DepartmentSummary, build_department_summary}
use risk_management.Reporting.Departments.Lines.{owed_in, build_department_summary-owed_in}
use risk_management.Scenarios.{today, church, user, anna, serving, application, row}

abbrev everything : Filters
everything = record { department = none; role = none; requirement_type = none }

abbrev anna_serving : File
anna_serving = (anna, serving ∷ [])

abbrev late : RequirementInstance
late = record (row 101 10 not_started none) { due_on = some (date 2026 1 1) }

abbrev owed : Row
owed = record {
  instance = late;
  definition = application;
  file = anna_serving;
  sort_name = "lee anna";
}

counts-build_buckets_example :
    let qs = instance_queryset church (some (user 1)) everything (owed ∷ []) in
    let n = counts (build_buckets church (some (user 1)) everything today today (owed ∷ [])) in
    (n ≡ bucket_counts today (map (λ (r : Row). r.instance) qs))
    × (n.overdue + n.due_soon + n.outstanding + n.satisfied ≡ length qs)
counts-build_buckets_example =
    counts-build_buckets church (some (user 1)) everything today today (owed ∷ [])

abbrev late_row : VolunteerRow
late_row = record { file = anna_serving; instances = late ∷ [] }

build_compliance_report-Met_example :
    let r =
      build_compliance_report church
        (some (user 1))
        none
        false
        today
        (λ f. late ∷ [])
        (anna_serving ∷ []) in
    (Elem late_row r.compliant ↔ (Elem late_row r.rows × Met today late_row))
    × (length r.compliant + length r.non_compliant ≡ length r.rows)
    × ((n : ℕ) → r.compliance_rate ≡ some n → n ≤ 100)
build_compliance_report-Met_example =
    build_compliance_report-Met church (some (user 1)) none false today (λ f. late ∷ [])
      (anna_serving ∷ []) late_row

abbrev teenager : Volunteer
teenager = record anna { birth_year = some 2008; birth_month = some 9 }

-- The volunteer holds two roles in the department.
abbrev twice_serving : Row
twice_serving = record owed {
  file =
      (anna, serving ∷ record serving { pk = 81; role = record (serving.role) { pk = 71 } } ∷ []);
}

abbrev youth_line : DepartmentSummary
youth_line = record {
  department = 7;
  volunteers = 1;
  requirements = 1;
  counts = record { overdue = 1; due_soon = 0; outstanding = 0; satisfied = 0 };
  needs_action = 1;
}

build_department_summary-owed_in_example :
    Elem 7 (scope_departments church (some (user 2)) (7 ∷ 8 ∷ []))
    × (1 ≡ length (owed_in 7 (twice_serving ∷ [])))
    × (youth_line.counts ≡ bucket_counts today (owed_in 7 (twice_serving ∷ [])))
unfolding build_department_summary scope_department_ids grant_for
build_department_summary-owed_in_example =
    build_department_summary-owed_in church (some (user 2)) today (7 ∷ 8 ∷ [])
      (twice_serving.file ∷ []) (twice_serving ∷ []) youth_line (tt, tt) (inl refl)
