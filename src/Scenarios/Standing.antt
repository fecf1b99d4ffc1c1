-- ===== src/Scenarios/Standing.antt =====
-- Applications of the theorems on the standing of a row.
use risk_management.Common.{◌≡◌, refl, none, some, arith, false, [], ◌∷◌, inl}
use risk_management.Calendar.{date}
use risk_management.Requirements.Instance.{
  RequirementInstance, not_started, complete, bucket, recompute,
}
use risk_management.Requirements.Standing.{bucket-recompute}
use risk_management.Calendar.{passed}
use risk_management.Requirements.Nightly.{recompute_all_statuses}
use risk_management.Requirements.Definition.{applies_to_volunteer, is_age_exempt}
use risk_management.Requirements.Reconcile.{change_for}
use risk_management.Requirements.Sync.{sync_volunteer_requirements}
use risk_management.Requirements.Sweep.{sweep_file, sweep_file_late}
use risk_management.Tenant.{Tenant}
use risk_management.Scenarios.{today, request, row, application, anna_file}

abbrev expired : RequirementInstance
expired = record (row 100 10 complete (some (date 2022 2 1))) { expires_on = some (date 2025 2 1) }

bucket-recompute_example : bucket today (recompute today expired) ≡ bucket today expired
bucket-recompute_example = bucket-recompute today expired (λ e. ground (arith, e))

abbrev late : RequirementInstance
late = record (row 101 10 not_started none) { due_on = some (date 2026 1 1) }

abbrev upcoming : RequirementInstance
upcoming = record (row 101 10 not_started none) { due_on = some (date 2026 9 1) }

abbrev dated_file : Tenant
dated_file = record anna_file { definitions = application ∷ []; instances = upcoming ∷ [] }

sweep_file_late_example : passed upcoming.due_on today ≡ false
unfolding sweep_file recompute_all_statuses sync_volunteer_requirements change_for
    applies_to_volunteer is_age_exempt
sweep_file_late_example = sweep_file_late request today dated_file upcoming refl (inl refl) refl
