-- ===== src/Scenarios/Sync.antt =====
-- Applications of the theorems on reconciliation.
use risk_management.Common.{◌≡◌, refl, true, some, [], ◌∷◌, inl, inr, any, ◌==◌, if◌then◌else◌}
use risk_management.Calendar.{date}
use risk_management.Requirements.Definition.{applies_to_volunteer, is_age_exempt}
use risk_management.Requirements.Instance.{complete}
use risk_management.Requirements.Gate.{instance_for, unmet_prerequisite, prerequisite_deadline}
use risk_management.Requirements.Reconcile.{change_for}
use risk_management.Requirements.Sync.Idle.{sync-no_roles, retired_row}
use risk_management.Requirements.Sync.Complete.{sync-Listed, Listed}
use risk_management.Tenant.{Tenant}
use risk_management.Requirements.Sync.{sync_volunteer_requirements, active_definitions}
use risk_management.Requirements.Sync.History.{Survives, sync-Survives}
use risk_management.Tenant.Rows.{WellKeyed, append-WellKeyed, empty-WellKeyed}
use risk_management.Scenarios.{today, request, anna_file, row, orientation, refresher}

pub anna_file-WellKeyed : WellKeyed anna_file.next_pk anna_file.instances
anna_file-WellKeyed =
    append-WellKeyed 102 _ _
      (append-WellKeyed 101 _ _ (append-WellKeyed 100 _ [] (empty-WellKeyed 100) refl) refl) refl

sync-Survives_example :
    let u = (sync_volunteer_requirements request today true anna_file).0 in
    WellKeyed u.next_pk u.instances × Survives anna_file.instances u.instances
sync-Survives_example = sync-Survives request today true anna_file anna_file-WellKeyed

-- A refresher that waits for the orientation, which is done.
abbrev trained_file : Tenant
trained_file = record anna_file {
  definitions = orientation ∷ refresher ∷ [];
  instances = row 100 12 complete (some (date 2025 2 1)) ∷ [];
}

abbrev once : Tenant
once = (sync_volunteer_requirements request today true trained_file).0

-- The first pass creates its row without a deadline, and the second pass writes the deadline.
second_pass : (sync_volunteer_requirements request today true once).1.updated ≡ 1
unfolding sync_volunteer_requirements change_for applies_to_volunteer is_age_exempt
    unmet_prerequisite prerequisite_deadline
second_pass = refl

abbrev idle_file : Tenant
idle_file = record anna_file { assignments = [] }

sync-no_roles_example :
    instance_for 12 ((sync_volunteer_requirements request today true idle_file).0).instances ≡ (
      if any (λ d. d.pk == 12) (active_definitions idle_file)
      then retired_row (instance_for 12 idle_file.instances)
      else instance_for 12 idle_file.instances)
sync-no_roles_example = sync-no_roles request today true idle_file 12 anna_file-WellKeyed refl

sync-Listed_example :
    Listed 13 ((sync_volunteer_requirements request today true anna_file).0).instances
unfolding applies_to_volunteer
sync-Listed_example =
    sync-Listed request today true anna_file refresher anna_file-WellKeyed
      (inr (inr (inr (inl refl)))) refl refl
