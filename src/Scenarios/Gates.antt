-- ===== src/Scenarios/Gates.antt =====
-- Applications of the theorems on the gates.
use risk_management.Common.{◌≡◌, refl, true, false, ◌||◌, some, String}
use risk_management.Gates.{
  SignedIn, Bound, View, exempt_from_passkey, exempt_from_key_backup, respond, follow,
  force_passkey, force_key_backup, process_view, passkey_required,
}
use risk_management.Gates.Passed.{respond-view_runs}
use risk_management.Gates.Loop.{follow_never_arrives, newcomer, new_church, is_redirect}

abbrev settled_church : Bound
settled_church = record { key_backup_pending = false }

abbrev enrolled : SignedIn
enrolled = record { has_passkey = true }

abbrev declared : String → View
declared path = record { vms_public = false; has_vms_capabilities = true }

respond-view_runs_example :
    ((false || true) ≡ true)
    × ((true || exempt_from_passkey "/volunteers/") ≡ true)
    × ((true || exempt_from_key_backup "/volunteers/") ≡ true)
unfolding respond force_passkey force_key_backup process_view exempt_from_passkey
    exempt_from_key_backup
respond-view_runs_example = respond-view_runs settled_church declared "/volunteers/" enrolled refl

follow_never_arrives_example :
    (is_redirect (follow 20 (some new_church) declared (newcomer "/volunteers/")) ≡ true)
    × (is_redirect (follow 20 (some new_church) declared (newcomer passkey_required)) ≡ true)
unfolding exempt_from_passkey
follow_never_arrives_example = follow_never_arrives 20 declared "/volunteers/" refl
