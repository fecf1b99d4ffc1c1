-- ===== src/Placement/Operation.antt =====
-- The operations on one volunteer's file, each as a transaction that commits.
use risk_management.Common.{ℕ, ◌≡◌, Bool, false, Option, List, String}
use risk_management.Calendar.{Date}
use risk_management.Org.{Role}
use risk_management.Access.{User}
use risk_management.Requirements.Instance.{DueReason}
use risk_management.Requirements.Records.{CrcResult, NotClearOutcome}
use risk_management.Requirements.Sync.{sync_volunteer_requirements}
use risk_management.Requirements.Progress.{
  mark_requirement_complete, start_requirement, waive_requirement, reverse_waiver,
}
use risk_management.Requirements.Crc.{record_crc}
use risk_management.Requirements.Decisions.{
  ConvictionEntry, DecisionForm, record_convictions, record_discretionary_override,
  resolve_not_clear,
}
use risk_management.Requirements.Commit.{commit}
use risk_management.Review.Decide.{affirm}
use risk_management.Review.SendBack.{send_back}
use risk_management.Tenant.{Tenant, Env, Result, ok, ◌>>=◌, ◌>>◌}
use risk_management.Placement.{
  writable_volunteer, assignment_create, assignment_end, volunteer_reactivate,
}
use risk_management.Placement.Leaving.{volunteer_deactivate}

pub data Operation : Type 0 where
  completing : ℕ → Date → String → Bool → Operation
  starting : ℕ → Operation
  waiving : ℕ → String → String → Operation
  reversing : ℕ → String → Option (Option Date × DueReason) → Operation
  checking : CrcResult → Date → Bool → Bool → Operation
  convicting : ℕ → List ConvictionEntry → Operation
  deciding : ℕ → Option ℕ → DecisionForm → Operation
  resolving : ℕ → NotClearOutcome → Operation
  placing : User → List Role → ℕ → Option Date → Operation
  ending : User → ℕ → Option Date → Operation
  leaving : User → Option Date → Bool → Operation
  reactivating : User → Operation
  reconciling : User → Operation
  affirming : User → ℕ → Operation
  sending_back : User → ℕ → String → Operation

-- `volunteer_resync` of apps/org/views.py
unfoldable pub volunteer_resync : Env → User → Tenant → Result Tenant
unfolding writable_volunteer
volunteer_resync env u t = do
  writable_volunteer env u t
  ok (sync_volunteer_requirements env env.today false t).0

unfoldable pub run : Env → Operation → Tenant → Result Tenant
unfolding volunteer_resync
run env (completing k on notes review) t = mark_requirement_complete env k on notes review t
run env (starting k) t = start_requirement env k t
run env (waiving k reason by) t = waive_requirement env k reason by t
run env (reversing k reason due) t = reverse_waiver env k reason due t
run env (checking result on sector fingerprint) t = record_crc env result on sector fingerprint t
run env (convicting check entries) t = record_convictions env check entries t
run env (deciding check conviction form) t =
    record_discretionary_override env check conviction form t
run env (resolving check outcome) t = resolve_not_clear env check outcome t
run env (placing u roles role on) t = assignment_create env u roles role on t
run env (ending u k on) t = assignment_end env u k on t
run env (leaving u on end_assignments) t = volunteer_deactivate env u on end_assignments t
run env (reactivating u) t = volunteer_reactivate env u t
run env (reconciling u) t = volunteer_resync env u t
run env (affirming u k) t = affirm env u k t
run env (sending_back u k reason) t = do r ← send_back env u k reason t; ok r.0

unfoldable pub perform : Env → Operation → Tenant → Result Tenant
unfolding run commit
perform env op t = do u ← run env op t; ok (commit env u)

-- A history of operations that succeeded; each has its own request.
pub data History : Tenant → Tenant → Type 0 where
  start : {t : Tenant} → History t t
  next :
      {t u v : Tenant} (env : Env) (op : Operation)
      → perform env op t ≡ ok u
      → History u v
      → History t v
