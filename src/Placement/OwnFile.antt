-- ===== src/Placement/OwnFile.antt =====
-- Nobody screens themselves: the services of apps/requirements/services.py and
-- apps/documents/services.py that ask `refuse_self_recording`, and two that do not.
use risk_management.Common.{
  ℕ, ◌≡◌, ◌≢◌, refl, Bool, true, false, Option, none, some, List, String, is_blank,
}
use risk_management.Calendar.{Date}
use risk_management.Access.Self.{refuse_self_recording, SelfRefusal}
use risk_management.Requirements.Instance.{RequirementInstance, is_waived}
use risk_management.Requirements.Records.{CrcResult, NotClearOutcome}
use risk_management.Requirements.Progress.{
  refuse_self, mark_requirement_complete, waive_requirement, start_requirement, reverse_waiver,
  reversal_saved, save_started, started,
}
use risk_management.Requirements.Crc.{record_crc}
use risk_management.Requirements.Decisions.{
  ConvictionEntry, DecisionForm, record_convictions, record_discretionary_override,
  resolve_not_clear,
}
use risk_management.Documents.{Document}
use risk_management.Documents.Crypto.{Aead}
use risk_management.Documents.Store.{Paperwork, Storage, store_document}
use risk_management.Tenant.{Tenant, Env, Result, ok, ◌>>=◌, ◌>>◌, instance_at}
use risk_management.Tenant.Outcome.{
  Returns, Returns-bind, Returns-chain, Returns-stop, raised-Returns,
}

-- A call of a service that asks the rule, with its arguments.
pub data GuardedCall : Type 0 where
  marking_complete : ℕ → Date → String → Bool → GuardedCall
  waiving_requirement : ℕ → String → String → GuardedCall
  recording_crc : CrcResult → Date → Bool → Bool → GuardedCall
  recording_convictions : ℕ → List ConvictionEntry → GuardedCall
  recording_override : ℕ → Option ℕ → DecisionForm → GuardedCall
  resolving_outcome : ℕ → NotClearOutcome → GuardedCall
  storing_document : Storage → Paperwork → GuardedCall

module _ (cipher : Aead) (digest : List ℕ → String) (fields_valid : Document → Bool) where
  unfoldable pub called : Env → GuardedCall → Tenant → Result Tenant
  called env (marking_complete k on notes review) t =
      mark_requirement_complete env k on notes review t
  called env (waiving_requirement k reason by) t = waive_requirement env k reason by t
  called env (recording_crc result on sector fingerprint) t =
      record_crc env result on sector fingerprint t
  called env (recording_convictions check entries) t = record_convictions env check entries t
  called env (recording_override check conviction form) t =
      record_discretionary_override env check conviction form t
  called env (resolving_outcome check outcome) t = resolve_not_clear env check outcome t
  called env (storing_document s p) t = do
    r ← store_document cipher digest fields_valid env s p t
    ok r.0

  abbrev Never : {A : Type 0} → A → Type 0
  Never a = ⊥

  module _ (env : Env) (t : Tenant) (why : SelfRefusal)
      (own : refuse_self_recording env.directory env.actor t.volunteer ≡ some why) where
    refuses : Returns Never (refuse_self env t.volunteer)
    unfolding refuse_self
    refuses = rw own (raised-Returns Never _)

    stores_nothing :
        (s : Storage) (p : Paperwork)
        → Returns Never (store_document cipher digest fields_valid env s p t)
    unfolding store_document
    stores_nothing s p = Returns-stop Never _ _ refuses

    called_refused : (call : GuardedCall) → Returns Never (called env call t)
    unfolding called mark_requirement_complete waive_requirement record_crc record_convictions
        record_discretionary_override resolve_not_clear
    called_refused (marking_complete k on notes review) =
        Returns-bind Never _ _ λ p. Returns-stop Never _ _ refuses
    called_refused (waiving_requirement k reason by) =
        Returns-bind Never _ _ λ p. Returns-stop Never _ _ refuses
    called_refused (recording_crc result on sector fingerprint) = Returns-stop Never _ _ refuses
    called_refused (recording_convictions check entries) = Returns-stop Never _ _ refuses
    called_refused (recording_override check conviction form) = Returns-stop Never _ _ refuses
    called_refused (resolving_outcome check outcome) = Returns-stop Never _ _ refuses
    called_refused (storing_document s p) =
        Returns-chain Never Never _ _ (stores_nothing s p) λ r never. absurd never

    -- Where the self-recording rule refuses the actor, who is on their own file, none of the seven
    -- services that ask it succeeds, whatever its arguments: a completion, a waiver, a check, its
    -- convictions, a decision on it, its outcome, and a document.
    pub own_file_refused : (call : GuardedCall) (u : Tenant) → called env call t ≢ ok u
    own_file_refused call u e = (called_refused call).at u e

pub own_file_unasked :
    (env : Env) (t : Tenant) (why : SelfRefusal) (k : ℕ) (i : RequirementInstance) (reason : String)
    → refuse_self_recording env.directory env.actor t.volunteer ≡ some why
    → instance_at k t.instances ≡ some i
    → is_waived i.status ≡ true
    → is_blank reason ≡ false
    → ((u : Tenant) × (reverse_waiver env k reason none t ≡ ok u))
      × ((u : Tenant) × (start_requirement env k t ≡ ok u))
unfolding reverse_waiver start_requirement ◌>>=◌ ◌>>◌
own_file_unasked env t why k i reason own found waived said = (
  (reversal_saved env k none i t, rw (found, waived, said) refl),
  (save_started env k (started env.today i i.status) t, rw found refl),
)
