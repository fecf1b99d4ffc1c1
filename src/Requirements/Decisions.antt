-- ===== src/Requirements/Decisions.antt =====
-- What follows a Not Clear check, in apps/requirements/services.py: convictions and the permanent
-- disqualification, a leadership decision, and the recorded outcome.
use risk_management.Common.{
  ℕ, ◌+◌, Bool, false, ◌||◌, Option, none, some, List, [], ◌∷◌, ◌++◌, map, String, ◌==◌,
  if◌then◌else◌, is_blank, find, any, length,
}
use risk_management.Calendar.{Date}
use risk_management.Org.{disqualified, withdrawn, is_disqualified, active_roles, end_all}
use risk_management.Audit.{
  AuditAction, crc_recorded, override, crc_record, disqualifying_conviction, discretionary_override,
  volunteer,
}
use risk_management.Requirements.Instance.{RequirementInstance, blocked, is_outstanding}
use risk_management.Requirements.Records.{
  CrcRecord, is_cleared, NotClearOutcome, pending, fingerprint_submitted, withdrew,
  DisqualifyingConviction, Decision, approved, approved_with_conditions, declined,
  DiscretionaryOverride,
}
use risk_management.Requirements.Progress.{refuse_self}
use risk_management.Requirements.Crc.{put_crc_record, block_volunteer, lift_not_clear}
use risk_management.Review.{Snapshot, crc, override_kind}
use risk_management.Review.Recording.{open_if_unverified}
use risk_management.Audit
use risk_management.Tenant.{
  Tenant, Env, Result, ok, ◌>>=◌, ◌>>◌, refuse_if, or_raise, no_such_row, permanently_disqualified,
  not_a_not_clear_result, category_missing, automatic_not_overridable, override_incomplete, audit,
  entity,
}

abbrev pub crc_record_at : ℕ → Tenant → Option CrcRecord
crc_record_at k t = find (λ r. r.pk == k) t.crc_records

-- The keys of the roles in which the volunteer serves.
abbrev pub serving_roles : Tenant → List ℕ
serving_roles t = map (λ r. r.pk) (active_roles t.assignments)

-- One of `entries`; its texts are those that the rules look at.
pub record ConvictionEntry : Type 0 where
  pub category : String
  pub is_automatic_disqualifier : Bool

abbrev pub conviction_row : ℕ → ℕ → ConvictionEntry → DisqualifyingConviction
conviction_row pk check e = record {
  pk = pk;
  crc_record = check;
  category = e.category;
  is_automatic_disqualifier = e.is_automatic_disqualifier;
}

-- The loop over `entries`: every row gets the next key, or the first blank category stops it.
unfoldable pub conviction_rows :
    ℕ → ℕ → List ConvictionEntry → Result (List DisqualifyingConviction)
conviction_rows pk check [] = ok []
conviction_rows pk check (e ∷ entries) = do
  refuse_if (is_blank e.category) category_missing
  rest ← conviction_rows (pk + 1) check entries
  ok (conviction_row pk check e ∷ rest)

unfoldable pub block_outstanding : List RequirementInstance → List RequirementInstance
block_outstanding [] = []
block_outstanding (i ∷ rest) =
    (if is_outstanding i.status then record i { status = blocked } else i) ∷ block_outstanding rest

-- `_apply_permanent_disqualification`, which writes the block itself. Each save of an assignment,
-- and that of the volunteer, asks for a reconciliation.
unfoldable pub apply_permanent_disqualification : Env → Tenant → Tenant
unfolding block_outstanding
apply_permanent_disqualification env t =
    audit env Audit.disqualified (entity Audit.volunteer t.volunteer.pk) (record t {
      assignments = end_all env.today t.assignments;
      volunteer = record (t.volunteer) {
        screening_block = disqualified;
        screening_block_recorded_at = some env.now;
      };
      instances = block_outstanding t.instances;
      pending_syncs = t.pending_syncs + length (serving_roles t) + 1;
    })

abbrev pub decision_snapshot : Tenant → List ℕ → Snapshot
decision_snapshot t ended = record {
  instance_fields = none;
  screening_block = some t.volunteer.screening_block;
  superseded_by_id = none;
  ended_assignments = ended;
}

abbrev pub review_convictions :
    Env → ℕ → Snapshot → List DisqualifyingConviction → Tenant → Result Tenant
review_convictions env check before [] t = ok t
review_convictions env check before (c ∷ more) t =
    open_if_unverified env crc (entity disqualifying_conviction c.pk)
      (some (entity crc_record check)) before t

abbrev pub with_convictions : List DisqualifyingConviction → Tenant → Tenant
with_convictions created t = record t {
  convictions = t.convictions ++ created;
  next_pk = t.next_pk + length created;
}

unfoldable pub record_convictions : Env → ℕ → List ConvictionEntry → Tenant → Result Tenant
unfolding refuse_self conviction_rows apply_permanent_disqualification
record_convictions env check entries t = do
  refuse_self env t.volunteer
  r ← or_raise no_such_row (crc_record_at check t)
  refuse_if (is_cleared r.result) not_a_not_clear_result
  created ← conviction_rows t.next_pk check entries
  let automatic = any (λ (c : DisqualifyingConviction). c.is_automatic_disqualifier) created
  let u = with_convictions created t
  review_convictions env check (decision_snapshot t (if automatic then serving_roles t else []))
      created
      (if automatic
        then apply_permanent_disqualification env u
        else audit env crc_recorded (entity crc_record check) u)

abbrev conviction_at : Option ℕ → Tenant → Result (Option DisqualifyingConviction)
conviction_at none t = ok none
conviction_at (some k) t = do
  c ← or_raise no_such_row (find (λ (c : DisqualifyingConviction). c.pk == k) t.convictions)
  ok (some c)

abbrev is_automatic : Option DisqualifyingConviction → Bool
is_automatic none = false
is_automatic (some c) = c.is_automatic_disqualifier

-- What a decision says: its texts are mandatory.
pub record DecisionForm : Type 0 where
  pub decision : Decision
  pub decided_on : Date
  pub decided_by : String
  pub reasoning : String
  pub mitigation_steps : String

abbrev override_row : ℕ → ℕ → Option ℕ → DecisionForm → DiscretionaryOverride
override_row pk check conviction f = record {
  pk = pk;
  crc_record = check;
  conviction = conviction;
  decision = f.decision;
  decided_on = f.decided_on;
  decided_by = f.decided_by;
  reasoning = f.reasoning;
  mitigation_steps = f.mitigation_steps;
}

-- True where `DiscretionaryOverride.clean` refuses the row.
unfoldable pub override_refused : Option DisqualifyingConviction → DecisionForm → Bool
override_refused c f =
    is_blank f.reasoning
    || (is_blank f.mitigation_steps || (is_blank f.decided_by || is_automatic c))

abbrev pub end_assignments : Env → Tenant → Tenant
end_assignments env t = record t {
  assignments = end_all env.today t.assignments;
  pending_syncs = t.pending_syncs + length (serving_roles t);
}

-- A decline withdraws the volunteer and ends what they serve in; an approval lifts a Not Clear.
unfoldable pub enact : Env → Decision → Tenant → Result Tenant
enact env declined t = do u ← block_volunteer env withdrawn t; ok (end_assignments env u)
enact env approved t = lift_not_clear env t
enact env approved_with_conditions t = lift_not_clear env t

abbrev ended_by : Decision → Tenant → List ℕ
ended_by declined t = serving_roles t
ended_by _ t = []

unfoldable pub record_discretionary_override :
    Env → ℕ → Option ℕ → DecisionForm → Tenant → Result Tenant
unfolding refuse_self override_refused enact
record_discretionary_override env check conviction f t = do
  refuse_self env t.volunteer
  r ← or_raise no_such_row (crc_record_at check t)
  c ← conviction_at conviction t
  refuse_if (is_automatic c) automatic_not_overridable
  refuse_if (is_disqualified t.volunteer.screening_block) permanently_disqualified
  refuse_if (override_refused c f) override_incomplete
  let pk = t.next_pk
  u ← enact env f.decision (record t {
    overrides = t.overrides ++ override_row pk check conviction f ∷ [];
    next_pk = t.next_pk + 1;
  })
  open_if_unverified env override_kind (entity discretionary_override pk)
      (some (entity crc_record check)) (decision_snapshot t (ended_by f.decision t))
      (audit env override (entity discretionary_override pk) u)

unfoldable pub settle : Env → NotClearOutcome → Tenant → Result Tenant
settle env withdrew t = do u ← block_volunteer env withdrawn t; ok (end_assignments env u)
settle env pending t = ok t
settle env fingerprint_submitted t = ok t

unfoldable pub resolve_not_clear : Env → ℕ → NotClearOutcome → Tenant → Result Tenant
unfolding refuse_self settle
resolve_not_clear env check outcome t = do
  refuse_self env t.volunteer
  r ← or_raise no_such_row (crc_record_at check t)
  refuse_if (is_cleared r.result) not_a_not_clear_result
  u ← settle env outcome (record t {
    crc_records = put_crc_record (record r { not_clear_outcome = some outcome }) t.crc_records;
  })
  ok (audit env crc_recorded (entity crc_record check) u)
