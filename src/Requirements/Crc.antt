-- ===== src/Requirements/Crc.antt =====
-- `record_crc` of apps/requirements/services.py, and the blocks and assignments that the decisions
-- on a check move.
use risk_management.Common.{
  ℕ, ◌+◌, Bool, false, ◌&&◌, Option, none, some, List, [], ◌∷◌, ◌++◌, ◌==◌, ltb, if◌then◌else◌,
  is_none, select,
}
use risk_management.Calendar.{Date, before}
use risk_management.Org.{
  ScreeningBlock, not_blocked, crc_not_clear, is_disqualified, is_crc_not_clear,
  set_screening_block,
}
use risk_management.Audit.{crc_recorded, crc_record, requirement_instance}
use risk_management.Requirements.Definition.{RequirementDefinition, definition_at, is_crc}
use risk_management.Requirements.Instance.{RequirementInstance, complete, blocked, no_due_reason}
use risk_management.Requirements.Records.{
  CrcRecord, CrcResult, cleared, not_clear, NotClearOutcome, pending, crc_expires_on,
}
use risk_management.Requirements.Progress.{refuse_self, refresh_dependents, save}
use risk_management.Review.{Entity, InstanceSnapshot, Snapshot, crc, snapshot}
use risk_management.Review.Recording.{open_if_unverified}
use risk_management.Tenant.{
  Tenant, Env, Result, ok, ◌>>=◌, ◌>>◌, refuse_if, or_raise, in_the_future,
  permanently_disqualified, disqualification_is_permanent, audit, entity,
}

abbrev is_crc_row : List RequirementDefinition → RequirementInstance → Bool
is_crc_row table i = elim (definition_at table i.definition_id) [
  | none ↦ false
  | some d ↦ is_crc d && d.is_active
]

abbrev sequence_of : List RequirementDefinition → RequirementInstance → ℕ
sequence_of table i = elim (definition_at table i.definition_id) [ none ↦ 0 | some d ↦ d.sequence ]

abbrev lower :
    List RequirementDefinition
    → RequirementInstance
    → Option RequirementInstance
    → Option RequirementInstance
lower table i none = some i
lower table i (some j) = if ltb (sequence_of table j) (sequence_of table i) then some j else some i

-- The row of the lowest sequence, the first of several.
unfoldable pub least_sequence :
    List RequirementDefinition → List RequirementInstance → Option RequirementInstance
least_sequence table [] = none
least_sequence table (i ∷ rest) = lower table i (least_sequence table rest)

unfoldable pub crc_instance_for :
    List RequirementDefinition → List RequirementInstance → Option RequirementInstance
unfolding least_sequence
crc_instance_for table rows = least_sequence table (select (is_crc_row table) rows)

abbrev newer : CrcRecord → Option CrcRecord → Option CrcRecord
newer r none = some r
newer r (some s) = if before r.report_date s.report_date then some s else some r

-- The check of the latest report date, the first of several.
unfoldable pub latest : List CrcRecord → Option CrcRecord
latest [] = none
latest (r ∷ rest) = newer r (latest rest)

-- `CRCRecord.objects.filter(superseded_by__isnull=True).order_by("-report_date").first()`, before
-- the new check is in the table.
abbrev pub current_check : List CrcRecord → Option CrcRecord
current_check records = latest (select (λ r. is_none r.superseded_by) records)

unfoldable pub put_crc_record : CrcRecord → List CrcRecord → List CrcRecord
put_crc_record r [] = []
put_crc_record r (x ∷ xs) = (if x.pk == r.pk then r else x) ∷ put_crc_record r xs

abbrev superseded_check : ℕ → Option CrcRecord → List CrcRecord → List CrcRecord
superseded_check pk none records = records
superseded_check pk (some r) records = put_crc_record (record r { superseded_by = some pk }) records

abbrev first_outcome : CrcResult → Option NotClearOutcome
first_outcome cleared = none
first_outcome not_clear = some pending

abbrev pub check_row : ℕ → CrcResult → Date → Bool → Bool → CrcRecord
check_row pk result report_date sector fingerprint = record {
  pk = pk;
  result = result;
  report_date = report_date;
  includes_vulnerable_sector = sector;
  is_fingerprint_verified = fingerprint;
  not_clear_outcome = first_outcome result;
  superseded_by = none;
}

-- The requirement's row under a result.
unfoldable pub checked_row : CrcResult → Date → RequirementInstance → RequirementInstance
unfolding crc_expires_on
checked_row cleared report_date i = record i {
  completed_on = some report_date;
  expires_on = some (crc_expires_on report_date);
  status = complete;
  due_on = none;
  due_reason = no_due_reason;
}
checked_row not_clear report_date i = record i {
  status = blocked;
  completed_on = none;
  expires_on = none;
}

abbrev pub save_checked : Env → CrcResult → Date → Option RequirementInstance → Tenant → Tenant
save_checked env result report_date none t = t
save_checked env result report_date (some i) t =
    refresh_dependents env i.definition_id (save (checked_row result report_date i) t)

-- `volunteer.set_screening_block(block)`, and the receiver of the save.
unfoldable pub block_volunteer : Env → ScreeningBlock → Tenant → Result Tenant
unfolding set_screening_block
block_volunteer env block t = do
  v ← or_raise disqualification_is_permanent (set_screening_block env.now block t.volunteer)
  ok (record t { volunteer = v; pending_syncs = t.pending_syncs + 1 })

-- A block that waits on a check is lifted; any other stands.
unfoldable pub lift_not_clear : Env → Tenant → Result Tenant
unfolding block_volunteer
lift_not_clear env t =
    if is_crc_not_clear t.volunteer.screening_block then block_volunteer env not_blocked t else ok t

abbrev pub block_for : Env → CrcResult → Tenant → Result Tenant
block_for env cleared t = lift_not_clear env t
block_for env not_clear t = block_volunteer env crc_not_clear t

abbrev fields_of : Option RequirementInstance → Option InstanceSnapshot
fields_of none = none
fields_of (some i) = some (snapshot i)

abbrev key_of : Option CrcRecord → Option ℕ
key_of none = none
key_of (some r) = some r.pk

abbrev pub affected_by : Option RequirementInstance → Option Entity
affected_by none = none
affected_by (some i) = some (entity requirement_instance i.pk)

abbrev pub crc_snapshot : Tenant → Option RequirementInstance → Snapshot
crc_snapshot t i = record {
  instance_fields = fields_of i;
  screening_block = some t.volunteer.screening_block;
  superseded_by_id = key_of (current_check t.crc_records);
  ended_assignments = [];
}

-- The new check is in the table, and the one it supersedes points to it.
abbrev pub filed : CrcRecord → Tenant → Tenant
filed r t = record t {
  crc_records = superseded_check r.pk (current_check t.crc_records) t.crc_records ++ r ∷ [];
  next_pk = t.next_pk + 1;
}

unfoldable pub record_crc : Env → CrcResult → Date → Bool → Bool → Tenant → Result Tenant
unfolding refuse_self checked_row
record_crc env result report_date sector fingerprint t = do
  refuse_self env t.volunteer
  refuse_if (before env.today report_date) in_the_future
  refuse_if (is_disqualified t.volunteer.screening_block) permanently_disqualified
  let i = crc_instance_for t.definitions t.instances
  let pk = t.next_pk
  let u = filed (check_row pk result report_date sector fingerprint) t
  w ← block_for env result (save_checked env result report_date i u)
  open_if_unverified env crc (entity crc_record pk) (affected_by i) (crc_snapshot t i)
      (audit env crc_recorded (entity crc_record pk) w)
