-- ===== src/Review/SendBack.antt =====
-- Sending an entry back, in apps/review/services.py: one handler for each kind, and what it undoes.
use risk_management.Common.{
  ℕ, Bool, true, false, not, ◌||◌, Option, none, some, List, [], ◌∷◌, ◌++◌, String, ◌==◌,
  if◌then◌else◌, find, any, is_some, is_blank,
}
use risk_management.Calendar.{Date}
use risk_management.Org.{is_disqualified}
use risk_management.Audit.{
  EntityType, disqualifying_conviction, crc_record, review_sent_back, crc_not_affirmed,
}
use risk_management.Access.{User}
use risk_management.Requirements.Instance.{RequirementInstance, DueReason, is_complete, is_waived}
use risk_management.Requirements.Records.{CrcRecord, DisqualifyingConviction, DiscretionaryOverride}
use risk_management.Requirements.Progress.{reverse_waiver}
use risk_management.Requirements.Crc.{put_crc_record, lift_not_clear}
use risk_management.Requirements.Decisions.{crc_record_at}
use risk_management.Review.{
  ReviewItem, ReviewKind, requirement_completion, document_kind, crc, waiver, override_kind,
  sent_back, InstanceSnapshot,
}
use risk_management.Review.Decide.{
  require_reviewer, close, review_at, save_review, instance_from, restore_from_snapshot, Kept,
  requirement_not_found, requirement_moved_on, document_retained, convictions_retained,
  disqualification_stands, check_not_found, check_carries_decisions, check_replaced, check_retained,
  waiver_gone, decision_retained, assignments_ended, Outcome,
}
use risk_management.Documents.{Document}
use risk_management.Tenant.{
  Tenant, Env, Result, ok, ◌>>=◌, ◌>>◌, refuse_if, or_raise, no_such_row, reason_missing, audit,
  entity,
}

abbrev pub stands : List Kept → Outcome
stands kept = record { reverted = false; kept = kept }

abbrev pub undone : List Kept → Outcome
undone kept = record { reverted = true; kept = kept }

abbrev pub completion_of : Env → ReviewItem → Option RequirementInstance → Tenant → Tenant × Outcome
completion_of env item none t = (t, stands (requirement_not_found ∷ []))
completion_of env item (some i) t =
    if not (is_complete i.status)
    then (t, stands (requirement_moved_on ∷ []))
    else (restore_from_snapshot env item.before_state i t, undone [])

-- `_send_back_completion`
unfoldable pub send_back_completion : Env → ReviewItem → Tenant → Tenant × Outcome
unfolding restore_from_snapshot instance_from
send_back_completion env item t = completion_of env item (instance_from item t.instances) t

unfoldable pub put_document : Document → List Document → List Document
put_document d [] = []
put_document d (x ∷ xs) = (if x.pk == d.pk then d else x) ∷ put_document d xs

abbrev pub retire_document : Option Document → Tenant → Tenant × List Kept
retire_document none t = (t, [])
retire_document (some d) t =
    if d.is_current
    then (
      record t { documents = put_document (record d { is_current = false }) t.documents },
      document_retained ∷ [],
    )
    else (t, [])

abbrev pub document_of :
    Env → ReviewItem → Option RequirementInstance → List Kept → Tenant → Tenant × Outcome
document_of env item none kept t = (t, stands kept)
document_of env item (some i) kept t =
    (restore_from_snapshot env item.before_state i t, undone kept)

-- `_send_back_document`
unfoldable pub send_back_document : Env → ReviewItem → Tenant → Tenant × Outcome
unfolding restore_from_snapshot instance_from put_document
send_back_document env item t =
    let (u, kept) =
      retire_document (find (λ (d : Document). d.pk == item.entity.entity_id) t.documents) t in
    document_of env item (instance_from item u.instances) kept u

abbrev pub ended_note : List ℕ → List Kept
ended_note [] = []
ended_note (r ∷ rest) = assignments_ended (r ∷ rest) ∷ []

abbrev pub conviction_notes : ReviewItem → Tenant → List Kept
conviction_notes item t =
    convictions_retained
    ∷ ((if is_disqualified t.volunteer.screening_block then disqualification_stands ∷ [] else [])
        ++ ended_note item.before_state.ended_assignments)

abbrev pub carries_decisions : CrcRecord → Tenant → Bool
carries_decisions r t =
    any (λ (c : DisqualifyingConviction). c.crc_record == r.pk) t.convictions
    || any (λ (o : DiscretionaryOverride). o.crc_record == r.pk) t.overrides

abbrev pub restore_instance : Env → ReviewItem → Option RequirementInstance → Tenant → Tenant
restore_instance env item none t = t
restore_instance env item (some i) t = restore_from_snapshot env item.before_state i t

abbrev reinstated : Option CrcRecord → List CrcRecord → List CrcRecord
reinstated none rows = rows
reinstated (some r) rows = put_crc_record (record r { superseded_by = none }) rows

-- `CRCRecord.objects.filter(pk=previous_id).update(superseded_by=None)`
abbrev pub reinstate_previous : Option ℕ → Tenant → Tenant
reinstate_previous none t = t
reinstate_previous (some k) t = record t {
  crc_records = reinstated (crc_record_at k t) t.crc_records;
}

abbrev pub retract : Env → ReviewItem → CrcRecord → Tenant → Result (Tenant × Outcome)
retract env item r t = do
  u ← lift_not_clear env (
      reinstate_previous item.before_state.superseded_by_id
        (restore_instance env item (instance_from item t.instances) t))
  ok (audit env crc_not_affirmed (entity crc_record r.pk) u, undone (check_retained ∷ []))

abbrev pub crc_of : Env → ReviewItem → Option CrcRecord → Tenant → Result (Tenant × Outcome)
crc_of env item none t = ok (t, stands (check_not_found ∷ []))
crc_of env item (some r) t =
    if carries_decisions r t
    then ok (t, stands (check_carries_decisions ∷ []))
    else if is_some r.superseded_by
    then ok (t, stands (check_replaced ∷ []))
    else retract env item r t

abbrev names_conviction : EntityType → Bool
names_conviction disqualifying_conviction = true
names_conviction _ = false

-- `_send_back_crc`
unfoldable pub send_back_crc : Env → ReviewItem → Tenant → Result (Tenant × Outcome)
unfolding restore_from_snapshot instance_from put_crc_record lift_not_clear
send_back_crc env item t =
    if names_conviction item.entity.entity_type
    then ok (t, stands (conviction_notes item t))
    else crc_of env item (crc_record_at item.entity.entity_id t) t

abbrev due_before : Option InstanceSnapshot → Option (Option Date × DueReason)
due_before none = none
due_before (some s) = some (s.due_on, s.due_reason)

abbrev pub waiver_of :
    Env → ReviewItem → String → Option RequirementInstance → Tenant → Result (Tenant × Outcome)
waiver_of env item reason none t = ok (t, stands (requirement_not_found ∷ []))
waiver_of env item reason (some i) t =
    if not (is_waived i.status) then ok (t, stands (waiver_gone ∷ [])) else do
      u ← reverse_waiver env i.pk reason (due_before item.before_state.instance_fields) t
      ok (u, undone [])

-- `_send_back_waiver`
unfoldable pub send_back_waiver : Env → ReviewItem → String → Tenant → Result (Tenant × Outcome)
unfolding instance_from reverse_waiver
send_back_waiver env item reason t = waiver_of env item reason (instance_from item t.instances) t

-- `_send_back_override`
unfoldable pub send_back_override : ReviewItem → Tenant → Tenant × Outcome
send_back_override item t =
    (t, stands (decision_retained ∷ ended_note item.before_state.ended_assignments))

unfoldable pub handler : Env → ReviewItem → String → ReviewKind → Tenant → Result (Tenant × Outcome)
unfolding send_back_completion send_back_document send_back_crc send_back_waiver send_back_override
handler env item reason requirement_completion t = ok (send_back_completion env item t)
handler env item reason document_kind t = ok (send_back_document env item t)
handler env item reason crc t = send_back_crc env item t
handler env item reason waiver t = send_back_waiver env item reason t
handler env item reason override_kind t = ok (send_back_override item t)

unfoldable pub send_back : Env → User → ℕ → String → Tenant → Result (Tenant × Outcome)
unfolding handler require_reviewer close
send_back env by k reason t = do
  i ← or_raise no_such_row (review_at k t)
  require_reviewer env.directory by i
  refuse_if (is_blank reason) reason_missing
  r ← handler env i reason i.kind t
  c ← close env sent_back by reason i
  ok (audit env review_sent_back i.entity (save_review c r.0), r.1)
