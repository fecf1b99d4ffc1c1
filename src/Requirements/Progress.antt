-- ===== src/Requirements/Progress.antt =====
-- Recording progress, in apps/requirements/services.py: completing, starting and waiving a
-- requirement, and reversing a waiver. The instance is named by its key and read from the table.
use risk_management.Common.{
  ℕ, Bool, true, not, ◌&&◌, Option, none, some, List, [], String, if◌then◌else◌, is_blank, is_some,
  any, same_id,
}
use risk_management.Calendar.{Date, before}
use risk_management.Org.{Volunteer}
use risk_management.Audit.{status_change, waive, waiver_reversed, requirement_instance}
use risk_management.Access.Self.{refuse_self_recording, SelfRefusal}
use risk_management.Requirements.Definition.{RequirementDefinition, definition_at, is_crc, is_gate}
use risk_management.Requirements.Instance.{
  RequirementInstance, RequirementStatus, not_started, in_progress, complete, overdue, waived,
  DueReason, no_due_reason, is_blocked, is_waived, mark_complete, recompute,
}
use risk_management.Requirements.Sync.{sync_volunteer_requirements}
use risk_management.Review.{Snapshot, requirement_completion, waiver, snapshot}
use risk_management.Review.Recording.{open_if_unverified}
use risk_management.Tenant.{
  Tenant, Env, Result, ok, raised, ◌>>=◌, ◌>>◌, refuse_if, or_raise, permission_denied, no_such_row,
  requirement_blocked, in_the_future, reason_missing, crc_not_waivable, not_waived, audit, entity,
  instance_at, put_instance,
}

abbrev pub refused : Option SelfRefusal → Result (Unit {0})
refused none = ok tt
refused (some why) = raised (permission_denied why)

-- `refuse_self_recording(volunteer)`
unfoldable pub refuse_self : Env → Volunteer → Result (Unit {0})
refuse_self env v = refused (refuse_self_recording env.directory env.actor v)

-- `instance` and `instance.definition`
unfoldable pub fetch : ℕ → Tenant → Result (RequirementInstance × RequirementDefinition)
fetch k t = do
  i ← or_raise no_such_row (instance_at k t.instances)
  d ← or_raise no_such_row (definition_at t.definitions i.definition_id)
  ok (i, d)

abbrev pub save : RequirementInstance → Tenant → Tenant
save i t = record t { instances = put_instance i t.instances }

-- `instance.definition.followed_by.filter(dependency_mode=GATE, is_active=True).exists()`
abbrev pub has_dependents : List RequirementDefinition → ℕ → Bool
has_dependents table k =
    any (λ d. same_id d.must_follow (some k) && (is_gate d.dependency_mode && d.is_active)) table

-- `refresh_dependents(instance)`, quiet as every caller has it.
unfoldable pub refresh_dependents : Env → ℕ → Tenant → Tenant
refresh_dependents env definition_id t =
    if has_dependents t.definitions definition_id
    then (sync_volunteer_requirements env env.today true t).0
    else t

abbrev pub snapshot_of : RequirementInstance → Snapshot
snapshot_of i = record {
  instance_fields = some (snapshot i);
  screening_block = none;
  superseded_by_id = none;
  ended_assignments = [];
}

unfoldable pub mark_requirement_complete : Env → ℕ → Date → String → Bool → Tenant → Result Tenant
unfolding refuse_self fetch
mark_requirement_complete env k completed_on notes open_review t = do
  (i, d) ← fetch k t
  refuse_self env t.volunteer
  refuse_if (is_blocked i.status) requirement_blocked
  refuse_if (before env.today completed_on) in_the_future
  let u =
      audit env status_change (entity requirement_instance k)
        (save (mark_complete d completed_on notes i) t)
  queued ←
      (if open_review
        then open_if_unverified env requirement_completion (entity requirement_instance k) none
            (snapshot_of i) u
        else ok u)
  ok (refresh_dependents env i.definition_id queued)

abbrev pub started : Date → RequirementInstance → RequirementStatus → Option RequirementInstance
started today i not_started = some (record i { started_on = some today; status = in_progress })
started today i overdue = some (record i { started_on = some today })
started today i _ = none

abbrev pub save_started : Env → ℕ → Option RequirementInstance → Tenant → Tenant
save_started env k none t = t
save_started env k (some i) t = audit env status_change (entity requirement_instance k) (save i t)

unfoldable pub start_requirement : Env → ℕ → Tenant → Result Tenant
start_requirement env k t = do
  i ← or_raise no_such_row (instance_at k t.instances)
  ok (save_started env k (started env.today i i.status) t)

abbrev pub waived_row : Env → String → String → RequirementInstance → RequirementInstance
waived_row env reason by i = record i {
  status = waived;
  waived_reason = reason;
  waived_by = by;
  waived_on = some env.today;
  due_on = none;
  due_reason = no_due_reason;
}

unfoldable pub waive_requirement : Env → ℕ → String → String → Tenant → Result Tenant
unfolding refuse_self fetch
waive_requirement env k reason by t = do
  (i, d) ← fetch k t
  refuse_self env t.volunteer
  refuse_if (is_blank reason) reason_missing
  refuse_if (is_crc d) crc_not_waivable
  let u = audit env waive (entity requirement_instance k) (save (waived_row env reason by i) t)
  queued ← open_if_unverified env waiver (entity requirement_instance k) none (snapshot_of i) u
  ok (refresh_dependents env i.definition_id queued)

-- `_status_after_reversal`
unfoldable pub status_after_reversal : RequirementInstance → RequirementStatus
status_after_reversal i =
    if is_some i.completed_on
    then complete
    else if is_some i.started_on
    then in_progress
    else not_started

abbrev restored_due : Option (Option Date × DueReason) → RequirementInstance → RequirementInstance
restored_due none i = i
restored_due (some (due_on, due_reason)) i = record i { due_on = due_on; due_reason = due_reason }

-- The row as it is saved, and then recomputed.
unfoldable pub unwaived :
    Date → Option (Option Date × DueReason) → RequirementInstance → RequirementInstance
unfolding status_after_reversal recompute
unwaived today restore_due i = recompute today (
    restored_due restore_due (record i {
      status = status_after_reversal i;
      waived_reason = "";
      waived_by = "";
      waived_on = none;
    }))

abbrev pub reversal_saved :
    Env → ℕ → Option (Option Date × DueReason) → RequirementInstance → Tenant → Tenant
reversal_saved env k restore_due i t = refresh_dependents env i.definition_id (
    audit env waiver_reversed (entity requirement_instance k)
      (save (unwaived env.today restore_due i) t))

unfoldable pub reverse_waiver :
    Env → ℕ → String → Option (Option Date × DueReason) → Tenant → Result Tenant
unfolding unwaived
reverse_waiver env k reason restore_due t = do
  i ← or_raise no_such_row (instance_at k t.instances)
  refuse_if (not (is_waived i.status)) not_waived
  refuse_if (is_blank reason) reason_missing
  ok (reversal_saved env k restore_due i t)
