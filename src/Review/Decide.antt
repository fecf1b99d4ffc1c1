-- ===== src/Review/Decide.antt =====
-- apps/review/services.py: who may decide an entry of the queue, affirming it, and sending it back.
-- What a send-back could not undo is a data type with a constructor for each message; an ended
-- assignment is the key of its role.
use risk_management.Common.{
  ℕ, Bool, true, false, not, ◌&&◌, Option, none, some, List, String, ◌==◌, if◌then◌else◌, find,
  same_id,
}
use risk_management.Calendar.{Date}
use risk_management.Audit.{EntityType, requirement_instance, review_affirmed}
use risk_management.Access.{User, Directory, is_unscoped, another_unscoped_admin_exists}
use risk_management.Requirements.Instance.{RequirementInstance, no_due_reason, recompute}
use risk_management.Requirements.Progress.{save, refresh_dependents, status_after_reversal}
use risk_management.Review.{
  ReviewItem, ReviewStatus, affirmed, Snapshot, InstanceSnapshot, Entity, is_open,
}
use risk_management.Review.Recording.{put_review}
use risk_management.Tenant.{
  Tenant, Env, Result, ok, raised, ◌>>=◌, ◌>>◌, refuse_if, or_raise, no_such_row, not_a_reviewer,
  own_entry, already_decided, audit, instance_at,
}

-- `may_review`: each refusal is an error here, and its answer `True` is none.
unfoldable pub may_review : Directory → User → ReviewItem → Result (Unit {0})
may_review dir u i =
    if not (is_unscoped dir (some u))
    then raised not_a_reviewer
    else if same_id i.recorded_by_user_id (some u.pk) && another_unscoped_admin_exists dir u.pk
    then raised own_entry
    else ok tt

-- `_require_reviewer`
unfoldable pub require_reviewer : Directory → User → ReviewItem → Result (Unit {0})
unfolding may_review
require_reviewer dir u i = do may_review dir u i; refuse_if (not (is_open i.status)) already_decided

-- `_close`
abbrev pub closed : Env → ReviewStatus → User → String → ReviewItem → ReviewItem
closed env status by reason i = record i {
  status = status;
  reviewed_at = some env.now;
  reviewed_by_user_id = some by.pk;
  decision_reason = reason;
}

unfoldable pub close : Env → ReviewStatus → User → String → ReviewItem → Result ReviewItem
close env status by reason i = do
  refuse_if (not (is_open i.status)) already_decided
  ok (closed env status by reason i)

abbrev pub review_at : ℕ → Tenant → Option ReviewItem
review_at k t = find (λ (i : ReviewItem). i.pk == k) t.reviews

abbrev pub save_review : ReviewItem → Tenant → Tenant
save_review i t = record t { reviews = put_review i t.reviews }

unfoldable pub affirm : Env → User → ℕ → Tenant → Result Tenant
unfolding require_reviewer close put_review
affirm env by k t = do
  i ← or_raise no_such_row (review_at k t)
  require_reviewer env.directory by i
  c ← close env affirmed by "" i
  ok (audit env review_affirmed i.entity (save_review c t))

pub data Kept : Type 0 where
  requirement_not_found requirement_moved_on document_retained convictions_retained : Kept
  disqualification_stands check_not_found check_carries_decisions check_replaced : Kept
  check_retained waiver_gone decision_retained : Kept
  assignments_ended : List ℕ → Kept

pub record Outcome : Type 0 where
  pub reverted : Bool
  pub kept : List Kept

abbrev names_instance : Entity → Bool
names_instance e = is_instance e.entity_type
  where
    is_instance : EntityType → Bool
    is_instance requirement_instance = true
    is_instance _ = false

abbrev affected_instance : Option Entity → List RequirementInstance → Option RequirementInstance
affected_instance none rows = none
affected_instance (some e) rows = if names_instance e then instance_at e.entity_id rows else none

-- `_instance_from`
unfoldable pub instance_from : ReviewItem → List RequirementInstance → Option RequirementInstance
instance_from i rows =
    if names_instance i.entity
    then instance_at i.entity.entity_id rows
    else affected_instance i.affected rows

abbrev pub or_else : {A : Type 0} → Option A → Option A → Option A
or_else none b = b
or_else (some a) b = some a

abbrev with_snapshot : Option InstanceSnapshot → RequirementInstance → RequirementInstance
with_snapshot none i = record i {
  completed_on = none;
  expires_on = none;
  due_on = none;
  due_reason = no_due_reason;
}
with_snapshot (some s) i = record i {
  completed_on = s.completed_on;
  expires_on = s.expires_on;
  due_on = s.due_on;
  due_reason = s.due_reason;
  started_on = or_else s.started_on i.started_on;
}

-- The row as `_restore_from_snapshot` saves and recomputes it.
unfoldable pub restored : Date → Snapshot → RequirementInstance → RequirementInstance
unfolding status_after_reversal recompute
restored today before i =
    let back = with_snapshot before.instance_fields i in
    recompute today (record back { status = status_after_reversal back })

unfoldable pub restore_from_snapshot : Env → Snapshot → RequirementInstance → Tenant → Tenant
unfolding restored
restore_from_snapshot env before i t =
    refresh_dependents env i.definition_id (save (restored env.today before i) t)
