-- ===== src/Review.antt =====
-- apps/review/models.py: one recorded action awaiting, or having had, affirmation.
pub mod Recording
pub mod Decide
pub mod SendBack
pub mod Entitled
pub mod Final
use risk_management.Common.{
  ℕ, Bool, true, false, not, Option, none, some, List, [], ◌∷◌, String, ◌==◌, ◌&&◌, if◌then◌else◌,
}
use risk_management.Calendar.{Date}
use risk_management.Org.{ScreeningBlock}
use risk_management.Audit.{EntityType, entity_code}
use risk_management.Requirements.Instance.{RequirementStatus, RequirementInstance, DueReason}

pub data ReviewKind : Type 0 where
  requirement_completion document_kind crc waiver override_kind : ReviewKind

pub data ReviewStatus : Type 0 where
  pending affirmed sent_back superseded : ReviewStatus

-- `_snapshot` of an instance.
pub record InstanceSnapshot : Type 0 where
  pub status : RequirementStatus
  pub started_on : Option Date
  pub completed_on : Option Date
  pub expires_on : Option Date
  pub due_on : Option Date
  pub due_reason : DueReason

-- `before_state`: the keys that a writer put there. An ended assignment is the key of its role.
pub record Snapshot : Type 0 where
  pub instance_fields : Option InstanceSnapshot
  pub screening_block : Option ScreeningBlock
  pub superseded_by_id : Option ℕ
  pub ended_assignments : List ℕ

pub record Entity : Type 0 where
  pub entity_type : EntityType
  pub entity_id : ℕ

pub record ReviewItem : Type 0 where
  pub pk : ℕ
  pub kind : ReviewKind
  pub entity : Entity
  pub affected : Option Entity
  pub status : ReviewStatus
  pub recorded_by_user_id : Option ℕ
  pub before_state : Snapshot
  pub reviewed_at : Option ℕ
  pub reviewed_by_user_id : Option ℕ
  pub decision_reason : String
  pub superseded_by : Option ℕ

abbrev pub is_open : ReviewStatus → Bool
is_open pending = true
is_open _ = false

abbrev pub same_entity : Entity → Entity → Bool
same_entity a b =
    (entity_code a.entity_type == entity_code b.entity_type) && (a.entity_id == b.entity_id)

unfoldable pub snapshot : RequirementInstance → InstanceSnapshot
snapshot i = record {
  status = i.status;
  started_on = i.started_on;
  completed_on = i.completed_on;
  expires_on = i.expires_on;
  due_on = i.due_on;
  due_reason = i.due_reason;
}
