-- ===== src/Audit.antt =====
-- apps/core/audit.py: who is acting, and the entries of the trail. An entry keeps the columns that
-- identify what was done to which row by whom; its label, summary and detail are texts for a
-- reader, which nothing reads back, and are left out.
use risk_management.Common.{ℕ, Bool, Option, List, is_some, if◌then◌else◌}

-- The thread-local actor.
pub record Actor : Type 0 where
  pub user_id : Option ℕ
  pub access_level_is_scoped : Bool
  pub access_level_unknown : Bool
  pub department_ids : List ℕ

-- `Actor.needs_review`
unfoldable pub needs_review : Actor → Bool
needs_review a = if a.access_level_unknown then is_some a.user_id else a.access_level_is_scoped

pub data AuditAction : Type 0 where
  create update deactivate reactivate status_change waive waiver_reversed : AuditAction
  upload download login login_failed logout link_issued link_used : AuditAction
  crc_recorded disqualified override key_backup notify seed access_changed : AuditAction
  review_opened review_affirmed review_sent_back review_superseded : AuditAction
  crc_not_affirmed : AuditAction

pub data EntityType : Type 0 where
  requirement_instance crc_record disqualifying_conviction : EntityType
  discretionary_override document volunteer role_assignment email_log user access_level : EntityType

abbrev pub entity_code : EntityType → ℕ
entity_code requirement_instance = 0
entity_code crc_record = 1
entity_code disqualifying_conviction = 2
entity_code discretionary_override = 3
entity_code document = 4
entity_code volunteer = 5
entity_code role_assignment = 6
entity_code email_log = 7
entity_code user = 8
entity_code access_level = 9

pub record AuditEvent : Type 0 where
  pub actor_user_id : Option ℕ
  pub action : AuditAction
  pub entity_type : EntityType
  pub entity_id : ℕ
