-- ===== src/Tenant.antt =====
-- The rows of one church's schema that an operation on one volunteer's file reads and writes, the
-- surroundings of a request, and the errors that a service raises. `@transaction.atomic` is the
-- result type: an error carries no state, so the state before the call stands.
pub mod Rows
pub mod Outcome
use risk_management.Common.{
  ℕ, ◌+◌, Bool, true, false, Option, none, some, List, [], ◌∷◌, ◌++◌, if◌then◌else◌, ◌==◌, find,
}
use risk_management.Calendar.{Date}
use risk_management.Org.{Volunteer, Assignment}
use risk_management.Audit.{Actor, AuditAction, EntityType, AuditEvent}
use risk_management.Access.{Directory}
use risk_management.Access.Self.{SelfRefusal}
use risk_management.Requirements.Definition.{RequirementDefinition}
use risk_management.Requirements.Instance.{RequirementInstance}
use risk_management.Requirements.Records.{CrcRecord, DisqualifyingConviction, DiscretionaryOverride}
use risk_management.Review.{ReviewItem, Entity}
use risk_management.Documents.{Document}

pub record Tenant : Type 0 where
  pub definitions : List RequirementDefinition
  pub volunteer : Volunteer
  pub assignments : List Assignment
  pub instances : List RequirementInstance
  pub crc_records : List CrcRecord
  pub convictions : List DisqualifyingConviction
  pub overrides : List DiscretionaryOverride
  pub documents : List Document
  pub reviews : List ReviewItem
  pub trail : List AuditEvent
  -- How many reconciliations `transaction.on_commit` has been asked for.
  pub pending_syncs : ℕ
  -- The key of the next row to be created, in any table.
  pub next_pk : ℕ

-- `timezone.localdate()`, `timezone.now()`, `audit.get_actor()`, and the access tables.
pub record Env : Type 0 where
  pub today : Date
  pub now : ℕ
  pub actor : Actor
  pub directory : Directory

pub data Error : Type 0 where
  permission_denied : SelfRefusal → Error
  no_such_row : Error
  requirement_blocked in_the_future reason_missing crc_not_waivable not_waived : Error
  permanently_disqualified disqualification_is_permanent : Error
  not_a_not_clear_result category_missing automatic_not_overridable override_incomplete : Error
  form_invalid capability_missing method_not_allowed already_inactive : Error
  completion_refused no_discretionary_flag : Error
  own_account last_administrator church_stranded backlog_unlocked own_choice : Error
  already_linked wider_than_own : Error
  file_missing file_refused link_missing no_stored_file integrity_failed : Error
  outside_church_schema not_a_reviewer own_entry already_decided : Error

pub data Result {ℓ} (A : Type ℓ) : Type ℓ where
  ok : A → Result A
  raised : Error → Result A

infixl 5 ◌>>=◌ ◌>>◌
unfoldable pub ◌>>=◌ {ℓ κ} : {A : Type ℓ} {B : Type κ} → Result A → (A → Result B) → Result B
ok a >>= f = f a
raised e >>= f = raised e

unfoldable pub ◌>>◌ {ℓ} : {B : Type ℓ} → Result (Unit {0}) → Result B → Result B
unfolding ◌>>=◌
m >> k = m >>= λ _. k

-- `if bad: raise error`
abbrev pub refuse_if : Bool → Error → Result (Unit {0})
refuse_if true e = raised e
refuse_if false e = ok tt

abbrev pub or_raise {ℓ} : {A : Type ℓ} → Error → Option A → Result A
or_raise e none = raised e
or_raise e (some a) = ok a

-- `audit.record`, which only logs outside a church's schema.
unfoldable pub audit : Env → AuditAction → Entity → Tenant → Tenant
audit env action entity t = if env.directory.on_public_schema then t else record t {
  trail =
      t.trail
      ++ record {
        actor_user_id = env.actor.user_id;
        action = action;
        entity_type = entity.entity_type;
        entity_id = entity.entity_id;
      }
        ∷ [];
}

-- `get_object_or_404` on a key
abbrev pub instance_at : ℕ → List RequirementInstance → Option RequirementInstance
instance_at k rows = find (λ i. i.pk == k) rows

-- `instance.save()`
unfoldable pub put_instance :
    RequirementInstance → List RequirementInstance → List RequirementInstance
put_instance i [] = []
put_instance i (x ∷ xs) = (if x.pk == i.pk then i else x) ∷ put_instance i xs

abbrev pub entity : EntityType → ℕ → Entity
entity kind k = record { entity_type = kind; entity_id = k }
