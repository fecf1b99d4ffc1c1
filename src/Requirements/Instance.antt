-- ===== src/Requirements/Instance.antt =====
-- `RequirementInstance` of apps/requirements/models.py: one volunteer's standing on one
-- requirement. The two reason columns hold the template and the values that fill it, not the text.
use risk_management.Common.{
  ℕ, ◌+◌, Bool, true, false, not, ◌&&◌, ◌||◌, Option, none, some, String, leb, if◌then◌else◌,
  is_some,
}
use risk_management.Calendar.{Date, before, passed, to_ordinal}
use risk_management.Requirements.Definition.{RequirementDefinition, is_crc, expiry_for}

pub data RequirementStatus : Type 0 where
  not_started in_progress complete overdue not_applicable waived blocked : RequirementStatus

-- `status in RequirementStatus.satisfied_values()`
abbrev pub is_satisfied : RequirementStatus → Bool
is_satisfied complete = true
is_satisfied not_applicable = true
is_satisfied waived = true
is_satisfied _ = false

-- `status in RequirementStatus.outstanding_values()`
abbrev pub is_outstanding : RequirementStatus → Bool
is_outstanding not_started = true
is_outstanding in_progress = true
is_outstanding overdue = true
is_outstanding blocked = true
is_outstanding _ = false

abbrev pub is_not_applicable : RequirementStatus → Bool
is_not_applicable not_applicable = true
is_not_applicable _ = false

abbrev pub is_waived : RequirementStatus → Bool
is_waived waived = true
is_waived _ = false

abbrev pub is_complete : RequirementStatus → Bool
is_complete complete = true
is_complete _ = false

abbrev pub is_blocked : RequirementStatus → Bool
is_blocked blocked = true
is_blocked _ = false

abbrev pub is_overdue : RequirementStatus → Bool
is_overdue overdue = true
is_overdue _ = false

pub data NotApplicableReason : Type 0 where
  no_reason no_role under_18 no_birth_date adults_only_reason : NotApplicableReason
  prerequisite : String → NotApplicableReason

pub data DueReason : Type 0 where
  no_due_reason : DueReason
  turned_18 : Date → DueReason
  follows : String → Date → ℕ → DueReason

pub record RequirementInstance : Type 0 where
  pub pk : ℕ
  pub definition_id : ℕ
  pub status : RequirementStatus
  pub started_on : Option Date
  pub completed_on : Option Date
  pub expires_on : Option Date
  pub due_on : Option Date
  pub due_reason : DueReason
  pub waived_reason : String
  pub waived_by : String
  pub waived_on : Option Date
  pub not_applicable_reason : NotApplicableReason
  pub notes : String

-- `min` of the dates that are there.
abbrev pub earlier : Option Date → Option Date → Option Date
earlier none b = b
earlier (some a) none = some a
earlier (some a) (some b) = if before b a then some b else some a

unfoldable pub effective_due_date : RequirementInstance → Option Date
effective_due_date i = earlier i.expires_on i.due_on

pub data Bucket : Type 0 where
  satisfied overdue_bucket due_soon outstanding : Bucket

-- `due_soon_days`
abbrev pub due_soon_days : ℕ
due_soon_days = 60

-- `days is not None and days <= DUE_SOON_DAYS`, where `days` is a difference of ordinals.
abbrev pub within_days : Option Date → Date → ℕ → Bool
within_days none today n = false
within_days (some d) today n = leb (to_ordinal d) (to_ordinal today + n)

unfoldable pub bucket : Date → RequirementInstance → Bucket
unfolding effective_due_date
bucket today i =
    if is_not_applicable i.status || is_waived i.status
    then satisfied
    else if is_blocked i.status
    then overdue_bucket
    else if is_overdue i.status || (passed i.expires_on today || passed i.due_on today)
    then overdue_bucket
    else if is_complete i.status
    then (if within_days (effective_due_date i) today due_soon_days then due_soon else satisfied)
    else outstanding

abbrev recomputed : Date → RequirementInstance → RequirementStatus → RequirementStatus
recomputed as_of i complete =
    if passed i.expires_on as_of || (passed i.due_on as_of && not (is_some i.completed_on))
    then overdue
    else complete
recomputed as_of i overdue =
    if is_some i.completed_on && not (passed i.expires_on as_of) then complete else overdue
recomputed as_of i not_started = if passed i.due_on as_of then overdue else not_started
recomputed as_of i in_progress = if passed i.due_on as_of then overdue else in_progress
recomputed as_of i status = status

-- The new row; it is written, and `True` returned, where its status differs.
unfoldable pub recompute : Date → RequirementInstance → RequirementInstance
recompute as_of i = record i { status = recomputed as_of i i.status }

abbrev non_empty_or : String → String → String
non_empty_or String.[] old = old
non_empty_or new old = new

unfoldable pub mark_complete :
    RequirementDefinition → Date → String → RequirementInstance → RequirementInstance
mark_complete d completed_on notes i = record i {
  completed_on = some completed_on;
  expires_on = expiry_for d completed_on;
  status = complete;
  notes = non_empty_or notes i.notes;
  due_on = none;
  due_reason = no_due_reason;
}

unfoldable pub can_mark_complete : RequirementDefinition → RequirementInstance → Bool
can_mark_complete d i =
    if is_crc d || d.requires_document
    then false
    else not (is_waived i.status || (is_not_applicable i.status || is_blocked i.status))
