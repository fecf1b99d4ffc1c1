-- ===== src/Requirements/Reconcile.antt =====
-- What one requirement becomes for one volunteer: the body of the loop of
-- `sync_volunteer_requirements` in apps/requirements/services.py, with `_reconcile_existing`,
-- `_activate` and `_refresh_prerequisite_deadline`. A change says which row is written and how it
-- is counted; the writing is in Requirements/Sync.
use risk_management.Common.{
  ℕ, Bool, true, false, not, ◌&&◌, Option, none, some, List, if◌then◌else◌, is_some,
}
use risk_management.Common.Int.{pos}
use risk_management.Calendar.{Date, add_months_to, same_date, passed}
use risk_management.Org.{Volunteer, Role, has_birth_date, eighteenth_birthday_trigger_date}
use risk_management.Requirements.Definition.{
  RequirementDefinition, is_crc, is_gated, is_adults_only, is_age_exempt, applies_to_volunteer,
}
use risk_management.Requirements.Instance.{
  RequirementInstance, RequirementStatus, not_started, not_applicable, NotApplicableReason,
  no_reason, no_role, under_18, no_birth_date, adults_only_reason, prerequisite, DueReason,
  no_due_reason, turned_18, is_outstanding, is_not_applicable,
}
use risk_management.Requirements.Gate.{Prior, unmet_prerequisite, prerequisite_deadline}

pub data Change : Type 0 where
  keep : Change
  created retired held refreshed activated : RequirementInstance → Change

-- `turning_18_crc_deadline_months`
abbrev pub turning_18_crc_deadline_months : ℕ
turning_18_crc_deadline_months = 3

unfoldable pub age_exempt_reason : Volunteer → RequirementDefinition → NotApplicableReason
age_exempt_reason v d =
    if not (has_birth_date v)
    then no_birth_date
    else if is_crc d
    then under_18
    else adults_only_reason

-- `_hold_not_applicable`
unfoldable pub hold_not_applicable : NotApplicableReason → RequirementInstance → RequirementInstance
hold_not_applicable reason i = record i {
  status = not_applicable;
  not_applicable_reason = reason;
  due_on = none;
  due_reason = no_due_reason;
}

abbrev with_deadline : Option (Date × DueReason) → RequirementInstance → RequirementInstance
with_deadline none i = i
with_deadline (some (due, reason)) i = record i { due_on = some due; due_reason = reason }

abbrev turning_18_deadline : Option Date → Option (Date × DueReason)
turning_18_deadline none = none
turning_18_deadline (some trigger) =
    some (add_months_to trigger (pos turning_18_crc_deadline_months), turned_18 trigger)

-- `_activate`
unfoldable pub activate :
    List RequirementDefinition
    → List RequirementInstance
    → Volunteer
    → RequirementDefinition
    → RequirementInstance
    → RequirementInstance
activate table rows v d i =
    let on = record i { status = not_started; not_applicable_reason = no_reason } in
    if is_crc d && is_adults_only d.age_rule
    then with_deadline (turning_18_deadline (eighteenth_birthday_trigger_date v)) on
    else if is_gated d
    then with_deadline (prerequisite_deadline table rows d) on
    else on

abbrev refresh_with : Option (Date × DueReason) → RequirementInstance → Change
refresh_with none i = keep
refresh_with (some (due, reason)) i =
    if same_date (some due) i.due_on
    then keep
    else if passed i.due_on due
    then keep
    else refreshed (record i { due_on = some due; due_reason = reason })

abbrev release :
    List RequirementDefinition
    → List RequirementInstance
    → Volunteer
    → RequirementDefinition
    → Bool
    → RequirementInstance
    → Change
release table rows v d age_exempt i =
    if not age_exempt && is_not_applicable i.status
    then activated (activate table rows v d i)
    else if is_gated d && (not (is_some i.completed_on) && is_outstanding i.status)
    then refresh_with (prerequisite_deadline table rows d) i
    else keep

abbrev behind : Option Prior → RequirementInstance → Change → Change
behind none i otherwise = otherwise
behind (some (prior, p)) i otherwise =
    if is_outstanding i.status then held (hold_not_applicable (prerequisite p.name) i) else keep

-- `_reconcile_existing`
unfoldable pub reconcile_existing :
    List RequirementDefinition
    → List RequirementInstance
    → Volunteer
    → RequirementDefinition
    → Bool
    → Option Prior
    → RequirementInstance
    → Change
unfolding hold_not_applicable activate
reconcile_existing table rows v d age_exempt blocked_by i =
    if age_exempt && is_outstanding i.status
    then held (hold_not_applicable (age_exempt_reason v d) i)
    else behind blocked_by i (release table rows v d age_exempt i)

unfoldable pub new_instance :
    ℕ → RequirementDefinition → RequirementStatus → NotApplicableReason → RequirementInstance
new_instance pk d status reason = record {
  pk = pk;
  definition_id = d.pk;
  status = status;
  started_on = none;
  completed_on = none;
  expires_on = none;
  due_on = none;
  due_reason = no_due_reason;
  waived_reason = "";
  waived_by = "";
  waived_on = none;
  not_applicable_reason = reason;
  notes = "";
}

abbrev first_instance :
    ℕ → Volunteer → RequirementDefinition → Bool → Option Prior → RequirementInstance
first_instance pk v d true blocked_by = new_instance pk d not_applicable (age_exempt_reason v d)
first_instance pk v d false none = new_instance pk d not_started no_reason
first_instance pk v d false (some (prior, p)) =
    new_instance pk d not_applicable (prerequisite p.name)

abbrev retire : Option RequirementInstance → Change
retire none = keep
retire (some i) = if is_outstanding i.status then retired (hold_not_applicable no_role i) else keep

abbrev gate_of :
    List RequirementDefinition
    → List RequirementInstance
    → RequirementDefinition
    → Bool
    → Option Prior
gate_of table rows d age_exempt = if age_exempt then none else unmet_prerequisite table rows d

abbrev required :
    ℕ
    → List RequirementDefinition
    → List RequirementInstance
    → Volunteer
    → RequirementDefinition
    → Bool
    → Option RequirementInstance
    → Change
required pk table rows v d age_exempt none =
    created (first_instance pk v d age_exempt (gate_of table rows d age_exempt))
required pk table rows v d age_exempt (some i) =
    reconcile_existing table rows v d age_exempt (gate_of table rows d age_exempt) i

-- One round of the loop, for the row that the volunteer has on this definition, if any. A row that
-- is created gets the key `pk`.
unfoldable pub change_for :
    ℕ
    → List RequirementDefinition
    → List RequirementInstance
    → Volunteer
    → List Role
    → Date
    → RequirementDefinition
    → Option RequirementInstance
    → Change
unfolding reconcile_existing hold_not_applicable new_instance
change_for pk table rows v roles as_of d row =
    if not (applies_to_volunteer d roles)
    then retire row
    else required pk table rows v d (is_age_exempt d v as_of) row
