-- ===== src/Requirements/Definition.antt =====
-- `RequirementDefinition` of apps/requirements/models.py: whom it applies to, how often, and what
-- it waits for. `choices` columns are data types; `roles` and `must_follow` are primary keys.
use risk_management.Common.{
  ℕ, Bool, true, false, not, ◌&&◌, Option, none, some, List, String, ◌==◌, if◌then◌else◌, is_some,
  any, find,
}
use risk_management.Common.Int.{pos}
use risk_management.Calendar.{Date, add_months_to}
use risk_management.Org.{Role, Volunteer, is_adult_on}

pub data RequirementType : Type 0 where
  application_form waiting_period declaration_of_faith liability_release : RequirementType
  reference_checks interview policy_agreement criminal_record_check : RequirementType
  training_orientation training_refresher signed_agreement : RequirementType
  leadership_approval custom : RequirementType

pub data Cadence : Type 0 where
  one_time annual every_3_years custom_months : Cadence

pub data AppliesTo : Type 0 where
  all_roles specific_roles leadership : AppliesTo

pub data AgeRule : Type 0 where
  any_age adults_only : AgeRule

pub data DependencyMode : Type 0 where
  warn gate : DependencyMode

pub record RequirementDefinition : Type 0 where
  pub pk : ℕ
  pub name : String
  pub requirement_type : RequirementType
  pub cadence : Cadence
  pub cadence_months : Option ℕ
  pub applies_to : AppliesTo
  pub roles : List ℕ
  pub age_rule : AgeRule
  pub sequence : ℕ
  pub is_onboarding : Bool
  pub must_follow : Option ℕ
  pub dependency_mode : DependencyMode
  pub due_months_after_prerequisite : Option ℕ
  pub requires_document : Bool
  pub is_active : Bool

abbrev pub is_criminal_record_check : RequirementType → Bool
is_criminal_record_check criminal_record_check = true
is_criminal_record_check _ = false

abbrev pub is_adults_only : AgeRule → Bool
is_adults_only adults_only = true
is_adults_only any_age = false

abbrev pub is_gate : DependencyMode → Bool
is_gate gate = true
is_gate warn = false

abbrev pub interval_of : Cadence → Option ℕ → Option ℕ
interval_of one_time months = none
interval_of annual months = some 12
interval_of every_3_years months = some 36
interval_of custom_months months = months

abbrev pub interval_months : RequirementDefinition → Option ℕ
interval_months d = interval_of d.cadence d.cadence_months

-- `bool(n)` for `int | None`: absent and 0 are false.
abbrev pub truthy : Option ℕ → Bool
truthy none = false
truthy (some n) = not (n == 0)

unfoldable pub shift_by : Option ℕ → Date → Option Date
shift_by none from = none
shift_by (some n) from = if n == 0 then none else some (add_months_to from (pos n))

-- `expiry_for`: when a completion next falls due.
abbrev pub expiry_for : RequirementDefinition → Date → Option Date
expiry_for d completed_on = shift_by (interval_months d) completed_on

abbrev pub applies_by : AppliesTo → List ℕ → Role → Bool
applies_by all_roles roles role = true
applies_by specific_roles roles role = any (λ r. r == role.pk) roles
applies_by leadership roles role = role.is_leadership

abbrev pub applies_to_role : RequirementDefinition → Role → Bool
applies_to_role d role = applies_by d.applies_to d.roles role

unfoldable pub applies_to_volunteer : RequirementDefinition → List Role → Bool
applies_to_volunteer d roles = any (applies_to_role d) roles

unfoldable pub is_age_exempt : RequirementDefinition → Volunteer → Date → Bool
is_age_exempt d v on = is_adults_only d.age_rule && not (is_adult_on v on)

abbrev pub is_crc : RequirementDefinition → Bool
is_crc d = is_criminal_record_check d.requirement_type

abbrev pub is_gated : RequirementDefinition → Bool
is_gated d = is_gate d.dependency_mode && is_some d.must_follow

abbrev pub prerequisite_offset_months : RequirementDefinition → Option ℕ
prerequisite_offset_months d =
    if truthy d.due_months_after_prerequisite
    then d.due_months_after_prerequisite
    else interval_months d

-- `RequirementDefinition.objects.filter(pk=pk).first()`
abbrev pub definition_at : List RequirementDefinition → ℕ → Option RequirementDefinition
definition_at table pk = find (λ d. d.pk == pk) table

-- `max_dependency_hops`
abbrev pub max_dependency_hops : ℕ
max_dependency_hops = 20
