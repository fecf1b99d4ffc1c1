-- ===== src/Requirements/Forms.antt =====
-- apps/requirements/forms.py: what its forms accept, and what they hand to the views. The fields
-- come as the framework's own field classes leave them, none where one refuses its input; a choice
-- field's list and the forms' own `clean` methods are here.
pub mod Accepted
use risk_management.Common.{
  ℕ, Bool, true, false, not, ◌&&◌, Option, none, some, List, [], ◌∷◌, ◌++◌, String, ◌==◌, ltb,
  if◌then◌else◌, any, select, find, strip, text_length,
}
use text.Mathlib.Text.{◌==◌ as same_text}
use risk_management.Calendar.{Date, before}
use risk_management.Requirements.Records.{
  CrcResult, is_cleared, NotClearOutcome, pending, fingerprint_submitted, withdrew,
  DisqualifyingConviction, Decision,
}
use risk_management.Requirements.Decisions.{ConvictionEntry, DecisionForm}

unfoldable pub substantive_reason : String → ℕ → Option String
substantive_reason value minimum =
    if ltb (text_length (strip value)) minimum then none else some (strip value)

-- The `clean_` method of a text field, which runs where the field has a value.
unfoldable pub clean_reason : ℕ → Option String → Option String
unfolding substantive_reason
clean_reason minimum none = none
clean_reason minimum (some value) = substantive_reason value minimum

-- `clean_completed_on`, and `clean_report_date`
unfoldable pub clean_past_date : Date → Option Date → Option Date
clean_past_date today none = none
clean_past_date today (some on) = if before today on then none else some on

-- Both fields, or an error on one.
abbrev pub both : {A B : Type 0} → Option A → Option B → Option (A × B)
both none b = none
both (some a) none = none
both (some a) (some b) = some (a, b)

pub record CompleteFields : Type 0 where
  pub completed_on : Option Date
  pub notes : String

unfoldable pub complete_form : Date → CompleteFields → Option (Date × String)
unfolding clean_past_date
complete_form today f = both (clean_past_date today f.completed_on) (some f.notes)

pub record ReasonFields : Type 0 where
  pub reason : Option String
  pub authorised_by : Option String

-- `RequirementWaiveForm`
unfoldable pub waive_form : ReasonFields → Option (String × String)
unfolding clean_reason
waive_form f = both (clean_reason 10 f.reason) f.authorised_by

-- `WaiverReversalForm`
unfoldable pub reversal_form : ReasonFields → Option (String × String)
unfolding clean_reason
reversal_form f = both (clean_reason 10 f.reason) f.authorised_by

pub record CheckFields : Type 0 where
  pub result : Option CrcResult
  pub report_date : Option Date
  pub includes_vulnerable_sector : Bool
  pub is_fingerprint_verified : Bool

-- A Cleared result is refused without the vulnerable sector search.
abbrev with_sector : Bool → Option (CrcResult × Date) → Option (CrcResult × Date)
with_sector sector none = none
with_sector sector (some (result, on)) =
    if is_cleared result && not sector then none else some (result, on)

-- `CRCRecordForm`
unfoldable pub crc_form : Date → CheckFields → Option (CrcResult × Date)
unfolding clean_past_date
crc_form today f =
    with_sector f.includes_vulnerable_sector (both f.result (clean_past_date today f.report_date))

-- `DisqualifyingConviction.AUTOMATIC_CATEGORIES`
abbrev pub automatic_categories : List String
automatic_categories =
    "Violent crime involving a weapon" ∷ "Crime against a child or youth"
    ∷ "Crime against a vulnerable adult" ∷ "Child abuse" ∷ "Abduction" ∷ "Murder or manslaughter"
    ∷ "Incest" ∷ "Rape" ∷ "Sexual assault" ∷ []

abbrev pub discretionary_choices : List String
discretionary_choices =
    "Theft or fraud" ∷ "Drug-related offence" ∷ "Impaired driving"
    ∷ "Assault (no weapon, adult victim)" ∷ "Property offence" ∷ "Other — discretionary" ∷ []

abbrev pub is_among : List String → String → Bool
is_among choices s = any (same_text s) choices

-- The fields of `ConvictionForm` that the rules look at.
pub record ConvictionFields : Type 0 where
  pub category : String
  pub acknowledge_permanent : Bool

-- `ConvictionForm`: the category is one of those listed, and an automatic one is acknowledged.
unfoldable pub conviction_form : ConvictionFields → Option ConvictionEntry
conviction_form f =
    let automatic = is_among automatic_categories f.category in
    if not (is_among (automatic_categories ++ discretionary_choices) f.category)
    then none
    else if automatic && not f.acknowledge_permanent
    then none
    else some (record { category = f.category; is_automatic_disqualifier = automatic })

-- `NotClearOutcomeForm`, which lists two of the three outcomes.
unfoldable pub outcome_form : Option NotClearOutcome → Option NotClearOutcome
outcome_form none = none
outcome_form (some pending) = none
outcome_form (some fingerprint_submitted) = some fingerprint_submitted
outcome_form (some withdrew) = some withdrew

pub record OverrideFields : Type 0 where
  pub conviction : Option ℕ
  pub decision : Option Decision
  pub decided_by : Option String
  pub decided_on : Option Date
  pub reasoning : Option String
  pub mitigation_steps : Option String

-- `crc_record.convictions.filter(is_automatic_disqualifier=False)`
abbrev pub discretionary_of : ℕ → List DisqualifyingConviction → List DisqualifyingConviction
discretionary_of check rows =
    select (λ c. (c.crc_record == check) && not c.is_automatic_disqualifier) rows

abbrev key_of_conviction : Option DisqualifyingConviction → Option (Option ℕ)
key_of_conviction none = none
key_of_conviction (some c) = some (some c.pk)

-- The field `conviction`, which may stay empty, for the check as a whole.
unfoldable pub clean_conviction : ℕ → List DisqualifyingConviction → Option ℕ → Option (Option ℕ)
clean_conviction check rows none = some none
clean_conviction check rows (some k) =
    key_of_conviction (find (λ c. c.pk == k) (discretionary_of check rows))

abbrev pub decision_of : (Decision × Date) × (String × (String × String)) → DecisionForm
decision_of ((decision, on), (by, (reasoning, mitigation))) = record {
  decision = decision;
  decided_on = on;
  decided_by = by;
  reasoning = reasoning;
  mitigation_steps = mitigation;
}

abbrev as_decision :
    Option (Option ℕ × ((Decision × Date) × (String × (String × String))))
    → Option (Option ℕ × DecisionForm)
as_decision none = none
as_decision (some (conviction, said)) = some (conviction, decision_of said)

-- `DiscretionaryOverrideForm`
unfoldable pub override_form :
    ℕ → List DisqualifyingConviction → OverrideFields → Option (Option ℕ × DecisionForm)
unfolding clean_reason clean_conviction
override_form check rows f = as_decision (
    both (clean_conviction check rows f.conviction) (
      both (both f.decision f.decided_on) (
        both f.decided_by
          (both (clean_reason 20 f.reasoning) (clean_reason 20 f.mitigation_steps)))))
