-- ===== src/Requirements/Gate.antt =====
-- Requirements that wait for another: `unmet_prerequisite`, `_dependency_cycle` and
-- `_prerequisite_deadline` of apps/requirements. A prerequisite comes with its definition, as
-- `select_related` fetches it.
use risk_management.Common.{
  ℕ, zero, suc, Bool, true, false, not, ◌&&◌, Option, none, some, List, [], ◌∷◌, ◌==◌,
  if◌then◌else◌, is_some, any, find,
}
use risk_management.Calendar.{Date}
use risk_management.Requirements.Definition.{
  RequirementDefinition, definition_at, is_gated, prerequisite_offset_months, shift_by, truthy,
  max_dependency_hops,
}
use risk_management.Requirements.Instance.{
  RequirementInstance, DueReason, follows, is_waived, is_not_applicable,
}

-- `volunteer.requirement_instances.filter(definition_id=k).first()`
abbrev pub instance_for : ℕ → List RequirementInstance → Option RequirementInstance
instance_for k rows = find (λ i. i.definition_id == k) rows

abbrev pub Prior : Type 0
Prior = RequirementInstance × RequirementDefinition

-- Whether a prerequisite that applies to this volunteer still has to happen.
unfoldable pub still_waits : RequirementDefinition → RequirementInstance → Bool
still_waits prerequisite prior =
    if is_some prior.completed_on
    then false
    else if is_waived prior.status
    then false
    else if is_not_applicable prior.status && not (is_gated prerequisite)
    then false
    else true

abbrev waits_for : RequirementDefinition → Option RequirementInstance → Option Prior
waits_for p none = none
waits_for p (some prior) = if still_waits p prior then some (prior, p) else none

abbrev waits_behind : List RequirementInstance → ℕ → Option RequirementDefinition → Option Prior
waits_behind rows k none = none
waits_behind rows k (some p) = if not p.is_active then none else waits_for p (instance_for k rows)

abbrev unmet_behind :
    List RequirementDefinition → List RequirementInstance → Option ℕ → Option Prior
unmet_behind table rows none = none
unmet_behind table rows (some k) = waits_behind rows k (definition_at table k)

unfoldable pub unmet_prerequisite :
    List RequirementDefinition → List RequirementInstance → RequirementDefinition → Option Prior
unfolding still_waits
unmet_prerequisite table rows d =
    if not (is_gated d) then none else unmet_behind table rows d.must_follow

abbrev counted_from :
    Option RequirementDefinition → Option RequirementInstance → Option ℕ → Option (Date × DueReason)
counted_from (some p) (some prior) (some months) = elim prior.completed_on [
  | none ↦ none
  | some on ↦ elim (shift_by (some months) on) [
    | none ↦ none
    | some due ↦ some (due, follows p.name on months)
  ]
]
counted_from _ _ _ = none

abbrev deadline_behind :
    List RequirementDefinition
    → List RequirementInstance
    → Option ℕ
    → Option ℕ
    → Option (Date × DueReason)
deadline_behind table rows none months = none
deadline_behind table rows (some k) months =
    counted_from (definition_at table k) (instance_for k rows) months

-- `_prerequisite_deadline`; `(None, "")` is `none`.
unfoldable pub prerequisite_deadline :
    List RequirementDefinition
    → List RequirementInstance
    → RequirementDefinition
    → Option (Date × DueReason)
unfolding shift_by
prerequisite_deadline table rows d =
    if not (truthy (prerequisite_offset_months d))
    then none
    else deadline_behind table rows d.must_follow (prerequisite_offset_months d)

abbrev pub follow : List RequirementDefinition → ℕ → Option ℕ
follow table k = elim (definition_at table k) [ none ↦ none | some d ↦ d.must_follow ]

-- The loop of `_dependency_cycle`, with the hops that are left.
unfoldable pub cycle_from : List RequirementDefinition → ℕ → List ℕ → Option ℕ → Bool
cycle_from table zero seen current = true
cycle_from table (suc hops) seen none = false
cycle_from table (suc hops) seen (some k) =
    let rest = cycle_from table hops (k ∷ seen) (follow table k) in
    if any (λ s. s == k) seen then true else rest

-- A saved definition's key is in `seen` from the start.
unfoldable pub dependency_cycle : List RequirementDefinition → RequirementDefinition → Bool
unfolding cycle_from
dependency_cycle table d = cycle_from table max_dependency_hops (d.pk ∷ []) d.must_follow
