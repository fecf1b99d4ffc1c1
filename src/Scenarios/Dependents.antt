-- ===== src/Scenarios/Dependents.antt =====
-- A church's requirement list, in which the refresher waits for the orientation.
use risk_management.Common.{◌≡◌, ◌↔◌, true, some, List, [], ◌∷◌, Elem, arith}
use risk_management.Requirements.Definition.{RequirementDefinition}
use risk_management.Requirements.Dependents.{dependent_pks, must_follow_choices, DependsOn}
use risk_management.Requirements.Dependents.Exact.{
  dependent_pks-DependsOn, must_follow_choices-DependsOn,
}
use risk_management.Scenarios.{application, record_check, orientation, refresher}

abbrev requirement_list : List RequirementDefinition
requirement_list = application ∷ record_check ∷ orientation ∷ refresher ∷ []

dependent_pks-DependsOn_example :
    Elem 13 (dependent_pks requirement_list 12) ↔ DependsOn requirement_list 12 13
dependent_pks-DependsOn_example = dependent_pks-DependsOn requirement_list 12 13 (omega arith)

must_follow_choices-DependsOn_example :
    Elem application (must_follow_choices requirement_list (some 12)) ↔ (
      Elem application requirement_list
      × (application.is_active ≡ true)
      × (DependsOn requirement_list 12 application.pk → ⊥))
must_follow_choices-DependsOn_example =
    must_follow_choices-DependsOn requirement_list 12 application (omega arith)
