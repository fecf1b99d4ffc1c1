-- ===== src/Scenarios/Access.antt =====
-- Applications of the access theorems.
use risk_management.Common.{
  ℕ, ◌≡◌, refl, ◌↔◌, true, false, none, some, List, [], ◌∷◌, find, Elem, ◌==◌,
}
use risk_management.Org.{Volunteer}
use risk_management.Access.{
  record_crc, Directory, UserAccessGrant, capabilities, covers, grant_for, scope_department_ids,
  has_capability, another_unscoped_admin_exists,
}
use risk_management.Access.Grant.{new_grant, put_grant, apply_grant, Within, apply_grant-Within}
use risk_management.Access.Scope.{
  File, Admits, scope_volunteers, scope_volunteers-exact, scope_assignments, scope_audit_events,
  without_grant,
}
use risk_management.Access.Self.{
  needs_whole_church, may_record_against, refuse_self_recording, actor_from_request,
  refuse_self_recording-may_record_against, no_grant_differs,
}
use risk_management.Scenarios.{youth_level, user, primary_grant, youth_grant, church, anna, serving}

abbrev after_grant : Directory
after_grant = record church { grants = put_grant (new_grant 3 youth_level (7 ∷ [])) church.grants }

apply_grant-Within_example :
    (given : UserAccessGrant) × (find (λ g. g.user_id == 3) after_grant.grants ≡ some given)
    × Within youth_grant given
unfolding apply_grant grant_for scope_department_ids covers capabilities
apply_grant-Within_example =
    apply_grant-Within church after_grant (user 2) youth_grant 3 youth_level (7 ∷ []) refl refl

abbrev files : List File
files = (anna, serving ∷ []) ∷ []

scope_volunteers-exact_example :
    Elem (anna, serving ∷ []) (scope_volunteers church (some (user 2)) files) ↔ (
      Elem (anna, serving ∷ []) files
      × Admits (scope_department_ids church (some (user 2))) (anna, serving ∷ []))
scope_volunteers-exact_example =
    scope_volunteers-exact church (some (user 2)) files (anna, serving ∷ [])

without_grant_example :
    (has_capability church (some (user 9)) record_crc ≡ false)
    × (scope_volunteers church (some (user 9)) files ≡ [])
    × (scope_assignments church (some (user 9)) (serving ∷ []) ≡ [])
    × (scope_audit_events {A = ℕ} church (some (user 9)) (1 ∷ 2 ∷ []) ≡ [])
unfolding grant_for
without_grant_example =
    without_grant church (user 9) record_crc files (serving ∷ []) (1 ∷ 2 ∷ []) refl

abbrev own_file : Volunteer
own_file = record anna { user_id = some 1 }

refuse_self_recording-may_record_against_example :
    refuse_self_recording church (actor_from_request church true (user 1)) own_file
    ≡ may_record_against church (user 1) own_file
unfolding grant_for
refuse_self_recording-may_record_against_example =
    refuse_self_recording-may_record_against church (user 1) own_file refl primary_grant refl

abbrev ungranted_file : Volunteer
ungranted_file = record anna { user_id = some 9 }

abbrev lonely : Directory
lonely = record church { grants = [] }

no_grant_differs_example :
    (may_record_against lonely (user 9) ungranted_file ≡ some needs_whole_church)
    × (refuse_self_recording lonely (actor_from_request lonely true (user 9)) ungranted_file ≡ none)
unfolding grant_for another_unscoped_admin_exists
no_grant_differs_example = no_grant_differs lonely (user 9) ungranted_file refl refl refl refl
