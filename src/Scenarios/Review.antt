-- ===== src/Scenarios/Review.antt =====
-- An entry of the queue that is affirmed.
use risk_management.Common.{◌≡◌, ◌≢◌, refl, inl, none, some, [], ◌∷◌}
use risk_management.Audit.{requirement_instance}
use risk_management.Review.{ReviewItem, requirement_completion, pending}
use risk_management.Review.Decide.{affirm, Outcome}
use risk_management.Review.SendBack.{send_back}
use risk_management.Review.Entitled.{Entitled, decided_by_reviewer}
use risk_management.Placement.Operation.{starting, perform, run, History, start, next}
use risk_management.Placement.Held.Forever.{decided_once}
use risk_management.Requirements.Progress.{start_requirement}
use risk_management.Access.{scope_department_ids, grant_for}
use risk_management.Tenant.{Tenant, Result, ok, raised, audit, entity, ◌>>=◌, ◌>>◌}
use risk_management.Scenarios.{request, anna_file, user}

abbrev entry : ReviewItem
entry = record {
  pk = 200;
  kind = requirement_completion;
  entity = entity requirement_instance 100;
  affected = none;
  status = pending;
  recorded_by_user_id = some 2;
  before_state = record {
    instance_fields = none;
    screening_block = none;
    superseded_by_id = none;
    ended_assignments = [];
  };
  reviewed_at = none;
  reviewed_by_user_id = none;
  decision_reason = "";
  superseded_by = none;
}

abbrev queued_file : Tenant
queued_file = record anna_file { reviews = entry ∷ []; next_pk = 201 }

abbrev state_of : Result Tenant → Tenant
state_of (ok t) = t
state_of (raised e) = anna_file

abbrev affirmed_file : Tenant
affirmed_file = state_of (affirm request (user 1) 200 queued_file)

affirms : affirm request (user 1) 200 queued_file ≡ ok affirmed_file
unfolding affirm ◌>>=◌ ◌>>◌ scope_department_ids grant_for
affirms = refl

-- A requirement is started on the file in between.
abbrev later_file : Tenant
later_file = state_of (perform request (starting 102) affirmed_file)

in_between : History affirmed_file later_file
unfolding perform run start_requirement affirm audit ◌>>=◌ ◌>>◌ scope_department_ids grant_for
in_between =
    next {t = affirmed_file} {u = later_file} {v = later_file} request (starting 102) refl start

decided_once_example :
    ((x : Tenant) → affirm request (user 3) 200 later_file ≢ ok x)
    × ((r : Tenant × Outcome) → send_back request (user 3) 200 "wrong" later_file ≢ ok r)
decided_once_example =
    decided_once request request (user 1) (user 3) 200 "" "wrong" queued_file affirmed_file
      later_file (inl affirms) in_between

decided_by_reviewer_example : Entitled request (user 1) 200 queued_file
decided_by_reviewer_example =
    decided_by_reviewer request (user 1) 200 "" queued_file affirmed_file (inl affirms)
