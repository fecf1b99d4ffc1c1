-- ===== src/Requirements/Sweep.antt =====
-- What the nightly job does to the requirements of one file: `sweep_tenant` of apps/core/tasks.py
-- up to its reminders, with `activate_turning_18_checks` and `onboarding_window_breached` of
-- apps/requirements/services.py. Each step of the job goes over all files, which share no row.
use risk_management.Common.{
  ℕ, ◌+◌, ◌≡◌, ap, ◌∙◌, refl, inl, inr, Bool, true, false, not, ◌&&◌, Option, none, some, List, [],
  ◌∷◌, ◌++◌, if◌then◌else◌, is_none, all, select, Elem, Bool-cases, is_empty,
}
use risk_management.Common.Int.{negsuc}
use risk_management.Calendar.{Date, before, passed, add_months_to}
use risk_management.Org.{Volunteer, active_roles, has_birth_date, is_adult_on}
use risk_management.Audit.{Actor, status_change, requirement_instance}
use risk_management.Requirements.Definition.{
  RequirementDefinition, RequirementType, leadership_approval, definition_at, is_adults_only,
  applies_to_volunteer,
}
use risk_management.Requirements.Instance.{RequirementInstance, is_not_applicable, is_satisfied}
use risk_management.Requirements.Gate.{unmet_prerequisite}
use risk_management.Requirements.Reconcile.{activate}
use risk_management.Requirements.Sync.{sync_volunteer_requirements}
use risk_management.Requirements.Progress.{save}
use risk_management.Requirements.Nightly.{
  recompute_all_statuses, recompute_all_statuses_late, is_pending,
}
use risk_management.Tenant.{Tenant, Env, audit, entity}
use risk_management.Placement.People.{SameFile, SameFile-trans, audit-SameFile, sync-SameFile}

-- What the query selects, and what the loop passes on.
unfoldable pub turned_18 : Date → Tenant → RequirementDefinition → RequirementInstance → Bool
unfolding unmet_prerequisite is_adult_on
turned_18 as_of t d i =
    is_not_applicable i.status
    && (is_adults_only d.age_rule
        && (d.is_active
            && (t.volunteer.is_active
                && (has_birth_date t.volunteer
                    && (is_adult_on t.volunteer as_of
                        && (applies_to_volunteer d (active_roles t.assignments)
                            && is_none (unmet_prerequisite t.definitions t.instances d)))))))

abbrev switched_on :
    Env → Date → RequirementInstance → Option RequirementDefinition → Tenant → Tenant × ℕ
switched_on env as_of i none t = (t, 0)
switched_on env as_of i (some d) t =
    if turned_18 as_of t d i
    then (
      audit env status_change (entity requirement_instance i.pk)
          (save (activate t.definitions t.instances t.volunteer d i) t),
      1,
    )
    else (t, 0)

-- The loop over the rows that the query has fetched, and how many it activates.
unfoldable pub activation_loop : Env → Date → List RequirementInstance → Tenant → Tenant × ℕ
unfolding turned_18 activate
activation_loop env as_of [] t = (t, 0)
activation_loop env as_of (i ∷ rows) t =
    let first = switched_on env as_of i (definition_at t.definitions i.definition_id) t in
    let rest = activation_loop env as_of rows first.0 in (rest.0, first.1 + rest.1)

unfoldable pub activate_turning_18_checks : Env → Date → Tenant → Tenant × ℕ
unfolding activation_loop
activate_turning_18_checks env as_of t = activation_loop env as_of t.instances t

-- `audit.Actor.system("nightly job")`
abbrev pub system : Actor
system = record {
  user_id = none;
  access_level_is_scoped = false;
  access_level_unknown = false;
  department_ids = [];
}

-- Only active volunteers are reconciled.
abbrev reconciled : Env → Date → Tenant → Tenant
reconciled env as_of t =
    if t.volunteer.is_active then (sync_volunteer_requirements env as_of true t).0 else t

unfoldable pub sweep_file : Env → Date → Tenant → Tenant
unfolding activate_turning_18_checks
sweep_file request as_of t =
    let env = record request { actor = system } in
    let activated = (activate_turning_18_checks env as_of (reconciled env as_of t)).0 in
    (recompute_all_statuses as_of activated).0

abbrev is_leadership_approval : RequirementType → Bool
is_leadership_approval leadership_approval = true
is_leadership_approval _ = false

abbrev of_definition :
    (RequirementDefinition → Bool) → List RequirementDefinition → RequirementInstance → Bool
of_definition p table i = elim (definition_at table i.definition_id) [ none ↦ false | some d ↦ p d ]

abbrev days_of : Option Date → List Date
days_of none = []
days_of (some d) = d ∷ []

abbrev began_on : List RequirementInstance → List Date
began_on [] = []
began_on (i ∷ rows) = days_of i.started_on ++ (days_of i.completed_on ++ began_on rows)

-- Whether the earliest of the days is before the limit.
abbrev any_before : Date → List Date → Bool
any_before limit [] = false
any_before limit (d ∷ days) = if before d limit then true else any_before limit days

unfoldable pub onboarding_window_breached : Date → Tenant → Bool
unfolding add_months_to
onboarding_window_breached as_of t =
    let onboarding =
      select
        (of_definition (λ (d : RequirementDefinition). d.is_onboarding && d.is_active)
          t.definitions)
        t.instances in
    let approval =
      select
        (of_definition (λ (d : RequirementDefinition). is_leadership_approval d.requirement_type)
          t.definitions)
        onboarding in
    if is_empty onboarding
    then false
    else if not (is_empty approval)
        && all (λ (i : RequirementInstance). is_satisfied i.status) approval
    then false
    else any_before (add_months_to as_of (negsuc 2)) (began_on onboarding)

same_file : (t : Tenant) → SameFile t t
same_file t = record { volunteer = refl; assignments = refl; documents = refl; convictions = refl }

switched_on-SameFile :
    (env : Env) (as_of : Date) (i : RequirementInstance) (o : Option RequirementDefinition)
    (t : Tenant)
    → SameFile t (switched_on env as_of i o t).0
switched_on-SameFile env as_of i none t = same_file t
switched_on-SameFile env as_of i (some d) t = elim (Bool-cases (turned_18 as_of t d i)) [
  | inl e ↦ rw e (
      SameFile-trans _ _ _
        (record { volunteer = refl; assignments = refl; documents = refl; convictions = refl })
        (audit-SameFile env _ _ _))
  | inr e ↦ rw e (same_file t)
]

activation_loop-SameFile :
    (env : Env) (as_of : Date) (rows : List RequirementInstance) (t : Tenant)
    → SameFile t (activation_loop env as_of rows t).0
unfolding activation_loop
activation_loop-SameFile env as_of [] t = same_file t
activation_loop-SameFile env as_of (i ∷ rows) t =
    SameFile-trans _ _ _ (switched_on-SameFile env as_of i _ t)
      (activation_loop-SameFile env as_of rows _)

either-SameFile : (b : Bool) (t u : Tenant) → SameFile t u → SameFile t (if b then u else t)
either-SameFile true t u same = same
either-SameFile false t u same = same_file t

reconciled-SameFile : (env : Env) (as_of : Date) (t : Tenant) → SameFile t (reconciled env as_of t)
reconciled-SameFile env as_of t =
    either-SameFile t.volunteer.is_active t _ (sync-SameFile env as_of true t)

-- After the nightly job, no requirement of an active volunteer that is past its deadline still reads as
-- not started or in progress: neither one that was there, nor one that the job itself has created
-- or switched on with a deadline that is past already.
pub sweep_file_late :
    (env : Env) (as_of : Date) (t : Tenant) (j : RequirementInstance)
    → t.volunteer.is_active ≡ true
    → Elem j (sweep_file env as_of t).instances
    → is_pending j.status ≡ true
    → passed j.due_on as_of ≡ false
unfolding sweep_file activate_turning_18_checks
sweep_file_late request as_of t j active m pending =
    let env = record request { actor = system } in
    let synced = reconciled env as_of t in
    let kept =
      SameFile-trans _ _ _ (reconciled-SameFile env as_of t)
        (activation_loop-SameFile env as_of synced.instances synced) in
    recompute_all_statuses_late as_of (activation_loop env as_of synced.instances synced).0 j
      (ap (λ (v : Volunteer). v.is_active) kept.volunteer ∙ active) m pending
