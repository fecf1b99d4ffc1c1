-- ===== src/Requirements/Sync/Complete.antt =====
-- After reconciliation, every active requirement that one of the volunteer's roles brings has a row.
use risk_management.Common.{
  ℕ, ◌≡◌, refl, ◌∙◌, inl, inr, Bool, true, false, none, List, [], ◌∷◌, subst, arith, Elem,
  Elem-append_right, find-Elem, Option-cases, Bool-cases, ==_iff, Elem-select,
}
use risk_management.Calendar.{Date}
use risk_management.Org.{Volunteer, Role, active_roles}
use risk_management.Audit.{create}
use risk_management.Requirements.Definition.{RequirementDefinition, applies_to_volunteer}
use risk_management.Requirements.Instance.{RequirementInstance}
use risk_management.Requirements.Gate.{instance_for}
use risk_management.Requirements.Reconcile.{
  Change, keep, created, retired, held, refreshed, activated, change_for,
}
use risk_management.Requirements.Sync.{
  Counts, audit_unless, apply_change, round_change, sync_loop, sync_volunteer_requirements,
  active_definitions,
}
use risk_management.Requirements.Sync.History.{round-Sound, Survives}
use risk_management.Tenant.{Tenant, Env, audit}
use risk_management.Tenant.Rows.{WellKeyed}

-- Some row is on this requirement.
abbrev pub Listed : ℕ → List RequirementInstance → Type 0
Listed k rows = (j : RequirementInstance) × Elem j rows × (j.definition_id ≡ k)

Survives-Listed :
    (k : ℕ) (before after : List RequirementInstance)
    → Survives before after
    → Listed k before
    → Listed k after
Survives-Listed k before after s (i, m, e) =
    let (j, n, kept) = s.at i m in (j, n, kept.definition_id ∙ e)

abbrev Adds : ℕ → Change → Type 0
Adds k keep = ⊥
Adds k (created j) = j.definition_id ≡ k
Adds k (retired j) = ⊥
Adds k (held j) = ⊥
Adds k (refreshed j) = ⊥
Adds k (activated j) = ⊥

change_for-Adds :
    (pk : ℕ) (table : List RequirementDefinition) (rows : List RequirementInstance) (v : Volunteer)
    (roles : List Role) (as_of : Date) (d : RequirementDefinition)
    → applies_to_volunteer d roles ≡ true
    → Adds d.pk (change_for pk table rows v roles as_of d none)
unfolding change_for
change_for-Adds pk table rows v roles as_of d applies = ground (arith, applies)

audit_unless-Listed :
    (env : Env) (quiet : Bool) (e k : ℕ) (t : Tenant)
    → Listed k t.instances
    → Listed k (audit_unless quiet env create e t).instances
unfolding audit
audit_unless-Listed env true e k t l = l
audit_unless-Listed env false e k t l = elim (Bool-cases env.directory.on_public_schema) [
  | inl p ↦ rw p l
  | inr p ↦ rw p l
]

apply_change-Adds :
    (env : Env) (quiet : Bool) (k : ℕ) (c : Change) (t : Tenant)
    → Adds k c
    → Listed k (apply_change env quiet c t).instances
unfolding apply_change
apply_change-Adds env quiet k keep t a = absurd a
apply_change-Adds env quiet k (created j) t a =
    audit_unless-Listed env quiet j.pk k _
      (j, Elem-append_right j t.instances (j ∷ []) (inl refl), a)
apply_change-Adds env quiet k (retired j) t a = absurd a
apply_change-Adds env quiet k (held j) t a = absurd a
apply_change-Adds env quiet k (refreshed j) t a = absurd a
apply_change-Adds env quiet k (activated j) t a = absurd a

round-Listed :
    (env : Env) (quiet : Bool) (as_of : Date) (roles : List Role) (d : RequirementDefinition)
    (t : Tenant)
    → WellKeyed t.next_pk t.instances
    → applies_to_volunteer d roles ≡ true
    → Listed d.pk (apply_change env quiet (round_change as_of roles d t) t).instances
round-Listed env quiet as_of roles d t w applies =
    elim (Option-cases (instance_for d.pk t.instances)) [
      | inl e ↦ rw e (
          apply_change-Adds env quiet d.pk _ t
            (change_for-Adds t.next_pk t.definitions t.instances t.volunteer roles as_of d applies))
      | inr h ↦
          let (i, e) = h in
          let (m, q) = find-Elem _ t.instances i e in
          Survives-Listed d.pk _ _ (round-Sound env quiet as_of roles d t w).1
            (i, m, (==_iff _ _).0 q)
    ]

sync_loop-Listed :
    (env : Env) (as_of : Date) (quiet : Bool) (roles : List Role) (ds : List RequirementDefinition)
    (t : Tenant) (n : Counts) (k : ℕ)
    → WellKeyed t.next_pk t.instances
    → Listed k t.instances
    → Listed k ((sync_loop env as_of quiet roles ds t n).0).instances
unfolding sync_loop
sync_loop-Listed env as_of quiet roles [] t n k w l = l
sync_loop-Listed env as_of quiet roles (d ∷ ds) t n k w l =
    let (w', s) = round-Sound env quiet as_of roles d t w in
    sync_loop-Listed env as_of quiet roles ds _ _ k w' (Survives-Listed k _ _ s l)

sync_loop_complete :
    (env : Env) (as_of : Date) (quiet : Bool) (roles : List Role) (ds : List RequirementDefinition)
    (t : Tenant) (n : Counts) (d : RequirementDefinition)
    → WellKeyed t.next_pk t.instances
    → Elem d ds
    → applies_to_volunteer d roles ≡ true
    → Listed d.pk ((sync_loop env as_of quiet roles ds t n).0).instances
unfolding sync_loop
sync_loop_complete env as_of quiet roles [] t n d w m applies = absurd m
sync_loop_complete env as_of quiet roles (x ∷ xs) t n d w m applies =
    let w' = (round-Sound env quiet as_of roles x t w).0 in
    elim m [
      | inl q ↦ sync_loop-Listed env as_of quiet roles xs _ _ d.pk w' (
          rw q (
            round-Listed env quiet as_of roles x t w
              (subst (λ y. applies_to_volunteer y roles ≡ true) q applies)))
      | inr later ↦ sync_loop_complete env as_of quiet roles xs _ _ d w' later applies
    ]

-- Reconciling gives the volunteer a row for every active requirement that applies to one of the
-- roles they serve in, whatever their age and whatever it waits for, if keys are unique before.
pub sync-Listed :
    (env : Env) (as_of : Date) (quiet : Bool) (t : Tenant) (d : RequirementDefinition)
    → WellKeyed t.next_pk t.instances
    → Elem d t.definitions
    → d.is_active ≡ true
    → applies_to_volunteer d (active_roles t.assignments) ≡ true
    → Listed d.pk ((sync_volunteer_requirements env as_of quiet t).0).instances
unfolding sync_volunteer_requirements
sync-Listed env as_of quiet t d w m active applies =
    sync_loop_complete env as_of quiet (active_roles t.assignments) (active_definitions t) t _ d w
      ((Elem-select d _ t.definitions).1 (m, active)) applies
