-- ===== src/Requirements/Sync/History.antt =====
-- What reconciliation leaves alone: no row is deleted, and no recorded date, waiver or note of a
-- row is touched.
use risk_management.Common.{
  ℕ, ◌≡◌, sym, ◌∙◌, ap, inl, inr, Bool, true, false, none, some, List, [], ◌∷◌, arith, Elem,
  Elem-append_left, find-Elem, Option-cases, Bool-cases, ◌==◌, subst,
}
use risk_management.Calendar.{Date}
use risk_management.Org.{Volunteer, Role, active_roles}
use risk_management.Requirements.Definition.{RequirementDefinition}
use risk_management.Requirements.Instance.{RequirementInstance, complete, waived}
use risk_management.Requirements.Gate.{instance_for}
use risk_management.Requirements.Reconcile.{
  Change, keep, created, retired, held, refreshed, activated, change_for,
}
use risk_management.Audit.{AuditAction, create, status_change}
use risk_management.Requirements.Sync.{
  Counts, audit_unless, apply_change, round_change, sync_loop, sync_volunteer_requirements,
  active_definitions,
}
use risk_management.Tenant.{Tenant, Env, audit, put_instance}
use risk_management.Tenant.Rows.{
  WellKeyed, put_instance_self, put_instance_other, put_instance-WellKeyed, append-WellKeyed,
}

-- The row `j` is the row `i` with at most its status, its reason and its deadline changed, and
-- unchanged if it was complete or waived.
pub record Kept (i j : RequirementInstance) : Type 0 where
  pub pk : j.pk ≡ i.pk
  pub definition_id : j.definition_id ≡ i.definition_id
  pub started_on : j.started_on ≡ i.started_on
  pub completed_on : j.completed_on ≡ i.completed_on
  pub expires_on : j.expires_on ≡ i.expires_on
  pub waived_reason : j.waived_reason ≡ i.waived_reason
  pub waived_by : j.waived_by ≡ i.waived_by
  pub waived_on : j.waived_on ≡ i.waived_on
  pub notes : j.notes ≡ i.notes
  pub settled_complete : i.status ≡ complete → j ≡ i
  pub settled_waived : i.status ≡ waived → j ≡ i

pub Kept-refl : (i : RequirementInstance) → Kept i i
Kept-refl i = ground arith

pub Kept-trans : (i j k : RequirementInstance) → Kept i j → Kept j k → Kept i k
Kept-trans i j k a b = record {
  pk = b.pk ∙ a.pk;
  definition_id = b.definition_id ∙ a.definition_id;
  started_on = b.started_on ∙ a.started_on;
  completed_on = b.completed_on ∙ a.completed_on;
  expires_on = b.expires_on ∙ a.expires_on;
  waived_reason = b.waived_reason ∙ a.waived_reason;
  waived_by = b.waived_by ∙ a.waived_by;
  waived_on = b.waived_on ∙ a.waived_on;
  notes = b.notes ∙ a.notes;
  settled_complete = λ s.
      let e = a.settled_complete s in
      b.settled_complete (ap (λ (x : RequirementInstance). x.status) e ∙ s) ∙ e;
  settled_waived = λ s.
      let e = a.settled_waived s in
      b.settled_waived (ap (λ (x : RequirementInstance). x.status) e ∙ s) ∙ e;
}

-- A change to the row `i`.
abbrev Rewrites : RequirementInstance → Change → Type 0
Rewrites i keep = Unit
Rewrites i (created j) = ⊥
Rewrites i (retired j) = Kept i j
Rewrites i (held j) = Kept i j
Rewrites i (refreshed j) = Kept i j
Rewrites i (activated j) = Kept i j

change_for-Rewrites :
    (pk : ℕ) (table : List RequirementDefinition) (rows : List RequirementInstance) (v : Volunteer)
    (roles : List Role) (as_of : Date) (d : RequirementDefinition) (i : RequirementInstance)
    → Rewrites i (change_for pk table rows v roles as_of d (some i))
unfolding change_for
change_for-Rewrites pk table rows v roles as_of d i = ground arith

abbrev Creates : ℕ → Change → Type 0
Creates pk keep = Unit
Creates pk (created j) = j.pk ≡ pk
Creates pk (retired j) = ⊥
Creates pk (held j) = ⊥
Creates pk (refreshed j) = ⊥
Creates pk (activated j) = ⊥

change_for-Creates :
    (pk : ℕ) (table : List RequirementDefinition) (rows : List RequirementInstance) (v : Volunteer)
    (roles : List Role) (as_of : Date) (d : RequirementDefinition)
    → Creates pk (change_for pk table rows v roles as_of d none)
unfolding change_for
change_for-Creates pk table rows v roles as_of d = ground arith

-- Every row is still there, with its history.
pub record Survives (before after : List RequirementInstance) : Type 0 where
  pub at :
      (i : RequirementInstance)
      → Elem i before
      → (j : RequirementInstance) × Elem j after × Kept i j

Survives-refl : (rows : List RequirementInstance) → Survives rows rows
Survives-refl rows = record { at = λ i m. (i, m, Kept-refl i) }

Survives-trans : (a b c : List RequirementInstance) → Survives a b → Survives b c → Survives a c
Survives-trans a b c p q = record {
  at = λ i m.
      let (j, n, k) = p.at i m in let (j', n', k') = q.at j n in (j', n', Kept-trans i j j' k k');
}

-- The rows after a change, and the next key.
abbrev Sound : Tenant → Tenant → Type 0
Sound t u = WellKeyed u.next_pk u.instances × Survives t.instances u.instances

audit_unless-Sound :
    (env : Env) (quiet : Bool) (action : AuditAction) (k : ℕ) (t u : Tenant)
    → Sound t u
    → Sound t (audit_unless quiet env action k u)
unfolding audit
audit_unless-Sound env true action k t u s = s
audit_unless-Sound env false action k t u s = elim (Bool-cases env.directory.on_public_schema) [
  | inl e ↦ rw e s
  | inr e ↦ rw e s
]

module _ (env : Env) (quiet : Bool) (t : Tenant) (w : WellKeyed t.next_pk t.instances) where
  put-Sound :
      (i j : RequirementInstance)
      → Elem i t.instances
      → Kept i j
      → WellKeyed t.next_pk (put_instance j t.instances)
        × Survives t.instances (put_instance j t.instances)
  put-Sound i j m k = (
    put_instance-WellKeyed t.next_pk j i t.instances w m (sym k.pk),
    record {
      at = λ x mx. elim (Bool-cases (x.pk == j.pk)) [
        | inl e ↦
            (let same : x ≡ i = w.unique x i mx m (ground (arith, e, k.pk)) in
              (
                j,
                put_instance_self j i t.instances m (sym k.pk),
                subst (λ y. Kept y j) (sym same) k,
              ))
        | inr e ↦
            (x, put_instance_other j x t.instances mx (λ p. ground (arith, e, p)), Kept-refl x)
      ];
    },
  )

  apply_change-existing :
      (i : RequirementInstance) (c : Change)
      → Elem i t.instances
      → Rewrites i c
      → Sound t (apply_change env quiet c t)
  unfolding apply_change
  apply_change-existing i keep m r = (w, Survives-refl t.instances)
  apply_change-existing i (created j) m r = absurd r
  apply_change-existing i (retired j) m r = put-Sound i j m r
  apply_change-existing i (held j) m r = put-Sound i j m r
  apply_change-existing i (refreshed j) m r = put-Sound i j m r
  apply_change-existing i (activated j) m r =
      audit_unless-Sound env quiet status_change j.pk t _ (put-Sound i j m r)

  apply_change-new : (c : Change) → Creates t.next_pk c → Sound t (apply_change env quiet c t)
  unfolding apply_change
  apply_change-new keep r = (w, Survives-refl t.instances)
  apply_change-new (created j) r = audit_unless-Sound env quiet create j.pk t _ (
    append-WellKeyed t.next_pk j t.instances w r,
    record { at = λ x mx. (x, Elem-append_left x t.instances (j ∷ []) mx, Kept-refl x) },
  )
  apply_change-new (retired j) r = absurd r
  apply_change-new (held j) r = absurd r
  apply_change-new (refreshed j) r = absurd r
  apply_change-new (activated j) r = absurd r

pub round-Sound :
    (env : Env) (quiet : Bool) (as_of : Date) (roles : List Role) (d : RequirementDefinition)
    (t : Tenant)
    → WellKeyed t.next_pk t.instances
    → Sound t (apply_change env quiet (round_change as_of roles d t) t)
round-Sound env quiet as_of roles d t w = elim (Option-cases (instance_for d.pk t.instances)) [
  | inl e ↦ rw e (
      apply_change-new env quiet t w _
        (change_for-Creates t.next_pk t.definitions t.instances t.volunteer roles as_of d))
  | inr h ↦
      let (i, e) = h in
      rw e (
        apply_change-existing env quiet t w i _ (find-Elem _ t.instances i e).0
          (change_for-Rewrites t.next_pk t.definitions t.instances t.volunteer roles as_of d i))
]

sync_loop-Sound :
    (env : Env) (as_of : Date) (quiet : Bool) (roles : List Role) (ds : List RequirementDefinition)
    (t : Tenant) (n : Counts)
    → WellKeyed t.next_pk t.instances
    → Sound t (sync_loop env as_of quiet roles ds t n).0
unfolding sync_loop
sync_loop-Sound env as_of quiet roles [] t n w = (w, Survives-refl t.instances)
sync_loop-Sound env as_of quiet roles (d ∷ ds) t n w =
    let (w', s') = round-Sound env quiet as_of roles d t w in
    let (w'', s'') = sync_loop-Sound env as_of quiet roles ds _ _ w' in
    (w'', Survives-trans _ _ _ s' s'')

-- Reconciling a volunteer's requirements deletes no row: each survives with its key, its dates, its
-- waiver and its notes, and unchanged if it was complete or waived. Keys stay unique, if they were.
pub sync-Survives :
    (env : Env) (as_of : Date) (quiet : Bool) (t : Tenant)
    → WellKeyed t.next_pk t.instances
    → let u = (sync_volunteer_requirements env as_of quiet t).0 in
      WellKeyed u.next_pk u.instances × Survives t.instances u.instances
unfolding sync_volunteer_requirements
sync-Survives env as_of quiet t w =
    sync_loop-Sound env as_of quiet (active_roles t.assignments) (active_definitions t) t
      (record { created = 0; updated = 0; retired = 0 }) w
