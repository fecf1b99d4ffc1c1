-- ===== src/Requirements/Sync/Idle.antt =====
-- Reconciling a volunteer who serves nowhere: every requirement that still waits for something
-- stops applying, and nothing else is written.
use risk_management.Common.{
  ℕ, ◌≡◌, refl, ◌∙◌, ap, inl, inr, Bool, true, false, Option, none, some, List, [], ◌∷◌, ◌||◌,
  arith, Elem, find-Elem, Option-cases, Bool-cases, ◌==◌, ==_iff, ==_refl, if◌then◌else◌, any,
  subst,
}
use risk_management.Calendar.{Date}
use risk_management.Org.{active_roles}
use risk_management.Requirements.Definition.{RequirementDefinition, applies_to_volunteer}
use risk_management.Requirements.Instance.{RequirementInstance, no_role, is_outstanding}
use risk_management.Requirements.Gate.{instance_for}
use risk_management.Requirements.Reconcile.{change_for, hold_not_applicable}
use risk_management.Requirements.Sync.{
  Counts, apply_change, round_change, sync_loop, sync_volunteer_requirements, active_definitions,
}
use risk_management.Requirements.Sync.History.{round-Sound}
use risk_management.Tenant.{Tenant, Env, put_instance}
use risk_management.Tenant.Rows.{WellKeyed}

abbrev swap : RequirementInstance → Option RequirementInstance → Option RequirementInstance
swap j none = none
swap j (some x) = some (if x.pk == j.pk then j else x)

instance_for-put_instance :
    (k : ℕ) (j : RequirementInstance) (rows : List RequirementInstance)
    → ((x : RequirementInstance) → Elem x rows → x.pk ≡ j.pk → x.definition_id ≡ j.definition_id)
    → instance_for k (put_instance j rows) ≡ swap j (instance_for k rows)
unfolding put_instance
instance_for-put_instance k j [] h = refl
instance_for-put_instance k j (x ∷ xs) h =
    let rest = instance_for-put_instance k j xs (λ y m. h y (inr m)) in
    elim (Bool-cases (x.pk == j.pk)) [
      | inl e ↦
          let same : x.definition_id ≡ j.definition_id = h x (inl refl) ((==_iff _ _).0 e) in
          elim (Bool-cases (x.definition_id == k)) [
            | inl f ↦ (let g : (j.definition_id == k) ≡ true = rw same at f in rw (e, f, g, e) refl)
            | inr f ↦ (let g : (j.definition_id == k) ≡ false = rw same at f in rw (e, f, g) rest)
          ]
      | inr e ↦ elim (Bool-cases (x.definition_id == k)) [
        | inl f ↦ rw (e, f, e) refl
        | inr f ↦ rw (e, f) rest
      ]
    ]

-- What is left of the row on an active requirement.
unfoldable pub retired_row : Option RequirementInstance → Option RequirementInstance
unfolding hold_not_applicable
retired_row none = none
retired_row (some i) =
    if is_outstanding i.status then some (hold_not_applicable no_role i) else some i

retired_row-retired_row :
    (o : Option RequirementInstance) → retired_row (retired_row o) ≡ retired_row o
unfolding retired_row
retired_row-retired_row none = refl
retired_row-retired_row (some i) = ground arith

abbrev if_active : Bool → Option RequirementInstance → Option RequirementInstance
if_active b o = if b then retired_row o else o

module _ (env : Env) (quiet : Bool) (t : Tenant) (w : WellKeyed t.next_pk t.instances) where
  moved :
      {n k : ℕ} (i : RequirementInstance)
      → instance_for n t.instances ≡ some i
      → n ≡ k
      → instance_for k t.instances ≡ some i
  moved i first e = subst (λ m. instance_for m t.instances ≡ some i) e first

  -- Holding back the row of the definition `n` writes that row and no other.
  held_row :
      (n k : ℕ) (i : RequirementInstance)
      → instance_for n t.instances ≡ some i
      → instance_for k (put_instance (hold_not_applicable no_role i) t.instances)
        ≡ (if n == k then some (hold_not_applicable no_role i) else instance_for k t.instances)
  unfolding hold_not_applicable
  held_row n k i first =
      instance_for-put_instance k (hold_not_applicable no_role i) t.instances
        (λ x mx e. ap (λ (y : RequirementInstance). y.definition_id) (w.unique x i mx found.0 e))
      ∙ elim (Bool-cases (n == k)) [
        | inl e ↦ rw (e, moved i first ((==_iff _ _).0 e), ==_refl i.pk) refl
        | inr e ↦ elim (Option-cases (instance_for k t.instances)) [
          | inl nothing ↦ rw (e, nothing) refl
          | inr h ↦ let (x, g) = h in rw (e, g, other x g e) refl
        ]
      ]
    where
      found : Elem i t.instances × ((i.definition_id == n) ≡ true)
      found = find-Elem _ t.instances i first

      other :
          (x : RequirementInstance)
          → instance_for k t.instances ≡ some x
          → (n == k) ≡ false
          → (x.pk == i.pk) ≡ false
      other x g e = elim (Bool-cases (x.pk == i.pk)) [
        | inr p ↦ p
        | inl p ↦
            let (mx, f) = find-Elem _ t.instances x g in
            let same : x ≡ i = w.unique x i mx found.0 ((==_iff _ _).0 p) in
            absurd (
              ground (arith, ap (λ (y : RequirementInstance). y.definition_id) same, e, f, found.1))
      ]

  round-idle :
      (as_of : Date) (d : RequirementDefinition) (k : ℕ)
      → instance_for k (apply_change env quiet (round_change as_of [] d t) t).instances
        ≡ if_active (d.pk == k) (instance_for k t.instances)
  unfolding apply_change change_for applies_to_volunteer retired_row
  round-idle as_of d k = elim (Option-cases (instance_for d.pk t.instances)) [
    | inl n ↦ elim (Bool-cases (d.pk == k)) [
      | inl e ↦
          let g : instance_for k t.instances ≡ none = rw ((==_iff _ _).0 e) at n in
          rw (n, e, g) refl
      | inr e ↦ rw (n, e) refl
    ]
    | inr h ↦
        let (i, f) = h in
        elim (Bool-cases (is_outstanding i.status)) [
          | inl o ↦
              rw (f, o)
                (held_row d.pk k i f ∙ elim (Bool-cases (d.pk == k)) [
                  | inl e ↦ rw (e, moved i f ((==_iff _ _).0 e), o) refl
                  | inr e ↦ rw e refl
                ])
          | inr o ↦
              rw (f, o)
                (elim (Bool-cases (d.pk == k)) [
                  | inl e ↦ rw (e, moved i f ((==_iff _ _).0 e), o) refl
                  | inr e ↦ rw e refl
                ])
        ]
  ]

if_active-if_active :
    (a b : Bool) (o : Option RequirementInstance)
    → if_active b (if_active a o) ≡ if_active (a || b) o
if_active-if_active true true o = retired_row-retired_row o
if_active-if_active true false o = refl
if_active-if_active false b o = refl

sync_loop-idle :
    (env : Env) (as_of : Date) (quiet : Bool) (ds : List RequirementDefinition) (t : Tenant)
    (n : Counts) (k : ℕ)
    → WellKeyed t.next_pk t.instances
    → instance_for k ((sync_loop env as_of quiet [] ds t n).0).instances
      ≡ if_active (any (λ d. d.pk == k) ds) (instance_for k t.instances)
unfolding sync_loop
sync_loop-idle env as_of quiet [] t n k w = refl
sync_loop-idle env as_of quiet (d ∷ ds) t n k w =
    sync_loop-idle env as_of quiet ds _ _ k (round-Sound env quiet as_of [] d t w).0
    ∙ (ap (if_active (any (λ (e : RequirementDefinition). e.pk == k) ds))
          (round-idle env quiet t w as_of d k)
        ∙ if_active-if_active (d.pk == k) _ _)

-- Reconciling the requirements of a volunteer without an active assignment turns the row of every
-- active requirement that is outstanding, a blocked one too, into one that does not apply for want
-- of a role, without a deadline. Every other row stays as it is, and none is created. Keys are
-- unique before.
pub sync-no_roles :
    (env : Env) (as_of : Date) (quiet : Bool) (t : Tenant) (k : ℕ)
    → WellKeyed t.next_pk t.instances
    → active_roles t.assignments ≡ []
    → instance_for k ((sync_volunteer_requirements env as_of quiet t).0).instances ≡ (
        if any (λ d. d.pk == k) (active_definitions t)
        then retired_row (instance_for k t.instances)
        else instance_for k t.instances)
unfolding sync_volunteer_requirements
sync-no_roles env as_of quiet t k w idle =
    rw idle (sync_loop-idle env as_of quiet (active_definitions t) t _ k w)
