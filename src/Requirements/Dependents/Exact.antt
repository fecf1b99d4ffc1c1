-- ===== src/Requirements/Dependents/Exact.antt =====
-- What `dependent_pks` returns, and what the form offers.
use risk_management.Common.{
  ℕ, zero, suc, ◌≡◌, ◌≤◌, ◌↔◌, refl, true, not, Option, none, some, List, [], ◌∷◌, ◌++◌, arith, inl,
  inr, Bool-cases, length, is_empty, length-select, Elem, Elem-select, Elem-of-append,
  Elem-append_left,
}
use risk_management.Requirements.Definition.{RequirementDefinition, max_dependency_hops}
use risk_management.Requirements.Dependents.{
  is_in, follows_one_of, next_frontier, dependents_from, dependent_pks, must_follow_choices,
  DependsOn, itself, through,
}
use risk_management.Requirements.Dependents.Rounds.{
  is_in-Elem, Elem-is_in, next_frontier-Elem, false_of, Closed, unfound, dependents_from-Closed,
}

module _ (table : List RequirementDefinition) where
  dependents_from_keeps :
      (rounds : ℕ) (found frontier : List ℕ) (k : ℕ)
      → Elem k found
      → Elem k (dependents_from table rounds found frontier)
  unfolding dependents_from
  dependents_from_keeps zero found frontier k m = m
  dependents_from_keeps (suc rounds) found frontier k m =
      elim (Bool-cases (is_empty (next_frontier table found frontier))) [
        | inl e ↦ rw e m
        | inr e ↦ rw e (dependents_from_keeps rounds _ _ k (Elem-append_left k found _ m))
      ]

  next_sound :
      (k : ℕ) (found frontier : List ℕ)
      → ((i : ℕ) → Elem i frontier → DependsOn table k i)
      → (i : ℕ) → Elem i (next_frontier table found frontier)
      → DependsOn table k i
  next_sound k found frontier edge i n =
      let (d, row, e, follows, new) = next_frontier-Elem table found frontier i n in
      let (j, f, m) = followed d.must_follow follows in rw (← e) (through d j row f (edge j m))
    where
      followed :
          (o : Option ℕ)
          → follows_one_of frontier o ≡ true
          → (j : ℕ) × (o ≡ some j) × Elem j frontier
      followed none h = cc
      followed (some j) h = (j, refl, is_in-Elem frontier j h)

  -- Everything found depends on `k`, if everything in the sets that it starts with does.
  dependents_from_sound :
      (k rounds : ℕ) (found frontier : List ℕ)
      → ((i : ℕ) → Elem i found → DependsOn table k i)
      → ((i : ℕ) → Elem i frontier → DependsOn table k i)
      → (i : ℕ) → Elem i (dependents_from table rounds found frontier)
      → DependsOn table k i
  unfolding dependents_from
  dependents_from_sound k zero found frontier known edge i m = known i m
  dependents_from_sound k (suc rounds) found frontier known edge i m =
      let next = next_frontier table found frontier in
      let reached : (i : ℕ) → Elem i next → DependsOn table k i =
        λ i n. next_sound k found frontier edge i n in
      elim (Bool-cases (is_empty next)) [
        | inl e ↦ known i (rw e at m)
        | inr e ↦
            dependents_from_sound k rounds (found ++ next) next
              (λ j n. elim (Elem-of-append j found next n) [
                | inl old ↦ known j old
                | inr new ↦ reached j new
              ])
              reached i (rw e at m)
      ]

  Closed-DependsOn :
      (found : List ℕ) (k i : ℕ)
      → Closed table found
      → Elem k found
      → DependsOn table k i
      → Elem i found
  Closed-DependsOn found k i closed m itself = m
  Closed-DependsOn found k i closed m (through d j row e on) =
      closed d j row e (Closed-DependsOn found k j closed m on)

  unfound_le : (found : List ℕ) → unfound table found ≤ length table
  unfound_le found = length-select (λ (d : RequirementDefinition). not (is_in found d.pk)) table

  -- With at most as many definitions as the loop has rounds, the loop ends because there is nobody left
  -- to find: what it returns is exactly the requirement and all that depend on it, over however many steps.
  pub dependent_pks-DependsOn :
      (k i : ℕ)
      → length table ≤ max_dependency_hops
      → Elem i (dependent_pks table k) ↔ DependsOn table k i
  unfolding dependent_pks
  dependent_pks-DependsOn k i few = (
    dependents_from_sound k max_dependency_hops (k ∷ []) (k ∷ []) alone alone i,
    Closed-DependsOn _ k i
        (dependents_from-Closed table max_dependency_hops (k ∷ []) (k ∷ []) (λ d j m e n. inr n)
          (omega (arith, few, unfound_le (k ∷ []))))
        (dependents_from_keeps max_dependency_hops (k ∷ []) (k ∷ []) k (inl refl)),
  )
    where
      alone : (j : ℕ) → Elem j (k ∷ []) → DependsOn table k j
      alone j (inl e) = rw e itself
      alone j (inr none_such) = absurd none_such

  -- The form offers, for what comes first, exactly the active requirements that do not depend on the one
  -- that is edited, if there are no more definitions than the loop has rounds.
  pub must_follow_choices-DependsOn :
      (k : ℕ) (d : RequirementDefinition)
      → length table ≤ max_dependency_hops
      → Elem d (must_follow_choices table (some k))
        ↔ (Elem d table × (d.is_active ≡ true) × (DependsOn table k d.pk → ⊥))
  unfolding must_follow_choices
  must_follow_choices-DependsOn k d few = (
    λ m.
        let (n, free) = (Elem-select d _ _).0 m in
        let (row, active) = (Elem-select d _ table).0 n in
        (
          row,
          active,
          λ on. cc (false_of _ free, Elem-is_in _ _ ((dependent_pks-DependsOn k d.pk few).1 on)),
        ),
    λ h. (Elem-select d _ _).1 (
      (Elem-select d _ table).1 (h.0, h.1),
      not_in _ _ (λ m. h.2 ((dependent_pks-DependsOn k d.pk few).0 m)),
    ),
  )
    where
      not_in : (found : List ℕ) (i : ℕ) → (Elem i found → ⊥) → not (is_in found i) ≡ true
      not_in found i out = elim (Bool-cases (is_in found i)) [
        | inl e ↦ absurd (out (is_in-Elem found i e))
        | inr e ↦ rw e refl
      ]
