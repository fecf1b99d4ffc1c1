-- ===== src/Requirements/Dependents.antt =====
-- `dependent_pks` of apps/requirements/models.py, and the choices that `RequirementDefinitionForm`
-- of apps/requirements/forms.py offers for the requirement that comes first. A set is a list of keys.
pub mod Rounds
pub mod Exact
use risk_management.Common.{
  left_of_and_not, right_of_and_not, ℕ, zero, suc, ◌+◌, ◌≡◌, ◌≤◌, ◌<◌, ◌↔◌, ◌⊎◌, refl, sym, ◌∙◌, ap,
  subst, Bool, true, false, not, ◌&&◌, ◌||◌, Option, none, some, List, [], ◌∷◌, ◌++◌, map, arith,
  inl, inr, Bool-cases, ◌==◌, ==_iff, if◌then◌else◌, any, select, length, is_empty, Elem,
  Elem-select, any-Elem, Elem-any, Elem-map, map-Elem, Elem-of-append, Elem-append_left,
  Elem-append_right, some_inj, no_value,
}
use risk_management.Requirements.Definition.{RequirementDefinition, max_dependency_hops}

abbrev pub is_in : List ℕ → ℕ → Bool
is_in found k = any (λ i. i == k) found

abbrev pub follows_one_of : List ℕ → Option ℕ → Bool
follows_one_of frontier none = false
follows_one_of frontier (some k) = is_in frontier k

-- `filter(must_follow_id__in=frontier).exclude(pk__in=found)`
unfoldable pub next_frontier : List RequirementDefinition → List ℕ → List ℕ → List ℕ
next_frontier table found frontier =
    map (λ (d : RequirementDefinition). d.pk)
      (select (λ d. follows_one_of frontier d.must_follow && not (is_in found d.pk)) table)

-- The loop, with the rounds that are left.
unfoldable pub dependents_from : List RequirementDefinition → ℕ → List ℕ → List ℕ → List ℕ
unfolding next_frontier
dependents_from table zero found frontier = found
dependents_from table (suc rounds) found frontier =
    let next = next_frontier table found frontier in
    let rest = dependents_from table rounds (found ++ next) next in
    if is_empty next then found else rest

unfoldable pub dependent_pks : List RequirementDefinition → ℕ → List ℕ
unfolding dependents_from
dependent_pks table k = dependents_from table max_dependency_hops (k ∷ []) (k ∷ [])

-- `self.fields["must_follow"].queryset`, of a requirement that is saved already or is not.
unfoldable pub must_follow_choices :
    List RequirementDefinition → Option ℕ → List RequirementDefinition
unfolding dependent_pks
must_follow_choices table none = select (λ (d : RequirementDefinition). d.is_active) table
must_follow_choices table (some k) =
    select (λ (d : RequirementDefinition). not (is_in (dependent_pks table k) d.pk))
      (select (λ (d : RequirementDefinition). d.is_active) table)

-- The requirement of the first key depends on that of the second, directly or through others, or
-- is the same.
pub data DependsOn (table : List RequirementDefinition) (k : ℕ) : ℕ → Type 0 where
  itself : DependsOn table k k
  through :
      (d : RequirementDefinition) (j : ℕ)
      → Elem d table
      → d.must_follow ≡ some j
      → DependsOn table k j
      → DependsOn table k d.pk
