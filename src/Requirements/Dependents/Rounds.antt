-- ===== src/Requirements/Dependents/Rounds.antt =====
-- The rounds of the loop in `dependent_pks`: each leaves fewer definitions to find, and in the end
-- nobody outside follows one of those found.
use risk_management.Common.{
  left_of_and_not, right_of_and_not, ℕ, zero, suc, ◌≡◌, ◌≤◌, ◌<◌, ◌⊎◌, refl, subst, Bool, true,
  false, not, some, List, [], ◌∷◌, ◌++◌, arith, inl, inr, Bool-cases, ◌==◌, ==_iff, select, length,
  is_empty, length-select_lt, none_left, Elem, Elem-select, any-Elem, Elem-any, Elem-map, map-Elem,
  Elem-of-append, Elem-append_left, Elem-append_right,
}
use risk_management.Requirements.Definition.{RequirementDefinition}
use risk_management.Requirements.Dependents.{is_in, follows_one_of, next_frontier, dependents_from}

pub is_in-Elem : (ids : List ℕ) (k : ℕ) → is_in ids k ≡ true → Elem k ids
is_in-Elem ids k h =
    let (i, m, e) = any-Elem (λ i. i == k) ids h in subst (λ n. Elem n ids) ((==_iff i k).0 e) m

pub Elem-is_in : (ids : List ℕ) (k : ℕ) → Elem k ids → is_in ids k ≡ true
Elem-is_in ids k m = Elem-any (λ i. i == k) ids k m ((==_iff k k).1 refl)

-- Who follows one of the frontier and has not been found, and nobody else, is in the next one.
pub next_frontier-Elem :
    (table : List RequirementDefinition) (found frontier : List ℕ) (k : ℕ)
    → Elem k (next_frontier table found frontier)
    → (d : RequirementDefinition) × Elem d table
      × (d.pk ≡ k)
      × (follows_one_of frontier d.must_follow ≡ true)
      × (is_in found k ≡ false)
unfolding next_frontier
next_frontier-Elem table found frontier k m =
    let (d, n, e) = Elem-map _ _ k m in
    let (row, kept) = (Elem-select d _ table).0 n in
    (
      d,
      row,
      e,
      left_of_and_not _ _ kept,
      subst (λ i. is_in found i ≡ false) e (right_of_and_not _ _ kept),
    )

pub next_frontier_complete :
    (table : List RequirementDefinition) (found frontier : List ℕ) (d : RequirementDefinition)
    (j : ℕ)
    → Elem d table
    → d.must_follow ≡ some j
    → Elem j frontier
    → is_in found d.pk ≡ false
    → Elem d.pk (next_frontier table found frontier)
unfolding next_frontier
next_frontier_complete table found frontier d j m e n new =
    map-Elem (λ (d : RequirementDefinition). d.pk) _ d
      ((Elem-select d _ table).1 (m, rw (e, Elem-is_in frontier j n, new) refl))

-- Nothing outside the set follows one of the set.
abbrev pub Closed : List RequirementDefinition → List ℕ → Type 0
Closed table found =
    (d : RequirementDefinition) (j : ℕ)
    → Elem d table
    → d.must_follow ≡ some j
    → Elem j found
    → Elem d.pk found

-- The same, but for those who follow the frontier.
abbrev pub ClosedBut : List RequirementDefinition → List ℕ → List ℕ → Type 0
ClosedBut table found frontier =
    (d : RequirementDefinition) (j : ℕ)
    → Elem d table
    → d.must_follow ≡ some j
    → Elem j found
    → Elem d.pk found ⊎ Elem j frontier

-- How many definitions have not been found.
abbrev pub unfound : List RequirementDefinition → List ℕ → ℕ
unfound table found = length (select (λ (d : RequirementDefinition). not (is_in found d.pk)) table)

pub false_of : (b : Bool) → not b ≡ true → b ≡ false
false_of b h = ground (arith, h)

true_of : (b : Bool) → not b ≡ false → b ≡ true
true_of b h = ground (arith, h)

head_of : (l : List ℕ) → is_empty l ≡ false → (k : ℕ) × Elem k l
head_of [] h = cc
head_of (k ∷ l) h = (k, inl refl)

nothing_in : (l : List ℕ) (k : ℕ) → is_empty l ≡ true → Elem k l → ⊥
nothing_in [] k h m = m
nothing_in (i ∷ l) k h m = cc

module _ (table : List RequirementDefinition) where
  -- A round that finds somebody leaves fewer to find.
  unfound_less :
      (found frontier : List ℕ)
      → is_empty (next_frontier table found frontier) ≡ false
      → unfound table (found ++ next_frontier table found frontier) < unfound table found
  unfound_less found frontier some_found =
      let next = next_frontier table found frontier in
      let (k, m) = head_of next some_found in
      let (d, row, e, follows, new) = next_frontier-Elem table found frontier k m in
      length-select_lt _ _ table d (λ x h. rw (still_new found next x.pk (false_of _ h)) refl) row
        (rw e (rw (Elem-is_in (found ++ next) k (Elem-append_right k found next m)) refl))
        (rw e (rw new refl))
    where
      still_new : (l m : List ℕ) (k : ℕ) → is_in (l ++ m) k ≡ false → is_in l k ≡ false
      still_new l m k h = elim (Bool-cases (is_in l k)) [
        | inl e ↦ absurd (cc (h, Elem-is_in (l ++ m) k (Elem-append_left k l m (is_in-Elem l k e))))
        | inr e ↦ e
      ]

  known_or_next :
      (found frontier : List ℕ) (d : RequirementDefinition) (j : ℕ)
      → Elem d table
      → d.must_follow ≡ some j
      → Elem j frontier
      → Elem d.pk found ⊎ Elem d.pk (next_frontier table found frontier)
  known_or_next found frontier d j m e n = elim (Bool-cases (is_in found d.pk)) [
    | inl known ↦ inl (is_in-Elem found d.pk known)
    | inr new ↦ inr (next_frontier_complete table found frontier d j m e n new)
  ]

  ClosedBut-next :
      (found frontier : List ℕ)
      → ClosedBut table found frontier
      → ClosedBut table
          (found ++ next_frontier table found frontier)
          (next_frontier table found frontier)
  ClosedBut-next found frontier closed d j m e n =
      let next = next_frontier table found frontier in
      elim (Elem-of-append j found next n) [
        | inr new ↦ inr new
        | inl old ↦ elim (closed d j m e old) [
          | inl known ↦ inl (Elem-append_left d.pk found next known)
          | inr edge ↦ elim (known_or_next found frontier d j m e edge) [
            | inl known ↦ inl (Elem-append_left d.pk found next known)
            | inr new ↦ inl (Elem-append_right d.pk found next new)
          ]
        ]
      ]

  pub dependents_from-Closed :
      (rounds : ℕ) (found frontier : List ℕ)
      → ClosedBut table found frontier
      → unfound table found ≤ rounds
      → Closed table (dependents_from table rounds found frontier)
  unfolding dependents_from
  dependents_from-Closed zero found frontier closed few =
      λ d j m e n. is_in-Elem found d.pk (true_of _ (none_left _ table d few m))
  dependents_from-Closed (suc rounds) found frontier closed few =
      elim (Bool-cases (is_empty (next_frontier table found frontier))) [
        | inl e ↦ rw e (λ d j m f n. elim (closed d j m f n) [
          | inl known ↦ known
          | inr edge ↦ elim (known_or_next found frontier d j m f edge) [
            | inl known ↦ known
            | inr new ↦ absurd (nothing_in _ _ e new)
          ]
        ])
        | inr e ↦ rw e (
            dependents_from-Closed rounds _ _ (ClosedBut-next found frontier closed)
              (omega (arith, few, unfound_less found frontier e)))
      ]
