-- ===== src/Common/Counts.antt =====
-- How many elements a test keeps.
use Prim.Native.Nat.{◌≤◌, ◌<◌}
use mathlib.Core.Path.{◌≡◌}
use mathlib.Core.Bool.{Bool, true, false}
use mathlib.Core.Logic.{inl, inr}
use mathlib.Core.List.{List, [], ◌∷◌}
use native.Mathlib.Omega.{arith}
use risk_management.Common.Tests.{Bool-cases}
use risk_management.Common.Lists.{length, select, Elem}

module _ {A : Type 0} where
  pub length-select : (p : A → Bool) (l : List A) → length (select p l) ≤ length l
  length-select p [] = omega arith
  length-select p (x ∷ l) = elim (Bool-cases (p x)) [
    | inl e ↦ rw e (omega (arith, length-select p l))
    | inr e ↦ rw e (omega (arith, length-select p l))
  ]

  pub length-select_le :
      (p q : A → Bool) (l : List A)
      → ((x : A) → p x ≡ true → q x ≡ true)
      → length (select p l) ≤ length (select q l)
  length-select_le p q [] h = omega arith
  length-select_le p q (x ∷ l) h = elim (Bool-cases (p x)) [
    | inl e ↦ rw (e, h x e) (omega (arith, length-select_le p q l h))
    | inr e ↦ rw e (elim (Bool-cases (q x)) [
      | inl f ↦ rw f (omega (arith, length-select_le p q l h))
      | inr f ↦ rw f (length-select_le p q l h)
    ])
  ]

  pub length-select_lt :
      (p q : A → Bool) (l : List A) (x : A)
      → ((x : A) → p x ≡ true → q x ≡ true)
      → Elem x l
      → p x ≡ false
      → q x ≡ true
      → length (select p l) < length (select q l)
  length-select_lt p q [] x h m e f = absurd m
  length-select_lt p q (y ∷ l) x h (inl same) e f =
      rw (← same, e, f) (omega (arith, length-select_le p q l h))
  length-select_lt p q (y ∷ l) x h (inr m) e f = elim (Bool-cases (p y)) [
    | inl g ↦ rw (g, h y g) (omega (arith, length-select_lt p q l x h m e f))
    | inr g ↦ rw g (elim (Bool-cases (q y)) [
      | inl k ↦ rw k (omega (arith, length-select_lt p q l x h m e f))
      | inr k ↦ rw k (length-select_lt p q l x h m e f)
    ])
  ]

pub none_left :
    {A : Type 0} (p : A → Bool) (l : List A) (x : A)
    → length (select p l) ≤ 0
    → Elem x l
    → p x ≡ false
none_left p [] x h m = absurd m
none_left p (y ∷ l) x h m = elim (Bool-cases (p y)) [
  | inl e ↦ absurd (omega (arith, rw e at h))
  | inr e ↦ elim m [ inl same ↦ rw same e | inr n ↦ none_left p l x (rw e at h) n ]
]
