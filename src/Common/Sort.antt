-- ===== src/Common/Sort.antt =====
-- Python's `sorted` with a key: stable insertion by a Boolean order.
use Prim.Native.Nat.{suc}
use Prim.Native.Char.{code}
use Prim.Native.String.{String}
use mathlib.Core.Path.{◌≡◌, refl}
use mathlib.Core.Bool.{Bool, true, false, ◌&&◌, ◌||◌}
use mathlib.Core.Logic.{◌↔◌, ◌⊎◌, inl, inr}
use mathlib.Core.List.{List, [], ◌∷◌}
use native.Mathlib.Omega.{arith}
use risk_management.Common.Tests.{if◌then◌else◌, Bool-cases, ltb, ◌==◌}
use risk_management.Common.Lists.{Elem, length}

-- `s <= t` on texts: by code points.
abbrev pub text_le : String → String → Bool
text_le String.[] t = true
text_le (String.◌∷◌ c s) String.[] = false
text_le (String.◌∷◌ c s) (String.◌∷◌ d t) =
    ltb (code c) (code d) || ((code c == code d) && text_le s t)

module _ {A : Type 0} (le : A → A → Bool) where
  unfoldable pub insert_by : A → List A → List A
  insert_by x [] = x ∷ []
  insert_by x (y ∷ ys) = let rest = insert_by x ys in if le x y then x ∷ y ∷ ys else y ∷ rest

  unfoldable pub sorted_by : List A → List A
  unfolding insert_by
  sorted_by [] = []
  sorted_by (x ∷ xs) = insert_by x (sorted_by xs)

  length-insert_by : (x : A) (ys : List A) → length (insert_by x ys) ≡ suc (length ys)
  unfolding insert_by
  length-insert_by x [] = refl
  length-insert_by x (y ∷ ys) = ground (arith, length-insert_by x ys)

  -- Sorting keeps the number of elements.
  pub length-sorted_by : (xs : List A) → length (sorted_by xs) ≡ length xs
  unfolding sorted_by
  length-sorted_by [] = refl
  length-sorted_by (x ∷ xs) = omega (arith, length-insert_by x (sorted_by xs), length-sorted_by xs)

  Elem-insert_by : (z x : A) (ys : List A) → Elem z (insert_by x ys) ↔ ((z ≡ x) ⊎ Elem z ys)
  unfolding insert_by
  Elem-insert_by z x [] = (λ h. h, λ h. h)
  Elem-insert_by z x (y ∷ ys) = elim (Bool-cases (le x y)) [
    | inl e ↦ rw e (λ h. h, λ h. h)
    | inr e ↦
        let (to, from) = Elem-insert_by z x ys in
        rw e (
          λ h. elim h [
            | inl q ↦ inr (inl q)
            | inr m ↦ elim (to m) [ inl q ↦ inl q | inr n ↦ inr (inr n) ]
          ],
          λ h. elim h [
            | inl q ↦ inr (from (inl q))
            | inr m ↦ elim m [ inl q ↦ inl q | inr n ↦ inr (from (inr n)) ]
          ],
        )
  ]

  -- Sorting keeps the elements.
  pub Elem-sorted_by : (z : A) (xs : List A) → Elem z (sorted_by xs) ↔ Elem z xs
  unfolding sorted_by
  Elem-sorted_by z [] = (λ h. h, λ h. h)
  Elem-sorted_by z (x ∷ xs) =
      let (to, from) = Elem-sorted_by z xs in
      let (down, up) = Elem-insert_by z x (sorted_by xs) in
      (
        λ h. elim (down h) [ inl q ↦ inl q | inr m ↦ inr (to m) ],
        λ h. up (elim h [ inl q ↦ inl q | inr m ↦ inr (from m) ]),
      )
