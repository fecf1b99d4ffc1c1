-- ===== src/Common/Lists.antt =====
-- Lists measured by native numbers and searched by Boolean tests.
use Prim.Native.Nat.{ℕ, zero, suc, ◌+◌}
use mathlib.Core.Path.{◌≡◌, refl, sym, ap, ◌∙◌}
use mathlib.Core.Bool.{Bool, true, false, not, ◌&&◌, ◌||◌}
use mathlib.Core.Logic.{◌↔◌, ◌⊎◌, inl, inr}
use mathlib.Core.Option.{Option, none, some}
use mathlib.Core.List.{List, [], ◌∷◌, ◌++◌, map}
use native.Mathlib.Omega.{arith}
use risk_management.Common.Tests.{if◌then◌else◌, Bool-cases, some_inj}

module _ {ℓ} {A : Type ℓ} where
  abbrev pub length : List A → ℕ
  length [] = 0
  length (x ∷ xs) = suc (length xs)

  -- `not xs`
  abbrev pub is_empty : List A → Bool
  is_empty [] = true
  is_empty (x ∷ xs) = false

  -- `xs[:n]` and `xs[n:]`
  abbrev pub first_of : ℕ → List A → List A
  first_of zero xs = []
  first_of (suc n) [] = []
  first_of (suc n) (x ∷ xs) = x ∷ first_of n xs

  abbrev pub after_first : ℕ → List A → List A
  after_first zero xs = xs
  after_first (suc n) [] = []
  after_first (suc n) (x ∷ xs) = after_first n xs

  -- `any(p(x) for x in xs)`
  abbrev pub any : (A → Bool) → List A → Bool
  any p [] = false
  any p (x ∷ xs) = p x || any p xs

  -- `all(p(x) for x in xs)`
  abbrev pub all : (A → Bool) → List A → Bool
  all p [] = true
  all p (x ∷ xs) = p x && all p xs

  -- `[x for x in xs if p(x)]`, and a queryset's `filter`
  abbrev pub select : (A → Bool) → List A → List A
  select p [] = []
  select p (x ∷ xs) = let rest = select p xs in if p x then x ∷ rest else rest

  -- `xs.filter(p).first()`
  abbrev pub find : (A → Bool) → List A → Option A
  find p [] = none
  find p (x ∷ xs) = let rest = find p xs in if p x then some x else rest

  -- A predicate of every element.
  abbrev pub All {κ} : (A → Type κ) → List A → Type κ
  All P [] = Unit
  All P (x ∷ xs) = P x × All P xs

  pub length-append : (xs ys : List A) → length (xs ++ ys) ≡ length xs + length ys
  length-append [] ys = omega arith
  length-append (x ∷ xs) ys = omega (arith, length-append xs ys)

-- Membership, by recursion.
abbrev pub Elem : {A : Type 0} → A → List A → Type 0
Elem x [] = ⊥
Elem x (y ∷ ys) = (x ≡ y) ⊎ Elem x ys

module _ {A : Type 0} where
  pub any-select : (q p : A → Bool) (xs : List A) → any q (select p xs) ≡ any (λ x. p x && q x) xs
  any-select q p [] = refl
  any-select q p (x ∷ xs) = ground (arith, any-select q p xs)

  pub all-select :
      (q p : A → Bool) (xs : List A) → all q (select p xs) ≡ all (λ x. not (p x) || q x) xs
  all-select q p [] = refl
  all-select q p (x ∷ xs) = ground (arith, all-select q p xs)

  Elem-of-select :
      (x : A) (p : A → Bool) (xs : List A) → Elem x (select p xs) → Elem x xs × (p x ≡ true)
  Elem-of-select x p [] h = absurd h
  Elem-of-select x p (y ∷ ys) h = elim (Bool-cases (p y)) [
    | inl e ↦ elim (rw e at h) [
      | inl q ↦ (inl q, rw q e)
      | inr m ↦ (let (n, t) = Elem-of-select x p ys m in (inr n, t))
    ]
    | inr e ↦ (let (n, t) = Elem-of-select x p ys (rw e at h) in (inr n, t))
  ]

  select-Elem : (x : A) (p : A → Bool) (xs : List A) → Elem x xs → p x ≡ true → Elem x (select p xs)
  select-Elem x p [] m e = m
  select-Elem x p (y ∷ ys) (inl q) e = rw (← q, e) (inl refl)
  select-Elem x p (y ∷ ys) (inr m) e = elim (Bool-cases (p y)) [
    | inl t ↦ rw t (inr (select-Elem x p ys m e))
    | inr t ↦ rw t (select-Elem x p ys m e)
  ]

  pub Elem-select :
      (x : A) (p : A → Bool) (xs : List A) → Elem x (select p xs) ↔ (Elem x xs × (p x ≡ true))
  Elem-select x p xs = (Elem-of-select x p xs, λ h. select-Elem x p xs h.0 h.1)

  pub any-Elem : (p : A → Bool) (xs : List A) → any p xs ≡ true → (x : A) × Elem x xs × (p x ≡ true)
  any-Elem p [] h = cc
  any-Elem p (x ∷ xs) h = elim (Bool-cases (p x)) [
    | inl e ↦ (x, inl refl, e)
    | inr e ↦ (let (y, m, q) = any-Elem p xs (rw e at h) in (y, inr m, q))
  ]

  pub Elem-any : (p : A → Bool) (xs : List A) (x : A) → Elem x xs → p x ≡ true → any p xs ≡ true
  Elem-any p [] x m e = absurd m
  Elem-any p (y ∷ ys) x (inl q) e = rw (← q, e)
  Elem-any p (y ∷ ys) x (inr m) e = ground (arith, Elem-any p ys x m e)

module _ {A B : Type 0} where
  pub map-Elem : (f : A → B) (xs : List A) (a : A) → Elem a xs → Elem (f a) (map f xs)
  map-Elem f [] a m = absurd m
  map-Elem f (x ∷ xs) a (inl e) = inl (rw e refl)
  map-Elem f (x ∷ xs) a (inr m) = inr (map-Elem f xs a m)

  pub Elem-map :
      (f : A → B) (xs : List A) (b : B) → Elem b (map f xs) → (a : A) × Elem a xs × (f a ≡ b)
  Elem-map f [] b m = absurd m
  Elem-map f (x ∷ xs) b (inl e) = (x, inl refl, sym e)
  Elem-map f (x ∷ xs) b (inr m) = let (a, n, e) = Elem-map f xs b m in (a, inr n, e)

module _ {A : Type 0} where
  pub Elem-of-append : (x : A) (xs ys : List A) → Elem x (xs ++ ys) → Elem x xs ⊎ Elem x ys
  Elem-of-append x [] ys m = inr m
  Elem-of-append x (z ∷ zs) ys (inl e) = inl (inl e)
  Elem-of-append x (z ∷ zs) ys (inr m) = elim (Elem-of-append x zs ys m) [
    | inl n ↦ inl (inr n)
    | inr n ↦ inr n
  ]

  pub Elem-append_left : (x : A) (xs ys : List A) → Elem x xs → Elem x (xs ++ ys)
  Elem-append_left x [] ys m = absurd m
  Elem-append_left x (z ∷ zs) ys (inl e) = inl e
  Elem-append_left x (z ∷ zs) ys (inr m) = inr (Elem-append_left x zs ys m)

  pub Elem-append_right : (x : A) (xs ys : List A) → Elem x ys → Elem x (xs ++ ys)
  Elem-append_right x [] ys m = m
  Elem-append_right x (z ∷ zs) ys m = inr (Elem-append_right x zs ys m)

  pub find-some :
      (p : A → Bool) (xs : List A) (x : A) → Elem x xs → p x ≡ true → (y : A) × (find p xs ≡ some y)
  find-some p [] x m h = absurd m
  find-some p (y ∷ ys) x m h = elim (Bool-cases (p y)) [
    | inl e ↦ (y, rw e refl)
    | inr e ↦ elim m [
      | inl same ↦ (let clash : false ≡ true = sym e ∙ (ap p (sym same) ∙ h) in cc)
      | inr later ↦ (let (z, found) = find-some p ys x later h in (z, rw e found))
    ]
  ]

  pub find-Elem :
      (p : A → Bool) (xs : List A) (x : A) → find p xs ≡ some x → Elem x xs × (p x ≡ true)
  find-Elem p [] x h = cc
  find-Elem p (y ∷ ys) x h = elim (Bool-cases (p y)) [
    | inl e ↦ (let same : y ≡ x = some_inj (rw e at h) in (inl (sym same), rw (← same) e))
    | inr e ↦ (let (m, q) = find-Elem p ys x (rw e at h) in (inr m, q))
  ]
