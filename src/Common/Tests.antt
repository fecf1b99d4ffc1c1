-- ===== src/Common/Tests.antt =====
-- Boolean tests on the native numbers, the conditional, and splits that keep the equation.
use Prim.Native.Nat.{ℕ, compare, Ordering}
use mathlib.Core.Path.{◌≡◌, refl}
use mathlib.Core.Logic.{◌↔◌, ◌⊎◌, inl, inr}
use mathlib.Core.Bool.{Bool, true, false, not, ◌&&◌}
use mathlib.Core.Option.{Option, none, some}
use native.Mathlib.Omega.{arith}

abbrev pub ltb : ℕ → ℕ → Bool
ltb a b = elim (compare a b) [ Ordering.lt ↦ true | _ ↦ false ]

abbrev pub leb : ℕ → ℕ → Bool
leb a b = elim (compare a b) [ Ordering.gt ↦ false | _ ↦ true ]

infix 50 ◌==◌
abbrev pub ◌==◌ : ℕ → ℕ → Bool
a == b = elim (compare a b) [ Ordering.eq ↦ true | _ ↦ false ]

infix 1 if◌then◌else◌
abbrev pub if◌then◌else◌ {ℓ} : {A : Type ℓ} → Bool → A → A → A
if true then x else y = x
if false then x else y = y

pub ==_iff : (a b : ℕ) → ((a == b) ≡ true) ↔ (a ≡ b)
==_iff a b = ground arith

pub ==_refl : (a : ℕ) → (a == a) ≡ true
==_refl a = ground arith

pub Bool-cases : (b : Bool) → (b ≡ true) ⊎ (b ≡ false)
Bool-cases true = inl refl
Bool-cases false = inr refl

pub Option-cases {ℓ} : {A : Type ℓ} (o : Option A) → (o ≡ none) ⊎ ((a : A) × (o ≡ some a))
Option-cases none = inl refl
Option-cases (some a) = inr (a, refl)

-- `bool(x)` and `x is not None` for an optional value.
abbrev pub is_some {ℓ} : {A : Type ℓ} → Option A → Bool
is_some none = false
is_some (some _) = true

-- `x is None`
abbrev pub is_none {ℓ} : {A : Type ℓ} → Option A → Bool
is_none none = true
is_none (some _) = false

-- Equality of optional numbers, as Python's `==` on `int | None`.
abbrev pub same_id : Option ℕ → Option ℕ → Bool
same_id none none = true
same_id (some a) (some b) = a == b
same_id _ _ = false

pub some_inj {ℓ} : {A : Type ℓ} {a b : A} → some a ≡ some b → a ≡ b
some_inj q = cc

pub no_value {ℓ} : {A : Type ℓ} {a : A} → none ≡ some a → ⊥
no_value q = cc

-- What a guarded result that is there says of its guard.
pub unguarded {ℓ} :
    {A : Type ℓ} (b : Bool) (x : A) {y : A}
    → (if b then none else some x) ≡ some y
    → (b ≡ false) × (x ≡ y)
unguarded true x h = cc
unguarded false x h = (refl, cc)

-- The same, before a result that may be missing.
pub past_guard {ℓ} :
    {A : Type ℓ} (b : Bool) (o : Option A) {y : A}
    → (if b then none else o) ≡ some y
    → (b ≡ false) × (o ≡ some y)
past_guard true o h = cc
past_guard false o h = (refl, h)

-- The two halves of a test and a denied test.
pub left_of_and_not : (a b : Bool) → (a && not b) ≡ true → a ≡ true
left_of_and_not true b h = refl
left_of_and_not false b h = cc

pub right_of_and_not : (a b : Bool) → (a && not b) ≡ true → b ≡ false
right_of_and_not a true h = ground (arith, h)
right_of_and_not a false h = refl

pub and_true : (a b : Bool) → (a && b) ≡ true → (a ≡ true) × (b ≡ true)
and_true true b h = (refl, h)
and_true false b h = cc

pub and_false_right : (a : Bool) → (a && false) ≡ false
and_false_right true = refl
and_false_right false = refl
