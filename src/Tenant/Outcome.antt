-- ===== src/Tenant/Outcome.antt =====
-- What a result says when it is not an error, through the steps of a do block.
use risk_management.Common.{◌≡◌, refl, subst, arith, Bool, true, false, if◌then◌else◌}
use risk_management.Tenant.{Result, ok, raised, Error, ◌>>=◌, ◌>>◌}

-- The predicate holds of what is returned, if anything is.
pub record Returns {A : Type 0} (P : A → Type 0) (m : Result A) : Type 0 where
  pub at : (a : A) → m ≡ ok a → P a

pub ok-Returns : {A : Type 0} (P : A → Type 0) (a : A) → P a → Returns P (ok a)
ok-Returns P a p = record { at = λ x e. subst P (ground (arith, e)) p }

pub raised-Returns : {A : Type 0} (P : A → Type 0) (e : Error) → Returns P (raised e)
raised-Returns P e = record { at = λ x q. absurd (ground (arith, q)) }

pub Returns-bind :
    {A B : Type 0} (P : B → Type 0) (m : Result A) (f : A → Result B)
    → ((a : A) → Returns P (f a))
    → Returns P (m >>= f)
unfolding ◌>>=◌
Returns-bind P (ok a) f h = h a
Returns-bind P (raised e) f h = raised-Returns P e

pub Returns-chain :
    {A B : Type 0} (P : A → Type 0) (Q : B → Type 0) (m : Result A) (f : A → Result B)
    → Returns P m
    → ((a : A) → P a → Returns Q (f a))
    → Returns Q (m >>= f)
unfolding ◌>>=◌
Returns-chain P Q (ok a) f p h = h a (p.at a refl)
Returns-chain P Q (raised e) f p h = raised-Returns Q e

pub Returns-step :
    {A B : Type 0} (P : B → Type 0) (m : Result A) (f : A → Result B)
    → ((a : A) → m ≡ ok a → Returns P (f a))
    → Returns P (m >>= f)
unfolding ◌>>=◌
Returns-step P (ok a) f h = h a refl
Returns-step P (raised e) f h = raised-Returns P e

pub Returns-guard :
    {B : Type 0} (P : B → Type 0) (m : Result (Unit {0})) (k : Result B)
    → (m ≡ ok tt → Returns P k)
    → Returns P (m >> k)
unfolding ◌>>◌
Returns-guard P (ok tt) k h = h refl
Returns-guard P (raised e) k h = raised-Returns P e

pub Returns-then :
    {B : Type 0} (P : B → Type 0) (m : Result (Unit {0})) (k : Result B)
    → Returns P k
    → Returns P (m >> k)
unfolding ◌>>◌
Returns-then P (ok a) k h = h
Returns-then P (raised e) k h = raised-Returns P e

pub Returns-stop :
    {B : Type 0} (P : B → Type 0) (m : Result (Unit {0})) (k : Result B)
    → Returns (λ a. ⊥) m
    → Returns P (m >> k)
unfolding ◌>>◌
Returns-stop P (ok a) k h = absurd (h.at a refl)
Returns-stop P (raised e) k h = raised-Returns P e

pub Returns-if :
    {A : Type 0} (P : A → Type 0) (b : Bool) (m k : Result A)
    → Returns P m
    → Returns P k
    → Returns P (if b then m else k)
Returns-if P true m k h h' = h
Returns-if P false m k h h' = h'
