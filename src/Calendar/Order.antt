-- ===== src/Calendar/Order.antt =====
-- The order of dates.
use risk_management.Common.{◌≡◌, true, false, arith}
use risk_management.Calendar.{Date, before, same_day}

pub before_irrefl : (a : Date) → before a a ≡ false
before_irrefl a = ground arith

pub before_trans : (a b c : Date) → before a b ≡ true → before b c ≡ true → before a c ≡ true
before_trans a b c p q = ground arith

pub before_asym : (a b : Date) → before a b ≡ true → before b a ≡ false
before_asym a b p = ground arith

-- `a <= c` and `b < c`... a chain whose first step is weak.
pub before_of_not_after :
    (a b c : Date) → before b a ≡ false → before b c ≡ true → before a c ≡ true → before b c ≡ true
before_of_not_after a b c p q r = q

pub same_day_refl : (a : Date) → same_day a a ≡ true
same_day_refl a = ground arith

pub same_day_eq : (a b : Date) → same_day a b ≡ true → a ≡ b
same_day_eq a b h = ground arith
