-- ===== src/Calendar/Months.antt =====
-- Shifts by whole months.
use risk_management.Common.{
  ℕ, ◌+◌, ◌-◌, ◌*◌, ◌/◌, ◌%◌, ◌≤◌, ◌<◌, min, ◌≡◌, true, false, arith, Bool-cases, inl, inr, ◌⊎◌,
}
use risk_management.Common.Int.{pos, negsuc}
use risk_management.Calendar.{Date, date, IsValid, before, days_in_month, add_months_to}

abbrev pub month_count : Date → ℕ
month_count t = t.year * 12 + (t.month - 1)

abbrev forward_year : Date → ℕ → ℕ
forward_year t n = t.year + (t.month - 1 + n) / 12

abbrev forward_month : Date → ℕ → ℕ
forward_month t n = (t.month - 1 + n) % 12 + 1

-- A forward shift, without the signs.
forward :
    (t : Date) (n : ℕ)
    → add_months_to t (pos n)
      ≡ date
          (forward_year t n)
          (forward_month t n)
          (min t.day (days_in_month (forward_year t n) (forward_month t n)))
unfolding add_months_to
forward t n = ground arith

days_in_month_bounds : (y m : ℕ) → (28 ≤ days_in_month y m) × (days_in_month y m ≤ 31)
unfolding days_in_month
days_in_month_bounds y m = ground arith

-- Python's `datetime.date` would accept the shifted day: no month is left or day overrun.
pub add_months_to-IsValid : (t : Date) (n : ℕ) → IsValid t → IsValid (add_months_to t (pos n))
add_months_to-IsValid t n v =
    rw forward (omega (arith, days_in_month_bounds (forward_year t n) (forward_month t n)))

-- The month reached is exactly n months on.
pub month_count-add_months_to :
    (t : Date) (n : ℕ) → 1 ≤ t.month → month_count (add_months_to t (pos n)) ≡ month_count t + n
month_count-add_months_to t n v = rw forward (omega arith)

-- The month reached going back is exactly n + 1 months earlier.
pub month_count-back :
    (t : Date) (n : ℕ)
    → 1 ≤ t.month
    → n + 1 ≤ month_count t
    → month_count (add_months_to t (negsuc n)) + (n + 1) ≡ month_count t
unfolding add_months_to
month_count-back t n v h = ground arith

-- A shift by n months forward of a date that exists lands on a date that exists, in the month n
-- months on, on the same day or on that month's last.
pub add_months_to-exact :
    (t : Date) (n : ℕ)
    → IsValid t
    → let u = add_months_to t (pos n) in
      IsValid u
      × (month_count u ≡ month_count t + n)
      × (u.day ≡ min t.day (days_in_month u.year u.month))
add_months_to-exact t n v =
    (add_months_to-IsValid t n v, month_count-add_months_to t n v.month_in.0, rw forward)

-- Dates are ordered by months, and within a month by days.
before_months :
    (x y : Date)
    → (1 ≤ x.month) × (x.month ≤ 12)
    → (1 ≤ y.month) × (y.month ≤ 12)
    → before x y ≡ true
    → month_count x ≤ month_count y
before_months x y mx my h = ground arith

not_before_months :
    (x y : Date)
    → (1 ≤ x.month) × (x.month ≤ 12)
    → (1 ≤ y.month) × (y.month ≤ 12)
    → before x y ≡ false
    → (month_count y < month_count x) ⊎ ((y.year ≡ x.year) × (y.month ≡ x.month) × (y.day ≤ x.day))
not_before_months x y mx my h = ground arith

clamped : (y m k a b : ℕ) → a ≤ b → before (date y m (min b k)) (date y m (min a k)) ≡ false
clamped y m k a b h = ground arith

same_month :
    (a b : Date) (n : ℕ)
    → a.year ≡ b.year
    → a.month ≡ b.month
    → a.day ≤ b.day
    → before (add_months_to b (pos n)) (add_months_to a (pos n)) ≡ false
same_month a b n y m d =
    rw (forward b n, forward a n, y, m)
      (clamped (forward_year b n) (forward_month b n)
        (days_in_month (forward_year b n) (forward_month b n)) a.day b.day d)

later_month :
    (x y : Date) → IsValid x → IsValid y → month_count y < month_count x → before x y ≡ false
later_month x y vx vy h = elim (Bool-cases (before x y)) [
  | inl e ↦ absurd (omega (arith, before_months x y vx.month_in vy.month_in e))
  | inr e ↦ e
]

-- A later date stays no earlier after the same shift.
pub add_months_to_mono :
    (a b : Date) (n : ℕ)
    → IsValid a
    → IsValid b
    → before b a ≡ false
    → before (add_months_to b (pos n)) (add_months_to a (pos n)) ≡ false
add_months_to_mono a b n va vb h = elim (not_before_months b a vb.month_in va.month_in h) [
  | inl lt ↦ later_month _ _ (add_months_to-IsValid b n vb) (add_months_to-IsValid a n va) (
      omega (
        arith,
        month_count-add_months_to a n va.month_in.0,
        month_count-add_months_to b n vb.month_in.0,
      ))
  | inr (y, m, d) ↦ same_month a b n y m d
]

-- A completed requirement expires after the day it was completed, for any interval but none.
pub add_months_to-later :
    (t : Date) (n : ℕ) → IsValid t → 0 < n → before t (add_months_to t (pos n)) ≡ true
add_months_to-later t n v h = elim (Bool-cases (before t (add_months_to t (pos n)))) [
  | inl e ↦ e
  | inr e ↦ absurd (
      omega (
        arith,
        not_before_months t _ v.month_in (add_months_to-IsValid t n v).month_in e,
        month_count-add_months_to t n v.month_in.0,
      ))
]

-- A shift by at most 600 months, the largest interval that a column takes, of a date before 9949
-- stays within Python's years.
pub add_months_to_in_range :
    (t : Date) (n : ℕ) → IsValid t → n ≤ 600 → t.year ≤ 9948 → (add_months_to t (pos n)).year ≤ 9999
add_months_to_in_range t n v small early = rw forward (omega arith)
