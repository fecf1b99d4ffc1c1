-- ===== src/Calendar.antt =====
-- Calendar days as `datetime.date` has them, and `add_months_to` of apps/requirements/models.py.
-- A date may have any year here: Python's bound of 9999 is met by every shift that the program
-- makes (Calendar/Months).
pub mod Order
pub mod Months
pub mod Tests
use risk_management.Common.{
  ℕ, ◌+◌, ◌-◌, ◌*◌, ◌/◌, ◌%◌, ◌≤◌, min, Bool, true, false, not, ◌&&◌, ◌||◌, Option, none, some, ltb,
  leb, ◌==◌, if◌then◌else◌,
}
use risk_management.Common.Int.{ℤ, pos, pos_part, ◌+ℤ◌, floor_div_12, floor_mod_12}

pub record Date : Type 0 where
  pub year : ℕ
  pub month : ℕ
  pub day : ℕ

abbrev pub date : ℕ → ℕ → ℕ → Date
date y m d = record { day = d; month = m; year = y }

abbrev pub is_leap : ℕ → Bool
is_leap y = (y % 4 == 0) && (not (y % 100 == 0) || (y % 400 == 0))

abbrev mdays : ℕ → ℕ
mdays m =
    if m == 2 then 28 else if (m == 4) || ((m == 6) || ((m == 9) || (m == 11))) then 30 else 31

-- `calendar.monthrange(year, month)[1]`: the table's entry, and a day more in a leap February.
unfoldable pub days_in_month : ℕ → ℕ → ℕ
days_in_month y m = mdays m + (if (m == 2) && is_leap y then 1 else 0)

pub record IsValid (t : Date) : Type 0 where
  pub month_in : (1 ≤ t.month) × (t.month ≤ 12)
  pub day_in : (1 ≤ t.day) × (t.day ≤ days_in_month t.year t.month)

-- `a < b` on dates: by year, then month, then day.
abbrev pub before : Date → Date → Bool
before a b =
    if a.year == b.year
    then (if a.month == b.month then ltb a.day b.day else ltb a.month b.month)
    else ltb a.year b.year

-- `a == b` on dates
abbrev pub same_day : Date → Date → Bool
same_day a b = (a.year == b.year) && ((a.month == b.month) && (a.day == b.day))

-- `a == b` on `date | None`
abbrev pub same_date : Option Date → Option Date → Bool
same_date none none = true
same_date (some a) (some b) = same_day a b
same_date _ _ = false

-- `bool(d) and d < limit`
abbrev pub passed : Option Date → Date → Bool
passed none limit = false
passed (some d) limit = before d limit

-- The day of the month is clamped to the target month's length.
unfoldable pub add_months_to : Date → ℤ → Date
unfolding days_in_month
add_months_to start months =
    let month_index = pos (start.month - 1) +ℤ months in
    let year = pos_part (pos start.year +ℤ floor_div_12 month_index) in
    let month = floor_mod_12 month_index + 1 in
    date year month (min start.day (days_in_month year month))

days_before_month : ℕ → ℕ → ℕ
days_before_month y m =
    if leb m 1
    then 0
    else if m == 2
    then 31
    else (367 * m - 362) / 12 - (if is_leap y then 1 else 2)

-- `date.toordinal()`: 1 January of year 1 is day 1.
unfoldable pub to_ordinal : Date → ℕ
unfolding days_before_month
to_ordinal t =
    let p = t.year - 1 in
    p * 365 + p / 4 - p / 100 + p / 400 + days_before_month t.year t.month + t.day
