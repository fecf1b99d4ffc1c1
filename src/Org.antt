-- ===== src/Org.antt =====
-- The church's people and positions: apps/org/models.py. A foreign key is the record it points to
-- (`Assignment.role`) or its primary key (`Role.department`). Encrypted and display-only columns
-- are left out, but for the name that an audit reason quotes.
pub mod Age
pub mod Block
use risk_management.Common.{
  ℕ, ◌+◌, ◌-◌, ◌≡◌, Bool, true, false, not, ◌&&◌, ◌||◌, Option, none, some, List, [], ◌∷◌, map, ltb,
  leb, ◌==◌, if◌then◌else◌, is_some, select, any,
}
use risk_management.Calendar.{Date, date, passed}

pub record Role : Type 0 where
  pub pk : ℕ
  pub department : ℕ
  pub is_leadership : Bool

pub data ScreeningBlock : Type 0 where
  not_blocked crc_not_clear disqualified withdrawn : ScreeningBlock

-- `block in ScreeningBlock.blocking_values()`
unfoldable pub is_blocking : ScreeningBlock → Bool
is_blocking not_blocked = false
is_blocking crc_not_clear = true
is_blocking disqualified = true
is_blocking withdrawn = true

abbrev pub is_disqualified : ScreeningBlock → Bool
is_disqualified disqualified = true
is_disqualified _ = false

abbrev pub is_crc_not_clear : ScreeningBlock → Bool
is_crc_not_clear crc_not_clear = true
is_crc_not_clear _ = false

pub record Volunteer : Type 0 where
  pub pk : ℕ
  pub birth_year : Option ℕ
  pub birth_month : Option ℕ
  pub screening_block : ScreeningBlock
  -- A moment, in seconds.
  pub screening_block_recorded_at : Option ℕ
  pub is_active : Bool
  pub user_id : Option ℕ

-- The volunteer is the file that holds the assignment.
pub record Assignment : Type 0 where
  pub pk : ℕ
  pub role : Role
  pub started_on : Date
  pub ended_on : Option Date
  pub is_active : Bool

abbrev pub has_birth_date : Volunteer → Bool
has_birth_date v = is_some v.birth_year && is_some v.birth_month

-- `max(years, 0)` is the truncation of `-` on ℕ.
abbrev pub years_between : ℕ → ℕ → Date → ℕ
years_between birth_year birth_month on =
    let years = on.year - birth_year in if ltb on.month birth_month then years - 1 else years

-- A year without a month, or a month without a year, is no birth date.
unfoldable pub age_on : Volunteer → Date → Option ℕ
age_on v on = elim v.birth_year [
  | none ↦ none
  | some y ↦ elim v.birth_month [ none ↦ none | some m ↦ some (years_between y m on) ]
]

abbrev pub at_least_18 : Option ℕ → Bool
at_least_18 none = false
at_least_18 (some age) = leb 18 age

unfoldable pub is_adult_on : Volunteer → Date → Bool
unfolding age_on
is_adult_on v on = at_least_18 (age_on v on)

unfoldable pub eighteenth_birthday_trigger_date : Volunteer → Option Date
eighteenth_birthday_trigger_date v = elim v.birth_year [
  | none ↦ none
  | some y ↦ elim v.birth_month [ none ↦ none | some m ↦ some (date (y + 18) m 1) ]
]

-- `Volunteer.active_roles`
abbrev pub active_roles : List Assignment → List Role
active_roles assignments = map (λ a. a.role) (select (λ a. a.is_active) assignments)

-- `set_screening_block`; `none` is the `ValidationError`.
unfoldable pub set_screening_block : ℕ → ScreeningBlock → Volunteer → Option Volunteer
unfolding is_blocking
set_screening_block now block v =
    if is_disqualified v.screening_block && not (is_disqualified block)
    then none
    else some (record v {
      screening_block = block;
      screening_block_recorded_at = if is_blocking block then some now else none;
    })

-- `RoleAssignment.end`
unfoldable pub end_assignment : Date → Assignment → Assignment
end_assignment on a = record a { is_active = false; ended_on = some on }

-- `for assignment in volunteer.assignments.filter(is_active=True): assignment.end()`
unfoldable pub end_all : Date → List Assignment → List Assignment
unfolding end_assignment
end_all on [] = []
end_all on (a ∷ rest) = (if a.is_active then end_assignment on a else a) ∷ end_all on rest

-- The volunteers' errors of `RoleAssignment.clean`: true where it refuses the row.
unfoldable pub assignment_refused : Volunteer → Assignment → Bool
assignment_refused v a =
    passed a.ended_on a.started_on
    || ((not a.is_active && not (is_some a.ended_on))
        || (a.is_active && is_disqualified v.screening_block))
