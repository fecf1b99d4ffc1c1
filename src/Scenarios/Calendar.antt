-- ===== src/Scenarios/Calendar.antt =====
-- Applications of the calendar and age theorems.
use risk_management.Common.{◌+◌, min, ◌≡◌, arith}
use risk_management.Common.Int.{pos}
use risk_management.Calendar.{date, IsValid, days_in_month, add_months_to}
use risk_management.Calendar.Months.{month_count, add_months_to-exact}

january-IsValid : IsValid (date 2024 1 31)
unfolding days_in_month
january-IsValid = omega arith

add_months_to-exact_example :
    let u = add_months_to (date 2024 1 31) (pos 37) in
    IsValid u
    × (month_count u ≡ month_count (date 2024 1 31) + 37)
    × (u.day ≡ min 31 (days_in_month u.year u.month))
add_months_to-exact_example = add_months_to-exact (date 2024 1 31) 37 january-IsValid
