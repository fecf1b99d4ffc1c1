-- ===== src/Calendar/Tests.antt =====
-- The calendar at concrete days.
use risk_management.Common.{◌≡◌, refl}
use risk_management.Common.Int.{pos, negsuc}
use risk_management.Calendar.{date, add_months_to, to_ordinal}

january_31 : add_months_to (date 2024 1 31) (pos 1) ≡ date 2024 2 29
unfolding add_months_to
january_31 = refl

back_over_new_year : add_months_to (date 2025 2 28) (negsuc 2) ≡ date 2024 11 28
unfolding add_months_to
back_over_new_year = refl

ordinals : (to_ordinal (date 1 1 1) ≡ 1) × (to_ordinal (date 2024 3 1) ≡ 738946)
unfolding to_ordinal
ordinals = (refl, refl)
