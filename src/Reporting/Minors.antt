-- ===== src/Reporting/Minors.antt =====
-- The headline counts: minors by the database's test and by the rule on age.
use risk_management.Common.{◌≡◌, ◌≤◌, true, not, arith}
use risk_management.Calendar.{Date}
use risk_management.Org.{Volunteer, is_adult_on, has_birth_date}
use risk_management.Reporting.{counts_as_minor}

-- The dashboard counts as a minor whoever has a birth date and is not an adult on the day, and
-- nobody else with a birth date.
pub counts_as_minor-is_adult_on :
    (as_of : Date) (v : Volunteer)
    → has_birth_date v ≡ true
    → 18 ≤ as_of.year
    → counts_as_minor as_of v ≡ not (is_adult_on v as_of)
unfolding counts_as_minor is_adult_on
counts_as_minor-is_adult_on as_of v known late = ground (arith, known, late)
