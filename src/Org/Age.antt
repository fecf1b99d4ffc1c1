-- ===== src/Org/Age.antt =====
-- The age rules of apps/org/models.py, and how they meet.
use risk_management.Common.{◌≡◌, true, false, not, none, some, arith}
use risk_management.Calendar.{Date, IsValid, before}
use risk_management.Org.{Volunteer, has_birth_date, is_adult_on, eighteenth_birthday_trigger_date}

-- Someone with a birth date is an adult from the trigger date on, and on no day before it: the
-- under-18 exemption ends on the very day from which the turning-18 deadline counts.
pub is_adult_on-trigger :
    (v : Volunteer) (on t : Date)
    → IsValid on
    → eighteenth_birthday_trigger_date v ≡ some t
    → is_adult_on v on ≡ not (before on t)
unfolding is_adult_on eighteenth_birthday_trigger_date
is_adult_on-trigger v on t valid e = ground (arith, valid.day_in.0)

-- Once an adult, always an adult.
pub is_adult_on_mono :
    (v : Volunteer) (a b : Date)
    → before b a ≡ false
    → is_adult_on v a ≡ true
    → is_adult_on v b ≡ true
unfolding is_adult_on
is_adult_on_mono v a b later adult = ground arith

-- Without a full birth date nobody is an adult, and there is no trigger date.
pub no_birth_date :
    (v : Volunteer) (on : Date)
    → has_birth_date v ≡ false
    → (is_adult_on v on ≡ false) × (eighteenth_birthday_trigger_date v ≡ none)
unfolding is_adult_on eighteenth_birthday_trigger_date
no_birth_date v on h = ground arith
