-- ===== src/Org/Block.antt =====
-- The screening block and the end of assignments.
use risk_management.Common.{ℕ, ◌≡◌, refl, some, List, [], ◌∷◌, arith}
use risk_management.Calendar.{Date}
use risk_management.Org.{
  Volunteer, Assignment, ScreeningBlock, disqualified, set_screening_block, end_all, active_roles,
}

-- A disqualification survives every call that returns.
pub set_screening_block-disqualified :
    (now : ℕ) (block : ScreeningBlock) (v w : Volunteer)
    → v.screening_block ≡ disqualified
    → set_screening_block now block v ≡ some w
    → w.screening_block ≡ disqualified
unfolding set_screening_block
set_screening_block-disqualified now block v w d e = ground arith

pub active_roles-end_all : (on : Date) (l : List Assignment) → active_roles (end_all on l) ≡ []
unfolding end_all
active_roles-end_all on [] = refl
active_roles-end_all on (a ∷ l) = ground (arith, active_roles-end_all on l)
