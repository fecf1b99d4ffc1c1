-- ===== src/Review/Entitled.antt =====
-- Who decides an entry of the queue (apps/review/services.py).
use risk_management.Common.{
  ℕ, ◌≡◌, ◌⊎◌, ◌∙◌, inl, inr, true, false, some, String, arith, Option-cases,
}
use risk_management.Access.{User, is_unscoped, another_unscoped_admin_exists}
use risk_management.Review.{ReviewItem}
use risk_management.Review.Decide.{affirm, review_at, require_reviewer, may_review, Outcome}
use risk_management.Review.SendBack.{send_back}
use risk_management.Tenant.{Tenant, Env, ok, raised, or_raise, no_such_row}
use risk_management.Tenant.Outcome.{Returns, Returns-step, Returns-guard}

pub fetched_row :
    (k : ℕ) (t : Tenant) (i : ReviewItem)
    → or_raise no_such_row (review_at k t) ≡ ok i
    → review_at k t ≡ some i
fetched_row k t i e = elim (Option-cases (review_at k t)) [
  | inl n ↦ (let bad : raised no_such_row ≡ ok i = rw n at e in absurd (ground (arith, bad)))
  | inr h ↦ let (x, f) = h in let same : ok x ≡ ok i = rw f at e in f ∙ ground (arith, same)
]

-- What `may_review` lets through.
abbrev pub Entitled : Env → User → ℕ → Tenant → Type 0
Entitled env u k t =
    (i : ReviewItem) × (review_at k t ≡ some i)
    × (is_unscoped env.directory (some u) ≡ true)
    × ((i.recorded_by_user_id ≡ some u.pk)
        → another_unscoped_admin_exists env.directory u.pk ≡ false)

may_review-Entitled :
    (env : Env) (u : User) (k : ℕ) (t : Tenant) (i : ReviewItem)
    → review_at k t ≡ some i
    → may_review env.directory u i ≡ ok tt
    → Entitled env u k t
unfolding may_review
may_review-Entitled env u k t i found allowed =
    (i, found, ground (arith, allowed), λ own. ground (arith, allowed, own))

require_reviewer-Entitled :
    (env : Env) (u : User) (k : ℕ) (t : Tenant) (i : ReviewItem)
    → review_at k t ≡ some i
    → require_reviewer env.directory u i ≡ ok tt
    → Entitled env u k t
unfolding require_reviewer
require_reviewer-Entitled env u k t i found =
    (Returns-guard (λ a. Entitled env u k t) _ _
        λ allowed. record { at = λ a e. may_review-Entitled env u k t i found allowed }).at
      tt

affirm-Entitled :
    (env : Env) (u : User) (k : ℕ) (t : Tenant)
    → Returns (λ v. Entitled env u k t) (affirm env u k t)
unfolding affirm
affirm-Entitled env u k t =
    Returns-step (λ v. Entitled env u k t) _ _
      λ i e.
        Returns-guard (λ v. Entitled env u k t) _ _
          λ g. record { at = λ v f. require_reviewer-Entitled env u k t i (fetched_row k t i e) g }

send_back-Entitled :
    (env : Env) (u : User) (k : ℕ) (reason : String) (t : Tenant)
    → Returns (λ v. Entitled env u k t) (send_back env u k reason t)
unfolding send_back
send_back-Entitled env u k reason t =
    Returns-step (λ v. Entitled env u k t) _ _
      λ i e.
        Returns-guard (λ v. Entitled env u k t) _ _
          λ g. record { at = λ v f. require_reviewer-Entitled env u k t i (fetched_row k t i e) g }

-- Whoever affirms an entry, or sends it back, sees the whole church, and did not record the entry
-- unless nobody else could review it.
pub decided_by_reviewer :
    (env : Env) (u : User) (k : ℕ) (reason : String) (t t' : Tenant)
    → (affirm env u k t ≡ ok t') ⊎ ((o : Outcome) × (send_back env u k reason t ≡ ok (t', o)))
    → Entitled env u k t
decided_by_reviewer env u k reason t t' (inl e) = (affirm-Entitled env u k t).at t' e
decided_by_reviewer env u k reason t t' (inr (o, e)) =
    (send_back-Entitled env u k reason t).at (t', o) e
