-- ===== src/Review/Final.antt =====
-- A decision on an entry of the queue (apps/review/services.py) is final: what it leaves, and what is refused then.
use risk_management.Common.{
  ℕ, ◌≡◌, ◌⊎◌, refl, sym, subst, inl, inr, false, none, some, List, [], ◌∷◌, String, arith, ◌==◌,
  ==_iff, ==_refl, find, find-Elem, Bool-cases,
}
use risk_management.Access.{User}
use risk_management.Review.{ReviewItem, ReviewStatus, affirmed, sent_back, is_open, Entity}
use risk_management.Audit.{AuditAction}
use risk_management.Review.Recording.{put_review}
use risk_management.Review.Decide.{affirm, close, review_at, save_review, require_reviewer}
use risk_management.Review.SendBack.{send_back}
use risk_management.Tenant.{Tenant, Env, Result, ok, ◌>>=◌, ◌>>◌, or_raise, no_such_row, audit}
use risk_management.Review.Entitled.{fetched_row}
use risk_management.Tenant.Outcome.{
  Returns, Returns-bind, Returns-step, Returns-then, Returns-chain, Returns-stop, ok-Returns,
  raised-Returns,
}

-- The entry is not in the table, or no longer open.
abbrev pub Settled : ℕ → Tenant → Type 0
Settled k t =
    (review_at k t ≡ none)
    ⊎ ((i : ReviewItem) × (review_at k t ≡ some i) × (is_open i.status ≡ false))

find-put_review :
    (k : ℕ) (c : ReviewItem) (l : List ReviewItem)
    → c.pk ≡ k
    → (find (λ (i : ReviewItem). i.pk == k) (put_review c l) ≡ none)
      ⊎ (find (λ (i : ReviewItem). i.pk == k) (put_review c l) ≡ some c)
unfolding put_review
find-put_review k c [] e = inl refl
find-put_review k c (x ∷ xs) e = elim (Bool-cases (x.pk == c.pk)) [
  | inl p ↦ inr (rw (p, e, ==_refl k) refl)
  | inr p ↦ (let q : (x.pk == k) ≡ false = rw e at p in rw (p, q) (find-put_review k c xs e))
]

save_review-Settled :
    (k : ℕ) (c : ReviewItem) (t : Tenant)
    → c.pk ≡ k
    → is_open c.status ≡ false
    → Settled k (save_review c t)
save_review-Settled k c t e shut = elim (find-put_review k c t.reviews e) [
  | inl n ↦ inl n
  | inr s ↦ inr (c, s, shut)
]

audit-Settled : (k : ℕ) (t u : Tenant) → u.reviews ≡ t.reviews → Settled k t → Settled k u
audit-Settled k t u same s =
    subst
      (λ (l : List ReviewItem).
        (find (λ (i : ReviewItem). i.pk == k) l ≡ none)
        ⊎ ((i : ReviewItem) × (find (λ (x : ReviewItem). x.pk == k) l ≡ some i)
            × (is_open i.status ≡ false)))
      (sym same) s

fetched :
    (k : ℕ) (t : Tenant) (i : ReviewItem) → or_raise no_such_row (review_at k t) ≡ ok i → i.pk ≡ k
fetched k t i e = (==_iff _ _).0 (find-Elem _ t.reviews i (fetched_row k t i e)).1

abbrev Shut : ℕ → ReviewItem → Type 0
Shut k c = (c.pk ≡ k) × (is_open c.status ≡ false)

close-Shut :
    (env : Env) (status : ReviewStatus) (by : User) (reason : String) (k : ℕ) (i : ReviewItem)
    → is_open status ≡ false
    → i.pk ≡ k
    → Returns (Shut k) (close env status by reason i)
unfolding close
close-Shut env status by reason k i shut e =
    Returns-then (Shut k) _ _ (ok-Returns (Shut k) _ (e, shut))

saved-Settled :
    (env : Env) (action : AuditAction) (e : Entity) (k : ℕ) (c : ReviewItem) (t : Tenant)
    → Shut k c
    → Settled k (audit env action e (save_review c t))
unfolding audit
saved-Settled env action e k c t shut =
    audit-Settled k (save_review c t) (audit env action e (save_review c t)) (ground arith)
      (save_review-Settled k c t shut.0 shut.1)

pub affirm-Settled :
    (env : Env) (u : User) (k : ℕ) (t : Tenant) → Returns (Settled k) (affirm env u k t)
unfolding affirm
affirm-Settled env u k t = Returns-step (Settled k) _ _ λ i e. Returns-then (Settled k) _ _ (
    Returns-chain (Shut k) (Settled k) _ _ (close-Shut env affirmed u "" k i refl (fetched k t i e))
      λ c shut. ok-Returns (Settled k) _ (saved-Settled env _ _ k c t shut))

pub send_back-Settled :
    (env : Env) (u : User) (k : ℕ) (reason : String) (t : Tenant)
    → Returns (λ r. Settled k r.0) (send_back env u k reason t)
unfolding send_back
send_back-Settled env u k reason t =
    Returns-step (λ r. Settled k r.0) _ _
      λ i e.
        Returns-then (λ r. Settled k r.0) _ _
          (Returns-then (λ r. Settled k r.0) _ _
            (Returns-bind (λ r. Settled k r.0) _ _
              λ r.
                Returns-chain (Shut k) (λ r. Settled k r.0) _ _
                  (close-Shut env sent_back u reason k i refl (fetched k t i e))
                  λ c shut. ok-Returns (λ r. Settled k r.0) _ (saved-Settled env _ _ k c r.0 shut)))

refused_when_shut :
    {B : Type 0} (k : ℕ) (t : Tenant) (f : ReviewItem → Result B)
    → Settled k t
    → ((i : ReviewItem) → is_open i.status ≡ false → Returns (λ b. ⊥) (f i))
    → Returns (λ b. ⊥) (or_raise no_such_row (review_at k t) >>= f)
unfolding ◌>>=◌
refused_when_shut k t f (inl n) h = rw n (raised-Returns (λ b. ⊥) no_such_row)
refused_when_shut k t f (inr (i, e, shut)) h = rw e (h i shut)

-- An entry that is not open is not decided.
shut_guard :
    {B : Type 0} (env : Env) (u : User) (i : ReviewItem) (k : Result B)
    → is_open i.status ≡ false
    → Returns (λ b. ⊥) (require_reviewer env.directory u i >> k)
unfolding require_reviewer
shut_guard env u i k shut =
    Returns-stop (λ b. ⊥) _ _ (Returns-then (λ a. ⊥) _ _ (rw shut (raised-Returns (λ a. ⊥) _)))

pub affirm_shut :
    (env : Env) (u : User) (k : ℕ) (t : Tenant) → Settled k t → Returns (λ b. ⊥) (affirm env u k t)
unfolding affirm
affirm_shut env u k t s = refused_when_shut k t _ s λ i shut. shut_guard env u i _ shut

pub send_back_shut :
    (env : Env) (u : User) (k : ℕ) (reason : String) (t : Tenant)
    → Settled k t
    → Returns (λ b. ⊥) (send_back env u k reason t)
unfolding send_back
send_back_shut env u k reason t s = refused_when_shut k t _ s λ i shut. shut_guard env u i _ shut
