-- ===== src/Placement/Held/Forever.antt =====
-- A decision on an entry of the review queue is final, whatever happens to the file afterwards.
use risk_management.Common.{
  ℕ, ◌≡◌, ◌≢◌, ◌⊎◌, inl, inr, false, none, some, sym, ◌∙◌, no_value, String,
}
use risk_management.Access.{User}
use risk_management.Review.{ReviewItem, is_open}
use risk_management.Review.Decide.{affirm, review_at, Outcome}
use risk_management.Review.SendBack.{send_back}
use risk_management.Review.Entitled.{fetched_row}
use risk_management.Review.Final.{
  affirm_shut, send_back_shut, affirm-Settled, send_back-Settled, Settled,
}
use risk_management.Tenant.{Tenant, Env, ok, or_raise, no_such_row}
use risk_management.Tenant.Outcome.{Returns, Returns-chain, Returns-step, ok-Returns}
use risk_management.Placement.Operation.{
  Operation, completing, starting, waiving, reversing, checking, convicting, deciding, resolving,
  placing, ending, leaving, reactivating, reconciling, affirming, sending_back, run, perform,
  History, start, next,
}
use risk_management.Placement.Held.{Watched, Held, commit-Held}
use risk_management.Placement.Held.Services.{
  complete-Held, start-Held, waive-Held, reverse-Held, check-Held, convict-Held, decide-Held,
  resolve-Held, place-Held, end-Held, leave-Held, reactivate-Held, reconcile-Held,
}
use risk_management.Placement.Held.Queue.{affirm-Held, send_back-Held, HeldBy}

module _ (e : Watched) where
  run-Held : (env : Env) (op : Operation) (t : Tenant) → Held e t → Returns (Held e) (run env op t)
  unfolding run
  run-Held env (completing k on notes review) t b = complete-Held e env t b k on notes review
  run-Held env (starting k) t b = start-Held e env t b k
  run-Held env (waiving k reason by) t b = waive-Held e env t b k reason by
  run-Held env (reversing k reason due) t b = reverse-Held e env t b k reason due
  run-Held env (checking result on sector fingerprint) t b =
      check-Held e env t b result on sector fingerprint
  run-Held env (convicting check entries) t b = convict-Held e env t b check entries
  run-Held env (deciding check conviction form) t b = decide-Held e env t b check conviction form
  run-Held env (resolving check outcome) t b = resolve-Held e env t b check outcome
  run-Held env (placing u roles role on) t b = place-Held e env t b u roles role on
  run-Held env (ending u k on) t b = end-Held e env t b u k on
  run-Held env (leaving u on end_assignments) t b = leave-Held e env t b u on end_assignments
  run-Held env (reactivating u) t b = reactivate-Held e env t b u
  run-Held env (reconciling u) t b = reconcile-Held e env t b u
  run-Held env (affirming u k) t b = affirm-Held e env u k t b
  run-Held env (sending_back u k reason) t b =
      Returns-chain (HeldBy e) (Held e) _ _ (send_back-Held e env u k reason t b)
        λ r h. ok-Returns (Held e) _ h

  perform-Held :
      (env : Env) (op : Operation) (t : Tenant) → Held e t → Returns (Held e) (perform env op t)
  unfolding perform
  perform-Held env op t b =
      Returns-chain (Held e) (Held e) _ _ (run-Held env op t b)
        λ u h. ok-Returns (Held e) _ (commit-Held e env u h)

  History-Held : (t u : Tenant) → History t u → Held e t → Held e u
  History-Held t u start b = b
  History-Held t u (next {u = v} env op p h) b =
      History-Held v u h ((perform-Held env op t b).at v p)

-- The entry is in the table; it is there and not open.
abbrev present : ℕ → Watched
present k = record { pk = k; holds = λ i. Unit {0}; of_closed = λ c shut. tt }

abbrev decided : ℕ → Watched
decided k = record { pk = k; holds = λ i. is_open i.status ≡ false; of_closed = λ c shut. shut }

shut_where_present : (k : ℕ) (t : Tenant) → Held (present k) t → Settled k t → Held (decided k) t
shut_where_present k t p (inl n) =
    let (i, found, _) = p.row in
    let clash : none ≡ some i = sym n ∙ found in absurd (no_value clash)
shut_where_present k t p (inr s) = record { row = s }

there :
    (k : ℕ) (t : Tenant) (i : ReviewItem)
    → or_raise no_such_row (review_at k t) ≡ ok i
    → Held (present k) t
there k t i e = record { row = (i, fetched_row k t i e, tt) }

-- What is decided was there.
affirm-there :
    (env : Env) (u : User) (k : ℕ) (t : Tenant)
    → Returns (λ v. Held (present k) t) (affirm env u k t)
unfolding affirm
affirm-there env u k t = Returns-step _ _ _ λ i e. record { at = λ v _. there k t i e }

send_back-there :
    (env : Env) (u : User) (k : ℕ) (reason : String) (t : Tenant)
    → Returns (λ r. Held (present k) t) (send_back env u k reason t)
unfolding send_back
send_back-there env u k reason t = Returns-step _ _ _ λ i e. record { at = λ v _. there k t i e }

abbrev pub Decision : Env → User → ℕ → String → Tenant → Tenant → Type 0
Decision env u k reason t t' =
    (affirm env u k t ≡ ok t') ⊎ ((o : Outcome) × (send_back env u k reason t ≡ ok (t', o)))

decision-Held :
    (env : Env) (u : User) (k : ℕ) (reason : String) (t t' : Tenant)
    → Decision env u k reason t t'
    → Held (decided k) t'
decision-Held env u k reason t t' (inl e) =
    let before = (affirm-there env u k t).at t' e in
    shut_where_present k t' ((affirm-Held (present k) env u k t before).at t' e)
      ((affirm-Settled env u k t).at t' e)
decision-Held env u k reason t t' (inr (o, e)) =
    let before = (send_back-there env u k reason t).at (t', o) e in
    shut_where_present k t' ((send_back-Held (present k) env u k reason t before).at (t', o) e)
      ((send_back-Settled env u k reason t).at (t', o) e)

-- Once an entry is affirmed or sent back, nobody affirms it or sends it back again, at once or after
-- any history of successful operations on the file, whoever carries them out: both refuse.
pub decided_once :
    (env later : Env) (u w : User) (k : ℕ) (reason again : String) (t t' v : Tenant)
    → Decision env u k reason t t'
    → History t' v
    → ((x : Tenant) → affirm later w k v ≢ ok x)
      × ((r : Tenant × Outcome) → send_back later w k again v ≢ ok r)
decided_once env later u w k reason again t t' v decision h =
    let settled : Settled k v =
      inr (History-Held (decided k) t' v h (decision-Held env u k reason t t' decision)).row in
    (
      λ x e. (affirm_shut later w k v settled).at x e,
      λ r e. (send_back_shut later w k again v settled).at r e,
    )
