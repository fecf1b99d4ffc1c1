-- ===== src/Placement/Forever.antt =====
-- A permanent disqualification has no way back: through every operation on the file, and from the
-- conviction that brings it.
use risk_management.Common.{ℕ, ◌+◌, ◌≡◌, refl, ◌∙◌, ap, Bool, true, ◌||◌, List, [], ◌∷◌, any}
use risk_management.Requirements.Records.{DisqualifyingConviction}
use risk_management.Requirements.Decisions.{
  ConvictionEntry, conviction_rows, record_convictions, with_convictions,
}
use risk_management.Tenant.{Tenant, Env, ok}
use risk_management.Tenant.Outcome.{Returns, Returns-bind, Returns-chain, Returns-then, ok-Returns}
use risk_management.Placement.Operation.{
  Operation, completing, starting, waiving, reversing, checking, convicting, deciding, resolving,
  placing, ending, leaving, reactivating, reconciling, affirming, sending_back, run, perform,
  History, start, next,
}
use risk_management.Placement.Reviewed.{affirm-Barred, send_back-Barred, BarredBy}
use risk_management.Placement.Permanent.{Barred, commit-Barred}
use risk_management.Placement.Preserved.{
  complete-Barred, start-Barred, waive-Barred, reverse-Barred, check-Barred, convict-Barred,
  decide-Barred, resolve-Barred, place-Barred, end-Barred, leave-Barred, reactivate-Barred,
  reconcile-Barred, apply_permanent_disqualification-Barred, review_convictions-Barred,
}

run-Barred : (env : Env) (op : Operation) (t : Tenant) → Barred t → Returns Barred (run env op t)
unfolding run
run-Barred env (completing k on notes review) t b = complete-Barred env t b k on notes review
run-Barred env (starting k) t b = start-Barred env t b k
run-Barred env (waiving k reason by) t b = waive-Barred env t b k reason by
run-Barred env (reversing k reason due) t b = reverse-Barred env t b k reason due
run-Barred env (checking result on sector fingerprint) t b =
    check-Barred env t b result on sector fingerprint
run-Barred env (convicting check entries) t b = convict-Barred env t b check entries
run-Barred env (deciding check conviction form) t b = decide-Barred env t b check conviction form
run-Barred env (resolving check outcome) t b = resolve-Barred env t b check outcome
run-Barred env (placing u roles role on) t b = place-Barred env t b u roles role on
run-Barred env (ending u k on) t b = end-Barred env t b u k on
run-Barred env (leaving u on end_assignments) t b = leave-Barred env t b u on end_assignments
run-Barred env (reactivating u) t b = reactivate-Barred env t b u
run-Barred env (reconciling u) t b = reconcile-Barred env t b u
run-Barred env (affirming u k) t b = affirm-Barred env u k t b
run-Barred env (sending_back u k reason) t b =
    Returns-chain BarredBy Barred _ _ (send_back-Barred env u k reason t b)
      λ r h. ok-Returns Barred _ h

perform-Barred :
    (env : Env) (op : Operation) (t : Tenant) → Barred t → Returns Barred (perform env op t)
unfolding perform
perform-Barred env op t b =
    Returns-chain Barred Barred _ _ (run-Barred env op t b)
      λ u h. ok-Returns Barred _ (commit-Barred env u h)

-- A permanently disqualified volunteer who serves nowhere stays permanently disqualified and serves
-- nowhere, through any history of operations by anyone.
pub History-Barred : (t u : Tenant) → History t u → Barred t → Barred u
History-Barred t u start b = b
History-Barred t u (next {u = v} env op e h) b =
    History-Barred v u h ((perform-Barred env op t b).at v e)

-- Whether an entry is an automatic disqualifier, and whether a row is.
abbrev automatic_entry : List ConvictionEntry → Bool
automatic_entry entries = any (λ (e : ConvictionEntry). e.is_automatic_disqualifier) entries

abbrev automatic_row : List DisqualifyingConviction → Bool
automatic_row rows = any (λ (c : DisqualifyingConviction). c.is_automatic_disqualifier) rows

conviction_rows-automatic :
    (pk check : ℕ) (entries : List ConvictionEntry)
    → Returns
        (λ rows. automatic_row rows ≡ automatic_entry entries)
        (conviction_rows pk check entries)
unfolding conviction_rows
conviction_rows-automatic pk check [] = ok-Returns _ _ refl
conviction_rows-automatic pk check (e ∷ entries) = Returns-then _ _ _ (
    Returns-chain _ _ _ _ (conviction_rows-automatic (pk + 1) check entries)
      λ rows h. ok-Returns _ _ (ap (λ b. e.is_automatic_disqualifier || b) h))

pub convict-bars :
    (env : Env) (check : ℕ) (entries : List ConvictionEntry) (t : Tenant)
    → automatic_entry entries ≡ true
    → Returns Barred (record_convictions env check entries t)
unfolding record_convictions
convict-bars env check entries t automatic = Returns-then Barred _ _ (
    Returns-bind Barred _ _ λ r. Returns-then Barred _ _ (
      Returns-chain _ Barred _ _ (conviction_rows-automatic t.next_pk check entries) λ created h.
        rw (h ∙ automatic) (
          review_convictions-Barred env check _ created _
            (apply_permanent_disqualification-Barred env (with_convictions created t)))))

-- Once a conviction with an automatic disqualifier is recorded, the volunteer is permanently
-- disqualified and serves nowhere, at once and after every history of successful operations on the
-- file, whoever carries them out.
pub convictions-History-Barred :
    (env : Env) (check : ℕ) (entries : List ConvictionEntry) (t u v : Tenant)
    → automatic_entry entries ≡ true
    → perform env (convicting check entries) t ≡ ok u
    → History u v
    → Barred u × Barred v
unfolding perform run
convictions-History-Barred env check entries t u v automatic done later =
    let now : Barred u =
      (Returns-chain Barred Barred _ _ (convict-bars env check entries t automatic)
          λ w h. ok-Returns Barred _ (commit-Barred env w h)).at
        u done in
    (now, History-Barred u v later now)
