-- ===== src/Requirements/Nightly.antt =====
-- `recompute_all_statuses` of apps/requirements/services.py, for the rows of one file: the nightly
-- refresh of every status against the day.
use risk_management.Common.{
  ℕ, ◌+◌, ◌≡◌, subst, sym, inl, inr, Bool, true, false, List, [], ◌∷◌, arith, Elem, if◌then◌else◌,
  ◌==◌,
}
use risk_management.Calendar.{Date, passed}
use risk_management.Requirements.Instance.{
  RequirementInstance, RequirementStatus, not_started, in_progress, complete, overdue,
  not_applicable, waived, blocked, recompute,
}
use risk_management.Tenant.{Tenant}

abbrev status_code : RequirementStatus → ℕ
status_code not_started = 0
status_code in_progress = 1
status_code complete = 2
status_code overdue = 3
status_code not_applicable = 4
status_code waived = 5
status_code blocked = 6

abbrev changed : RequirementInstance → RequirementInstance → ℕ
changed i j = if status_code i.status == status_code j.status then 0 else 1

-- The rows, and how many changed.
unfoldable pub recompute_rows : Date → List RequirementInstance → List RequirementInstance × ℕ
unfolding recompute
recompute_rows as_of [] = ([], 0)
recompute_rows as_of (i ∷ rest) =
    let (rows, n) = recompute_rows as_of rest in
    (recompute as_of i ∷ rows, changed i (recompute as_of i) + n)

unfoldable pub recompute_all_statuses : Date → Tenant → Tenant × ℕ
unfolding recompute_rows
recompute_all_statuses as_of t =
    if t.volunteer.is_active
    then (let (rows, n) = recompute_rows as_of t.instances in (record t { instances = rows }, n))
    else (t, 0)

abbrev pub is_pending : RequirementStatus → Bool
is_pending not_started = true
is_pending in_progress = true
is_pending _ = false

recompute_late :
    (as_of : Date) (i : RequirementInstance)
    → is_pending (recompute as_of i).status ≡ true
    → passed i.due_on as_of ≡ false
unfolding recompute
recompute_late as_of i pending = ground (arith, pending)

recompute_rows_late :
    (as_of : Date) (rows : List RequirementInstance) (j : RequirementInstance)
    → Elem j (recompute_rows as_of rows).0
    → is_pending j.status ≡ true
    → passed j.due_on as_of ≡ false
unfolding recompute_rows recompute
recompute_rows_late as_of [] j m pending = absurd m
recompute_rows_late as_of (i ∷ rest) j (inl e) pending =
    subst (λ (x : RequirementInstance). passed x.due_on as_of ≡ false) (sym e)
      (recompute_late as_of i
        (subst (λ (x : RequirementInstance). is_pending x.status ≡ true) e pending))
recompute_rows_late as_of (i ∷ rest) j (inr m) pending = recompute_rows_late as_of rest j m pending

-- After the nightly refresh, no requirement of an active volunteer that is past its deadline still
-- reads as not started or in progress.
pub recompute_all_statuses_late :
    (as_of : Date) (t : Tenant) (j : RequirementInstance)
    → t.volunteer.is_active ≡ true
    → Elem j ((recompute_all_statuses as_of t).0).instances
    → is_pending j.status ≡ true
    → passed j.due_on as_of ≡ false
unfolding recompute_all_statuses
recompute_all_statuses_late as_of t j active m pending =
    recompute_rows_late as_of t.instances j (rw active at m) pending
