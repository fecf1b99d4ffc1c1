-- ===== src/Reminders/Once.antt =====
-- Each reminder is claimed once: what the unique constraint of `ReminderLog` gives the nightly pass.
use risk_management.Common.{
  ℕ, ◌≡◌, refl, sym, subst, ◌∙◌, inl, inr, Bool, true, false, ◌&&◌, ◌||◌, and_false_right, ◌==◌,
  Option, none, some, List, [], ◌∷◌, ◌++◌, String, arith, Bool-cases, Option-cases, is_some, any,
  All, Elem, select, if◌then◌else◌,
}
use risk_management.Calendar.{Date}
use risk_management.Requirements.Instance.{RequirementInstance, effective_due_date}
use risk_management.Reminders.{
  Reminder, Candidate, Church, Backlog, Sending, Logs, clashes, raise_reminder, claim_all,
  reminder_of, overdue, noted, is_yesterday, approaching, approaching_in, newly_overdue, overdue_in,
  chased, find_due_reminders, send_digest, process_tenant_reminders, watched, lead_for,
}

abbrev Dated : Reminder → Type 0
Dated r = is_some r.due_date ≡ true

-- The reminder is in the log, as far as the constraint tells.
abbrev Logged : List Reminder → Reminder → Type 0
Logged log r = any (clashes r) log ≡ true

any-append :
    (p : Reminder → Bool) (xs ys : List Reminder) → any p (xs ++ ys) ≡ (any p xs || any p ys)
any-append p [] ys = refl
any-append p (x ∷ xs) ys = ground (arith, any-append p xs ys)

clashes_refl : (r : Reminder) → Dated r → clashes r r ≡ true
unfolding clashes
clashes_refl r d = ground (arith, d)

All-append :
    (P : Reminder → Type 0) (xs ys : List Reminder) → All P xs → All P ys → All P (xs ++ ys)
All-append P [] ys hx hy = hy
All-append P (x ∷ xs) ys hx hy = (hx.0, All-append P xs ys hx.1 hy)

-- Claiming takes nothing out of the log.
claim_all-Logged :
    (rs log : List Reminder) (r : Reminder) → Logged log r → Logged (claim_all rs log).0 r
unfolding claim_all raise_reminder
claim_all-Logged [] log r h = h
claim_all-Logged (x ∷ rs) log r h = elim (Bool-cases (any (clashes x) log)) [
  | inl e ↦ rw e (claim_all-Logged rs log r h)
  | inr e ↦
      rw e (claim_all-Logged rs (log ++ x ∷ []) r (any-append (clashes r) log (x ∷ []) ∙ rw h))
]

-- Afterwards every candidate with a date is logged.
claim_all_logs : (rs log : List Reminder) → All Dated rs → All (Logged (claim_all rs log).0) rs
unfolding claim_all raise_reminder
claim_all_logs [] log d = tt
claim_all_logs (x ∷ rs) log d = elim (Bool-cases (any (clashes x) log)) [
  | inl e ↦
      (let same : (claim_all (x ∷ rs) log).0 ≡ (claim_all rs log).0 = rw e in
        subst (λ l. All (Logged l) (x ∷ rs)) (sym same)
          (claim_all-Logged rs log x e, claim_all_logs rs log d.1))
  | inr e ↦
      (let same : (claim_all (x ∷ rs) log).0 ≡ (claim_all rs (log ++ x ∷ [])).0 = rw e in
        subst (λ l. All (Logged l) (x ∷ rs)) (sym same)
          (
            claim_all-Logged rs (log ++ x ∷ []) x
                (any-append (clashes x) log (x ∷ []) ∙ rw (e, clashes_refl x d.0)),
            claim_all_logs rs (log ++ x ∷ []) d.1,
          ))
]

-- What is logged is not claimed.
claim_all_again : (rs log : List Reminder) → All (Logged log) rs → claim_all rs log ≡ (log, [])
unfolding claim_all raise_reminder
claim_all_again [] log h = refl
claim_all_again (x ∷ rs) log h = rw (h.0, claim_all_again rs log h.1) refl

-- Every reminder that is found has a date.
lead_for-watched :
    (as_of : Date) (leads : List ℕ) (w : Option Date) (n : ℕ)
    → lead_for as_of leads w ≡ some n
    → is_some w ≡ true
lead_for-watched as_of leads none n e = cc
lead_for-watched as_of leads (some d) n e = refl

watched-effective_due_date :
    (i : RequirementInstance) → is_some (watched i) ≡ true → is_some (effective_due_date i) ≡ true
unfolding effective_due_date
watched-effective_due_date i h = ground (arith, h)

approaching-Dated :
    (as_of : Date) (leads : List ℕ) (i : RequirementInstance)
    → All Dated (approaching as_of leads i)
approaching-Dated as_of leads i = elim (Option-cases (lead_for as_of leads (watched i))) [
  | inl e ↦ subst (λ o. All Dated (noted i o)) (sym e) tt
  | inr h ↦
      let (n, e) = h in
      let dated = watched-effective_due_date i (lead_for-watched as_of leads (watched i) n e) in
      subst (λ o. All Dated (noted i o)) (sym e) (dated, tt)
]

yesterday-effective_due_date :
    (as_of : Date) (i : RequirementInstance)
    → (is_yesterday as_of i.expires_on || is_yesterday as_of i.due_on) ≡ true
    → is_some (effective_due_date i) ≡ true
unfolding effective_due_date
yesterday-effective_due_date as_of i h = ground (arith, h)

only_if_Dated : (b : Bool) (r : Reminder) → Dated r → All Dated (if b then r ∷ [] else [])
only_if_Dated true r d = (d, tt)
only_if_Dated false r d = tt

newly_overdue-Dated : (as_of : Date) (i : RequirementInstance) → All Dated (newly_overdue as_of i)
newly_overdue-Dated as_of i =
    elim (Bool-cases (is_yesterday as_of i.expires_on || is_yesterday as_of i.due_on)) [
      | inl e ↦
          let dated = yesterday-effective_due_date as_of i e in
          rw e (only_if_Dated _ (reminder_of i overdue 0) dated)
      | inr e ↦ rw e tt
    ]

approaching_in-Dated :
    (as_of : Date) (leads : List ℕ) (rows : List Candidate)
    → All Dated (approaching_in as_of leads rows)
unfolding approaching_in
approaching_in-Dated as_of leads [] = tt
approaching_in-Dated as_of leads (c ∷ rows) =
    All-append Dated _ _ (approaching-Dated as_of leads c.instance)
      (approaching_in-Dated as_of leads rows)

overdue_in-Dated : (as_of : Date) (rows : List Candidate) → All Dated (overdue_in as_of rows)
unfolding overdue_in
overdue_in-Dated as_of [] = tt
overdue_in-Dated as_of (c ∷ rows) =
    All-append Dated _ _ (newly_overdue-Dated as_of c.instance) (overdue_in-Dated as_of rows)

find_due_reminders-Dated :
    (as_of : Date) (leads : List ℕ) (rows : List Candidate)
    → All Dated (find_due_reminders as_of leads rows)
unfolding find_due_reminders
find_due_reminders-Dated as_of leads rows =
    All-append Dated _ _ (approaching_in-Dated as_of leads (select chased rows))
      (overdue_in-Dated as_of (select chased rows))

-- Without a reminder, a digest goes out for a stale backlog only.
send_digest_idle :
    (church : Church) (to : List String) (backlog : Backlog) (sending : Sending) (pk : ℕ)
    → (is_some (send_digest church to backlog sending pk []) && (backlog.stale == 0)) ≡ false
unfolding send_digest
send_digest_idle church to backlog sending pk = elim (Bool-cases (backlog.stale == 0)) [
  | inl e ↦ rw e refl
  | inr e ↦ rw e (and_false_right _)
]

-- A second nightly pass over the same rows on the same day claims no reminder and leaves the log of
-- reminders as it was, whether the digest of the first went out, failed, or was not sent at all; and
-- it mails nobody unless an entry of the review queue is stale.
pub process_tenant_reminders_once :
    (church : Church) (to to' : List String) (backlog backlog' : Backlog)
    (sending sending' : Sending) (as_of : Date) (rows : List Candidate) (logs : Logs)
    → let (after, first) = process_tenant_reminders church to backlog sending as_of rows logs in
      let (later, second) =
        process_tenant_reminders church to' backlog' sending' as_of rows after in
      (second.claimed ≡ 0)
      × (later.reminders ≡ after.reminders)
      × ((is_some second.email && (backlog'.stale == 0)) ≡ false)
unfolding process_tenant_reminders
process_tenant_reminders_once church to to' backlog backlog' sending sending' as_of rows logs =
    rw
      (claim_all_again _ _ (
        claim_all_logs (find_due_reminders as_of church.lead_days rows) logs.reminders
          (find_due_reminders-Dated as_of church.lead_days rows)))
      (refl, refl, send_digest_idle church to' backlog' sending' _)

-- What a pass claims was in no log before it: a reminder that an earlier pass has claimed is in no
-- later digest, whether the earlier digest went out, failed, or was not sent at all.
pub claim_all_new :
    (rs log : List Reminder) (r : Reminder)
    → Elem r (claim_all rs log).1
    → any (clashes r) log ≡ false
unfolding claim_all raise_reminder
claim_all_new [] log r m = absurd m
claim_all_new (x ∷ rs) log r m = elim (Bool-cases (any (clashes x) log)) [
  | inl e ↦ claim_all_new rs log r (rw e at m)
  | inr e ↦ elim (rw e at m) [
    | inl q ↦ rw q e
    | inr later ↦
        let h = claim_all_new rs (log ++ x ∷ []) r later in
        ground (arith, any-append (clashes r) log (x ∷ []), h)
  ]
]
