-- ===== src/Placement/Preserved.antt =====
-- Each operation on the file of a permanently disqualified volunteer leaves them disqualified and
-- without an assignment.
use risk_management.Common.{
  ℕ, refl, inl, inr, Bool, true, false, Option, none, some, List, [], ◌∷◌, String, Bool-cases,
  if◌then◌else◌,
}
use risk_management.Calendar.{Date}
use risk_management.Org.{Role, Assignment, withdrawn, end_assignment}
use risk_management.Access.{User}
use risk_management.Requirements.Instance.{RequirementInstance, DueReason}
use risk_management.Requirements.Records.{
  CrcResult, NotClearOutcome, pending, fingerprint_submitted, withdrew, Decision, approved,
  approved_with_conditions, declined, DisqualifyingConviction,
}
use risk_management.Requirements.Progress.{
  mark_requirement_complete, start_requirement, waive_requirement, reverse_waiver, save_started,
}
use risk_management.Requirements.Crc.{record_crc}
use risk_management.Requirements.Decisions.{
  ConvictionEntry, DecisionForm, record_convictions, record_discretionary_override,
  resolve_not_clear, enact, settle, with_convictions, apply_permanent_disqualification,
  review_convictions,
}
use risk_management.Review.{Snapshot}
use risk_management.Tenant.{Tenant, Env, Result, raised, Error, ◌>>=◌, ◌>>◌, form_invalid}
use risk_management.Tenant.Outcome.{
  Returns, Returns-bind, Returns-chain, Returns-then, ok-Returns, raised-Returns,
}
use risk_management.Placement.Operation.{volunteer_resync}
use risk_management.Placement.Leaving.{volunteer_deactivate, end_current, left_service}
use risk_management.Placement.{
  end_one, validated, role_choices, assignment_create, assignment_end, volunteer_reactivate,
}
use risk_management.Placement.Permanent.{
  Barred, audit-Barred, refresh-Barred, open_if_unverified-Barred, block_volunteer-Barred,
  lift_not_clear-Barred, end_all-idle, put_assignment-idle, stop_serving-Barred, sync-Barred,
  commit-Barred,
}

module _ (env : Env) (t : Tenant) (b : Barred t) where
  pub complete-Barred :
      (k : ℕ) (on : Date) (notes : String) (review : Bool)
      → Returns Barred (mark_requirement_complete env k on notes review t)
  unfolding mark_requirement_complete
  complete-Barred k on notes review = Returns-bind Barred _ _ λ p. Returns-then Barred _ _ (
      Returns-then Barred _ _ (
        Returns-then Barred _ _ (
          Returns-chain Barred Barred _ _
            (elim (Bool-cases review) [
              | inl r ↦ rw r (
                  open_if_unverified-Barred env _ _ _ _ _
                    (audit-Barred env _ _ _ (record { block = b.block; idle = b.idle })))
              | inr r ↦ rw r (
                  ok-Returns Barred _
                    (audit-Barred env _ _ _ (record { block = b.block; idle = b.idle })))
            ])
            λ u h. ok-Returns Barred _ (refresh-Barred env _ u h))))

  save_started-Barred : (k : ℕ) (i : Option RequirementInstance) → Barred (save_started env k i t)
  save_started-Barred k none = b
  save_started-Barred k (some i) =
      audit-Barred env _ _ _ (record { block = b.block; idle = b.idle })

  pub start-Barred : (k : ℕ) → Returns Barred (start_requirement env k t)
  unfolding start_requirement
  start-Barred k = Returns-bind Barred _ _ λ i. ok-Returns Barred _ (save_started-Barred k _)

  pub waive-Barred :
      (k : ℕ) (reason by : String) → Returns Barred (waive_requirement env k reason by t)
  unfolding waive_requirement
  waive-Barred k reason by = Returns-bind Barred _ _ λ p. Returns-then Barred _ _ (
      Returns-then Barred _ _ (
        Returns-then Barred _ _ (
          Returns-chain Barred Barred _ _
            (open_if_unverified-Barred env _ _ _ _ _
              (audit-Barred env _ _ _ (record { block = b.block; idle = b.idle })))
            λ u h. ok-Returns Barred _ (refresh-Barred env _ u h))))

  pub reverse-Barred :
      (k : ℕ) (reason : String) (due : Option (Option Date × DueReason))
      → Returns Barred (reverse_waiver env k reason due t)
  unfolding reverse_waiver
  reverse-Barred k reason due = Returns-bind Barred _ _ λ i. Returns-then Barred _ _ (
      Returns-then Barred _ _ (
        ok-Returns Barred _ (
          refresh-Barred env _ _
            (audit-Barred env _ _ _ (record { block = b.block; idle = b.idle })))))

enact-Barred : (env : Env) (d : Decision) (t : Tenant) → Barred t → Returns Barred (enact env d t)
unfolding enact
enact-Barred env approved t b = lift_not_clear-Barred env t b
enact-Barred env approved_with_conditions t b = lift_not_clear-Barred env t b
enact-Barred env declined t b =
    Returns-chain Barred Barred _ _ (block_volunteer-Barred env withdrawn t b)
      λ u h. ok-Returns Barred _ (record { block = h.block; idle = end_all-idle env.today u })

settle-Barred :
    (env : Env) (o : NotClearOutcome) (t : Tenant) → Barred t → Returns Barred (settle env o t)
unfolding settle
settle-Barred env pending t b = ok-Returns Barred t b
settle-Barred env fingerprint_submitted t b = ok-Returns Barred t b
settle-Barred env withdrew t b =
    Returns-chain Barred Barred _ _ (block_volunteer-Barred env withdrawn t b)
      λ u h. ok-Returns Barred _ (record { block = h.block; idle = end_all-idle env.today u })

Barred-if : (b : Bool) (t u : Tenant) → Barred t → Barred u → Barred (if b then t else u)
Barred-if true t u h h' = h
Barred-if false t u h h' = h'

-- Whoever the file is of, the disqualification that is applied bars them.
pub apply_permanent_disqualification-Barred :
    (env : Env) (t : Tenant) → Barred (apply_permanent_disqualification env t)
unfolding apply_permanent_disqualification
apply_permanent_disqualification-Barred env t =
    audit-Barred env _ _ _ (record { block = refl; idle = end_all-idle env.today t })

pub review_convictions-Barred :
    (env : Env) (check : ℕ) (before : Snapshot) (l : List DisqualifyingConviction) (t : Tenant)
    → Barred t
    → Returns Barred (review_convictions env check before l t)
review_convictions-Barred env check before [] t b = ok-Returns Barred t b
review_convictions-Barred env check before (c ∷ l) t b = open_if_unverified-Barred env _ _ _ _ t b

module _ (env : Env) (t : Tenant) (b : Barred t) where
  raised_first : (e : Error) (m : Result Tenant) → Returns Barred (raised e >> m)
  unfolding ◌>>◌ ◌>>=◌
  raised_first e m = raised-Returns Barred _

  pub check-Barred :
      (result : CrcResult) (on : Date) (sector fingerprint : Bool)
      → Returns Barred (record_crc env result on sector fingerprint t)
  unfolding record_crc
  check-Barred result on sector fingerprint =
      rw b.block (Returns-then Barred _ _ (Returns-then Barred _ _ (raised_first _ _)))

  pub convict-Barred :
      (check : ℕ) (entries : List ConvictionEntry)
      → Returns Barred (record_convictions env check entries t)
  unfolding record_convictions
  convict-Barred check entries = Returns-then Barred _ _ (
      Returns-bind Barred _ _ λ r. Returns-then Barred _ _ (
        Returns-bind Barred _ _ λ created. review_convictions-Barred env check _ created _ (
          Barred-if _ _ _ (apply_permanent_disqualification-Barred env (with_convictions created t))
            (audit-Barred env _ _ _ (record { block = b.block; idle = b.idle })))))

  pub decide-Barred :
      (check : ℕ) (conviction : Option ℕ) (f : DecisionForm)
      → Returns Barred (record_discretionary_override env check conviction f t)
  unfolding record_discretionary_override
  decide-Barred check conviction f = Returns-then Barred _ _ (
      Returns-bind Barred _ _ λ r. Returns-bind Barred _ _ λ c. Returns-then Barred _ _ (
        Returns-then Barred _ _ (
          Returns-then Barred _ _ (
            Returns-chain Barred Barred _ _
              (enact-Barred env f.decision _ (record { block = b.block; idle = b.idle }))
              λ u h. open_if_unverified-Barred env _ _ _ _ _ (audit-Barred env _ _ _ h)))))

  pub resolve-Barred :
      (check : ℕ) (o : NotClearOutcome) → Returns Barred (resolve_not_clear env check o t)
  unfolding resolve_not_clear
  resolve-Barred check o = Returns-then Barred _ _ (
      Returns-bind Barred _ _ λ r. Returns-then Barred _ _ (
        Returns-chain Barred Barred _ _
          (settle-Barred env o _ (record { block = b.block; idle = b.idle }))
          λ u h. ok-Returns Barred _ (audit-Barred env _ _ _ h)))

  no_role_offered :
      (u : User) (roles : List Role) (role : ℕ) (on : Option Date)
      → Returns (λ a. ⊥) (validated env u roles role on t)
  unfolding validated role_choices ◌>>=◌
  no_role_offered u roles role on = rw b.block (raised-Returns (λ a. ⊥) form_invalid)

  pub place-Barred :
      (u : User) (roles : List Role) (role : ℕ) (on : Option Date)
      → Returns Barred (assignment_create env u roles role on t)
  unfolding assignment_create
  place-Barred u roles role on = Returns-then Barred _ _ (
      Returns-chain (λ a. ⊥) Barred _ _ (no_role_offered u roles role on)
        λ a none_such. absurd none_such)

  end_one-Barred : (on : Date) (a : Assignment) → Barred (end_one on a t)
  unfolding end_one end_assignment
  end_one-Barred on a = record {
    block = b.block;
    idle = put_assignment-idle (end_assignment on a) t.assignments refl b.idle;
  }

  pub end-Barred :
      (u : User) (k : ℕ) (on : Option Date) → Returns Barred (assignment_end env u k on t)
  unfolding assignment_end
  end-Barred u k on = Returns-bind Barred _ _ λ a. Returns-then Barred _ _ (
      ok-Returns Barred _ (
        audit-Barred env _ _ _ (
          commit-Barred env _
            (sync-Barred env _ _ _ (stop_serving-Barred env _ (end_one-Barred _ a))))))

  left-Barred :
      (end_assignments : Bool) (on : Date)
      → Barred (end_current end_assignments on (left_service t))
  left-Barred true on = record { block = b.block; idle = end_all-idle on t }
  left-Barred false on = record { block = b.block; idle = b.idle }

  pub leave-Barred :
      (u : User) (on : Option Date) (end_assignments : Bool)
      → Returns Barred (volunteer_deactivate env u on end_assignments t)
  unfolding volunteer_deactivate
  leave-Barred u on end_assignments = Returns-then Barred _ _ (
      Returns-then Barred _ _ (
        Returns-bind Barred _ _ λ day.
          ok-Returns Barred _
            (commit-Barred env _ (audit-Barred env _ _ _ (left-Barred end_assignments day)))))

  pub reactivate-Barred : (u : User) → Returns Barred (volunteer_reactivate env u t)
  unfolding volunteer_reactivate
  reactivate-Barred u = rw b.block (Returns-then Barred _ _ (raised_first _ _))

  pub reconcile-Barred : (u : User) → Returns Barred (volunteer_resync env u t)
  unfolding volunteer_resync
  reconcile-Barred u =
      Returns-then Barred _ _ (ok-Returns Barred _ (sync-Barred env env.today false t b))
