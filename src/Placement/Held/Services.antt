-- ===== src/Placement/Held/Services.antt =====
-- Each operation of the services and views on a file leaves a closed entry of the review queue
-- closed.
use risk_management.Common.{
  ℕ, ◌+◌, ◌++◌, inl, inr, Bool, true, false, Option, none, some, List, [], ◌∷◌, String, Bool-cases,
  if◌then◌else◌,
}
use risk_management.Calendar.{Date}
use risk_management.Org.{Role, Assignment, withdrawn, crc_not_clear}
use risk_management.Access.{User}
use risk_management.Requirements.Instance.{RequirementInstance, DueReason}
use risk_management.Requirements.Records.{
  CrcResult, cleared, not_clear, NotClearOutcome, pending, fingerprint_submitted, withdrew,
  Decision, approved, approved_with_conditions, declined, DisqualifyingConviction,
}
use risk_management.Requirements.Progress.{
  mark_requirement_complete, start_requirement, waive_requirement, reverse_waiver, save_started,
}
use risk_management.Requirements.Crc.{
  record_crc, save_checked, block_for, crc_instance_for, filed, check_row,
}
use risk_management.Requirements.Decisions.{
  ConvictionEntry, DecisionForm, record_convictions, record_discretionary_override,
  resolve_not_clear, enact, settle, with_convictions, apply_permanent_disqualification,
  review_convictions,
}
use risk_management.Review.{Snapshot}
use risk_management.Tenant.{Tenant, Env}
use risk_management.Tenant.Outcome.{Returns, Returns-bind, Returns-chain, Returns-then, ok-Returns}
use risk_management.Placement.Operation.{volunteer_resync}
use risk_management.Placement.Leaving.{volunteer_deactivate, end_current, left_service}
use risk_management.Placement.{
  end_one, stop_serving, assignment_create, assignment_end, volunteer_reactivate,
}
use risk_management.Placement.Held.{
  Watched, Held, audit-Held, refresh-Held, open_if_unverified-Held, block_volunteer-Held,
  lift_not_clear-Held, sync-Held, commit-Held,
}

module _ (e : Watched) where
  module _ (env : Env) (t : Tenant) (b : Held e t) where
    pub complete-Held :
        (k : ℕ) (on : Date) (notes : String) (review : Bool)
        → Returns (Held e) (mark_requirement_complete env k on notes review t)
    unfolding mark_requirement_complete
    complete-Held k on notes review = Returns-bind (Held e) _ _ λ p. Returns-then (Held e) _ _ (
        Returns-then (Held e) _ _ (
          Returns-then (Held e) _ _ (
            Returns-chain (Held e) (Held e) _ _
              (elim (Bool-cases review) [
                | inl r ↦ rw r (
                    open_if_unverified-Held e env _ _ _ _ _
                      (audit-Held e env _ _ _ (record { row = b.row })))
                | inr r ↦
                    rw r (ok-Returns (Held e) _ (audit-Held e env _ _ _ (record { row = b.row })))
              ])
              λ u h. ok-Returns (Held e) _ (refresh-Held e env _ u h))))

    save_started-Held : (k : ℕ) (i : Option RequirementInstance) → (Held e) (save_started env k i t)
    save_started-Held k none = b
    save_started-Held k (some i) = audit-Held e env _ _ _ (record { row = b.row })

    pub start-Held : (k : ℕ) → Returns (Held e) (start_requirement env k t)
    unfolding start_requirement
    start-Held k = Returns-bind (Held e) _ _ λ i. ok-Returns (Held e) _ (save_started-Held k _)

    pub waive-Held :
        (k : ℕ) (reason by : String) → Returns (Held e) (waive_requirement env k reason by t)
    unfolding waive_requirement
    waive-Held k reason by = Returns-bind (Held e) _ _ λ p. Returns-then (Held e) _ _ (
        Returns-then (Held e) _ _ (
          Returns-then (Held e) _ _ (
            Returns-chain (Held e) (Held e) _ _
              (open_if_unverified-Held e env _ _ _ _ _
                (audit-Held e env _ _ _ (record { row = b.row })))
              λ u h. ok-Returns (Held e) _ (refresh-Held e env _ u h))))

    pub reverse-Held :
        (k : ℕ) (reason : String) (due : Option (Option Date × DueReason))
        → Returns (Held e) (reverse_waiver env k reason due t)
    unfolding reverse_waiver
    reverse-Held k reason due = Returns-bind (Held e) _ _ λ i. Returns-then (Held e) _ _ (
        Returns-then (Held e) _ _ (
          ok-Returns (Held e) _
            (refresh-Held e env _ _ (audit-Held e env _ _ _ (record { row = b.row })))))

  enact-Held : (env : Env) (d : Decision) (t : Tenant) → Held e t → Returns (Held e) (enact env d t)
  unfolding enact
  enact-Held env approved t b = lift_not_clear-Held e env t b
  enact-Held env approved_with_conditions t b = lift_not_clear-Held e env t b
  enact-Held env declined t b =
      Returns-chain (Held e) (Held e) _ _ (block_volunteer-Held e env withdrawn t b)
        λ u h. ok-Returns (Held e) _ (record { row = h.row })

  settle-Held :
      (env : Env) (o : NotClearOutcome) (t : Tenant) → Held e t → Returns (Held e) (settle env o t)
  unfolding settle
  settle-Held env pending t b = ok-Returns (Held e) t b
  settle-Held env fingerprint_submitted t b = ok-Returns (Held e) t b
  settle-Held env withdrew t b =
      Returns-chain (Held e) (Held e) _ _ (block_volunteer-Held e env withdrawn t b)
        λ u h. ok-Returns (Held e) _ (record { row = h.row })

  Held-if : (b : Bool) (t u : Tenant) → Held e t → (Held e) u → (Held e) (if b then t else u)
  Held-if true t u h h' = h
  Held-if false t u h h' = h'

  apply_permanent_disqualification-Held :
      (env : Env) (t : Tenant) → Held e t → Held e (apply_permanent_disqualification env t)
  unfolding apply_permanent_disqualification
  apply_permanent_disqualification-Held env t b = audit-Held e env _ _ _ (record { row = b.row })

  pub review_convictions-Held :
      (env : Env) (check : ℕ) (before : Snapshot) (l : List DisqualifyingConviction) (t : Tenant)
      → Held e t
      → Returns (Held e) (review_convictions env check before l t)
  review_convictions-Held env check before [] t b = ok-Returns (Held e) t b
  review_convictions-Held env check before (c ∷ l) t b = open_if_unverified-Held e env _ _ _ _ t b

  module _ (env : Env) (t : Tenant) (b : Held e t) where
    save_checked-Held :
        (result : CrcResult) (on : Date) (i : Option RequirementInstance) (u : Tenant)
        → Held e u
        → Held e (save_checked env result on i u)
    save_checked-Held result on none u h = h
    save_checked-Held result on (some i) u h = refresh-Held e env _ _ (record { row = h.row })

    block_for-Held :
        (result : CrcResult) (u : Tenant) → Held e u → Returns (Held e) (block_for env result u)
    block_for-Held cleared u h = lift_not_clear-Held e env u h
    block_for-Held not_clear u h = block_volunteer-Held e env crc_not_clear u h

    pub check-Held :
        (result : CrcResult) (on : Date) (sector fingerprint : Bool)
        → Returns (Held e) (record_crc env result on sector fingerprint t)
    unfolding record_crc
    check-Held result on sector fingerprint = Returns-then (Held e) _ _ (
        Returns-then (Held e) _ _ (
          Returns-then (Held e) _ _ (
            Returns-chain (Held e) (Held e) _ _
              (block_for-Held result _ (
                save_checked-Held result on (crc_instance_for t.definitions t.instances)
                  (filed (check_row t.next_pk result on sector fingerprint) t)
                  (record { row = b.row })))
              λ w h. open_if_unverified-Held e env _ _ _ _ _ (audit-Held e env _ _ _ h))))

    pub convict-Held :
        (check : ℕ) (entries : List ConvictionEntry)
        → Returns (Held e) (record_convictions env check entries t)
    unfolding record_convictions
    convict-Held check entries = Returns-then (Held e) _ _ (
        Returns-bind (Held e) _ _ λ r. Returns-then (Held e) _ _ (
          Returns-bind (Held e) _ _ λ created. review_convictions-Held env check _ created _ (
            Held-if _ _ _
              (apply_permanent_disqualification-Held env (with_convictions created t)
                (record { row = b.row }))
              (audit-Held e env _ _ _ (record { row = b.row })))))

    pub decide-Held :
        (check : ℕ) (conviction : Option ℕ) (f : DecisionForm)
        → Returns (Held e) (record_discretionary_override env check conviction f t)
    unfolding record_discretionary_override
    decide-Held check conviction f = Returns-then (Held e) _ _ (
        Returns-bind (Held e) _ _ λ r. Returns-bind (Held e) _ _ λ c. Returns-then (Held e) _ _ (
          Returns-then (Held e) _ _ (
            Returns-then (Held e) _ _ (
              Returns-chain (Held e) (Held e) _ _
                (enact-Held env f.decision _ (record { row = b.row }))
                λ u h. open_if_unverified-Held e env _ _ _ _ _ (audit-Held e env _ _ _ h)))))

    pub resolve-Held :
        (check : ℕ) (o : NotClearOutcome) → Returns (Held e) (resolve_not_clear env check o t)
    unfolding resolve_not_clear
    resolve-Held check o = Returns-then (Held e) _ _ (
        Returns-bind (Held e) _ _ λ r. Returns-then (Held e) _ _ (
          Returns-chain (Held e) (Held e) _ _ (settle-Held env o _ (record { row = b.row }))
            λ u h. ok-Returns (Held e) _ (audit-Held e env _ _ _ h)))

    pub place-Held :
        (u : User) (roles : List Role) (role : ℕ) (on : Option Date)
        → Returns (Held e) (assignment_create env u roles role on t)
    unfolding assignment_create
    place-Held u roles role on = Returns-then (Held e) _ _ (
        Returns-bind (Held e) _ _ λ a. ok-Returns (Held e) _ (
          audit-Held e env _ _ _
            (sync-Held e env _ _ _ (commit-Held e env (placed a) (record { row = b.row })))))
      where
        placed : Assignment → Tenant
        placed a = record t {
          assignments = t.assignments ++ a ∷ [];
          pending_syncs = t.pending_syncs + 1;
          next_pk = t.next_pk + 1;
        }

    end_one-Held : (on : Date) (a : Assignment) → Held e (end_one on a t)
    unfolding end_one
    end_one-Held on a = record { row = b.row }

    stop_serving-Held : (u : Tenant) → Held e u → Held e (stop_serving env u)
    unfolding stop_serving
    stop_serving-Held u h = Held-if _ _ _ (audit-Held e env _ _ _ (record { row = h.row })) h

    pub end-Held :
        (u : User) (k : ℕ) (on : Option Date) → Returns (Held e) (assignment_end env u k on t)
    unfolding assignment_end
    end-Held u k on = Returns-bind (Held e) _ _ λ a. Returns-then (Held e) _ _ (
        ok-Returns (Held e) _ (
          audit-Held e env _ _ _
            (commit-Held e env _ (sync-Held e env _ _ _ (stop_serving-Held _ (end_one-Held _ a))))))

    left-Held :
        (end_assignments : Bool) (on : Date)
        → (Held e) (end_current end_assignments on (left_service t))
    left-Held true on = record { row = b.row }
    left-Held false on = record { row = b.row }

    pub leave-Held :
        (u : User) (on : Option Date) (end_assignments : Bool)
        → Returns (Held e) (volunteer_deactivate env u on end_assignments t)
    unfolding volunteer_deactivate
    leave-Held u on end_assignments = Returns-then (Held e) _ _ (
        Returns-then (Held e) _ _ (
          Returns-bind (Held e) _ _ λ day.
            ok-Returns (Held e) _
              (commit-Held e env _ (audit-Held e env _ _ _ (left-Held end_assignments day)))))

    pub reactivate-Held : (u : User) → Returns (Held e) (volunteer_reactivate env u t)
    unfolding volunteer_reactivate
    reactivate-Held u = Returns-then (Held e) _ _ (
        Returns-then (Held e) _ _ (
          ok-Returns (Held e) _
            (audit-Held e env _ _ _ (commit-Held e env returning (record { row = b.row })))))
      where
        returning : Tenant
        returning = record t {
          volunteer = record (t.volunteer) { is_active = true };
          pending_syncs = t.pending_syncs + 1;
        }

    pub reconcile-Held : (u : User) → Returns (Held e) (volunteer_resync env u t)
    unfolding volunteer_resync
    reconcile-Held u =
        Returns-then (Held e) _ _ (ok-Returns (Held e) _ (sync-Held e env env.today false t b))
