-- ===== src/Placement/Held/Queue.antt =====
-- Deciding an entry of the review queue leaves every entry that is closed closed.
use risk_management.Common.{
  ℕ, ◌≡◌, refl, Bool, true, false, Option, none, some, String, if◌then◌else◌, is_some, not, List,
  inl, inr, Bool-cases,
}
use risk_management.Access.{User}
use risk_management.Audit.{AuditAction}
use risk_management.Requirements.Instance.{RequirementInstance, is_complete, is_waived}
use risk_management.Requirements.Records.{CrcRecord}
use risk_management.Review.{
  ReviewItem, ReviewStatus, affirmed, sent_back, is_open, Entity, ReviewKind,
  requirement_completion, document_kind, crc, waiver, override_kind, Snapshot,
}
use risk_management.Review.Decide.{
  affirm, close, save_review, restore_from_snapshot, instance_from, Outcome, Kept,
}
use risk_management.Review.SendBack.{
  completion_of, send_back_completion, retire_document, document_of, send_back_document,
  restore_instance, reinstate_previous, retract, crc_of, send_back_crc, waiver_of, send_back_waiver,
  send_back_override, handler, send_back, carries_decisions,
}
use risk_management.Documents.{Document}
use risk_management.Tenant.{Tenant, Env, audit}
use risk_management.Tenant.Outcome.{
  Returns, Returns-bind, Returns-chain, Returns-then, Returns-if, ok-Returns,
}
use risk_management.Placement.Held.{
  Watched, Held, put_review-HeldIn, audit-Held, refresh-Held, lift_not_clear-Held,
}
use risk_management.Placement.Held.Services.{reverse-Held}

module _ (e : Watched) where
  close-Shut :
      (env : Env) (status : ReviewStatus) (by : User) (reason : String) (i : ReviewItem)
      → is_open status ≡ false
      → Returns (λ (c : ReviewItem). is_open c.status ≡ false) (close env status by reason i)
  unfolding close
  close-Shut env status by reason i shut = Returns-then _ _ _ (ok-Returns _ _ shut)

  saved-Held :
      (env : Env) (action : AuditAction) (x : Entity) (c : ReviewItem) (t : Tenant)
      → is_open c.status ≡ false
      → Held e t
      → Held e (audit env action x (save_review c t))
  saved-Held env action x c t shut b =
      audit-Held e env _ _ _ (record { row = put_review-HeldIn e c t.reviews shut b.row })

  pub affirm-Held :
      (env : Env) (u : User) (k : ℕ) (t : Tenant) → Held e t → Returns (Held e) (affirm env u k t)
  unfolding affirm
  affirm-Held env u k t b = Returns-bind (Held e) _ _ λ i. Returns-then (Held e) _ _ (
      Returns-chain _ (Held e) _ _ (close-Shut env affirmed u "" i refl)
        λ c shut. ok-Returns (Held e) _ (saved-Held env _ _ c t shut b))

  abbrev pub HeldBy : Tenant × Outcome → Type 0
  HeldBy r = Held e r.0

  restore-Held :
      (env : Env) (before : Snapshot) (i : RequirementInstance) (t : Tenant)
      → Held e t
      → (Held e) (restore_from_snapshot env before i t)
  unfolding restore_from_snapshot
  restore-Held env before i t b = refresh-Held e env _ _ (record { row = b.row })

  HeldBy-if :
      (c : Bool) (r s : Tenant × Outcome) → HeldBy r → HeldBy s → HeldBy (if c then r else s)
  HeldBy-if true r s h h' = h
  HeldBy-if false r s h h' = h'

  completion-Held :
      (env : Env) (item : ReviewItem) (o : Option RequirementInstance) (t : Tenant)
      → Held e t
      → HeldBy (completion_of env item o t)
  completion-Held env item none t b = b
  completion-Held env item (some i) t b =
      HeldBy-if (not (is_complete i.status)) _ _ b (restore-Held env item.before_state i t b)

  document-Held :
      (env : Env) (item : ReviewItem) (o : Option RequirementInstance) (t : Tenant)
      → Held e t
      → (Held e) (restore_instance env item o t)
  document-Held env item none t b = b
  document-Held env item (some i) t b = restore-Held env item.before_state i t b

  retire_document-Held :
      (d : Option Document) (t : Tenant) → Held e t → (Held e) (retire_document d t).0
  retire_document-Held none t b = b
  retire_document-Held (some d) t b = elim (Bool-cases d.is_current) [
    | inl e ↦ rw e (record { row = b.row })
    | inr e ↦ rw e b
  ]

  document_of-Held :
      (env : Env) (item : ReviewItem) (o : Option RequirementInstance) (kept : List Kept)
      (t : Tenant)
      → Held e t
      → HeldBy (document_of env item o kept t)
  document_of-Held env item none kept t b = b
  document_of-Held env item (some i) kept t b = restore-Held env item.before_state i t b

  reinstate-Held : (k : Option ℕ) (t : Tenant) → Held e t → (Held e) (reinstate_previous k t)
  reinstate-Held none t b = b
  reinstate-Held (some k) t b = record { row = b.row }

  retract-Held :
      (env : Env) (item : ReviewItem) (r : CrcRecord) (t : Tenant)
      → Held e t
      → Returns HeldBy (retract env item r t)
  retract-Held env item r t b =
      Returns-chain (Held e) HeldBy _ _
        (lift_not_clear-Held e env _ (
          reinstate-Held item.before_state.superseded_by_id _
            (document-Held env item (instance_from item t.instances) t b)))
        λ u h. ok-Returns HeldBy _ (audit-Held e env _ _ _ h)

  crc_of-Held :
      (env : Env) (item : ReviewItem) (o : Option CrcRecord) (t : Tenant)
      → Held e t
      → Returns HeldBy (crc_of env item o t)
  crc_of-Held env item none t b = ok-Returns HeldBy _ b
  crc_of-Held env item (some r) t b =
      Returns-if HeldBy (carries_decisions r t) _ _ (ok-Returns HeldBy _ b) (
        Returns-if HeldBy (is_some r.superseded_by) _ _ (ok-Returns HeldBy _ b)
          (retract-Held env item r t b))

  waiver_of-Held :
      (env : Env) (item : ReviewItem) (reason : String) (o : Option RequirementInstance)
      (t : Tenant)
      → Held e t
      → Returns HeldBy (waiver_of env item reason o t)
  waiver_of-Held env item reason none t b = ok-Returns HeldBy _ b
  waiver_of-Held env item reason (some i) t b =
      Returns-if HeldBy (not (is_waived i.status)) _ _ (ok-Returns HeldBy _ b) (
        Returns-chain (Held e) HeldBy _ _ (reverse-Held e env t b i.pk reason _)
          λ u h. ok-Returns HeldBy _ h)

  handler-Held :
      (env : Env) (item : ReviewItem) (reason : String) (kind : ReviewKind) (t : Tenant)
      → Held e t
      → Returns HeldBy (handler env item reason kind t)
  unfolding handler send_back_completion send_back_document send_back_crc send_back_waiver
      send_back_override
  handler-Held env item reason requirement_completion t b =
      ok-Returns HeldBy _ (completion-Held env item (instance_from item t.instances) t b)
  handler-Held env item reason document_kind t b =
      ok-Returns HeldBy _ (document_of-Held env item _ _ _ (retire_document-Held _ t b))
  handler-Held env item reason crc t b =
      Returns-if HeldBy _ _ _ (ok-Returns HeldBy _ b) (crc_of-Held env item _ t b)
  handler-Held env item reason waiver t b =
      waiver_of-Held env item reason (instance_from item t.instances) t b
  handler-Held env item reason override_kind t b = ok-Returns HeldBy _ b

  pub send_back-Held :
      (env : Env) (u : User) (k : ℕ) (reason : String) (t : Tenant)
      → Held e t
      → Returns HeldBy (send_back env u k reason t)
  unfolding send_back
  send_back-Held env u k reason t b = Returns-bind HeldBy _ _ λ i. Returns-then HeldBy _ _ (
      Returns-then HeldBy _ _ (
        Returns-chain HeldBy HeldBy _ _ (handler-Held env i reason i.kind t b) λ r h.
          Returns-chain _ HeldBy _ _ (close-Shut env sent_back u reason i refl)
            λ c shut. ok-Returns HeldBy _ (saved-Held env _ _ c r.0 shut h)))
