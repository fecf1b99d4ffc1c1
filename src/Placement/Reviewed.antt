-- ===== src/Placement/Reviewed.antt =====
-- Deciding an entry of the review queue leaves a permanently disqualified volunteer disqualified and
-- without an assignment.
use risk_management.Common.{
  ℕ, Bool, true, false, Option, none, some, String, if◌then◌else◌, is_some, not, List, inl, inr,
  Bool-cases,
}
use risk_management.Access.{User}
use risk_management.Requirements.Instance.{RequirementInstance, is_complete, is_waived}
use risk_management.Requirements.Records.{CrcRecord}
use risk_management.Review.{
  ReviewItem, ReviewKind, requirement_completion, document_kind, crc, waiver, override_kind,
  Snapshot,
}
use risk_management.Review.Decide.{affirm, restore_from_snapshot, instance_from, Outcome, Kept}
use risk_management.Review.SendBack.{
  completion_of, send_back_completion, retire_document, document_of, send_back_document,
  restore_instance, reinstate_previous, retract, crc_of, send_back_crc, waiver_of, send_back_waiver,
  send_back_override, handler, send_back, carries_decisions,
}
use risk_management.Documents.{Document}
use risk_management.Tenant.{Tenant, Env}
use risk_management.Tenant.Outcome.{
  Returns, Returns-bind, Returns-chain, Returns-then, Returns-if, ok-Returns,
}
use risk_management.Placement.Permanent.{
  Barred, audit-Barred, refresh-Barred, lift_not_clear-Barred,
}
use risk_management.Placement.Preserved.{reverse-Barred}

pub affirm-Barred :
    (env : Env) (u : User) (k : ℕ) (t : Tenant) → Barred t → Returns Barred (affirm env u k t)
unfolding affirm
affirm-Barred env u k t b = Returns-bind Barred _ _ λ i. Returns-then Barred _ _ (
    Returns-bind Barred _ _
      λ c. ok-Returns Barred _ (audit-Barred env _ _ _ (record { block = b.block; idle = b.idle })))

abbrev pub BarredBy : Tenant × Outcome → Type 0
BarredBy r = Barred r.0

restore-Barred :
    (env : Env) (before : Snapshot) (i : RequirementInstance) (t : Tenant)
    → Barred t
    → Barred (restore_from_snapshot env before i t)
unfolding restore_from_snapshot
restore-Barred env before i t b = refresh-Barred env _ _ (record { block = b.block; idle = b.idle })

BarredBy-if :
    (c : Bool) (r s : Tenant × Outcome) → BarredBy r → BarredBy s → BarredBy (if c then r else s)
BarredBy-if true r s h h' = h
BarredBy-if false r s h h' = h'

completion-Barred :
    (env : Env) (item : ReviewItem) (o : Option RequirementInstance) (t : Tenant)
    → Barred t
    → BarredBy (completion_of env item o t)
completion-Barred env item none t b = b
completion-Barred env item (some i) t b =
    BarredBy-if (not (is_complete i.status)) _ _ b (restore-Barred env item.before_state i t b)

document-Barred :
    (env : Env) (item : ReviewItem) (o : Option RequirementInstance) (t : Tenant)
    → Barred t
    → Barred (restore_instance env item o t)
document-Barred env item none t b = b
document-Barred env item (some i) t b = restore-Barred env item.before_state i t b

retire_document-Barred :
    (d : Option Document) (t : Tenant) → Barred t → Barred (retire_document d t).0
retire_document-Barred none t b = b
retire_document-Barred (some d) t b = elim (Bool-cases d.is_current) [
  | inl e ↦ rw e (record { block = b.block; idle = b.idle })
  | inr e ↦ rw e b
]

document_of-Barred :
    (env : Env) (item : ReviewItem) (o : Option RequirementInstance) (kept : List Kept) (t : Tenant)
    → Barred t
    → BarredBy (document_of env item o kept t)
document_of-Barred env item none kept t b = b
document_of-Barred env item (some i) kept t b = restore-Barred env item.before_state i t b

reinstate-Barred : (k : Option ℕ) (t : Tenant) → Barred t → Barred (reinstate_previous k t)
reinstate-Barred none t b = b
reinstate-Barred (some k) t b = record { block = b.block; idle = b.idle }

retract-Barred :
    (env : Env) (item : ReviewItem) (r : CrcRecord) (t : Tenant)
    → Barred t
    → Returns BarredBy (retract env item r t)
retract-Barred env item r t b =
    Returns-chain Barred BarredBy _ _
      (lift_not_clear-Barred env _ (
        reinstate-Barred item.before_state.superseded_by_id _
          (document-Barred env item (instance_from item t.instances) t b)))
      λ u h. ok-Returns BarredBy _ (audit-Barred env _ _ _ h)

crc_of-Barred :
    (env : Env) (item : ReviewItem) (o : Option CrcRecord) (t : Tenant)
    → Barred t
    → Returns BarredBy (crc_of env item o t)
crc_of-Barred env item none t b = ok-Returns BarredBy _ b
crc_of-Barred env item (some r) t b =
    Returns-if BarredBy (carries_decisions r t) _ _ (ok-Returns BarredBy _ b) (
      Returns-if BarredBy (is_some r.superseded_by) _ _ (ok-Returns BarredBy _ b)
        (retract-Barred env item r t b))

waiver_of-Barred :
    (env : Env) (item : ReviewItem) (reason : String) (o : Option RequirementInstance) (t : Tenant)
    → Barred t
    → Returns BarredBy (waiver_of env item reason o t)
waiver_of-Barred env item reason none t b = ok-Returns BarredBy _ b
waiver_of-Barred env item reason (some i) t b =
    Returns-if BarredBy (not (is_waived i.status)) _ _ (ok-Returns BarredBy _ b) (
      Returns-chain Barred BarredBy _ _ (reverse-Barred env t b i.pk reason _)
        λ u h. ok-Returns BarredBy _ h)

handler-Barred :
    (env : Env) (item : ReviewItem) (reason : String) (kind : ReviewKind) (t : Tenant)
    → Barred t
    → Returns BarredBy (handler env item reason kind t)
unfolding handler send_back_completion send_back_document send_back_crc send_back_waiver
    send_back_override
handler-Barred env item reason requirement_completion t b =
    ok-Returns BarredBy _ (completion-Barred env item (instance_from item t.instances) t b)
handler-Barred env item reason document_kind t b =
    ok-Returns BarredBy _ (document_of-Barred env item _ _ _ (retire_document-Barred _ t b))
handler-Barred env item reason crc t b =
    Returns-if BarredBy _ _ _ (ok-Returns BarredBy _ b) (crc_of-Barred env item _ t b)
handler-Barred env item reason waiver t b =
    waiver_of-Barred env item reason (instance_from item t.instances) t b
handler-Barred env item reason override_kind t b = ok-Returns BarredBy _ b

pub send_back-Barred :
    (env : Env) (u : User) (k : ℕ) (reason : String) (t : Tenant)
    → Barred t
    → Returns BarredBy (send_back env u k reason t)
unfolding send_back
send_back-Barred env u k reason t b = Returns-bind BarredBy _ _ λ i. Returns-then BarredBy _ _ (
    Returns-then BarredBy _ _ (
      Returns-chain BarredBy BarredBy _ _ (handler-Barred env i reason i.kind t b) λ r h.
        Returns-bind BarredBy _ _ λ c.
          ok-Returns BarredBy _
            (audit-Barred env _ _ _ (record { block = h.block; idle = h.idle }))))
