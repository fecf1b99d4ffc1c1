-- ===== src/Placement/Held.antt =====
-- An entry of the review queue that stays in the table, and what stays true of it, under what every
-- operation on the file does to the table: an entry is only ever rewritten to be closed.
pub mod Services
pub mod Queue
pub mod Forever
use risk_management.Common.{
  ℕ, zero, suc, ◌≡◌, refl, sym, ◌∙◌, subst, inl, inr, Bool, true, false, Option, none, some, List,
  [], ◌∷◌, ◌++◌, arith, ◌==◌, ==_iff, ==_refl, find, Bool-cases, some_inj,
}
use risk_management.Calendar.{Date}
use risk_management.Org.{
  Role, active_roles, ScreeningBlock, not_blocked, is_crc_not_clear, set_screening_block,
}
use risk_management.Audit.{AuditAction}
use risk_management.Requirements.Definition.{RequirementDefinition}
use risk_management.Requirements.Reconcile.{Change}
use risk_management.Requirements.Sync.{
  Counts, apply_change, round_change, sync_loop, sync_volunteer_requirements, active_definitions,
}
use risk_management.Requirements.Progress.{refresh_dependents, has_dependents}
use risk_management.Requirements.Crc.{block_volunteer, lift_not_clear}
use risk_management.Requirements.Commit.{resyncs, commit, safe_sync}
use risk_management.Review.{ReviewItem, ReviewKind, Snapshot, Entity, is_open}
use risk_management.Review.Recording.{
  put_review, open_on, opened, supersede_item, supersede_open, audit_superseded, enqueue,
  open_if_unverified,
}
use risk_management.Review.Decide.{review_at}
use risk_management.Tenant.{Tenant, Env, ◌>>=◌, audit}
use risk_management.Tenant.Outcome.{Returns, ok-Returns, raised-Returns, Returns-if, Returns-bind}

-- The key of an entry, and what is asked of it, which holds of every entry that is not open.
pub record Watched : Type 1 where
  pub pk : ℕ
  pub holds : ReviewItem → Type 0
  pub of_closed : (c : ReviewItem) → is_open c.status ≡ false → holds c

abbrev pub HeldIn : Watched → List ReviewItem → Type 0
HeldIn e l = (i : ReviewItem) × (find (λ (x : ReviewItem). x.pk == e.pk) l ≡ some i) × e.holds i

pub record Held (e : Watched) (t : Tenant) : Type 0 where
  pub row : HeldIn e t.reviews

pub put_review-HeldIn :
    (e : Watched) (c : ReviewItem) (l : List ReviewItem)
    → is_open c.status ≡ false
    → HeldIn e l
    → HeldIn e (put_review c l)
unfolding put_review
put_review-HeldIn e c [] shut (i, h, s) = cc
put_review-HeldIn e c (x ∷ l) shut (i, h, s) = elim (Bool-cases (x.pk == c.pk)) [
  | inl p ↦ elim (Bool-cases (c.pk == e.pk)) [
    | inl q ↦ (c, rw (p, q) refl, e.of_closed c shut)
    | inr q ↦
        let other : (x.pk == e.pk) ≡ false = rw ((==_iff x.pk c.pk).0 p) q in
        let (j, found, closed) = put_review-HeldIn e c l shut (i, rw other at h, s) in
        (j, rw (p, q) found, closed)
  ]
  | inr p ↦ elim (Bool-cases (x.pk == e.pk)) [
    | inl q ↦
        let same : x ≡ i = some_inj (rw q at h) in (x, rw (p, q) refl, subst e.holds (sym same) s)
    | inr q ↦
        let (j, found, closed) = put_review-HeldIn e c l shut (i, rw q at h, s) in
        (j, rw (p, q) found, closed)
  ]
]

append-HeldIn : (e : Watched) (l m : List ReviewItem) → HeldIn e l → HeldIn e (l ++ m)
append-HeldIn e [] m (i, h, s) = cc
append-HeldIn e (x ∷ l) m (i, h, s) = elim (Bool-cases (x.pk == e.pk)) [
  | inl q ↦ (i, rw q (rw q at h), s)
  | inr q ↦
      (let (j, found, closed) = append-HeldIn e l m (i, rw q at h, s) in (j, rw q found, closed))
]

supersede_open-HeldIn :
    (e : Watched) (env : Env) (pk : ℕ) (o : Option ReviewItem) (l : List ReviewItem)
    → HeldIn e l
    → HeldIn e (supersede_open env pk o l)
supersede_open-HeldIn e env pk none l h = h
supersede_open-HeldIn e env pk (some i) l h = put_review-HeldIn e (supersede_item env pk i) l refl h

-- The reviews are as they were.
abbrev Kept : Tenant → Tenant → Type 0
Kept t u = u.reviews ≡ t.reviews

audit-Kept :
    (env : Env) (action : AuditAction) (x : Entity) (t : Tenant) → Kept t (audit env action x t)
unfolding audit
audit-Kept env action x t = ground arith

apply_change-Kept :
    (env : Env) (quiet : Bool) (c : Change) (t : Tenant) → Kept t (apply_change env quiet c t)
unfolding apply_change audit
apply_change-Kept env quiet c t = ground arith

sync_loop-Kept :
    (env : Env) (as_of : Date) (quiet : Bool) (roles : List Role) (ds : List RequirementDefinition)
    (t : Tenant) (n : Counts)
    → Kept t (sync_loop env as_of quiet roles ds t n).0
unfolding sync_loop
sync_loop-Kept env as_of quiet roles [] t n = refl
sync_loop-Kept env as_of quiet roles (d ∷ ds) t n =
    sync_loop-Kept env as_of quiet roles ds _ _
    ∙ apply_change-Kept env quiet (round_change as_of roles d t) t

sync-Kept :
    (env : Env) (as_of : Date) (quiet : Bool) (t : Tenant)
    → Kept t (sync_volunteer_requirements env as_of quiet t).0
unfolding sync_volunteer_requirements
sync-Kept env as_of quiet t =
    sync_loop-Kept env as_of quiet (active_roles t.assignments) (active_definitions t) t _

refresh-Kept : (env : Env) (k : ℕ) (t : Tenant) → Kept t (refresh_dependents env k t)
unfolding refresh_dependents
refresh-Kept env k t = elim (Bool-cases (has_dependents t.definitions k)) [
  | inl e ↦ rw e (sync-Kept env env.today true t)
  | inr e ↦ rw e refl
]

resyncs-Kept : (env : Env) (n : ℕ) (t : Tenant) → Kept t (resyncs env n t)
unfolding resyncs
resyncs-Kept env zero t = refl
resyncs-Kept env (suc n) t = resyncs-Kept env n (safe_sync env t) ∙ sync-Kept env env.today true t

commit-Kept : (env : Env) (t : Tenant) → Kept t (commit env t)
unfolding commit
commit-Kept env t = resyncs-Kept env t.pending_syncs (record t { pending_syncs = 0 })

module _ (e : Watched) where
  Kept-Held : (t u : Tenant) → Kept t u → Held e t → Held e u
  Kept-Held t u same h = record { row = subst (HeldIn e) (sym same) h.row }

  pub audit-Held :
      (env : Env) (action : AuditAction) (x : Entity) (t : Tenant)
      → Held e t
      → Held e (audit env action x t)
  audit-Held env action x t h = Kept-Held _ _ (audit-Kept env action x t) h

  pub sync-Held :
      (env : Env) (as_of : Date) (quiet : Bool) (t : Tenant)
      → Held e t
      → Held e (sync_volunteer_requirements env as_of quiet t).0
  sync-Held env as_of quiet t h = Kept-Held _ _ (sync-Kept env as_of quiet t) h

  pub refresh-Held :
      (env : Env) (k : ℕ) (t : Tenant) → Held e t → Held e (refresh_dependents env k t)
  refresh-Held env k t h = Kept-Held _ _ (refresh-Kept env k t) h

  pub commit-Held : (env : Env) (t : Tenant) → Held e t → Held e (commit env t)
  commit-Held env t h = Kept-Held _ _ (commit-Kept env t) h

  superseded-Held :
      (env : Env) (x : Entity) (o : Option ReviewItem) (t : Tenant)
      → Held e t
      → Held e (audit_superseded env x o t)
  superseded-Held env x none t h = h
  superseded-Held env x (some i) t h = audit-Held env _ _ _ h

  enqueue-Held :
      (env : Env) (kind : ReviewKind) (x : Entity) (affected : Option Entity) (before : Snapshot)
      (t : Tenant)
      → Held e t
      → Held e (enqueue env kind x affected before t)
  unfolding enqueue
  enqueue-Held env kind x affected before t h =
      let closed =
        append-HeldIn e (supersede_open env t.next_pk (open_on x t.reviews) t.reviews)
          (opened env t.next_pk kind x affected before ∷ [])
          (supersede_open-HeldIn e env t.next_pk (open_on x t.reviews) t.reviews h.row) in
      audit-Held env _ _ _ (superseded-Held env x (open_on x t.reviews) _ (record { row = closed }))

  pub open_if_unverified-Held :
      (env : Env) (kind : ReviewKind) (x : Entity) (affected : Option Entity) (before : Snapshot)
      (t : Tenant)
      → Held e t
      → Returns (Held e) (open_if_unverified env kind x affected before t)
  unfolding open_if_unverified
  open_if_unverified-Held env kind x affected before t h =
      Returns-if (Held e) _ _ _ (ok-Returns (Held e) t h) (
        Returns-if (Held e) env.directory.on_public_schema _ _ (raised-Returns (Held e) _)
          (ok-Returns (Held e) _ (enqueue-Held env kind x affected before t h)))

  pub block_volunteer-Held :
      (env : Env) (block : ScreeningBlock) (t : Tenant)
      → Held e t
      → Returns (Held e) (block_volunteer env block t)
  unfolding block_volunteer
  block_volunteer-Held env block t h =
      Returns-bind (Held e) _ _ λ v. ok-Returns (Held e) _ (record { row = h.row })

  pub lift_not_clear-Held :
      (env : Env) (t : Tenant) → Held e t → Returns (Held e) (lift_not_clear env t)
  unfolding lift_not_clear
  lift_not_clear-Held env t h =
      Returns-if (Held e) _ _ _ (block_volunteer-Held env not_blocked t h) (ok-Returns (Held e) t h)
