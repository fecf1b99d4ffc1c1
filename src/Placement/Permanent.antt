-- ===== src/Placement/Permanent.antt =====
-- A permanent disqualification, under every operation on the file.
use risk_management.Common.{
  ℕ, ◌≡◌, refl, ◌∙◌, ap, inl, inr, Bool, false, Option, List, [], ◌∷◌, arith, Bool-cases,
  Option-cases,
}
use risk_management.Calendar.{Date}
use risk_management.Org.{
  Assignment, ScreeningBlock, not_blocked, is_crc_not_clear, disqualified, set_screening_block,
  end_all, active_roles,
}
use risk_management.Org.Block.{set_screening_block-disqualified, active_roles-end_all}
use risk_management.Audit.{AuditAction}
use risk_management.Requirements.Sync.{sync_volunteer_requirements}
use risk_management.Requirements.Progress.{refresh_dependents}
use risk_management.Requirements.Crc.{block_volunteer, lift_not_clear}
use risk_management.Requirements.Commit.{commit}
use risk_management.Review.{ReviewKind, Snapshot, Entity}
use risk_management.Review.Recording.{open_if_unverified}
use risk_management.Tenant.{Tenant, Env, ◌>>=◌, audit}
use risk_management.Tenant.Outcome.{Returns, ok-Returns, raised-Returns, Returns-if}
use risk_management.Placement.{put_assignment, stop_serving}
use risk_management.Placement.People.{
  SameFile, audit-SameFile, sync-SameFile, refresh_dependents-SameFile, enqueue-SameFile,
  commit-SameFile,
}

-- Permanently disqualified, and serving nowhere.
pub record Barred (t : Tenant) : Type 0 where
  pub block : t.volunteer.screening_block ≡ disqualified
  pub idle : active_roles t.assignments ≡ []

pub SameFile-Barred : (t u : Tenant) → SameFile t u → Barred t → Barred u
SameFile-Barred t u same b = record {
  block = ap (λ v. v.screening_block) same.volunteer ∙ b.block;
  idle = ap active_roles same.assignments ∙ b.idle;
}

pub audit-Barred :
    (env : Env) (action : AuditAction) (e : Entity) (t : Tenant)
    → Barred t
    → Barred (audit env action e t)
audit-Barred env action e t b = SameFile-Barred _ _ (audit-SameFile env action e t) b

pub sync-Barred :
    (env : Env) (as_of : Date) (quiet : Bool) (t : Tenant)
    → Barred t
    → Barred (sync_volunteer_requirements env as_of quiet t).0
sync-Barred env as_of quiet t b = SameFile-Barred _ _ (sync-SameFile env as_of quiet t) b

pub refresh-Barred :
    (env : Env) (k : ℕ) (t : Tenant) → Barred t → Barred (refresh_dependents env k t)
refresh-Barred env k t b = SameFile-Barred _ _ (refresh_dependents-SameFile env k t) b

pub commit-Barred : (env : Env) (t : Tenant) → Barred t → Barred (commit env t)
commit-Barred env t b = SameFile-Barred _ _ (commit-SameFile env t) b

pub open_if_unverified-Barred :
    (env : Env) (kind : ReviewKind) (e : Entity) (affected : Option Entity) (before : Snapshot)
    (t : Tenant)
    → Barred t
    → Returns Barred (open_if_unverified env kind e affected before t)
unfolding open_if_unverified
open_if_unverified-Barred env kind e affected before t b =
    Returns-if Barred _ _ _ (ok-Returns Barred t b) (
      Returns-if Barred env.directory.on_public_schema _ _ (raised-Returns Barred _) (
        ok-Returns Barred _
          (SameFile-Barred _ _ (enqueue-SameFile env kind e affected before t) b)))

pub block_volunteer-Barred :
    (env : Env) (block : ScreeningBlock) (t : Tenant)
    → Barred t
    → Returns Barred (block_volunteer env block t)
unfolding block_volunteer ◌>>=◌
block_volunteer-Barred env block t b =
    elim (Option-cases (set_screening_block env.now block t.volunteer)) [
      | inl e ↦ rw e (raised-Returns Barred _)
      | inr h ↦
          let (v, e) = h in
          rw e (
            ok-Returns Barred _ (record {
              block = set_screening_block-disqualified env.now block t.volunteer v b.block e;
              idle = b.idle;
            }))
    ]

pub lift_not_clear-Barred :
    (env : Env) (t : Tenant) → Barred t → Returns Barred (lift_not_clear env t)
unfolding lift_not_clear
lift_not_clear-Barred env t b = elim (Bool-cases (is_crc_not_clear t.volunteer.screening_block)) [
  | inl e ↦ rw e (block_volunteer-Barred env not_blocked t b)
  | inr e ↦ rw e (ok-Returns Barred t b)
]

-- Ending every assignment of somebody with that block.
pub end_all-idle : (on : Date) (t : Tenant) → active_roles (end_all on t.assignments) ≡ []
end_all-idle on t = active_roles-end_all on t.assignments

pub put_assignment-idle :
    (a : Assignment) (l : List Assignment)
    → a.is_active ≡ false
    → active_roles l ≡ []
    → active_roles (put_assignment a l) ≡ []
unfolding put_assignment
put_assignment-idle a [] ended e = refl
put_assignment-idle a (x ∷ xs) ended e = elim (Bool-cases x.is_active) [
  | inl on ↦ ground (arith, on, e)
  | inr off ↦
      let rest : active_roles xs ≡ [] = rw off at e in
      ground (arith, off, ended, put_assignment-idle a xs ended rest)
]

pub stop_serving-Barred : (env : Env) (t : Tenant) → Barred t → Barred (stop_serving env t)
unfolding stop_serving audit
stop_serving-Barred env t b = ground (arith, b.block, b.idle)
