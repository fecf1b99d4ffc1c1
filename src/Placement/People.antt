-- ===== src/Placement/People.antt =====
-- What writes only requirement rows, review items and the trail leaves the volunteer, the
-- assignments, the documents and the convictions alone.
use risk_management.Common.{
  ℕ, zero, suc, ◌≡◌, refl, ◌∙◌, inl, inr, Bool, true, Option, List, [], ◌∷◌, arith, Bool-cases,
}
use risk_management.Calendar.{Date}
use risk_management.Org.{Role, active_roles}
use risk_management.Audit.{AuditAction}
use risk_management.Requirements.Definition.{RequirementDefinition}
use risk_management.Requirements.Reconcile.{Change}
use risk_management.Requirements.Sync.{
  Counts, apply_change, round_change, sync_loop, sync_volunteer_requirements, active_definitions,
}
use risk_management.Requirements.Progress.{refresh_dependents, has_dependents}
use risk_management.Requirements.Commit.{resyncs, commit, safe_sync}
use risk_management.Review.{ReviewKind, Snapshot, Entity}
use risk_management.Review.Recording.{enqueue}
use risk_management.Tenant.{Tenant, Env, audit}

pub record SameFile (t u : Tenant) : Type 0 where
  pub volunteer : u.volunteer ≡ t.volunteer
  pub assignments : u.assignments ≡ t.assignments
  pub documents : u.documents ≡ t.documents
  pub convictions : u.convictions ≡ t.convictions

pub SameFile-trans : (t u v : Tenant) → SameFile t u → SameFile u v → SameFile t v
SameFile-trans t u v p q = record {
  volunteer = q.volunteer ∙ p.volunteer;
  assignments = q.assignments ∙ p.assignments;
  documents = q.documents ∙ p.documents;
  convictions = q.convictions ∙ p.convictions;
}

pub audit-SameFile :
    (env : Env) (action : AuditAction) (e : Entity) (t : Tenant) → SameFile t (audit env action e t)
unfolding audit
audit-SameFile env action e t = ground arith

apply_change-SameFile :
    (env : Env) (quiet : Bool) (c : Change) (t : Tenant) → SameFile t (apply_change env quiet c t)
unfolding apply_change audit
apply_change-SameFile env quiet c t = ground arith

sync_loop-SameFile :
    (env : Env) (as_of : Date) (quiet : Bool) (roles : List Role) (ds : List RequirementDefinition)
    (t : Tenant) (n : Counts)
    → SameFile t (sync_loop env as_of quiet roles ds t n).0
unfolding sync_loop
sync_loop-SameFile env as_of quiet roles [] t n = record {
  volunteer = refl;
  assignments = refl;
  documents = refl;
  convictions = refl;
}
sync_loop-SameFile env as_of quiet roles (d ∷ ds) t n =
    SameFile-trans _ _ _ (apply_change-SameFile env quiet (round_change as_of roles d t) t)
      (sync_loop-SameFile env as_of quiet roles ds _ _)

pub sync-SameFile :
    (env : Env) (as_of : Date) (quiet : Bool) (t : Tenant)
    → SameFile t (sync_volunteer_requirements env as_of quiet t).0
unfolding sync_volunteer_requirements
sync-SameFile env as_of quiet t =
    sync_loop-SameFile env as_of quiet (active_roles t.assignments) (active_definitions t) t _

pub refresh_dependents-SameFile :
    (env : Env) (k : ℕ) (t : Tenant) → SameFile t (refresh_dependents env k t)
unfolding refresh_dependents
refresh_dependents-SameFile env k t = elim (Bool-cases (has_dependents t.definitions k)) [
  | inl e ↦ rw e (sync-SameFile env env.today true t)
  | inr e ↦
      rw e (record { volunteer = refl; assignments = refl; documents = refl; convictions = refl })
]

pub enqueue-SameFile :
    (env : Env) (kind : ReviewKind) (e : Entity) (affected : Option Entity) (before : Snapshot)
    (t : Tenant)
    → SameFile t (enqueue env kind e affected before t)
unfolding enqueue audit
enqueue-SameFile env kind e affected before t = ground arith

resyncs-SameFile : (env : Env) (n : ℕ) (t : Tenant) → SameFile t (resyncs env n t)
unfolding resyncs
resyncs-SameFile env zero t = record {
  volunteer = refl;
  assignments = refl;
  documents = refl;
  convictions = refl;
}
resyncs-SameFile env (suc n) t =
    SameFile-trans _ _ _ (sync-SameFile env env.today true t)
      (resyncs-SameFile env n (safe_sync env t))

pub commit-SameFile : (env : Env) (t : Tenant) → SameFile t (commit env t)
unfolding commit
commit-SameFile env t =
    let same = resyncs-SameFile env t.pending_syncs (record t { pending_syncs = 0 }) in
    record {
      volunteer = same.volunteer;
      assignments = same.assignments;
      documents = same.documents;
      convictions = same.convictions;
    }
