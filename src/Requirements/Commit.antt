-- ===== src/Requirements/Commit.antt =====
-- The receivers of apps/requirements/signals.py: a save of a volunteer or of an assignment asks for
-- a quiet reconciliation when the transaction commits, once for each save. The reconciliation that
-- a receiver runs is one that returns here; it logs any error and goes on.
use risk_management.Common.{ℕ, zero, suc, true}
use risk_management.Requirements.Sync.{sync_volunteer_requirements}
use risk_management.Tenant.{Tenant, Env}

-- `_safe_sync`
abbrev pub safe_sync : Env → Tenant → Tenant
safe_sync env t = (sync_volunteer_requirements env env.today true t).0

unfoldable pub resyncs : Env → ℕ → Tenant → Tenant
resyncs env zero t = t
resyncs env (suc n) t = resyncs env n (safe_sync env t)

-- What the end of a transaction runs.
unfoldable pub commit : Env → Tenant → Tenant
unfolding resyncs
commit env t = resyncs env t.pending_syncs (record t { pending_syncs = 0 })
