-- ===== src/Requirements/Standing.antt =====
-- A row's status against its dates: `recompute` and `bucket` of apps/requirements/models.py.
use risk_management.Common.{◌≡◌, ◌≢◌, arith}
use risk_management.Calendar.{Date}
use risk_management.Requirements.Instance.{RequirementInstance, overdue, bucket, recompute}

-- Recomputing a row that is not stored as overdue leaves the bucket that it counts in.
pub bucket-recompute :
    (as_of : Date) (i : RequirementInstance)
    → i.status ≢ overdue
    → bucket as_of (recompute as_of i) ≡ bucket as_of i
unfolding bucket recompute
bucket-recompute as_of i ne = ground (arith, ne)
