-- ===== src/Gates/Passed.antt =====
-- What has been settled by the time a view runs.
use risk_management.Common.{◌≡◌, true, not, ◌||◌, some, String, arith}
use risk_management.Gates.{
  SignedIn, Bound, View, view_runs, exempt_from_passkey, exempt_from_key_backup, force_passkey,
  force_key_backup, process_view, respond,
}

-- In a church, a view that runs for somebody signed in says what it needs, or that it is public; it
-- runs for an account with a passkey, or on a page that the passkey gate leaves open; and the church's
-- key is backed up, or the page is one that the backup gate leaves open.
pub respond-view_runs :
    (church : Bound) (view_at : String → View) (path : String) (u : SignedIn)
    → respond (some church) view_at (record { path = path; user = some u }) ≡ view_runs
    → (((view_at path).vms_public || (view_at path).has_vms_capabilities) ≡ true)
      × ((u.has_passkey || exempt_from_passkey path) ≡ true)
      × ((not church.key_backup_pending || exempt_from_key_backup path) ≡ true)
unfolding respond force_passkey force_key_backup process_view
respond-view_runs church view_at path u h = ground (arith, h)
