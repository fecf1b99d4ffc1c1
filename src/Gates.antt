-- ===== src/Gates.antt =====
-- The three gates that a request to a page passes: apps/accounts/middleware.py,
-- apps/tenants/middleware.py and `AccessGateMiddleware` of apps/core/middleware.py, in the order of
-- MIDDLEWARE in config/settings/base.py.
pub mod Passed
pub mod Loop
use risk_management.Common.{
  ℕ, zero, suc, Bool, true, false, not, ◌&&◌, ◌||◌, Option, none, some, List, [], ◌∷◌, String, any,
  starts_with, if◌then◌else◌,
}

pub record SignedIn : Type 0 where
  pub has_passkey : Bool

-- The user is there when the request is authenticated.
pub record Request : Type 0 where
  pub path : String
  pub user : Option SignedIn

-- What the connection is bound to: the public schema, or a church.
pub record Bound : Type 0 where
  pub key_backup_pending : Bool

-- What the decorators of apps/core/access.py leave on a view.
pub record View : Type 0 where
  pub vms_public : Bool
  pub has_vms_capabilities : Bool

pub data Response : Type 0 where
  redirect : String → Response
  forbidden : Response
  -- The view runs.
  view_runs : Response

abbrev pub passkey_required : String
passkey_required = "/accounts/passkey-required/"

abbrev pub key_backup : String
key_backup = "/key-backup/"

abbrev pub under : List String → String → Bool
under prefixes path = any (λ prefix. starts_with prefix path) prefixes

-- `ForcePasskeyMiddleware._is_exempt`
unfoldable pub exempt_from_passkey : String → Bool
exempt_from_passkey path =
    under
      ("/static/" ∷ "/healthz/" ∷ "/accounts/logout/" ∷ "/accounts/login/"
        ∷ "/accounts/passkey-required/" ∷ "/accounts/webauthn/" ∷ "/accounts/link/" ∷ [])
      path

-- `ForceKeyBackupMiddleware._is_exempt`
unfoldable pub exempt_from_key_backup : String → Bool
exempt_from_key_backup path =
    under
      ("/static/" ∷ "/healthz/" ∷ "/accounts/logout/" ∷ "/accounts/login/" ∷ "/accounts/webauthn/"
        ∷ [])
      path
    || starts_with "/key-backup/" path

abbrev pub passkey_gate : Option SignedIn → String → Response → Response
passkey_gate none path next = next
passkey_gate (some u) path next =
    if exempt_from_passkey path
    then next
    else if u.has_passkey
    then next
    else redirect passkey_required

-- `ForcePasskeyMiddleware.__call__`
unfoldable pub force_passkey : (Request → Response) → Request → Response
force_passkey get_response r = passkey_gate r.user r.path (get_response r)

abbrev pub key_backup_gate : Option Bound → Option SignedIn → String → Response → Response
key_backup_gate none user path next = next
key_backup_gate (some church) user path next =
    if not church.key_backup_pending then next else elim user [
      | none ↦ next
      | some u ↦ (if exempt_from_key_backup path then next else redirect key_backup)
    ]

-- `ForceKeyBackupMiddleware.__call__`
unfoldable pub force_key_backup : Option Bound → (Request → Response) → Request → Response
force_key_backup bound get_response r = key_backup_gate bound r.user r.path (get_response r)

-- `AccessGateMiddleware.process_view`, and the view where it is let through.
unfoldable pub process_view : Option Bound → View → Response
process_view none v = view_runs
process_view (some church) v =
    if v.vms_public then view_runs else if v.has_vms_capabilities then view_runs else forbidden

-- The gates in their order; `view_at` is the URLconf.
unfoldable pub respond : Option Bound → (String → View) → Request → Response
respond bound view_at =
    force_passkey (force_key_backup bound (λ r. process_view bound (view_at r.path)))

abbrev pub went : Response → (String → Response) → Response
went (redirect location) go = go location
went forbidden go = forbidden
went view_runs go = view_runs

-- A browser that follows at most so many redirects.
unfoldable pub follow : ℕ → Option Bound → (String → View) → Request → Response
follow zero bound view_at r = respond bound view_at r
follow (suc n) bound view_at r =
    went (respond bound view_at r)
      (λ location. follow n bound view_at (record r { path = location }))
