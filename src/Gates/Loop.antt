-- ===== src/Gates/Loop.antt =====
-- Where the two forced steps send somebody who has taken neither.
use risk_management.Common.{ℕ, zero, suc, ◌≡◌, refl, ap, Bool, true, false, some, String}
use risk_management.Gates.{
  Request, Bound, View, Response, redirect, forbidden, view_runs, passkey_required, key_backup,
  exempt_from_passkey, exempt_from_key_backup, force_passkey, force_key_backup, respond, follow,
}

abbrev pub newcomer : String → Request
newcomer path = record { path = path; user = some (record { has_passkey = false }) }

abbrev pub new_church : Bound
new_church = record { key_backup_pending = true }

abbrev pub is_redirect : Response → Bool
is_redirect (redirect location) = true
is_redirect forbidden = false
is_redirect view_runs = false

sent_to_passkey :
    (view_at : String → View) (path : String)
    → exempt_from_passkey path ≡ false
    → respond (some new_church) view_at (newcomer path) ≡ redirect passkey_required
unfolding respond force_passkey
sent_to_passkey view_at path shut = rw shut refl

sent_to_key_backup :
    (view_at : String → View)
    → respond (some new_church) view_at (newcomer passkey_required) ≡ redirect key_backup
unfolding respond force_passkey force_key_backup exempt_from_passkey exempt_from_key_backup
sent_to_key_backup view_at = refl

shut_key_backup : exempt_from_passkey key_backup ≡ false
unfolding exempt_from_passkey
shut_key_backup = refl

pub follow_never_arrives :
    (n : ℕ) (view_at : String → View) (path : String)
    → exempt_from_passkey path ≡ false
    → (is_redirect (follow n (some new_church) view_at (newcomer path)) ≡ true)
      × (is_redirect (follow n (some new_church) view_at (newcomer passkey_required)) ≡ true)
unfolding follow
follow_never_arrives zero view_at path shut = (
  ap is_redirect (sent_to_passkey view_at path shut),
  ap is_redirect (sent_to_key_backup view_at),
)
follow_never_arrives (suc n) view_at path shut =
    let (_, from_passkey) = follow_never_arrives n view_at path shut in
    let (from_key_backup, _) = follow_never_arrives n view_at key_backup shut_key_backup in
    (
      rw (sent_to_passkey view_at path shut) from_passkey,
      rw (sent_to_key_backup view_at) from_key_backup,
    )
