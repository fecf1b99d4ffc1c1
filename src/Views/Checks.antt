-- ===== src/Views/Checks.antt =====
-- The views of apps/requirements/views.py on criminal record checks.
use risk_management.Common.{ℕ, Option, [], ◌∷◌, is_empty}
use risk_management.Org.{is_disqualified}
use risk_management.Access.{User, record_crc}
use risk_management.Requirements.Records.{is_cleared, NotClearOutcome}
use risk_management.Requirements.Crc
use risk_management.Requirements.Decisions.{
  record_convictions, record_discretionary_override, resolve_not_clear,
}
use risk_management.Requirements.Forms.{
  CheckFields, crc_form, ConvictionFields, conviction_form, outcome_form, OverrideFields,
  override_form, discretionary_of,
}
use risk_management.Tenant.{
  Tenant, Env, Result, ◌>>=◌, ◌>>◌, refuse_if, or_raise, form_invalid, permanently_disqualified,
  not_a_not_clear_result, no_discretionary_flag,
}
use risk_management.Placement.{writable_volunteer}
use risk_management.Views.{
  Method, Page, entered, get_or_post, committed, when_posted, writable_crc_or_404,
}

unfoldable pub crc_record_create : Env → User → Method → CheckFields → Tenant → Result Page
unfolding entered get_or_post
crc_record_create env u method fields t = do
  entered env u record_crc
  get_or_post method
  writable_volunteer env u t
  refuse_if (is_disqualified t.volunteer.screening_block) permanently_disqualified
  when_posted method (do
    (result, report_date) ← or_raise form_invalid (crc_form env.today fields)
    committed env (
        Crc.record_crc env result report_date fields.includes_vulnerable_sector
          fields.is_fingerprint_verified t))

unfoldable pub crc_conviction_add :
    Env → User → ℕ → Method → ConvictionFields → Tenant → Result Page
unfolding entered get_or_post
crc_conviction_add env u k method fields t = do
  entered env u record_crc
  get_or_post method
  r ← writable_crc_or_404 env u k t
  refuse_if (is_cleared r.result) not_a_not_clear_result
  when_posted method (do
    e ← or_raise form_invalid (conviction_form fields)
    committed env (record_convictions env k (e ∷ []) t))

unfoldable pub crc_override : Env → User → ℕ → Method → OverrideFields → Tenant → Result Page
unfolding entered get_or_post
crc_override env u k method fields t = do
  entered env u record_crc
  get_or_post method
  r ← writable_crc_or_404 env u k t
  refuse_if (is_disqualified t.volunteer.screening_block) permanently_disqualified
  refuse_if (is_empty (discretionary_of k t.convictions)) no_discretionary_flag
  when_posted method (do
    (conviction, decision) ← or_raise form_invalid (override_form k t.convictions fields)
    committed env (record_discretionary_override env k conviction decision t))

unfoldable pub crc_resolve_not_clear :
    Env → User → ℕ → Method → Option NotClearOutcome → Tenant → Result Page
unfolding entered get_or_post
crc_resolve_not_clear env u k method field t = do
  entered env u record_crc
  get_or_post method
  r ← writable_crc_or_404 env u k t
  refuse_if (is_cleared r.result) not_a_not_clear_result
  when_posted method (do
    outcome ← or_raise form_invalid (outcome_form field)
    committed env (resolve_not_clear env k outcome t))
