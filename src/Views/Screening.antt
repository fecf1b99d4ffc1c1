-- ===== src/Views/Screening.antt =====
-- The views of apps/requirements/views.py on one requirement of a volunteer.
use risk_management.Common.{ℕ, true, not, none}
use risk_management.Access.{User, record_screening}
use risk_management.Requirements.Definition.{is_crc}
use risk_management.Requirements.Instance.{can_mark_complete, is_waived}
use risk_management.Requirements.Progress.{
  mark_requirement_complete, start_requirement, waive_requirement, reverse_waiver,
}
use risk_management.Requirements.Forms.{
  CompleteFields, complete_form, ReasonFields, waive_form, reversal_form,
}
use risk_management.Tenant.{
  Tenant, Env, Result, ◌>>=◌, ◌>>◌, refuse_if, or_raise, form_invalid, completion_refused,
  crc_not_waivable, not_waived,
}
use risk_management.Views.{
  Method, Page, entered, get_or_post, post_only, committed, when_posted, writable_instance_or_404,
}

unfoldable pub instance_complete : Env → User → ℕ → Method → CompleteFields → Tenant → Result Page
unfolding entered get_or_post post_only
instance_complete env u k method fields t = do
  entered env u record_screening
  get_or_post method
  (i, d) ← writable_instance_or_404 env u k t
  refuse_if (not (can_mark_complete d i)) completion_refused
  when_posted method (do
    (completed_on, notes) ← or_raise form_invalid (complete_form env.today fields)
    committed env (mark_requirement_complete env k completed_on notes true t))

unfoldable pub instance_start : Env → User → ℕ → Method → Tenant → Result Page
unfolding entered post_only
instance_start env u k method t = do
  entered env u record_screening
  post_only method
  p ← writable_instance_or_404 env u k t
  committed env (start_requirement env k t)

unfoldable pub instance_waive : Env → User → ℕ → Method → ReasonFields → Tenant → Result Page
unfolding entered get_or_post
instance_waive env u k method fields t = do
  entered env u record_screening
  get_or_post method
  (i, d) ← writable_instance_or_404 env u k t
  refuse_if (is_crc d) crc_not_waivable
  when_posted method (do
    (reason, waived_by) ← or_raise form_invalid (waive_form fields)
    committed env (waive_requirement env k reason waived_by t))

unfoldable pub instance_reverse_waiver :
    Env → User → ℕ → Method → ReasonFields → Tenant → Result Page
unfolding entered get_or_post
instance_reverse_waiver env u k method fields t = do
  entered env u record_screening
  get_or_post method
  (i, d) ← writable_instance_or_404 env u k t
  refuse_if (not (is_waived i.status)) not_waived
  when_posted method (do
    (reason, reversed_by) ← or_raise form_invalid (reversal_form fields)
    committed env (reverse_waiver env k reason none t))
