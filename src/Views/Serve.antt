-- ===== src/Views/Serve.antt =====
-- The routes of apps/requirements/views.py and apps/org/views.py that record screening, checks and
-- assignments, or switch a volunteer off and on, as one type of requests and one function; those of
-- apps/org/views.py are of Placement, behind their decorators. The pages of the review queue, the
-- upload of a document, and the pages that edit a volunteer or link an account are not among them.
use risk_management.Common.{ℕ, Bool, not, Option, List}
use risk_management.Calendar.{Date}
use risk_management.Org.{Role}
use risk_management.Access.{
  User, Capability, record_screening, record_crc, edit_volunteers, manage_assignments,
}
use risk_management.Requirements.Records.{NotClearOutcome}
use risk_management.Requirements.Forms.{
  CompleteFields, ReasonFields, CheckFields, ConvictionFields, OverrideFields,
}
use risk_management.Tenant.{Tenant, Env, Result, ok, ◌>>◌, refuse_if, already_inactive}
use risk_management.Placement.{
  writable_volunteer, assignment_create, assignment_end, volunteer_reactivate,
}
use risk_management.Placement.Leaving.{volunteer_deactivate}
use risk_management.Placement.Operation.{volunteer_resync}
use risk_management.Views.{
  Method, get, post, other, Page, shown, entered, get_or_post, post_only, committed,
}
use risk_management.Views.Screening.{
  instance_complete, instance_start, instance_waive, instance_reverse_waiver,
}
use risk_management.Views.Checks.{
  crc_record_create, crc_conviction_add, crc_override, crc_resolve_not_clear,
}

-- A route with its fields.
pub data Request : Type 0 where
  complete_instance : ℕ → CompleteFields → Request
  start_instance : ℕ → Request
  waive_instance : ℕ → ReasonFields → Request
  reverse_waiver_of : ℕ → ReasonFields → Request
  create_crc_record : CheckFields → Request
  add_conviction : ℕ → ConvictionFields → Request
  decide_override : ℕ → OverrideFields → Request
  resolve_crc : ℕ → Option NotClearOutcome → Request
  create_assignment : List Role → ℕ → Option Date → Request
  end_assignment_of : ℕ → Option Date → Request
  deactivate_volunteer : Option Date → Bool → Request
  reactivate_volunteer : Request
  resync_volunteer : Request

-- The capability that each route's decorator names.
abbrev pub capability_for : Request → Capability
capability_for (complete_instance k f) = record_screening
capability_for (start_instance k) = record_screening
capability_for (waive_instance k f) = record_screening
capability_for (reverse_waiver_of k f) = record_screening
capability_for (create_crc_record f) = record_crc
capability_for (add_conviction k f) = record_crc
capability_for (decide_override k f) = record_crc
capability_for (resolve_crc k o) = record_crc
capability_for (create_assignment roles role on) = manage_assignments
capability_for (end_assignment_of k on) = manage_assignments
capability_for (deactivate_volunteer on ends) = edit_volunteers
capability_for reactivate_volunteer = edit_volunteers
capability_for resync_volunteer = edit_volunteers

-- `@requires(c)` and `@require_POST` before a view that only posts.
unfoldable pub posting : Env → User → Capability → Method → Result Tenant → Result Page
unfolding entered post_only committed
posting env u c method m = do entered env u c; post_only method; committed env m

-- The body of `volunteer_deactivate`: a GET shows its form after the lookup and the guard.
unfoldable pub leaving_page : Env → User → Method → Option Date → Bool → Tenant → Result Page
unfolding committed
leaving_page env u post on ends t = committed env (volunteer_deactivate env u on ends t)
leaving_page env u get on ends t = do
  writable_volunteer env u t
  refuse_if (not t.volunteer.is_active) already_inactive
  ok shown
leaving_page env u other on ends t = ok shown

unfoldable pub serve : Env → User → Method → Request → Tenant → Result Page
unfolding posting leaving_page
serve env u method (complete_instance k f) t = instance_complete env u k method f t
serve env u method (start_instance k) t = instance_start env u k method t
serve env u method (waive_instance k f) t = instance_waive env u k method f t
serve env u method (reverse_waiver_of k f) t = instance_reverse_waiver env u k method f t
serve env u method (create_crc_record f) t = crc_record_create env u method f t
serve env u method (add_conviction k f) t = crc_conviction_add env u k method f t
serve env u method (decide_override k f) t = crc_override env u k method f t
serve env u method (resolve_crc k o) t = crc_resolve_not_clear env u k method o t
serve env u method (create_assignment roles role on) t =
    posting env u manage_assignments method (assignment_create env u roles role on t)
serve env u method (end_assignment_of k on) t =
    posting env u manage_assignments method (assignment_end env u k on t)
serve env u method (deactivate_volunteer on ends) t =
    entered env u edit_volunteers >> (get_or_post method >> leaving_page env u method on ends t)
serve env u method reactivate_volunteer t =
    posting env u edit_volunteers method (volunteer_reactivate env u t)
serve env u method resync_volunteer t =
    posting env u edit_volunteers method (volunteer_resync env u t)
