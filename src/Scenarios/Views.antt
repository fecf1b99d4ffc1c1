-- ===== src/Scenarios/Views.antt =====
-- An administrator of one department, at the pages that change a volunteer's file.
use risk_management.Common.{◌≡◌, refl, inl, true, Elem}
use risk_management.Access.{
  record_screening, record_crc, scope_department_ids, grant_for, has_capability, grants,
}
use risk_management.Access.Self.{may_record_against, actor_from_request}
use risk_management.Requirements.Progress.{start_requirement}
use risk_management.Requirements.Decisions.{conviction_row}
use risk_management.Requirements.Forms.{ConvictionFields}
use risk_management.Tenant.{Tenant, Result, ok, raised, ◌>>=◌, ◌>>◌}
use risk_management.Placement.Operation.{Operation, perform}
use risk_management.Placement.Permanent.{Barred}
use risk_management.Views.{Page, post, shown, saved, writable_instance_or_404}
use risk_management.Views.Screening.{instance_start}
use risk_management.Views.Checks.{crc_conviction_add}
use risk_management.Views.Serve.{start_instance, serve}
use risk_management.Views.Entitled.{Granted, serve-Granted}
use risk_management.Views.Refined.{Proper, serve-refines}
use risk_management.Views.Bars.{entry_of, crc_conviction_add-Barred}
use risk_management.Scenarios.{request, user, serving, anna_file}
use risk_management.Scenarios.Permanent.{failed_check, checked_file}

abbrev file_of : Result Page → Tenant
file_of (ok (saved t)) = t
file_of (ok shown) = anna_file
file_of (raised e) = anna_file

abbrev started_file : Tenant
started_file = file_of (serve request (user 2) post (start_instance 102) anna_file)

serve-Granted_example : Granted request (user 2) record_screening anna_file
unfolding serve ◌>>=◌ ◌>>◌ instance_start has_capability grant_for grants writable_instance_or_404
    scope_department_ids start_requirement
serve-Granted_example =
    serve-Granted request (user 2) anna_file post (start_instance 102) started_file refl

serve-refines_example :
    (op : Operation) × (perform request op anna_file ≡ ok started_file)
    × Proper request (user 2) anna_file op
unfolding serve ◌>>=◌ ◌>>◌ instance_start has_capability grant_for grants writable_instance_or_404
    scope_department_ids start_requirement
serve-refines_example =
    serve-refines request (user 2) anna_file post (start_instance 102) started_file refl

abbrev posted_conviction : ConvictionFields
posted_conviction = record { category = "Child abuse"; acknowledge_permanent = true }

youth_may_record : Granted request (user 2) record_crc checked_file
unfolding has_capability grant_for grants scope_department_ids may_record_against
youth_may_record = record {
  holds = refl;
  may_write = record { in_scope = (serving, inl refl, inl refl); may_record = refl };
}

crc_conviction_add-Barred_example :
    (w : Tenant) × (crc_conviction_add request (user 2) 90 post posted_conviction checked_file
      ≡ ok (saved w))
    × Elem (conviction_row checked_file.next_pk 90 (entry_of posted_conviction)) w.convictions
    × Barred w
unfolding grant_for actor_from_request
crc_conviction_add-Barred_example =
    crc_conviction_add-Barred request (user 2) checked_file refl refl 90 failed_check
      posted_conviction youth_may_record refl refl refl refl
