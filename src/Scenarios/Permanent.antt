-- ===== src/Scenarios/Permanent.antt =====
-- A disqualifying conviction, and what is tried after it.
use risk_management.Common.{refl, true, none, some, [], ◌∷◌}
use risk_management.Calendar.{date}
use risk_management.Requirements.Instance.{not_started}
use risk_management.Requirements.Records.{CrcRecord, not_clear, pending}
use risk_management.Requirements.Decisions.{ConvictionEntry, record_convictions}
use risk_management.Requirements.Progress.{start_requirement}
use risk_management.Requirements.Sync.{sync_volunteer_requirements}
use risk_management.Requirements.Reconcile.{change_for}
use risk_management.Requirements.Definition.{applies_to_volunteer}
use risk_management.Org.{end_all}
use risk_management.Access.{scope_department_ids, grant_for}
use risk_management.Access.Self.{refuse_self_recording}
use risk_management.Review.Recording.{open_if_unverified}
use risk_management.Placement.{writable_volunteer}
use risk_management.Tenant.{Tenant, Result, ok, raised, ◌>>=◌, ◌>>◌}
use risk_management.Placement.Operation.{convicting, starting, reconciling, perform, start, next}
use risk_management.Placement.Permanent.{Barred}
use risk_management.Placement.Forever.{convictions-History-Barred}
use risk_management.Scenarios.{request, anna_file, user, record_check, row}

abbrev pub failed_check : CrcRecord
failed_check = record {
  pk = 90;
  result = not_clear;
  report_date = date 2026 7 1;
  includes_vulnerable_sector = true;
  is_fingerprint_verified = true;
  not_clear_outcome = some pending;
  superseded_by = none;
}

abbrev pub checked_file : Tenant
checked_file = record anna_file {
  definitions = record_check ∷ [];
  instances = row 101 11 not_started none ∷ [];
  crc_records = failed_check ∷ [];
}

abbrev offence : ConvictionEntry
offence = record { category = "Offence against a child"; is_automatic_disqualifier = true }

abbrev state_of : Result Tenant → Tenant
state_of (ok t) = t
state_of (raised e) = anna_file

abbrev convicted_file : Tenant
convicted_file = state_of (perform request (convicting 90 (offence ∷ [])) checked_file)

abbrev started_file : Tenant
started_file = state_of (perform request (starting 101) convicted_file)

abbrev reconciled_file : Tenant
reconciled_file = state_of (perform request (reconciling (user 1)) started_file)

convictions-History-Barred_example : Barred convicted_file × Barred reconciled_file
unfolding perform ◌>>=◌ ◌>>◌ record_convictions start_requirement writable_volunteer
    sync_volunteer_requirements refuse_self_recording open_if_unverified change_for
    applies_to_volunteer end_all scope_department_ids grant_for
convictions-History-Barred_example =
    convictions-History-Barred request 90 (offence ∷ []) checked_file convicted_file reconciled_file
      refl refl
      (next {t = convicted_file} {u = started_file} request (starting 101) refl
        (next {t = started_file} {u = reconciled_file} request (reconciling (user 1)) refl start))
