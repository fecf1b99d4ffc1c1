-- ===== src/Scenarios/Reminders.antt =====
-- Applications of the theorems on reminders.
use risk_management.Common.{◌≡◌, none, some, false, [], ◌∷◌, is_some, ◌&&◌, ◌==◌}
use risk_management.Calendar.{date}
use risk_management.Requirements.Instance.{RequirementInstance, not_started}
use risk_management.Reminders.{Candidate, Church, Backlog, Logs, process_tenant_reminders}
use risk_management.Reminders.Once.{process_tenant_reminders_once}
use risk_management.Scenarios.{today, anna, application, row}

-- Due in a week.
abbrev due_soon : RequirementInstance
due_soon = record (row 101 10 not_started none) { due_on = some (date 2026 8 9) }

abbrev candidate : Candidate
candidate = record { instance = due_soon; definition = application; volunteer = anna }

abbrev muted : Church
muted = record { lead_days = 30 ∷ 7 ∷ []; notifications_enabled = false }

abbrev no_backlog : Backlog
no_backlog = record { pending = 0; stale = 0 }

abbrev no_logs : Logs
no_logs = record { reminders = []; emails = []; trail = []; next_pk = 1 }

process_tenant_reminders_once_example :
    let (after, first) =
      process_tenant_reminders muted
        ("a@example.org" ∷ [])
        no_backlog
        none
        today
        (candidate ∷ [])
        no_logs in
    let (later, second) =
      process_tenant_reminders muted
        ("a@example.org" ∷ [])
        no_backlog
        none
        today
        (candidate ∷ [])
        after in
    (second.claimed ≡ 0)
    × (later.reminders ≡ after.reminders)
    × ((is_some second.email && (no_backlog.stale == 0)) ≡ false)
process_tenant_reminders_once_example =
    process_tenant_reminders_once muted ("a@example.org" ∷ []) ("a@example.org" ∷ []) no_backlog
      no_backlog none none today (candidate ∷ []) no_logs
