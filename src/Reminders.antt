-- ===== src/Reminders.antt =====
-- apps/notifications: which reminders one church is owed on a day, claiming each one once, and the
-- digest that carries them. What the mail provider does with the message is an argument; the texts
-- of the message and its order are left out.
pub mod Once
use risk_management.Common.{
  ℕ, ◌+◌, Bool, true, false, not, ◌&&◌, ◌||◌, Option, none, some, List, [], ◌∷◌, ◌++◌, map, String,
  ◌==◌, ltb, leb, if◌then◌else◌, is_some, starts_with, any, select, find, length, is_empty,
}
use risk_management.Calendar.{Date, before, to_ordinal, same_day}
use risk_management.Org.{Volunteer}
use risk_management.Audit.{Actor, notify, email_log}
use risk_management.Access.{User, Directory, UserAccessGrant}
use risk_management.Audit.{AuditEvent, notify, email_log}
use risk_management.Requirements.Definition.{RequirementDefinition}
use risk_management.Requirements.Instance.{
  RequirementInstance, RequirementStatus, not_started, in_progress, complete, DueReason,
  no_due_reason, turned_18, follows, is_complete, is_not_applicable, is_waived, effective_due_date,
}

pub data ReminderKind : Type 0 where
  lead_time overdue turning_18 : ReminderKind

-- A row of the query, with the definition and the volunteer that it selects.
pub record Candidate : Type 0 where
  pub instance : RequirementInstance
  pub definition : RequirementDefinition
  pub volunteer : Volunteer

-- An entry of the list, and what a `ReminderLog` row holds of it.
pub record Reminder : Type 0 where
  pub instance : ℕ
  pub kind : ReminderKind
  pub lead_days : ℕ
  pub due_date : Option Date

abbrev pub chased : Candidate → Bool
chased c =
    c.volunteer.is_active
    && (c.definition.is_active
        && not (is_not_applicable c.instance.status || is_waived c.instance.status))

-- `d == as_of + timedelta(days=n)`
abbrev pub days_after : Date → ℕ → Date → Bool
days_after as_of n d = to_ordinal d == to_ordinal as_of + n

-- `targets[d]`
abbrev pub lead_for : Date → List ℕ → Option Date → Option ℕ
lead_for as_of leads none = none
lead_for as_of leads (some d) = find (λ n. days_after as_of n d) leads

-- The date that a lead time counts to.
abbrev pub watched_by : RequirementStatus → RequirementInstance → Option Date
watched_by complete i = i.expires_on
watched_by not_started i = i.due_on
watched_by in_progress i = i.due_on
watched_by _ i = none

abbrev pub watched : RequirementInstance → Option Date
watched i = watched_by i.status i

-- `due_reason.startswith("Turned 18")`. A reason that counts from a prerequisite opens with the
-- prerequisite's name.
abbrev kind_for : DueReason → ReminderKind
kind_for no_due_reason = lead_time
kind_for (turned_18 d) = turning_18
kind_for (follows name on months) = if starts_with "Turned 18" name then turning_18 else lead_time

abbrev reminder_of : RequirementInstance → ReminderKind → ℕ → Reminder
reminder_of i kind lead = record {
  instance = i.pk;
  kind = kind;
  lead_days = lead;
  due_date = effective_due_date i;
}

-- The entry of a row whose date is a lead time away, if it is one.
abbrev pub noted : RequirementInstance → Option ℕ → List Reminder
noted i none = []
noted i (some n) = reminder_of i (kind_for i.due_reason) n ∷ []

abbrev pub approaching : Date → List ℕ → RequirementInstance → List Reminder
approaching as_of leads i = noted i (lead_for as_of leads (watched i))

abbrev pub is_yesterday : Date → Option Date → Bool
is_yesterday as_of none = false
is_yesterday as_of (some d) = days_after d 1 as_of

abbrev not_yet_expired : Date → RequirementInstance → Bool
not_yet_expired as_of i = elim i.expires_on [ none ↦ false | some d ↦ not (before d as_of) ]

abbrev pub newly_overdue : Date → RequirementInstance → List Reminder
newly_overdue as_of i =
    if (is_yesterday as_of i.expires_on || is_yesterday as_of i.due_on)
      && not (is_complete i.status && not_yet_expired as_of i)
    then reminder_of i overdue 0 ∷ []
    else []

-- One query after the other.
unfoldable pub approaching_in : Date → List ℕ → List Candidate → List Reminder
unfolding effective_due_date
approaching_in as_of leads [] = []
approaching_in as_of leads (c ∷ rest) =
    approaching as_of leads c.instance ++ approaching_in as_of leads rest

unfoldable pub overdue_in : Date → List Candidate → List Reminder
unfolding effective_due_date
overdue_in as_of [] = []
overdue_in as_of (c ∷ rest) = newly_overdue as_of c.instance ++ overdue_in as_of rest

unfoldable pub find_due_reminders : Date → List ℕ → List Candidate → List Reminder
unfolding approaching_in overdue_in
find_due_reminders as_of leads rows =
    let base = select chased rows in approaching_in as_of leads base ++ overdue_in as_of base

abbrev kind_code : ReminderKind → ℕ
kind_code lead_time = 0
kind_code overdue = 1
kind_code turning_18 = 2

-- Two rows clash on `unique_reminder_per_cycle`; to the database no date is never the same as
-- another.
abbrev same_known : Option Date → Option Date → Bool
same_known (some a) (some b) = same_day a b
same_known _ _ = false

unfoldable pub clashes : Reminder → Reminder → Bool
clashes a b =
    (a.instance == b.instance)
    && ((kind_code a.kind == kind_code b.kind)
        && ((a.lead_days == b.lead_days) && same_known a.due_date b.due_date))

-- `raise_reminder`: the row is new, or the insert is refused.
unfoldable pub raise_reminder : Reminder → List Reminder → Option (List Reminder)
unfolding clashes
raise_reminder r log = if any (clashes r) log then none else some (log ++ r ∷ [])

abbrev pub claimed : Reminder → Option (List Reminder) → List Reminder → List Reminder
claimed r none rest = rest
claimed r (some log) rest = r ∷ rest

abbrev pub log_after : List Reminder → Option (List Reminder) → List Reminder
log_after log none = log
log_after log (some log') = log'

-- The loop over the candidates: the log, and what was claimed.
unfoldable pub claim_all : List Reminder → List Reminder → List Reminder × List Reminder
unfolding raise_reminder
claim_all [] log = (log, [])
claim_all (r ∷ rest) log =
    let o = raise_reminder r log in
    let (log', taken) = claim_all rest (log_after log o) in (log', claimed r o taken)

abbrev is_recipient : Directory → ℕ → Bool
is_recipient dir k =
    any (λ g. (g.user_id == k) && (not g.access_level.is_scoped && g.access_level.is_active))
      dir.grants

abbrev is_empty_text : String → Bool
is_empty_text String.[] = true
is_empty_text _ = false

-- The recipients: active administrators on an active level that sees the whole church, who have an
-- address. An address is a parameter here, as it is encrypted.
unfoldable pub admin_recipients : (ℕ → String) → Directory → List String
admin_recipients email dir =
    select (λ a. not (is_empty_text a))
      (map (λ (u : User). email u.pk)
        (select (λ u. u.is_active && is_recipient dir u.pk) dir.users))

pub data NotificationStatus : Type 0 where
  queued sent failed : NotificationStatus

pub record EmailLog : Type 0 where
  pub pk : ℕ
  pub recipients : List String
  pub recipient_count : ℕ
  pub item_count : ℕ
  pub status : NotificationStatus
  pub error : String

-- The church's settings that matter, and the counts of its review queue.
pub record Church : Type 0 where
  pub lead_days : List ℕ
  pub notifications_enabled : Bool

pub record Backlog : Type 0 where
  pub pending : ℕ
  pub stale : ℕ

-- What `provider.send` does: nothing, or an error.
abbrev pub Sending : Type 0
Sending = Option String

abbrev queued_mail : ℕ → List String → ℕ → EmailLog
queued_mail pk to items = record {
  pk = pk;
  recipients = to;
  recipient_count = length to;
  item_count = items;
  status = queued;
  error = "";
}

-- `mark_sent` and `mark_failed`
abbrev pub marked : Sending → EmailLog → EmailLog
marked none e = record e { status = sent }
marked (some why) e = record e { status = failed; error = why }

unfoldable pub send_digest :
    Church → List String → Backlog → Sending → ℕ → List Reminder → Option EmailLog
send_digest church to backlog sending pk entries =
    if is_empty entries && (backlog.stale == 0)
    then none
    else if not church.notifications_enabled
    then none
    else if is_empty to
    then none
    else some (marked sending (queued_mail pk to (length entries)))

-- The two logs of a church, its trail, and the key of the next row.
pub record Logs : Type 0 where
  pub reminders : List Reminder
  pub emails : List EmailLog
  pub trail : List AuditEvent
  pub next_pk : ℕ

pub record Summary : Type 0 where
  pub candidates : ℕ
  pub claimed : ℕ
  pub email : Option EmailLog

abbrev pub mail_of : Option EmailLog → List EmailLog
mail_of none = []
mail_of (some e) = e ∷ []

-- The entry of the trail, which the reminder job signs.
abbrev pub notice_of : Option EmailLog → List AuditEvent
notice_of none = []
notice_of (some e) =
    record { actor_user_id = none; action = notify; entity_type = email_log; entity_id = e.pk } ∷ []

-- The logs after a pass: what was claimed, and the message that went out or failed.
abbrev pub with_email : Option EmailLog → List Reminder → Logs → Logs
with_email email log logs = record logs {
  reminders = log;
  emails = logs.emails ++ mail_of email;
  trail = logs.trail ++ notice_of email;
  next_pk = logs.next_pk + length (mail_of email);
}

unfoldable pub process_tenant_reminders :
    Church → List String → Backlog → Sending → Date → List Candidate → Logs → Logs × Summary
unfolding find_due_reminders claim_all send_digest
process_tenant_reminders church to backlog sending as_of rows logs =
    let found = find_due_reminders as_of church.lead_days rows in
    let (log, taken) = claim_all found logs.reminders in
    let email = send_digest church to backlog sending logs.next_pk taken in
    (
      with_email email log logs,
      record { candidates = length found; claimed = length taken; email = email },
    )
