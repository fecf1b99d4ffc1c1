-- ===== src/Lib.antt =====
-- Verification of the core of the Volunteer Management System: who may see and change a volunteer's
-- file, which requirements a volunteer has, what completing, waiving and checking them does, what a
-- criminal record check leads to, which documents, reminders and reports follow, and how somebody
-- signs in.
--
-- The parts, and where each is.
--
-- Common (with Common/Tests, Lists, Text, Int, Sort) holds names of the libraries, Boolean tests, lists,
-- integers and stable sorting over the native numbers. It models no code, but for the characters that
-- `str.strip` takes away.
--
-- Calendar is `datetime.date` as far as it is used, and `add_months_to` of
-- apps/requirements/models.py; Calendar/Months has its laws. A date is its year, month and day.
--
-- Org is apps/org/models.py: `Role`, `Volunteer`, `RoleAssignment` (here Assignment), the birth date
-- rules, `set_screening_block` and `end`. Org/Age and Org/Block have their laws.
--
-- Audit is the actor and the entries of apps/core/audit.py. Access is apps/core/access.py with
-- `AccessLevel` and `UserAccessGrant` of apps/core/models.py: levels, grants, capabilities and scopes.
-- Access/Self is the rule that nobody screens themselves, at the view (`may_record_against`) and at the
-- service (`refuse_self_recording`), and `actor_from_request`. Access/Scope is the scoping of
-- querysets, Access/Guards the lockout guard `would_strand_the_church` with the write of
-- a deactivation in apps/accounts/views.py, Access/Grant `apply_grant` of apps/core/forms.py,
-- Access/Covers the order of levels.
--
-- Requirements/Definition, Requirements/Instance and Requirements/Gate are apps/requirements/models.py:
-- applicability, intervals, statuses, buckets, `recompute`, prerequisites and their deadlines.
-- Requirements/Dependents is `dependent_pks` and the choices that the form of a definition offers, with
-- the rounds of its loop in Requirements/Dependents/Rounds and what it returns in Requirements/Dependents/Exact.
-- Requirements/Forms is apps/requirements/forms.py, with what its forms accept in Requirements/Forms/Accepted.
-- Requirements/Records has the rows of a check. The services of apps/requirements/services.py are in
-- Requirements/Reconcile (what one round of `sync_volunteer_requirements` decides),
-- Requirements/Sync (its loop), Requirements/Progress (completion, start, waiver, reversal),
-- Requirements/Crc (`record_crc`) and Requirements/Decisions (convictions, the permanent
-- disqualification, a leadership decision, the outcome of a Not Clear). Requirements/Commit is
-- apps/requirements/signals.py: every save of a volunteer or an assignment asks for a reconciliation
-- when the transaction commits. Requirements/Nightly is
-- `recompute_all_statuses` for the rows of one file, Requirements/Sweep the nightly job of
-- apps/core/tasks.py for them, in its order, with `activate_turning_18_checks` and
-- `onboarding_window_breached`.
--
-- Review is apps/review/models.py, Review/Recording `open_if_unverified` of apps/review/recording.py.
-- Review/Decide and Review/SendBack are apps/review/services.py: `may_review`, `affirm`, `send_back`
-- and its handler for each kind of entry. What a send-back keeps is a constructor for each message.
--
-- Tenant is the state: the rows of one church that an operation on one volunteer's file reads and
-- writes. An operation takes the surroundings of the request (`Env`: today, now, the actor and the
-- access tables) and a Tenant, and returns the new Tenant or an error. An error carries no state: the
-- services are atomic, so the state before the call stands. Tenant/Rows is about the table of
-- instances, whose keys are unique and below the next key (`WellKeyed`), Tenant/Outcome about results.
--
-- Admins is the pages of apps/accounts/views.py on which administrators manage one another
-- (Admins/Pages), with the two forms of apps/core/forms.py and the guard of the review backlog in
-- apps/core/access.py. Admins/Managed, Stranded and Backlog are about who is left after them.
--
-- Placement is the views of apps/org/views.py that create and end an assignment, deactivate
-- (Placement/Leaving), reactivate and resync, with their forms in apps/org/forms.py. Placement/Operation puts the operations together: one
-- type of operations, a step that runs one and then commits, and the histories of steps that succeed.
-- Placement/OwnFile is about the services that ask the rule on one's own file, and two that do not,
-- Placement/Convictions about the rows of convictions, Placement/Held about the entries of the review
-- queue that have been decided.
--
-- Views is apps/requirements/views.py from the request on, with the decorators of the views above:
-- Views/Screening the pages on one requirement, Views/Checks those on checks, Views/Serve thirteen routes
-- that change a volunteer's file as one function; the pages of the review queue, the upload of a document
-- and the pages that edit a volunteer or link an account are not among them. Such a page calls its service in a transaction, so that
-- the reconciliations that are asked for run when it ends. Views/Entitled is about who may ask,
-- Views/Refined about the operation of Placement/Operation that a page carries out, Views/Bars about
-- the page that records a conviction.
--
-- Reminders is apps/notifications/services.py and models.py: which reminders are due, the claim of each
-- against the unique constraint of `ReminderLog`, who receives the digest, and the nightly pass.
-- Reminders/Once is about passes that follow one another. What the mail provider does is an argument,
-- as is the decrypted address of an account.
--
-- Reporting is apps/reporting/services.py with `scope_instances` of apps/core/access.py: the dashboard's
-- buckets (Reporting/Partition), the compliance report (Reporting/Compliance), the headline counts
-- (Reporting/Minors) and the summary of departments (Reporting/Departments: Once is its loop, Lines what
-- it counts). Rows come joined, as the querysets select them.
--
-- SignIn is apps/tenants/routing.py and the rows of apps/accounts/models.py: a platform of schemas, each
-- with its accounts, links, passkeys and trail, and the search for an address or a passkey
-- (SignIn/Targets). SignIn/Links is apps/accounts/links.py: `issue_link`, `verify_link` and
-- `consume_link`, with Django's signer and SHA-256 as arguments and what they are relied on for as the
-- record SignerIsSound. SignIn/Spent, Events and Once are about links that have been spent, SignIn/Accepted
-- about those that are accepted, SignIn/Issued about those that have just been issued. SignIn/Ceremony is
-- apps/accounts/webauthn_service.py, with the checks of the WebAuthn library as arguments; SignIn/Attempts
-- is about the challenges that a sign-in spends, SignIn/Sessions about how often a session signs in.
--
-- Documents is apps/documents/models.py and the checks of an upload, Documents/Store the rest of
-- apps/documents/services.py, Documents/Crypto the sealing of bytes and keys in apps/core/crypto.py, with
-- AES-GCM as an argument and its documented behaviour as the record AeadIsSound. Documents/Uploads,
-- Recorded, Fetched and Roundtrip have their laws. A stored file is kept in its row.
--
-- Keys is apps/core/keys.py: the key of the church in scope and the cache of keys, with the unwrapping and
-- the digest of a stored key as arguments.
--
-- Gates is the passkey gate of apps/accounts/middleware.py, the key-backup gate of
-- apps/tenants/middleware.py and `AccessGateMiddleware` of apps/core/middleware.py, in the order of
-- MIDDLEWARE in config/settings/base.py. Gates/Loop follows redirects as often as one likes: the number
-- of redirects is an argument of the theorem, so that no bound is chosen.
--
-- Scenarios holds a small church, on which every theorem with hypotheses is applied.
--
-- How the state corresponds. A row is a record with the columns that the code reads. The two reason
-- columns of an instance hold the template and its values, not the text. A queryset's order is the
-- order of the list, and a foreign key is a key, or the record where the code follows it. The key of a
-- new row, in any table, is `next_pk`. Loops run over lists and recursion is structural; the walk along
-- prerequisites in `_dependency_cycle` has the source's own bound, MAX_DEPENDENCY_HOPS, as its fuel.
--
-- What is left out. Labels, summaries and details of audit entries and review items, which nothing
-- reads back; encrypted columns and notes that no rule looks at; the truncation of texts to the width
-- of their columns; the departments and names that a review item shows; the serialisation of
-- snapshots to JSON. A call runs alone, so the savepoint that settles two concurrent requests has no
-- counterpart. A form's fields come as the framework's field classes leave them, parsed,
-- stripped and within their length, or none; the lists of its choices and its own `clean` methods are
-- modelled. The text of messages and of the sign-in
-- mail, tokens of encrypted text, the provisioning of churches, the routing of a request by cookie or hostname,
-- the reading of the review queue, the invitation of an administrator, the pages of sign-in, and forms and views other than those named are not modelled. Two requests
-- that interleave are not modelled either: the theorems on links are about calls that run one after the
-- other.
pub mod Common
pub mod Calendar
pub mod Org
pub mod Audit
pub mod Access
pub mod Admins
pub mod Requirements
pub mod Review
pub mod Tenant
pub mod Placement
pub mod Views
pub mod Documents
pub mod Gates
pub mod Keys
pub mod Reminders
pub mod Reporting
pub mod SignIn
mod Scenarios
