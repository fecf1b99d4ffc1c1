-- ===== src/Scenarios.antt =====
-- A small church on which the theorems are applied, and the applications.
mod Access
mod Calendar
mod Sync
mod OwnFile
mod Views
mod Dependents
mod Admins
mod Review
mod Standing
mod Permanent
mod Reminders
mod Reporting
mod Documents
mod Gates
mod Keys
mod SignIn
use risk_management.Common.{ℕ, Bool, true, false, Option, none, some, List, [], ◌∷◌}
use risk_management.Calendar.{Date, date}
use risk_management.Audit.{Actor}
use risk_management.Org.{Volunteer, Role, Assignment, not_blocked}
use risk_management.Access.{AccessLevel, User, UserAccessGrant, Directory}
use risk_management.Requirements.Definition.{
  RequirementDefinition, application_form, criminal_record_check, training_orientation,
  training_refresher, one_time, annual, every_3_years, all_roles, any_age, adults_only, warn, gate,
}
use risk_management.Requirements.Instance.{
  RequirementInstance, RequirementStatus, not_started, complete, no_reason, no_due_reason,
}
use risk_management.Tenant.{Tenant, Env}

abbrev pub today : Date
today = date 2026 8 2

abbrev pub primary_level : AccessLevel
primary_level = record {
  pk = some 1;
  is_builtin = true;
  is_scoped = false;
  is_active = true;
  can_view_volunteers = true;
  can_edit_volunteers = true;
  can_manage_assignments = true;
  can_record_screening = true;
  can_record_crc = true;
  can_manage_org = true;
  can_manage_requirements = true;
  can_view_audit = true;
  can_manage_users = true;
}

abbrev pub youth_level : AccessLevel
youth_level = record {
  pk = some 2;
  is_builtin = true;
  is_scoped = true;
  is_active = true;
  can_view_volunteers = true;
  can_edit_volunteers = true;
  can_manage_assignments = true;
  can_record_screening = true;
  can_record_crc = true;
  can_manage_org = false;
  can_manage_requirements = false;
  can_view_audit = false;
  can_manage_users = false;
}

abbrev pub user : ℕ → User
user pk = record { pk = pk; is_authenticated = true; is_active = true }

abbrev pub primary_grant : UserAccessGrant
primary_grant = record { user_id = 1; access_level = primary_level; departments = [] }

abbrev pub youth_grant : UserAccessGrant
youth_grant = record { user_id = 2; access_level = youth_level; departments = 7 ∷ [] }

abbrev pub second_primary : UserAccessGrant
second_primary = record { user_id = 3; access_level = primary_level; departments = [] }

abbrev pub church : Directory
church = record {
  on_public_schema = false;
  users = user 1 ∷ user 2 ∷ user 3 ∷ [];
  grants = primary_grant ∷ youth_grant ∷ second_primary ∷ [];
}

abbrev pub youth_actor : Actor
youth_actor = record {
  user_id = some 2;
  access_level_is_scoped = true;
  access_level_unknown = false;
  department_ids = 7 ∷ [];
}

abbrev pub request : Env
request = record { today = today; now = 1000; actor = youth_actor; directory = church }

abbrev pub anna : Volunteer
anna = record {
  pk = 50;
  birth_year = some 2000;
  birth_month = some 5;
  screening_block = not_blocked;
  screening_block_recorded_at = none;
  is_active = true;
  user_id = none;
}

abbrev pub helper : Role
helper = record { pk = 70; department = 7; is_leadership = false }

abbrev pub serving : Assignment
serving = record {
  pk = 80;
  role = helper;
  started_on = date 2025 1 10;
  ended_on = none;
  is_active = true;
}

abbrev pub application : RequirementDefinition
application = record {
  pk = 10;
  name = "Application form";
  requirement_type = application_form;
  cadence = one_time;
  cadence_months = none;
  applies_to = all_roles;
  roles = [];
  age_rule = any_age;
  sequence = 10;
  is_onboarding = true;
  must_follow = none;
  dependency_mode = warn;
  due_months_after_prerequisite = none;
  requires_document = false;
  is_active = true;
}

abbrev pub record_check : RequirementDefinition
record_check = record application {
  pk = 11;
  name = "Criminal record check";
  requirement_type = criminal_record_check;
  cadence = every_3_years;
  age_rule = adults_only;
  sequence = 20;
}

abbrev pub orientation : RequirementDefinition
orientation = record application {
  pk = 12;
  name = "Orientation";
  requirement_type = training_orientation;
  sequence = 30;
}

abbrev pub refresher : RequirementDefinition
refresher = record application {
  pk = 13;
  name = "Refresher";
  requirement_type = training_refresher;
  cadence = annual;
  sequence = 40;
  must_follow = some 12;
  dependency_mode = gate;
}

abbrev pub row : ℕ → ℕ → RequirementStatus → Option Date → RequirementInstance
row pk definition status completed_on = record {
  pk = pk;
  definition_id = definition;
  status = status;
  started_on = none;
  completed_on = completed_on;
  expires_on = none;
  due_on = none;
  due_reason = no_due_reason;
  waived_reason = "";
  waived_by = "";
  waived_on = none;
  not_applicable_reason = no_reason;
  notes = "";
}

abbrev pub anna_file : Tenant
anna_file = record {
  definitions = application ∷ record_check ∷ orientation ∷ refresher ∷ [];
  volunteer = anna;
  assignments = serving ∷ [];
  instances =
      row 100 10 complete (some (date 2025 2 1))
      ∷ row 101 11 not_started none
      ∷ row 102 12 not_started none
      ∷ [];
  crc_records = [];
  convictions = [];
  overrides = [];
  documents = [];
  reviews = [];
  trail = [];
  pending_syncs = 0;
  next_pk = 103;
}
