-- ===== src/Reporting.antt =====
-- apps/reporting/services.py: the dashboard's buckets, the compliance report, the departments'
-- roll-up and the headline counts, from rows that are already joined. `as_of` only orders rows in
-- the source, which counts by the day of the request; both are arguments here.
pub mod Partition
pub mod Compliance
pub mod Minors
pub mod Departments
use risk_management.Common.{
  ℕ, ◌+◌, ◌-◌, ◌*◌, ◌/◌, ◌%◌, Bool, true, false, not, ◌&&◌, ◌||◌, Option, none, some, List, [], ◌∷◌,
  map, String, ◌==◌, ltb, leb, if◌then◌else◌, any, select, length, is_some, sorted_by, text_le,
}
use risk_management.Calendar.{Date, before, same_day}
use risk_management.Org.{Volunteer, Role, Assignment, is_disqualified, is_blocking, active_roles}
use risk_management.Access.{User, Directory, scope_department_ids}
use risk_management.Access.Scope.{File, ever_in_departments, scoped_rows, scope_volunteers}
use risk_management.Requirements.Definition.{RequirementDefinition, RequirementType}
use risk_management.Requirements.Instance.{
  RequirementInstance, Bucket, satisfied, overdue_bucket, due_soon, outstanding, bucket,
  effective_due_date,
}

-- An instance with what its query selects beside it.
pub record Row : Type 0 where
  pub instance : RequirementInstance
  pub definition : RequirementDefinition
  pub file : File
  pub sort_name : String

abbrev pub serves : (Assignment → Bool) → File → Bool
serves p (v, l) = any (λ a. a.is_active && p a) l

-- The reader's choices: at most one of a role and a department, and a type of requirement.
pub record Filters : Type 0 where
  pub department : Option ℕ
  pub role : Option ℕ
  pub requirement_type : Option (RequirementType → Bool)

abbrev in_chosen_place : Option ℕ → Option ℕ → File → Bool
in_chosen_place (some r) d f = serves (λ a. a.role.pk == r) f
in_chosen_place none (some d) f = serves (λ a. a.role.department == d) f
in_chosen_place none none f = true

abbrev of_chosen_type : Option (RequirementType → Bool) → RequirementDefinition → Bool
of_chosen_type none d = true
of_chosen_type (some p) d = p d.requirement_type

-- `scope_instances`
unfoldable pub scope_instances : Directory → Option User → List Row → List Row
unfolding ever_in_departments
scope_instances dir u rows =
    scoped_rows (scope_department_ids dir u) (λ ids r. ever_in_departments ids r.file) rows

unfoldable pub instance_queryset : Directory → Option User → Filters → List Row → List Row
unfolding scope_instances
instance_queryset dir u f rows =
    select
      (λ r.
        in_chosen_place f.role f.department r.file
        && of_chosen_type f.requirement_type r.definition)
      (scope_instances dir u (select (λ r. r.definition.is_active && r.file.0.is_active) rows))

pub record Buckets : Type 0 where
  pub overdue : List Row
  pub due_soon : List Row
  pub outstanding : List Row
  pub satisfied : List Row

abbrev pub code_of : Bucket → ℕ
code_of satisfied = 0
code_of overdue_bucket = 1
code_of due_soon = 2
code_of outstanding = 3

-- `i.bucket == b`, on the day of the request
abbrev pub falls_in : Date → Bucket → RequirementInstance → Bool
falls_in today b i = code_of (bucket today i) == code_of b

abbrev or_day : Date → Option Date → Date
or_day as_of none = as_of
or_day as_of (some d) = d

abbrev pub by_due_date : Date → Row → Row → Bool
by_due_date as_of a b =
    let x = or_day as_of (effective_due_date a.instance) in
    let y = or_day as_of (effective_due_date b.instance) in
    before x y || (same_day x y && text_le a.sort_name b.sort_name)

abbrev pub by_name : Row → Row → Bool
by_name a b =
    not (text_le b.sort_name a.sort_name)
    || (text_le a.sort_name b.sort_name && leb a.definition.sequence b.definition.sequence)

unfoldable pub build_buckets : Directory → Option User → Filters → Date → Date → List Row → Buckets
unfolding instance_queryset bucket effective_due_date sorted_by
build_buckets dir u f today as_of rows =
    let qs = instance_queryset dir u f rows in
    record {
      overdue =
          sorted_by (by_due_date as_of) (select (λ r. falls_in today overdue_bucket r.instance) qs);
      due_soon =
          sorted_by (by_due_date as_of) (select (λ r. falls_in today due_soon r.instance) qs);
      outstanding = sorted_by by_name (select (λ r. falls_in today outstanding r.instance) qs);
      satisfied = select (λ r. falls_in today satisfied r.instance) qs;
    }

pub record Counts : Type 0 where
  pub overdue : ℕ
  pub due_soon : ℕ
  pub outstanding : ℕ
  pub satisfied : ℕ

-- `Buckets.counts`
unfoldable pub counts : Buckets → Counts
counts b = record {
  overdue = length b.overdue;
  due_soon = length b.due_soon;
  outstanding = length b.outstanding;
  satisfied = length b.satisfied;
}

abbrev bump : Bucket → Counts → Counts
bump overdue_bucket n = record n { overdue = n.overdue + 1 }
bump due_soon n = record n { due_soon = n.due_soon + 1 }
bump outstanding n = record n { outstanding = n.outstanding + 1 }
bump satisfied n = record n { satisfied = n.satisfied + 1 }

-- `bucket_counts`; the order of additions to a count does not matter.
unfoldable pub bucket_counts : Date → List RequirementInstance → Counts
unfolding bucket
bucket_counts today [] = record { overdue = 0; due_soon = 0; outstanding = 0; satisfied = 0 }
bucket_counts today (i ∷ rest) = bump (bucket today i) (bucket_counts today rest)

pub record VolunteerRow : Type 0 where
  pub file : File
  pub instances : List RequirementInstance

-- How many of a row's instances are in a bucket.
abbrev pub count_in : Date → Bucket → VolunteerRow → ℕ
count_in today b row = length (select (falls_in today b) row.instances)

unfoldable pub is_compliant : Date → VolunteerRow → Bool
unfolding bucket
is_compliant today row =
    (count_in today overdue_bucket row == 0) && (count_in today outstanding row == 0)

pub data StatusLabel : Type 0 where
  disqualified blocked overdue in_progress coming_due compliant : StatusLabel

unfoldable pub status_label : Date → VolunteerRow → StatusLabel
unfolding is_blocking bucket
status_label today row =
    if is_disqualified row.file.0.screening_block
    then disqualified
    else if is_blocking row.file.0.screening_block
    then blocked
    else if not (count_in today overdue_bucket row == 0)
    then overdue
    else if not (count_in today outstanding row == 0)
    then in_progress
    else if not (count_in today due_soon row == 0)
    then coming_due
    else compliant

-- `round(100 * n / d)`: to the nearest, and to the even one of two as near.
abbrev pub rounded : ℕ → ℕ → ℕ
rounded n d =
    let q = n / d in
    let twice = 2 * (n % d) in if ltb twice d then q else if ltb d twice then q + 1 else q + q % 2

pub record Report : Type 0 where
  pub rows : List VolunteerRow
  pub compliant : List VolunteerRow
  pub non_compliant : List VolunteerRow
  pub compliance_rate : Option ℕ

abbrev pub rate : List VolunteerRow → List VolunteerRow → Option ℕ
rate good [] = none
rate good (r ∷ rows) = some (rounded (100 * length good) (length (r ∷ rows)))

abbrev in_department : Option ℕ → File → Bool
in_department none f = true
in_department (some d) f = serves (λ a. a.role.department == d) f

-- The rows of a report: files in scope, the active ones unless all are asked for, of the chosen
-- department, in the order of the list. `instances_of` is the prefetched list of each.
unfoldable pub build_compliance_report :
    Directory
    → Option User
    → Option ℕ
    → Bool
    → Date
    → (File → List RequirementInstance)
    → List File
    → Report
unfolding scope_volunteers is_compliant
build_compliance_report dir u department include_inactive today instances_of files =
    let rows =
      map (λ f. record { file = f; instances = instances_of f })
        (select (λ f. (include_inactive || f.0.is_active) && in_department department f)
          (scope_volunteers dir u files)) in
    let good = select (is_compliant today) rows in
    record {
      rows = rows;
      compliant = good;
      non_compliant = select (λ r. not (is_compliant today r)) rows;
      compliance_rate = rate good rows;
    }

-- The headline counts of the dashboard that are counts of volunteers.
pub record Headline : Type 0 where
  pub active_volunteers : ℕ
  pub serving : ℕ
  pub unassigned : ℕ
  pub blocked : ℕ
  pub minors : ℕ

abbrev year_above : Option ℕ → ℕ → Bool
year_above none y = false
year_above (some b) y = ltb y b

abbrev is_year : Option ℕ → ℕ → Bool
is_year none y = false
is_year (some b) y = b == y

-- The filter on `birth_year` and `birth_month`; a missing column is neither above nor equal. The
-- years are those of dates, past 18.
unfoldable pub counts_as_minor : Date → Volunteer → Bool
counts_as_minor as_of v =
    year_above v.birth_year (as_of.year - 18)
    || (is_year v.birth_year (as_of.year - 18) && year_above v.birth_month as_of.month)

unfoldable pub dashboard_headline : Directory → Option User → Date → List File → Headline
unfolding scope_volunteers counts_as_minor is_blocking
dashboard_headline dir u as_of files =
    let scoped = scope_volunteers dir u files in
    let active = select (λ f. f.0.is_active) scoped in
    let serving = length (select (serves (λ a. true)) active) in
    record {
      active_volunteers = length active;
      serving = serving;
      unassigned = length active - serving;
      blocked = length (select (λ f. is_blocking f.0.screening_block) scoped);
      minors = length (select (λ f. counts_as_minor as_of f.0) active);
    }
