-- ===== src/Requirements/Sync.antt =====
-- `sync_volunteer_requirements` of apps/requirements/services.py: the loop over the active
-- definitions, and what it writes. Every round reads the table as the rounds before left it; the
-- row of a definition is written in no other round, so that is also the row fetched at the start.
pub mod History
pub mod Idle
pub mod Complete
use risk_management.Common.{
  ℕ, ◌+◌, Bool, true, false, Option, none, some, List, [], ◌∷◌, ◌++◌, if◌then◌else◌, select,
}
use risk_management.Calendar.{Date}
use risk_management.Org.{Role, active_roles}
use risk_management.Audit.{AuditAction, create, status_change, requirement_instance}
use risk_management.Requirements.Definition.{RequirementDefinition}
use risk_management.Requirements.Instance.{RequirementInstance}
use risk_management.Requirements.Gate.{instance_for}
use risk_management.Requirements.Reconcile.{
  Change, keep, created, retired, held, refreshed, activated, change_for,
}
use risk_management.Tenant.{Tenant, Env, audit, entity, put_instance}

pub record Counts : Type 0 where
  pub created : ℕ
  pub updated : ℕ
  pub retired : ℕ

abbrev audit_unless : Bool → Env → AuditAction → ℕ → Tenant → Tenant
audit_unless true env action k t = t
audit_unless false env action k t = audit env action (entity requirement_instance k) t

abbrev write : RequirementInstance → Tenant → Tenant
write i t = record t { instances = put_instance i t.instances }

unfoldable pub apply_change : Env → Bool → Change → Tenant → Tenant
unfolding audit put_instance
apply_change env quiet keep t = t
apply_change env quiet (created i) t =
    audit_unless quiet env create i.pk
      (record t { instances = t.instances ++ i ∷ []; next_pk = t.next_pk + 1 })
apply_change env quiet (retired i) t = write i t
apply_change env quiet (held i) t = write i t
apply_change env quiet (refreshed i) t = write i t
apply_change env quiet (activated i) t = audit_unless quiet env status_change i.pk (write i t)

abbrev count : Change → Counts → Counts
count keep n = n
count (created i) n = record n { created = n.created + 1 }
count (retired i) n = record n { retired = n.retired + 1 }
count (held i) n = record n { updated = n.updated + 1 }
count (refreshed i) n = record n { updated = n.updated + 1 }
count (activated i) n = record n { updated = n.updated + 1 }

abbrev pub round_change : Date → List Role → RequirementDefinition → Tenant → Change
round_change as_of roles d t =
    change_for t.next_pk t.definitions t.instances t.volunteer roles as_of d
      (instance_for d.pk t.instances)

unfoldable pub sync_loop :
    Env → Date → Bool → List Role → List RequirementDefinition → Tenant → Counts → Tenant × Counts
unfolding apply_change
sync_loop env as_of quiet roles [] t n = (t, n)
sync_loop env as_of quiet roles (d ∷ ds) t n =
    let change = round_change as_of roles d t in
    sync_loop env as_of quiet roles ds (apply_change env quiet change t) (count change n)

-- `RequirementDefinition.objects.active()`, in the order of the table.
abbrev pub active_definitions : Tenant → List RequirementDefinition
active_definitions t = select (λ d. d.is_active) t.definitions

unfoldable pub sync_volunteer_requirements : Env → Date → Bool → Tenant → Tenant × Counts
unfolding sync_loop
sync_volunteer_requirements env as_of quiet t =
    sync_loop env as_of quiet (active_roles t.assignments) (active_definitions t) t
      (record { created = 0; updated = 0; retired = 0 })
