-- ===== src/Scenarios/Admins.antt =====
-- Three administrators of a small church, two of them for the whole of it.
use risk_management.Common.{◌≡◌, refl, inl, inr, true, none, some, [], ◌∷◌, Elem, arith}
use risk_management.Audit.{crc_record}
use risk_management.Access.{
  UserAccessGrant, another_unscoped_admin_exists, has_capability, grant_for, grants,
  scope_department_ids, level_refused,
}
use risk_management.Access.Guards.{HasManager, manages_access}
use risk_management.Review.{ReviewItem, crc, pending}
use risk_management.Tenant.{Result, ok, raised, ◌>>◌}
use risk_management.Admins.{Console, manages_users}
use risk_management.Admins.Pages.{toggle_active, edit_level, administer}
use risk_management.Admins.Managed.{no_more, first, requests-HasManager}
use risk_management.Admins.Stranded.{weaker, access_level_edit-strands}
use risk_management.Admins.Backlog.{toggle-another_unscoped_admin_exists}
use risk_management.Scenarios.{
  request, user, primary_level, youth_level, primary_grant, church, anna,
}

abbrev entry : ReviewItem
entry = record {
  pk = 300;
  kind = crc;
  entity = record { entity_type = crc_record; entity_id = 90 };
  affected = none;
  status = pending;
  recorded_by_user_id = some 1;
  before_state = record {
    instance_fields = none;
    screening_block = none;
    superseded_by_id = none;
    ended_assignments = [];
  };
  reviewed_at = none;
  reviewed_by_user_id = none;
  decision_reason = "";
  superseded_by = none;
}

abbrev console : Console
console = record {
  directory = church;
  levels = primary_level ∷ youth_level ∷ [];
  departments = 7 ∷ [];
  files = anna ∷ [];
  reviews = entry ∷ [];
  trail = [];
  next_pk = 400;
}

abbrev console_of : Result Console → Console
console_of (ok c) = c
console_of (raised e) = console

abbrev without_second : Console
without_second = console_of (administer request (user 1) (toggle_active 2) console)

primary_in_charge : HasManager church
primary_in_charge = (user 1, inl refl, refl, (primary_grant, inl refl, refl, refl))

requests-HasManager_example : HasManager without_second.directory
unfolding administer ◌>>◌ has_capability grant_for grants scope_department_ids
requests-HasManager_example =
    requests-HasManager console without_second
      (first {c = console} {d = without_second} request (user 1) (toggle_active 2) refl refl
        no_more)
      primary_in_charge

all_by_the_level :
    (g : UserAccessGrant)
    → Elem g church.grants
    → manages_access g ≡ true
    → g.access_level.pk ≡ some 1
all_by_the_level g (inl e) h = rw e refl
all_by_the_level g (inr (inl e)) h = absurd (ground (arith, rw e at h))
all_by_the_level g (inr (inr (inl e))) h = rw e refl
all_by_the_level g (inr (inr (inr none_such))) h = absurd none_such

access_level_edit-strands_example :
    (d : Console) × (administer request (user 1) (edit_level 1 (weaker primary_level)) console
      ≡ ok d)
    × (HasManager d.directory → ⊥)
unfolding manages_users has_capability grant_for grants level_refused
access_level_edit-strands_example =
    access_level_edit-strands request (user 1) 1 primary_grant console refl refl refl refl
      all_by_the_level

toggle-another_unscoped_admin_exists_example :
    another_unscoped_admin_exists without_second.directory 1 ≡ true
unfolding administer scope_department_ids grant_for another_unscoped_admin_exists ◌>>◌
    has_capability grants
toggle-another_unscoped_admin_exists_example =
    toggle-another_unscoped_admin_exists request (user 1) console 2 entry without_second refl refl
      (inl refl) refl refl refl
