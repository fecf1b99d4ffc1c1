-- ===== src/Access/Covers.antt =====
-- `AccessLevel.covers` of apps/core/models.py, against what it means.
use risk_management.Common.{
  ◌≡◌, refl, ◌↔◌, Bool, true, false, not, ◌&&◌, ◌||◌, arith, all, any, ◌==◌, any-select, all-select,
  ap, ◌∙◌, if◌then◌else◌,
}
use mathlib.Core.Path.{fun_ext}
use risk_management.Access.{
  Capability, view_volunteers, edit_volunteers, manage_assignments, record_screening, record_crc,
  manage_org, manage_requirements, view_audit, manage_users, AccessLevel, grants, capabilities,
  all_capabilities, capability_code, member, covers,
}

all_nine : (p : Capability → Bool) → all p all_capabilities ≡ true → (c : Capability) → p c ≡ true
all_nine p h view_volunteers = ground arith
all_nine p h edit_volunteers = ground arith
all_nine p h manage_assignments = ground arith
all_nine p h record_screening = ground arith
all_nine p h record_crc = ground arith
all_nine p h manage_org = ground arith
all_nine p h manage_requirements = ground arith
all_nine p h view_audit = ground arith
all_nine p h manage_users = ground arith

nine_all : (p : Capability → Bool) → ((c : Capability) → p c ≡ true) → all p all_capabilities ≡ true
nine_all p h = simp (
  h view_volunteers,
  h edit_volunteers,
  h manage_assignments,
  h record_screening,
  h record_crc,
  h manage_org,
  h manage_requirements,
  h view_audit,
  h manage_users,
)

-- A level has exactly the capabilities whose boxes are ticked.
member-capabilities : (l : AccessLevel) (c : Capability) → member (capabilities l) c ≡ grants l c
unfolding capabilities
member-capabilities l c = rw any-select (ticked l c)
  where
    ticked :
        (l : AccessLevel) (c : Capability)
        → any (λ d. grants l d && (capability_code d == capability_code c)) all_capabilities
          ≡ grants l c
    ticked l view_volunteers = ground arith
    ticked l edit_volunteers = ground arith
    ticked l manage_assignments = ground arith
    ticked l record_screening = ground arith
    ticked l record_crc = ground arith
    ticked l manage_org = ground arith
    ticked l manage_requirements = ground arith
    ticked l view_audit = ground arith
    ticked l manage_users = ground arith

-- `other.capabilities() <= self.capabilities()`, capability by capability.
subset-eq :
    (l o : AccessLevel)
    → all (member (capabilities l)) (capabilities o)
      ≡ all (λ c. not (grants o c) || grants l c) all_capabilities
unfolding capabilities
subset-eq l o =
    all-select (member (capabilities l)) (grants o) all_capabilities
    ∙ ap (λ (f : Capability → Bool). all (λ c. not (grants o c) || f c) all_capabilities)
        (fun_ext (member-capabilities l))

implies : (a b : Bool) → (not a || b) ≡ true → a ≡ true → b ≡ true
implies a b h e = ground arith

implied : (a b : Bool) → (a ≡ true → b ≡ true) → (not a || b) ≡ true
implied true b h = h refl
implied false b h = refl

scope_test :
    (b s t : Bool)
    → ((if b then not (s && not t) else false) ≡ true) ↔ ((b ≡ true) × (s ≡ true → t ≡ true))
scope_test true true true = (λ _. (refl, λ _. refl), λ _. refl)
scope_test true true false = (λ e. cc, λ h. h.1 refl)
scope_test true false t = (λ _. (refl, λ e. cc), λ _. refl)
scope_test false s t = (λ e. cc, λ h. h.0)

-- A level covers another exactly when it grants every capability of the other, and is not limited
-- to departments where the other is not.
pub covers_iff :
    (l o : AccessLevel)
    → (covers l o ≡ true) ↔ (
        ((c : Capability) → grants o c ≡ true → grants l c ≡ true)
        × (l.is_scoped ≡ true → o.is_scoped ≡ true))
unfolding covers
covers_iff l o = (
  λ h.
      let parts = (scope_test _ l.is_scoped o.is_scoped).0 h in
      let each = all_nine _ (rw subset-eq at parts.0) in
      (λ c. implies (grants o c) (grants l c) (each c), parts.1),
  λ h.
      (scope_test _ l.is_scoped o.is_scoped).1
        (rw subset-eq (nine_all _ (λ c. implied (grants o c) (grants l c) (h.0 c))), h.1),
)
