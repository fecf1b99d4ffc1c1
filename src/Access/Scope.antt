-- ===== src/Access/Scope.antt =====
-- The queryset scoping of apps/core/access.py, over lists of rows, with the membership tests of
-- `ever_in_departments` in apps/org/models.py. A volunteer is listed with the assignments of
-- their file.
use risk_management.Common.{
  ℕ, subst, ◌≡◌, refl, ◌↔◌, Bool, true, false, Option, none, some, List, [], ◌∷◌, arith, any,
  select, Elem, Elem-select, any-Elem, Elem-any, ◌==◌, ==_iff,
}
use risk_management.Calendar.{Date}
use risk_management.Org.{Volunteer, Role, Assignment, end_all}
use risk_management.Access.{
  User, Directory, Capability, grant_for, scope_department_ids, has_capability,
}

abbrev pub id_in : List ℕ → ℕ → Bool
id_in ids k = any (λ i. i == k) ids

-- `qs.none()` on an empty scope, `qs` itself on no scope.
abbrev pub scoped_rows : {A : Type 0} → Option (List ℕ) → (List ℕ → A → Bool) → List A → List A
scoped_rows none inside qs = qs
scoped_rows (some []) inside qs = []
scoped_rows (some (i ∷ ids)) inside qs = select (inside (i ∷ ids)) qs

abbrev pub File : Type 0
File = Volunteer × List Assignment

-- No test of `is_active`: a department keeps the files of those who have left it.
unfoldable pub ever_in_departments : List ℕ → File → Bool
ever_in_departments ids (v, assignments) = any (λ a. id_in ids a.role.department) assignments

unfoldable pub scope_volunteers : Directory → Option User → List File → List File
unfolding ever_in_departments
scope_volunteers dir u qs = scoped_rows (scope_department_ids dir u) ever_in_departments qs

unfoldable pub scope_departments : Directory → Option User → List ℕ → List ℕ
scope_departments dir u qs = scoped_rows (scope_department_ids dir u) id_in qs

unfoldable pub scope_roles : Directory → Option User → List Role → List Role
scope_roles dir u qs = scoped_rows (scope_department_ids dir u) (λ ids r. id_in ids r.department) qs

unfoldable pub scope_assignments : Directory → Option User → List Assignment → List Assignment
scope_assignments dir u qs =
    scoped_rows (scope_department_ids dir u) (λ ids a. id_in ids a.role.department) qs

-- All of the trail or none of it.
unfoldable pub scope_audit_events : {A : Type 0} → Directory → Option User → List A → List A
scope_audit_events dir u qs = elim (scope_department_ids dir u) [ none ↦ qs | some _ ↦ [] ]

-- What a scope admits, without lists or tests: everything, or a file with an assignment, current or
-- ended, whose role belongs to one of the departments.
abbrev pub Admits : Option (List ℕ) → File → Type 0
Admits none f = Unit {0}
Admits (some ids) f = (a : Assignment) × Elem a f.1 × Elem a.role.department ids

pub id_in-Elem : (ids : List ℕ) (k : ℕ) → id_in ids k ≡ true → Elem k ids
id_in-Elem ids k h =
    let (i, m, e) = any-Elem (λ i. i == k) ids h in subst (λ n. Elem n ids) ((==_iff i k).0 e) m

pub Elem-id_in : (ids : List ℕ) (k : ℕ) → Elem k ids → id_in ids k ≡ true
Elem-id_in ids k m = Elem-any (λ i. i == k) ids k m ((==_iff k k).1 refl)

pub ever-Admits :
    (ids : List ℕ) (f : File) → (ever_in_departments ids f ≡ true) ↔ Admits (some ids) f
unfolding ever_in_departments
ever-Admits ids (v, l) = (
  λ h. let (a, m, e) = any-Elem _ l h in (a, m, id_in-Elem ids _ e),
  λ h. Elem-any _ l h.0 h.1 (Elem-id_in ids _ h.2),
)

scoped_rows-Elem :
    (scope : Option (List ℕ)) (qs : List File) (f : File)
    → Elem f (scoped_rows scope ever_in_departments qs) ↔ (Elem f qs × Admits scope f)
scoped_rows-Elem none qs f = (λ m. (m, tt), λ h. h.0)
scoped_rows-Elem (some []) qs f = (λ m. absurd m, λ h. absurd h.1.2)
scoped_rows-Elem (some (i ∷ ids)) qs f = (
  λ m. let (n, e) = (Elem-select f _ qs).0 m in (n, (ever-Admits (i ∷ ids) f).0 e),
  λ h. (Elem-select f _ qs).1 (h.0, (ever-Admits (i ∷ ids) f).1 h.1),
)

-- A user is shown exactly the files that their scope admits.
pub scope_volunteers-exact :
    (dir : Directory) (u : Option User) (qs : List File) (f : File)
    → Elem f (scope_volunteers dir u qs) ↔ (Elem f qs × Admits (scope_department_ids dir u) f)
unfolding scope_volunteers
scope_volunteers-exact dir u qs f = scoped_rows-Elem (scope_department_ids dir u) qs f

-- Ending every assignment changes nothing in what a department may see.
pub ever_in_departments-end_all :
    (ids : List ℕ) (v w : Volunteer) (on : Date) (l : List Assignment)
    → ever_in_departments ids (w, end_all on l) ≡ ever_in_departments ids (v, l)
unfolding ever_in_departments end_all
ever_in_departments-end_all ids v w on [] = refl
ever_in_departments-end_all ids v w on (a ∷ l) =
    ground (arith, ever_in_departments-end_all ids v w on l)

scope_without :
    (dir : Directory) (u : User)
    → grant_for dir (some u) ≡ none
    → scope_department_ids dir (some u) ≡ some []
unfolding scope_department_ids
scope_without dir u h = rw h

-- An account with no grant holds no capability and sees no file, no assignment and no audit entry.
pub without_grant :
    {A : Type 0} (dir : Directory) (u : User) (c : Capability) (files : List File)
    (assignments : List Assignment) (trail : List A)
    → grant_for dir (some u) ≡ none
    → (has_capability dir (some u) c ≡ false)
      × (scope_volunteers dir (some u) files ≡ [])
      × (scope_assignments dir (some u) assignments ≡ [])
      × (scope_audit_events dir (some u) trail ≡ [])
unfolding has_capability scope_volunteers scope_assignments scope_audit_events
without_grant dir u c files assignments trail h =
    let nothing = scope_without dir u h in
    (rw h, rw nothing, rw nothing, rw (nothing, scope_audit_events))
