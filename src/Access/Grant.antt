-- ===== src/Access/Grant.antt =====
-- `apply_grant` of apps/core/forms.py: writing a grant, and that nobody hands out more than they
-- hold. An `AccessEscalationError` is `none`.
use risk_management.Common.{
  ℕ, ◌≡◌, ◌≢◌, refl, inl, inr, Bool, true, false, not, Option, none, some, List, [], ◌∷◌, arith,
  all, find, Elem, ◌==◌, ==_iff, ==_refl, if◌then◌else◌, Bool-cases, unguarded, subst,
}
use risk_management.Access.{
  Capability, AccessLevel, User, Directory, UserAccessGrant, grants, covers, grant_for, grant_scope,
  scope_department_ids,
}
use risk_management.Access.Covers.{covers_iff}
use risk_management.Access.Scope.{id_in, id_in-Elem}

-- `update_or_create(user_id=…)` and the departments that are set after it.
unfoldable pub put_grant : UserAccessGrant → List UserAccessGrant → List UserAccessGrant
put_grant g [] = g ∷ []
put_grant g (x ∷ xs) = if x.user_id == g.user_id then g ∷ xs else x ∷ put_grant g xs

-- The two refusals, for a granter with this grant and this scope.
unfoldable pub escalates : UserAccessGrant → Option (List ℕ) → AccessLevel → List ℕ → Bool
escalates by scope level departments =
    if not (covers by.access_level level)
    then true
    else elim scope [ none ↦ false | some ids ↦ not (all (id_in ids) departments) ]

abbrev refused_by : Option UserAccessGrant → Option (List ℕ) → AccessLevel → List ℕ → Bool
refused_by none scope level departments = false
refused_by (some by) scope level departments = escalates by scope level departments

abbrev pub new_grant : ℕ → AccessLevel → List ℕ → UserAccessGrant
new_grant subject level departments = record {
  user_id = subject;
  access_level = level;
  departments = if level.is_scoped then departments else [];
}

unfoldable pub apply_grant : Directory → Option User → ℕ → AccessLevel → List ℕ → Option Directory
unfolding escalates
apply_grant dir granted_by subject level departments =
    if refused_by (grant_for dir granted_by) (scope_department_ids dir granted_by) level departments
    then none
    else some (record dir { grants = put_grant (new_grant subject level departments) dir.grants })

pub put_grant_self : (g : UserAccessGrant) (l : List UserAccessGrant) → Elem g (put_grant g l)
unfolding put_grant
put_grant_self g [] = inl refl
put_grant_self g (x ∷ xs) = elim (Bool-cases (x.user_id == g.user_id)) [
  | inl e ↦ rw e (inl refl)
  | inr e ↦ rw e (inr (put_grant_self g xs))
]

pub put_grant_other :
    (g x : UserAccessGrant) (l : List UserAccessGrant)
    → x.user_id ≢ g.user_id
    → Elem x l
    → Elem x (put_grant g l)
unfolding put_grant
put_grant_other g x [] ne m = absurd m
put_grant_other g x (y ∷ ys) ne m = elim (Bool-cases (y.user_id == g.user_id)) [
  | inl e ↦ rw e (elim m [ inl q ↦ absurd (ne (rw q ((==_iff _ _).0 e))) | inr n ↦ inr n ])
  | inr e ↦ rw e (elim m [ inl q ↦ inl q | inr n ↦ inr (put_grant_other g x ys ne n) ])
]

pub find-put_grant :
    (g : UserAccessGrant) (l : List UserAccessGrant)
    → find (λ x. x.user_id == g.user_id) (put_grant g l) ≡ some g
unfolding put_grant
find-put_grant g [] = rw ==_refl
find-put_grant g (x ∷ xs) = elim (Bool-cases (x.user_id == g.user_id)) [
  | inl e ↦ rw (e, ==_refl)
  | inr e ↦ rw (e, e) (find-put_grant g xs)
]

-- No capability that the granter's level lacks; and for a granter limited to departments, a limited
-- level and no department outside theirs.
abbrev pub Within : UserAccessGrant → UserAccessGrant → Type 0
Within by given =
    ((c : Capability) → grants given.access_level c ≡ true → grants by.access_level c ≡ true)
    × (by.access_level.is_scoped ≡ true
        → (given.access_level.is_scoped ≡ true)
          × ((d : ℕ) → Elem d given.departments → Elem d by.departments))

all-Elem : (p : ℕ → Bool) (l : List ℕ) → all p l ≡ true → (d : ℕ) → Elem d l → p d ≡ true
all-Elem p [] h d m = absurd m
all-Elem p (x ∷ xs) h d (inl e) = rw e (ground arith)
all-Elem p (x ∷ xs) h d (inr m) = all-Elem p xs (ground arith) d m

escalates-Within :
    (by : UserAccessGrant) (subject : ℕ) (level : AccessLevel) (departments : List ℕ)
    → escalates by (grant_scope (some by)) level departments ≡ false
    → Within by (new_grant subject level departments)
unfolding escalates
escalates-Within by subject level departments h =
    let covered : covers by.access_level level ≡ true = ground (arith, h) in
    let (held, narrower) = (covers_iff by.access_level level).0 covered in
    (held, λ s. (narrower s, rw (narrower s) (inside s)))
  where
    kept : by.access_level.is_scoped ≡ true → all (id_in by.departments) departments ≡ true
    kept s = ground (arith, h, s)

    inside : by.access_level.is_scoped ≡ true → (d : ℕ) → Elem d departments → Elem d by.departments
    inside s d m =
        id_in-Elem by.departments d (all-Elem (id_in by.departments) departments (kept s) d m)

-- After a grant written on behalf of an administrator, the subject holds a grant that lies within
-- what the administrator holds.
pub apply_grant-Within :
    (dir dir' : Directory) (u : User) (by : UserAccessGrant) (subject : ℕ) (level : AccessLevel)
    (departments : List ℕ)
    → grant_for dir (some u) ≡ some by
    → apply_grant dir (some u) subject level departments ≡ some dir'
    → (given : UserAccessGrant) × (find (λ g. g.user_id == subject) dir'.grants ≡ some given)
      × Within by given
unfolding apply_grant scope_department_ids
apply_grant-Within dir dir' u by subject level departments held e =
    let (allowed, result) = unguarded (escalates by _ level departments) _ (rw held at e) in
    let given = new_grant subject level departments in
    (
      given,
      subst (λ d. find (λ g. g.user_id == subject) d.grants ≡ some given) result
          (find-put_grant given dir.grants),
      escalates-Within by subject level departments allowed,
    )
