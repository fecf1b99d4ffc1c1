-- ===== src/Access/Guards.antt =====
-- `would_strand_the_church` of apps/core/access.py, and that it keeps somebody who can manage
-- access through the two changes that it guards.
use risk_management.Common.{
  ℕ, ◌≡◌, ◌≢◌, inl, inr, Bool, true, false, not, ◌&&◌, none, List, [], ◌∷◌, arith, Elem, any-Elem,
  Elem-select, ◌==◌, ==_iff, if◌then◌else◌, Bool-cases, Elem-map, sym, ◌∙◌,
}
use risk_management.Access.{AccessLevel, User, Directory, UserAccessGrant, active_user_in, grantees}
use risk_management.Access.Grant.{put_grant, put_grant_self, put_grant_other, new_grant}

abbrev pub manages_access : UserAccessGrant → Bool
manages_access g =
    not g.access_level.is_scoped && (g.access_level.can_manage_users && g.access_level.is_active)

-- True where the change is refused.
unfoldable pub would_strand_the_church : Directory → ℕ → AccessLevel → Bool
would_strand_the_church dir subject new_level =
    if not new_level.is_scoped && new_level.can_manage_users
    then false
    else not
        (active_user_in dir (grantees (λ g. manages_access g && not (g.user_id == subject)) dir))

-- `no_access_level`: the stand-in level for "what if this person were gone?".
abbrev pub no_access_level : AccessLevel
no_access_level = record {
  pk = none;
  is_builtin = false;
  is_scoped = true;
  is_active = true;
  can_view_volunteers = true;
  can_edit_volunteers = false;
  can_manage_assignments = false;
  can_record_screening = false;
  can_record_crc = false;
  can_manage_org = false;
  can_manage_requirements = false;
  can_view_audit = false;
  can_manage_users = false;
}

-- `user.is_active = False; user.save()`
unfoldable pub deactivated : ℕ → List User → List User
deactivated subject [] = []
deactivated subject (u ∷ us) =
    (if u.pk == subject then record u { is_active = false } else u) ∷ deactivated subject us

pub deactivated-Elem :
    (subject : ℕ) (u : User) (l : List User)
    → u.pk ≢ subject
    → Elem u l
    → Elem u (deactivated subject l)
unfolding deactivated
deactivated-Elem subject u [] ne m = m
deactivated-Elem subject u (x ∷ xs) ne (inl e) =
    inl (ground (arith, e, λ (p : u.pk ≡ subject). ne p))
deactivated-Elem subject u (x ∷ xs) ne (inr m) = inr (deactivated-Elem subject u xs ne m)

abbrev pub deactivate : ℕ → Directory → Directory
deactivate subject dir = record dir { users = deactivated subject dir.users }

-- Some active account holds an active level that manages access for the whole church.
abbrev pub HasManager : Directory → Type 0
HasManager dir =
    (u : User) × Elem u dir.users
    × (u.is_active ≡ true)
    × ((g : UserAccessGrant) × Elem g dir.grants × (g.user_id ≡ u.pk) × (manages_access g ≡ true))

-- What a guard that lets the change pass has found.
pub and_left : (a b : Bool) → (a && b) ≡ true → a ≡ true
and_left a b h = ground arith

pub and_right : (a b : Bool) → (a && b) ≡ true → b ≡ true
and_right a b h = ground arith

pub differs : (a : Bool) (m n : ℕ) → (a && not (m == n)) ≡ true → m ≢ n
differs a m n h e = ground (arith, h, e)

abbrev OtherManager : Directory → ℕ → Type 0
OtherManager dir subject =
    (u : User) × Elem u dir.users
    × (u.is_active ≡ true)
    × ((g : UserAccessGrant) × Elem g dir.grants
        × (g.user_id ≡ u.pk)
        × (manages_access g ≡ true)
        × (g.user_id ≢ subject))

found :
    (dir : Directory) (subject : ℕ)
    → active_user_in dir (grantees (λ g. manages_access g && not (g.user_id == subject)) dir) ≡ true
    → OtherManager dir subject
found dir subject h =
    let (u, mu, hu) = any-Elem _ dir.users h in
    let (i, mi, hi) = any-Elem (λ k. u.pk == k) _ (and_right u.is_active _ hu) in
    let (g, mg, eg) = Elem-map _ _ i mi in
    let (ng, hg) = (Elem-select g _ dir.grants).0 mg in
    (
      u,
      mu,
      and_left _ _ hu,
      (g, ng, eg ∙ sym ((==_iff _ _).0 hi), and_left _ _ hg, differs _ _ _ hg),
    )

module _ (dir : Directory) (subject : ℕ) (level : AccessLevel) where
  -- A change of level that the guard lets pass leaves somebody who manages access for the whole
  -- church, if somebody did before and the new level is active.
  pub put_grant-HasManager :
      (departments : List ℕ)
      → level.is_active ≡ true
      → HasManager dir
      → would_strand_the_church dir subject level ≡ false
      → HasManager
          (record dir { grants = put_grant (new_grant subject level departments) dir.grants })
  unfolding would_strand_the_church
  put_grant-HasManager departments active (u, mu, au, (g, mg, eg, hg)) passed =
      elim (Bool-cases (not level.is_scoped && level.can_manage_users)) [
        | inl q ↦ elim (Bool-cases (g.user_id == subject)) [
          | inl same ↦ (
            u,
            mu,
            au,
            (
              new_grant subject level departments,
              put_grant_self _ dir.grants,
              sym ((==_iff _ _).0 same) ∙ eg,
              ground (arith, q, active),
            ),
          )
          | inr other ↦ (
            u,
            mu,
            au,
            (g, put_grant_other _ g dir.grants (λ e. ground (arith, other, e)) mg, eg, hg),
          )
        ]
        | inr q ↦
            let (w, mw, aw, (k, mk, ek, hk, nk)) = found dir subject (ground (arith, passed, q)) in
            (w, mw, aw, (k, put_grant_other _ k dir.grants nk mk, ek, hk))
      ]

-- Deactivating an account that the guard lets go leaves somebody who manages access for the whole
-- church.
pub deactivate-HasManager :
    (dir : Directory) (subject : ℕ)
    → would_strand_the_church dir subject no_access_level ≡ false
    → HasManager (deactivate subject dir)
unfolding would_strand_the_church
deactivate-HasManager dir subject passed =
    let (w, mw, aw, (k, mk, ek, hk, nk)) = found dir subject (ground (arith, passed)) in
    (w, deactivated-Elem subject w dir.users (λ e. nk (ek ∙ e)) mw, aw, (k, mk, ek, hk))
