-- ===== src/Admins/Managed.antt =====
-- Who is left to manage access, and to review, after the pages on administrators.
use risk_management.Common.{
  ℕ, ◌≡◌, refl, sym, ◌∙◌, ap, subst, inl, inr, Bool, true, false, Option, none, some, List, arith,
  Bool-cases, some_inj, no_value, unguarded, if◌then◌else◌, all, find-Elem, Elem, Elem-select,
  Elem-map, map-Elem, any-Elem, Elem-any, ◌==◌, ==_iff, ==_refl,
}
use risk_management.Access.{AccessLevel, User, UserAccessGrant, Directory, active_user_in, grantees}
use risk_management.Access.Scope.{id_in}
use risk_management.Access.Grant.{apply_grant, put_grant, new_grant}
use risk_management.Access.Guards.{
  manages_access, would_strand_the_church, no_access_level, HasManager, put_grant-HasManager,
  deactivate-HasManager, and_left, and_right,
}
use risk_management.Tenant.{Env, Result, Error, ok, raised, refuse_if, ◌>>=◌, ◌>>◌}
use risk_management.Tenant.Outcome.{
  Returns, ok-Returns, Returns-bind, Returns-step, Returns-guard, Returns-then,
}
use risk_management.Views.Entitled.{or_raise-ok}
use risk_management.Admins.{offered_departments, Console, offered_levels, access_grant_form, chosen}
use risk_management.Admins.Pages.{
  admin_access, may_deactivate, reactivated, toggled, admin_toggle_active, admin_link_volunteer,
  admin_create_volunteer, access_level_create, AdminRequest, change_access, toggle_active,
  link_volunteer, create_volunteer, create_level, edit_level, administer,
}

-- Some active account has a grant of this kind.
abbrev pub Serving : (UserAccessGrant → Bool) → Directory → Type 0
Serving p dir =
    (w : User) × Elem w dir.users
    × (w.is_active ≡ true)
    × ((g : UserAccessGrant) × Elem g dir.grants × (g.user_id ≡ w.pk) × (p g ≡ true))

pub active_user-Serving :
    (p : UserAccessGrant → Bool) (dir : Directory)
    → active_user_in dir (grantees p dir) ≡ true
    → Serving p dir
active_user-Serving p dir h =
    let (w, mw, hw) = any-Elem _ dir.users h in
    let (i, mi, hi) = any-Elem (λ k. w.pk == k) _ (and_right w.is_active _ hw) in
    let (g, mg, eg) = Elem-map _ _ i mi in
    let (ng, hg) = (Elem-select g p dir.grants).0 mg in
    (w, mw, and_left _ _ hw, (g, ng, eg ∙ sym ((==_iff _ _).0 hi), hg))

pub Serving-active_user :
    (p : UserAccessGrant → Bool) (dir : Directory)
    → Serving p dir
    → active_user_in dir (grantees p dir) ≡ true
Serving-active_user p dir (w, mw, aw, (g, mg, eg, hg)) = Elem-any _ dir.users w mw (
    rw aw (
      Elem-any (λ k. w.pk == k) _ g.user_id
        (map-Elem (λ (g : UserAccessGrant). g.user_id) _ g
          ((Elem-select g p dir.grants).1 (mg, hg)))
        (rw eg (==_refl w.pk))))

pub reactivated-Serving :
    (p : UserAccessGrant → Bool) (k : ℕ) (dir : Directory)
    → Serving p dir
    → Serving p (record dir { users = reactivated k dir.users })
reactivated-Serving p k dir (w, mw, aw, (g, mg, eg, hg)) =
    let m =
      map-Elem (λ (u : User). if u.pk == k then record u { is_active = true } else u) _ w mw in
    elim (Bool-cases (w.pk == k)) [
      | inl e ↦ (record w { is_active = true }, rw e at m, refl, (g, mg, eg, hg))
      | inr e ↦ (w, rw e at m, aw, (g, mg, eg, hg))
    ]

chosen-some :
    (offered departments given : List ℕ) (o : Option AccessLevel) (level : AccessLevel)
    → chosen offered departments o ≡ some (level, given)
    → o ≡ some level
chosen-some offered departments given none level h = absurd (no_value h)
chosen-some offered departments given (some l) level h =
    elim (Bool-cases (all (id_in offered) departments)) [
      | inl e ↦
          let q : (l, departments) ≡ (level, given) = some_inj (rw e at h) in
          ap (λ (x : AccessLevel × List ℕ). some x.0) q
      | inr e ↦ absurd (no_value (rw e at h))
    ]

access_grant_form-active :
    (c : Console) (u : User) (k : ℕ) (keys : List ℕ) (level : AccessLevel) (departments : List ℕ)
    → access_grant_form c u k keys ≡ some (level, departments)
    → level.is_active ≡ true
unfolding access_grant_form offered_levels
access_grant_form-active c u k keys level departments h =
    let m =
      (find-Elem _ (offered_levels c u) level
        (chosen-some (offered_departments c u) keys departments _ level h)).0 in
    ((Elem-select level _ c.levels).0 ((Elem-select level _ _).0 m).0).1

apply_grant-put :
    (dir dir' : Directory) (by : Option User) (subject : ℕ) (level : AccessLevel)
    (departments : List ℕ)
    → apply_grant dir by subject level departments ≡ some dir'
    → record dir { grants = put_grant (new_grant subject level departments) dir.grants } ≡ dir'
unfolding apply_grant
apply_grant-put dir dir' by subject level departments h = (unguarded _ _ h).1

pub refuse_if-ok : (b : Bool) (e : Error) {x : Unit {0}} → refuse_if b e ≡ ok x → b ≡ false
refuse_if-ok true e h = absurd (ground (arith, h))
refuse_if-ok false e h = refl

second_guard : (m n k : Result (Unit {0})) {x : Unit {0}} → (m >> (n >> k)) ≡ ok x → n ≡ ok tt
unfolding ◌>>◌ ◌>>=◌
second_guard (ok a) (ok b) k h = refl
second_guard (ok a) (raised e) k h = absurd (ground (arith, h))
second_guard (raised e) n k h = absurd (ground (arith, h))

may_deactivate-manager :
    (u subject : User) (c : Console)
    → may_deactivate u subject c ≡ ok tt
    → would_strand_the_church c.directory subject.pk no_access_level ≡ false
unfolding may_deactivate
may_deactivate-manager u subject c h = refuse_if-ok _ _ (second_guard _ _ _ h)

-- A deactivation, or the reactivation of an account, where the first leaves somebody.
pub toggled-Serving :
    (p : UserAccessGrant → Bool) (env : Env) (subject : User) (c : Console) (active : Bool)
    (m : Result Console)
    → Serving p c.directory
    → Returns (λ w. Serving p w.directory) m
    → Returns (λ w. Serving p w.directory) (toggled env subject c active m)
toggled-Serving p env subject c true m s left = left
toggled-Serving p env subject c false m s left =
    ok-Returns (λ w. Serving p w.directory) _ (reactivated-Serving p subject.pk c.directory s)

-- Every page but the one that edits a level.
abbrev pub leaves_levels : AdminRequest → Bool
leaves_levels (edit_level k fields) = false
leaves_levels _ = true

module _ (env : Env) (u : User) (c : Console) where
  abbrev Managed : Console → Type 0
  Managed w = HasManager w.directory

  access-Managed :
      (k level : ℕ) (departments : List ℕ)
      → HasManager c.directory
      → Returns Managed (admin_access env u k level departments c)
  unfolding admin_access
  access-Managed k level departments manager = Returns-then Managed _ _ (
      Returns-bind Managed _ _ λ subject. Returns-step Managed _ _ λ q e.
        Returns-guard Managed _ _ λ at. Returns-step Managed _ _ λ dir given. ok-Returns Managed _ (
          subst HasManager
            (apply_grant-put c.directory dir _ subject.pk q.0 q.1 (or_raise-ok _ _ dir given))
            (put_grant-HasManager c.directory subject.pk q.0 q.1
              (access_grant_form-active c u level departments q.0 q.1 (or_raise-ok _ _ q e)) manager
              (refuse_if-ok _ _ at))))

  toggle-Managed :
      (k : ℕ) → HasManager c.directory → Returns Managed (admin_toggle_active env u k c)
  unfolding admin_toggle_active
  toggle-Managed k manager = Returns-then Managed _ _ (
      Returns-bind Managed _ _ λ subject. Returns-then Managed _ _ (
        toggled-Serving manages_access env subject c subject.is_active _ manager (
          Returns-guard Managed _ _ λ e.
            ok-Returns Managed _ (
              deactivate-HasManager c.directory subject.pk
                (may_deactivate-manager u subject c e)))))

  page-Managed :
      (r : AdminRequest)
      → leaves_levels r ≡ true
      → HasManager c.directory
      → Returns Managed (administer env u r c)
  unfolding administer admin_link_volunteer admin_create_volunteer access_level_create
  page-Managed (change_access k level departments) l manager =
      access-Managed k level departments manager
  page-Managed (toggle_active k) l manager = toggle-Managed k manager
  page-Managed (link_volunteer k v) l manager = Returns-then Managed _ _ (
      Returns-bind Managed _ _ λ subject.
        Returns-bind Managed _ _ λ v. Returns-then Managed _ _ (ok-Returns Managed _ manager))
  page-Managed (create_volunteer k) l manager =
      Returns-then Managed _ _ (
        Returns-bind Managed _ _ λ subject. Returns-then Managed _ _ (ok-Returns Managed _ manager))
  page-Managed (create_level fields) l manager =
      Returns-then Managed _ _ (Returns-bind Managed _ _ λ level. ok-Returns Managed _ manager)
  page-Managed (edit_level k fields) l manager = absurd (ground (arith, l))

-- Requests to the pages that succeed, one after the other, each with its own user and moment; none
-- of them edits a level.
pub data Requests : Console → Console → Type 0 where
  no_more : {c : Console} → Requests c c
  first :
      {c d e : Console} (env : Env) (u : User) (r : AdminRequest)
      → leaves_levels r ≡ true
      → administer env u r c ≡ ok d
      → Requests d e
      → Requests c e

-- As long as no level is edited, no series of requests to these pages takes from the church the
-- last active account that manages access for the whole of it.
pub requests-HasManager :
    (c d : Console) → Requests c d → HasManager c.directory → HasManager d.directory
requests-HasManager c d no_more manager = manager
requests-HasManager c d (first {d = w} env u r l done rest) manager =
    requests-HasManager w d rest ((page-Managed env u c r l manager).at w done)
