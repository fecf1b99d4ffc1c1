-- ===== src/Admins/Backlog.antt =====
-- What `own_review_backlog_unlocked_by_removing` of apps/core/access.py keeps.
use risk_management.Common.{
  ℕ, ◌≡◌, refl, ◌∙◌, inl, inr, Bool, true, false, not, ◌&&◌, ◌||◌, some, List, arith, Bool-cases,
  same_id, any, Elem, Elem-any, ◌==◌, ==_refl,
}
use risk_management.Access.{
  User, Directory, active_user_in, grantees, sees_whole_church, another_unscoped_admin_exists,
  is_unscoped,
}
use risk_management.Access.Guards.{deactivated, deactivated-Elem, deactivate}
use risk_management.Audit.{deactivate as deactivation, user}
use risk_management.Review.{ReviewItem, is_open}
use risk_management.Tenant.{Env, Result, ok, raised, ◌>>=◌, ◌>>◌}
use risk_management.Tenant.Outcome.{Returns, ok-Returns, Returns-bind, Returns-guard, Returns-then}
use risk_management.Admins.{recorded, Console, own_review_backlog_unlocked_by_removing}
use risk_management.Admins.Pages.{
  may_deactivate, with_users, toggled, admin_toggle_active, toggle_active, administer,
}
use risk_management.Admins.Managed.{
  Serving, active_user-Serving, Serving-active_user, toggled-Serving, refuse_if-ok,
}

-- Another account that sees the whole church, besides `k`.
abbrev OtherReviewer : ℕ → Directory → Type 0
OtherReviewer k dir = Serving (λ g. sees_whole_church g && not (g.user_id == k)) dir

another-OtherReviewer :
    (dir : Directory) (k : ℕ)
    → another_unscoped_admin_exists dir k ≡ true
    → (dir.on_public_schema ≡ false) × OtherReviewer k dir
unfolding another_unscoped_admin_exists
another-OtherReviewer dir k h = elim (Bool-cases dir.on_public_schema) [
  | inl e ↦ absurd (ground (arith, rw e at h))
  | inr e ↦ (e, active_user-Serving _ dir (rw e at h))
]

OtherReviewer-another :
    (dir : Directory) (k : ℕ)
    → dir.on_public_schema ≡ false
    → OtherReviewer k dir
    → another_unscoped_admin_exists dir k ≡ true
unfolding another_unscoped_admin_exists
OtherReviewer-another dir k church other = rw church (Serving-active_user _ dir other)

-- Somebody who serves neither as the one nor as the other is left when the second is deactivated.
neither_left :
    (dir : Directory) (a b : ℕ)
    → Serving (λ g. sees_whole_church g && not ((g.user_id == a) || (g.user_id == b))) dir
    → OtherReviewer a (deactivate b dir)
neither_left dir a b (w, mw, aw, (g, mg, eg, hg)) = (
  w,
  deactivated-Elem b w dir.users (λ q. ground (arith, hg, eg ∙ q)) mw,
  aw,
  (g, mg, eg, ground (arith, hg)),
)

abbrev third_reviewer : Directory → ℕ → ℕ → Bool
third_reviewer dir a b =
    active_user_in dir
      (grantees (λ g. sees_whole_church g && not ((g.user_id == a) || (g.user_id == b))) dir)

abbrev own_entries : List ReviewItem → ℕ → Bool
own_entries reviews k =
    any (λ i. is_open i.status && same_id i.recorded_by_user_id (some k)) reviews

some_entry :
    (reviews : List ReviewItem) (k : ℕ) (i : ReviewItem)
    → Elem i reviews
    → is_open i.status ≡ true
    → i.recorded_by_user_id ≡ some k
    → own_entries reviews k ≡ true
some_entry reviews k i m open_item mine = Elem-any _ reviews i m (rw (open_item, mine) (==_refl k))

guard_third :
    (dir : Directory) (reviews : List ReviewItem) (u : User) (subject : ℕ)
    → (subject == u.pk) ≡ false
    → is_unscoped dir (some u) ≡ true
    → own_entries reviews u.pk ≡ true
    → own_review_backlog_unlocked_by_removing dir reviews u subject ≡ false
    → third_reviewer dir u.pk subject ≡ true
unfolding own_review_backlog_unlocked_by_removing
guard_third dir reviews u subject other unscoped entries passed =
    let different : (u.pk == subject) ≡ false = ground (arith, other) in
    elim (Bool-cases (third_reviewer dir u.pk subject)) [
      | inl e ↦ e
      | inr e ↦ cc (rw (different, unscoped, e) at passed, entries)
    ]

third_guard : (m n k : Result (Unit {0})) {x : Unit {0}} → (m >> (n >> k)) ≡ ok x → k ≡ ok tt
unfolding ◌>>◌ ◌>>=◌
third_guard (ok a) (ok b) k h = h
third_guard (ok a) (raised e) k h = absurd (ground (arith, h))
third_guard (raised e) n k h = absurd (ground (arith, h))

may_deactivate-backlog :
    (u subject : User) (c : Console)
    → may_deactivate u subject c ≡ ok tt
    → own_review_backlog_unlocked_by_removing c.directory c.reviews u subject.pk ≡ false
unfolding may_deactivate
may_deactivate-backlog u subject c h = refuse_if-ok _ _ (third_guard _ _ _ h)

module _ (env : Env) (u : User) (c : Console) where
  abbrev Reviewed : Console → Type 0
  Reviewed w = OtherReviewer u.pk w.directory

  toggle-Reviewed :
      (k : ℕ)
      → is_unscoped c.directory (some u) ≡ true
      → own_entries c.reviews u.pk ≡ true
      → Reviewed c
      → Returns Reviewed (admin_toggle_active env u k c)
  unfolding admin_toggle_active
  toggle-Reviewed k unscoped entries other = Returns-then Reviewed _ _ (
      Returns-bind Reviewed _ _ λ subject. Returns-guard Reviewed _ _ λ apart.
        toggled-Serving (λ g. sees_whole_church g && not (g.user_id == u.pk)) env subject c
          subject.is_active _ other
          (Returns-guard Reviewed _ _ λ e. ok-Returns Reviewed _ (
            neither_left c.directory u.pk subject.pk (
              active_user-Serving _ c.directory (
                guard_third c.directory c.reviews u subject.pk (refuse_if-ok _ _ apart) unscoped
                  entries (may_deactivate-backlog u subject c e))))))

  toggle-church :
      (k : ℕ)
      → Returns
          (λ w. w.directory.on_public_schema ≡ c.directory.on_public_schema)
          (admin_toggle_active env u k c)
  unfolding admin_toggle_active
  toggle-church k =
      Returns-then _ _ _
        (Returns-bind _ _ _ λ subject. Returns-then _ _ _ (kept subject subject.is_active))
    where
      kept :
          (subject : User) (active : Bool)
          → Returns
              (λ w. w.directory.on_public_schema ≡ c.directory.on_public_schema)
              (toggled env subject c active (do
                may_deactivate u subject c
                ok (
                    recorded env deactivation user subject.pk
                      (with_users (deactivated subject.pk c.directory.users) c))))
      kept subject true = Returns-then _ _ _ (ok-Returns _ _ refl)
      kept subject false = ok-Returns _ _ refl

  -- An administrator who sees the whole church, with an entry of their own in the review queue that
  -- another one has to decide, cannot switch accounts off until there is no other: somebody else who
  -- can decide it is left.
  pub toggle-another_unscoped_admin_exists :
      (k : ℕ) (i : ReviewItem) (d : Console)
      → is_unscoped c.directory (some u) ≡ true
      → another_unscoped_admin_exists c.directory u.pk ≡ true
      → Elem i c.reviews
      → is_open i.status ≡ true
      → i.recorded_by_user_id ≡ some u.pk
      → administer env u (toggle_active k) c ≡ ok d
      → another_unscoped_admin_exists d.directory u.pk ≡ true
  unfolding administer
  toggle-another_unscoped_admin_exists k i d unscoped another m open_item mine done =
      let (church, other) = another-OtherReviewer c.directory u.pk another in
      OtherReviewer-another d.directory u.pk ((toggle-church k).at d done ∙ church) (
        (toggle-Reviewed k unscoped (some_entry c.reviews u.pk i m open_item mine) other).at d done)
