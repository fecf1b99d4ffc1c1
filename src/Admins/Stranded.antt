-- ===== src/Admins/Stranded.antt =====
-- Editing a level, in apps/accounts/views.py, and who is left to manage access.
use risk_management.Common.{
  ℕ, ◌≡◌, refl, sym, ap, subst, inl, inr, true, false, Option, none, some, map, arith, Bool-cases,
  same_id, find, find-Elem, Elem, Elem-map, ◌==◌, ==_iff,
}
use risk_management.Access.{
  Capability, view_volunteers, edit_volunteers, manage_assignments, record_screening, record_crc,
  manage_org, manage_requirements, view_audit, manage_users, grants, covers, level_refused,
  AccessLevel, User, UserAccessGrant, Directory, grant_for,
}
use risk_management.Access.Covers.{covers_iff}
use risk_management.Access.Guards.{manages_access, HasManager}
use risk_management.Tenant.{Env, ok, ◌>>=◌, ◌>>◌}
use risk_management.Admins.{Console, manages_users, filled}
use risk_management.Admins.Pages.{
  access_level_form, regraded, with_level, access_level_edit, edit_level, administer,
}

same_id-eq : (o : Option ℕ) (k : ℕ) → same_id o (some k) ≡ true → o ≡ some k
same_id-eq none k h = cc
same_id-eq (some i) k h = ap some ((==_iff i k).0 h)

regraded-manages :
    (level : AccessLevel) (g : UserAccessGrant)
    → level.can_manage_users ≡ false
    → manages_access (regraded level g) ≡ true
    → (manages_access g ≡ true) × (same_id g.access_level.pk level.pk ≡ false)
regraded-manages level g lost h = elim (Bool-cases (same_id g.access_level.pk level.pk)) [
  | inl e ↦ absurd (ground (arith, rw e at h, lost))
  | inr e ↦ (rw e at h, e)
]

nobody_left :
    (k : ℕ) (old fields : AccessLevel) (dir : Directory)
    → fields.can_manage_users ≡ false
    → old.pk ≡ some k
    → ((g : UserAccessGrant)
        → Elem g dir.grants
        → manages_access g ≡ true
        → g.access_level.pk ≡ some k)
    → HasManager (record dir { grants = map (regraded (filled old fields)) dir.grants })
    → ⊥
nobody_left k old fields dir lost key held (w, mw, aw, (g, mg, eg, hg)) =
    let (h, mh, same) = Elem-map (regraded (filled old fields)) dir.grants g mg in
    let (manages, other) =
      regraded-manages (filled old fields) h lost
        (subst (λ (x : UserAccessGrant). manages_access x ≡ true) (sym same) hg) in
    let no_match : (k == k) ≡ false = rw (held h mh manages, key) at other in
    ground (arith, no_match)

-- The same level without the right to manage administrators, as it is posted.
abbrev pub weaker : AccessLevel → AccessLevel
weaker old = record old { can_manage_users = false }

-- A level covers itself with a box less.
covers-weaker : (old : AccessLevel) → covers old (filled old (weaker old)) ≡ true
unfolding grants
covers-weaker old = (covers_iff old (filled old (weaker old))).1 (kept_boxes, λ h. h)
  where
    kept_boxes : (c : Capability) → grants (filled old (weaker old)) c ≡ true → grants old c ≡ true
    kept_boxes view_volunteers h = h
    kept_boxes edit_volunteers h = h
    kept_boxes manage_assignments h = h
    kept_boxes record_screening h = h
    kept_boxes record_crc h = h
    kept_boxes manage_org h = h
    kept_boxes manage_requirements h = h
    kept_boxes view_audit h = h
    kept_boxes manage_users h = cc

-- The form takes it from somebody who holds that level.
takes-weaker :
    (c : Console) (u : User) (g : UserAccessGrant)
    → grant_for c.directory (some u) ≡ some g
    → level_refused g.access_level ≡ false
    → access_level_form c u (filled g.access_level (weaker g.access_level))
      ≡ some (filled g.access_level (weaker g.access_level))
unfolding access_level_form level_refused
takes-weaker c u g own clean = rw (clean, own, covers-weaker g.access_level) refl

pub access_level_edit-strands :
    (env : Env) (u : User) (k : ℕ) (g : UserAccessGrant) (c : Console)
    → manages_users c u ≡ ok tt
    → grant_for c.directory (some u) ≡ some g
    → find (λ (l : AccessLevel). same_id l.pk (some k)) c.levels ≡ some g.access_level
    → level_refused g.access_level ≡ false
    → ((h : UserAccessGrant)
        → Elem h c.directory.grants
        → manages_access h ≡ true
        → h.access_level.pk ≡ some k)
    → (d : Console) × (administer env u (edit_level k (weaker g.access_level)) c ≡ ok d)
      × (HasManager d.directory → ⊥)
unfolding administer access_level_edit ◌>>=◌ ◌>>◌
access_level_edit-strands env u k g c may own found clean held =
    let taken = takes-weaker c u g own clean in
    let key = same_id-eq g.access_level.pk k (find-Elem _ c.levels g.access_level found).1 in
    (
      with_level env k (filled g.access_level (weaker g.access_level)) c,
      rw (may, found, taken) refl,
      nobody_left k g.access_level (weaker g.access_level) c.directory refl key held,
    )
