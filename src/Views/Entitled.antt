-- ===== src/Views/Entitled.antt =====
-- Who may have a view change a volunteer's file.
use risk_management.Common.{
  ℕ, ◌≡◌, refl, ap, Bool, true, false, not, Option, none, some, List, [], ◌∷◌, arith, Elem,
  Elem-select, find-Elem, find, ◌==◌, inl, inr,
}
use risk_management.Calendar.{Date}
use risk_management.Org.{Role, Assignment}
use risk_management.Access.{User, Capability, requires, has_capability, scope_department_ids}
use risk_management.Access.Self.{may_record_against, SelfRefusal}
use risk_management.Access.Scope.{
  File, Admits, scoped_rows, ever_in_departments, ever-Admits, scope_volunteers,
  scope_volunteers-exact, scope_assignments, id_in, id_in-Elem,
}
use risk_management.Requirements.Records.{CrcRecord}
use risk_management.Requirements.Progress.{refused}
use risk_management.Tenant.{
  Tenant, Env, Result, Error, ok, raised, ◌>>=◌, ◌>>◌, refuse_if, or_raise,
}
use risk_management.Tenant.Outcome.{
  Returns, ok-Returns, Returns-bind, Returns-chain, Returns-step, Returns-guard, Returns-then,
}
use risk_management.Placement.{
  seen, writable_volunteer, assignment_create, assignment_end, volunteer_reactivate,
}
use risk_management.Placement.Leaving.{volunteer_deactivate}
use risk_management.Placement.Operation.{volunteer_resync}
use risk_management.Views.{
  Method, get, post, other, Page, shown, saved, entered, committed, rows_in_scope, instance_or_404,
  writable_instance_or_404, crc_or_404, writable_crc_or_404,
}
use risk_management.Views.Screening.{
  instance_complete, instance_start, instance_waive, instance_reverse_waiver,
}
use risk_management.Views.Checks.{
  crc_record_create, crc_conviction_add, crc_override, crc_resolve_not_clear,
}
use risk_management.Views.Serve.{
  Request, complete_instance, start_instance, waive_instance, reverse_waiver_of, create_crc_record,
  add_conviction, decide_override, resolve_crc, create_assignment, end_assignment_of,
  deactivate_volunteer, reactivate_volunteer, resync_volunteer, capability_for, posting,
  leaving_page, serve,
}

-- The file is open to the user: they see it, and it is not theirs to leave alone.
pub record Open (env : Env) (u : User) (t : Tenant) : Type 0 where
  pub in_scope : Admits (scope_department_ids env.directory (some u)) (t.volunteer, t.assignments)
  pub may_record : may_record_against env.directory u t.volunteer ≡ none

pub record Granted (env : Env) (u : User) (c : Capability) (t : Tenant) : Type 0 where
  pub holds : has_capability env.directory (some u) c ≡ true
  pub may_write : Open env u t

refused-none : (o : Option SelfRefusal) → refused o ≡ ok tt → o ≡ none
refused-none none e = refl
refused-none (some why) e = ground (arith, e)

entered-holds :
    (env : Env) (u : User) (c : Capability)
    → entered env u c ≡ ok tt
    → has_capability env.directory (some u) c ≡ true
unfolding entered requires
entered-holds env u c e = ground (arith, e)

pub or_raise-ok : {A : Type 0} (e : Error) (o : Option A) (a : A) → or_raise e o ≡ ok a → o ≡ some a
or_raise-ok e none a h = absurd (ground (arith, h))
or_raise-ok e (some x) a h = ap some (ground (arith, h))

scoped-Admits :
    {A : Type 0} (scope : Option (List ℕ)) (f : File) (rows : List A) (x : A)
    → Elem x (scoped_rows scope (λ ids r. ever_in_departments ids f) rows)
    → Admits scope f
scoped-Admits none f rows x m = tt
scoped-Admits (some []) f rows x m = absurd m
scoped-Admits (some (i ∷ ids)) f rows x m =
    (ever-Admits (i ∷ ids) f).0 ((Elem-select x _ rows).0 m).1

placed-Admits :
    (scope : Option (List ℕ)) (f : File) (a : Assignment)
    → Elem a (scoped_rows scope (λ ids a. id_in ids a.role.department) f.1)
    → Admits scope f
placed-Admits none f a m = tt
placed-Admits (some []) f a m = absurd m
placed-Admits (some (i ∷ ids)) f a m =
    let (n, e) = (Elem-select a _ f.1).0 m in (a, n, id_in-Elem (i ∷ ids) a.role.department e)

seen-Elem : {A : Type 0} (l : List A) → seen l ≡ true → (x : A) × Elem x l
seen-Elem [] e = cc
seen-Elem (x ∷ l) e = (x, inl refl)

-- What a page tells, if something is saved with it.
abbrev OnSave : Type 0 → Page → Type 0
OnSave P shown = Unit {0}
OnSave P (saved w) = P

sure : {P : Type 0} → P → (p : Page) → OnSave P p
sure x shown = tt
sure x (saved w) = x

on_save : {P Q : Type 0} (p : Page) → (P → Q) → OnSave P p → OnSave Q p
on_save shown f x = tt
on_save (saved w) f x = f x

two_guards : (m n : Result (Unit {0})) → (m >> n) ≡ ok tt → (m ≡ ok tt) × (n ≡ ok tt)
unfolding ◌>>◌ ◌>>=◌
two_guards (ok tt) n e = (refl, e)
two_guards (raised x) n e = absurd (ground (arith, e))

admitted : (b : Bool) (e : Error) → refuse_if (not b) e ≡ ok tt → b ≡ true
admitted true e h = refl
admitted false e h = absurd (ground (arith, h))

module _ (env : Env) (u : User) (t : Tenant) where
  abbrev Admitted : Type 0
  Admitted = Admits (scope_department_ids env.directory (some u)) (t.volunteer, t.assignments)

  listed-Admits :
      seen (scope_volunteers env.directory (some u) ((t.volunteer, t.assignments) ∷ [])) ≡ true
      → Admitted
  listed-Admits e =
      let (f, m) = seen-Elem _ e in
      let (n, admits) = (scope_volunteers-exact env.directory (some u) _ f).0 m in
      elim n [ inl same ↦ rw same at admits | inr none_such ↦ absurd none_such ]

  abbrev Opens : {A : Type 0} → Result A → Type 0
  Opens m = Returns (λ a. Open env u t) m

  after_lookup :
      {A : Type 0} (m : Result A)
      → ((a : A) → m ≡ ok a → Admitted)
      → Opens (do a ← m; refused (may_record_against env.directory u t.volunteer); ok a)
  after_lookup m admits = Returns-step _ m _ λ a e.
      Returns-guard _ _ _
        λ free. ok-Returns _ _ (record { in_scope = admits a e; may_record = refused-none _ free })

  writable_volunteer-Open : writable_volunteer env u t ≡ ok tt → Open env u t
  unfolding writable_volunteer
  writable_volunteer-Open e =
      let (listed, free) = two_guards _ _ e in
      record { in_scope = listed-Admits (admitted _ _ listed); may_record = refused-none _ free }

  found-Admits :
      {A : Type 0} (p : A → Bool) (rows : List A) (x : A)
      → find p (rows_in_scope env u t rows) ≡ some x
      → Admitted
  unfolding rows_in_scope
  found-Admits p rows x found =
      scoped-Admits (scope_department_ids env.directory (some u)) (t.volunteer, t.assignments) rows
        x (find-Elem p _ x found).0

  instance-Admits : (k : ℕ) → Returns (λ p. Admitted) (instance_or_404 env u k t)
  unfolding instance_or_404
  instance-Admits k =
      Returns-step (λ p. Admitted) _ _
        λ i at.
          Returns-bind (λ p. Admitted) _ _
            λ d.
              ok-Returns (λ p. Admitted) _
                (found-Admits (λ i. i.pk == k) t.instances i (or_raise-ok _ _ i at))

  writable_instance-Open : (k : ℕ) → Opens (writable_instance_or_404 env u k t)
  unfolding writable_instance_or_404
  writable_instance-Open k = after_lookup _ λ p found. (instance-Admits k).at p found

  writable_crc-Open : (k : ℕ) → Opens (writable_crc_or_404 env u k t)
  unfolding writable_crc_or_404 crc_or_404
  writable_crc-Open k = after_lookup _ λ r found.
      found-Admits (λ (r : CrcRecord). r.pk == k) t.crc_records r (or_raise-ok _ _ r found)

  then_any :
      (m : Result (Unit {0})) {A : Type 0} (k : Result A)
      → (m ≡ ok tt → Open env u t)
      → Opens (m >> k)
  then_any m k open_by = Returns-guard _ m k λ e. record { at = λ a h. open_by e }

  place-Open :
      (roles : List Role) (role : ℕ) (on : Option Date)
      → Opens (assignment_create env u roles role on t)
  unfolding assignment_create
  place-Open roles role on = then_any _ _ writable_volunteer-Open

  leave-Open : (on : Option Date) (ends : Bool) → Opens (volunteer_deactivate env u on ends t)
  unfolding volunteer_deactivate
  leave-Open on ends = then_any _ _ writable_volunteer-Open

  return-Open : Opens (volunteer_reactivate env u t)
  unfolding volunteer_reactivate
  return-Open = then_any _ _ writable_volunteer-Open

  resync-Open : Opens (volunteer_resync env u t)
  unfolding volunteer_resync
  resync-Open = then_any _ _ writable_volunteer-Open

  end-Open : (k : ℕ) (on : Option Date) → Opens (assignment_end env u k on t)
  unfolding assignment_end scope_assignments
  end-Open k on = Returns-step _ _ _ λ a at. Returns-guard _ _ _ λ free. ok-Returns _ _ (record {
    in_scope =
        placed-Admits _ (t.volunteer, t.assignments) a (find-Elem _ _ a (or_raise-ok _ _ a at)).0;
    may_record = refused-none _ free;
  })

  abbrev Allowed : Capability → Page → Type 0
  Allowed c = OnSave (Granted env u c t)

  any_page-Allowed :
      (c : Capability) → Granted env u c t → (m : Result Page) → Returns (Allowed c) m
  any_page-Allowed c g m = record { at = λ p e. sure g p }

  -- A view looks up its subject before it does anything.
  looked_up :
      {A : Type 0} (c : Capability) (method : Result (Unit {0})) (m : Result A)
      (view : A → Result Page)
      → Opens m
      → Returns (Allowed c) (entered env u c >> (method >> (m >>= view)))
  looked_up c method m view opens = Returns-guard (Allowed c) _ _ λ held.
      Returns-then (Allowed c) _ _ (
        Returns-chain (λ a. Open env u t) (Allowed c) m view opens
          λ a o.
            any_page-Allowed c (record { holds = entered-holds env u c held; may_write = o })
              (view a))

  looked_up_then :
      (c : Capability) (method m : Result (Unit {0})) (view : Result Page)
      → Opens m
      → Returns (Allowed c) (entered env u c >> (method >> (m >> view)))
  unfolding ◌>>◌
  looked_up_then c method m view opens = looked_up c method m (λ x. view) opens

  writable_first : Opens (writable_volunteer env u t)
  writable_first = record { at = λ a e. writable_volunteer-Open e }

  committed-Open : (m : Result Tenant) → Opens m → Returns (OnSave (Open env u t)) (committed env m)
  unfolding committed
  committed-Open m opens =
      Returns-chain (λ w. Open env u t) (OnSave (Open env u t)) m _ opens
        λ w o. ok-Returns (OnSave (Open env u t)) _ o

  leaving_page-Open :
      (method : Method) (on : Option Date) (ends : Bool)
      → Returns (OnSave (Open env u t)) (leaving_page env u method on ends t)
  unfolding leaving_page
  leaving_page-Open post on ends = committed-Open _ (leave-Open on ends)
  leaving_page-Open get on ends =
      Returns-then _ _ _ (Returns-then _ _ _ (ok-Returns (OnSave (Open env u t)) shown tt))
  leaving_page-Open other on ends = ok-Returns (OnSave (Open env u t)) shown tt

  decorated :
      (c : Capability) (method : Result (Unit {0})) (m : Result Page)
      → Returns (OnSave (Open env u t)) m
      → Returns (Allowed c) (entered env u c >> (method >> m))
  decorated c method m opens = Returns-guard (Allowed c) _ _ λ held.
      Returns-then (Allowed c) _ _ (record {
        at = λ p e.
            on_save p (λ o. record { holds = entered-holds env u c held; may_write = o })
              (opens.at p e);
      })

  posting-Allowed :
      (c : Capability) (method : Method) (m : Result Tenant)
      → Opens m
      → Returns (Allowed c) (posting env u c method m)
  unfolding posting
  posting-Allowed c method m opens = decorated c _ _ (committed-Open m opens)

  serve-Allowed :
      (method : Method) (r : Request)
      → Returns (Allowed (capability_for r)) (serve env u method r t)
  unfolding serve instance_complete instance_start instance_waive instance_reverse_waiver
      crc_record_create crc_conviction_add crc_override crc_resolve_not_clear
  serve-Allowed method (complete_instance k f) = looked_up _ _ _ _ (writable_instance-Open k)
  serve-Allowed method (start_instance k) = looked_up _ _ _ _ (writable_instance-Open k)
  serve-Allowed method (waive_instance k f) = looked_up _ _ _ _ (writable_instance-Open k)
  serve-Allowed method (reverse_waiver_of k f) = looked_up _ _ _ _ (writable_instance-Open k)
  serve-Allowed method (create_crc_record f) = looked_up_then _ _ _ _ writable_first
  serve-Allowed method (add_conviction k f) = looked_up _ _ _ _ (writable_crc-Open k)
  serve-Allowed method (decide_override k f) = looked_up _ _ _ _ (writable_crc-Open k)
  serve-Allowed method (resolve_crc k o) = looked_up _ _ _ _ (writable_crc-Open k)
  serve-Allowed method (create_assignment roles role on) =
      posting-Allowed _ method _ (place-Open roles role on)
  serve-Allowed method (end_assignment_of k on) = posting-Allowed _ method _ (end-Open k on)
  serve-Allowed method (deactivate_volunteer on ends) =
      decorated _ _ _ (leaving_page-Open method on ends)
  serve-Allowed method reactivate_volunteer = posting-Allowed _ method _ return-Open
  serve-Allowed method resync_volunteer = posting-Allowed _ method _ resync-Open

  -- Where one of the thirteen routes of `serve` (completing, starting and waiving a requirement,
  -- reversing a waiver, a check, its convictions, its decision and its outcome, placing and
  -- ending an assignment, and deactivating, reactivating or resyncing a volunteer) saves a change
  -- of the file, it was asked by a user who holds the capability of that route, whose scope
  -- admits the file, and whom the rule on one's own file lets write.
  pub serve-Granted :
      (method : Method) (r : Request) (w : Tenant)
      → serve env u method r t ≡ ok (saved w)
      → Granted env u (capability_for r) t
  serve-Granted method r w e = (serve-Allowed method r).at (saved w) e
