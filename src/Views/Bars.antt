-- ===== src/Views/Bars.antt =====
-- Posting a conviction of an automatic category: the page that bars a volunteer for good.
use risk_management.Common.{
  ℕ, ◌≡◌, refl, sym, ◌∙◌, ap, Bool, true, false, not, Option, none, some, List, [], ◌∷◌, ◌++◌,
  arith, if◌then◌else◌, inl, inr, Option-cases, no_value, select, is_blank, Bool-cases, String,
  Elem,
}
use text.Mathlib.Text.{◌==◌ as same_text}
use risk_management.Access.{
  User, Directory, record_crc, has_capability, grant_for, requires, scope_department_ids,
}
use risk_management.Access.Self.{
  may_record_against, refuse_self_recording, actor_from_request, service_refusal_is_view_refusal,
}
use risk_management.Access.Scope.{File, Admits, scoped_rows, ever_in_departments, ever-Admits}
use risk_management.Requirements.Records.{CrcRecord, not_clear, is_cleared}
use risk_management.Requirements.Progress.{refuse_self}
use risk_management.Requirements.Decisions.{
  ConvictionEntry, conviction_row, conviction_rows, record_convictions, crc_record_at,
}
use risk_management.Requirements.Forms.{
  automatic_categories, discretionary_choices, is_among, ConvictionFields, conviction_form,
}
use risk_management.Requirements.Forms.Accepted.{conviction_form-OfPolicy}
use risk_management.Requirements.Commit.{commit}
use risk_management.Audit.{needs_review}
use risk_management.Review.{ReviewKind, Snapshot, Entity}
use risk_management.Review.Recording.{open_if_unverified}
use risk_management.Tenant.{Tenant, Env, Result, Error, ok, raised, ◌>>=◌, ◌>>◌}
use risk_management.Placement.Permanent.{Barred, commit-Barred}
use risk_management.Placement.Forever.{convict-bars}
use risk_management.Placement.Convictions.{record_convictions-Recorded, commit-Recorded}
use risk_management.Views.{
  get_or_post, when_posted, post, saved, entered, committed, rows_in_scope, crc_or_404,
  writable_crc_or_404,
}
use risk_management.Views.Checks.{crc_conviction_add}
use risk_management.Views.Entitled.{Granted}

-- A conviction of the form's category that is automatic.
abbrev pub entry_of : ConvictionFields → ConvictionEntry
entry_of f = record { category = f.category; is_automatic_disqualifier = true }

-- It returns something.
abbrev Succeeds : {A : Type 0} → Result A → Type 0
Succeeds {A} m = (a : A) × (m ≡ ok a)

one_way :
    {A : Type 0} (b c : Bool) (e : Error) (x y : A)
    → c ≡ false
    → Succeeds (if b then ok x else if c then raised e else ok y)
one_way true c e x y h = (x, refl)
one_way false true e x y h = cc
one_way false false e x y h = (y, refl)

has_capability-in_church :
    (dir : Directory) (u : User)
    → has_capability dir (some u) record_crc ≡ true
    → dir.on_public_schema ≡ false
unfolding has_capability grant_for
has_capability-in_church dir u h = ground (arith, h)

open_if_unverified-Succeeds :
    (env : Env) (kind : ReviewKind) (e : Entity) (affected : Option Entity) (before : Snapshot)
    (t : Tenant)
    → env.directory.on_public_schema ≡ false
    → Succeeds (open_if_unverified env kind e affected before t)
unfolding open_if_unverified
open_if_unverified-Succeeds env kind e affected before t church =
    one_way (not (needs_review env.actor)) env.directory.on_public_schema _ _ _ church

select_all :
    {A : Type 0} (p : A → Bool) → ((x : A) → p x ≡ true) → (rows : List A) → select p rows ≡ rows
select_all p h [] = refl
select_all p h (x ∷ rows) = rw (h x) (ap (λ l. x ∷ l) (select_all p h rows))

all_in_scope :
    {A : Type 0} (scope : Option (List ℕ)) (f : File) (rows : List A)
    → Admits scope f
    → scoped_rows scope (λ ids r. ever_in_departments ids f) rows ≡ rows
all_in_scope none f rows h = refl
all_in_scope (some []) f rows h = absurd h.2
all_in_scope (some (i ∷ ids)) f rows h =
    select_all (λ r. ever_in_departments (i ∷ ids) f) (λ r. (ever-Admits (i ∷ ids) f).1 h) rows

among-append : (s : String) (l m : List String) → is_among l s ≡ true → is_among (l ++ m) s ≡ true
among-append s [] m h = cc
among-append s (x ∷ l) m h = elim (Bool-cases (same_text s x)) [
  | inl e ↦ rw e refl
  | inr e ↦ rw e (among-append s l m (rw e at h))
]

module _ (env : Env) (t : Tenant) (church : env.directory.on_public_schema ≡ false) where
  record_convictions-Succeeds :
      (k : ℕ) (e : ConvictionEntry) (r : CrcRecord)
      → refuse_self env t.volunteer ≡ ok tt
      → crc_record_at k t ≡ some r
      → is_cleared r.result ≡ false
      → is_blank e.category ≡ false
      → Succeeds (record_convictions env k (e ∷ []) t)
  unfolding record_convictions conviction_rows ◌>>=◌ ◌>>◌
  record_convictions-Succeeds k e r own found failed named =
      rw (own, found, failed, named) (open_if_unverified-Succeeds env _ _ _ _ _ church)

module _ (env : Env) (u : User) (t : Tenant) (signed_in : u.is_authenticated ≡ true)
    (actor : env.actor ≡ actor_from_request env.directory true u) where
  service_allows :
      may_record_against env.directory u t.volunteer ≡ none → refuse_self env t.volunteer ≡ ok tt
  unfolding refuse_self
  service_allows free =
      elim (Option-cases (refuse_self_recording env.directory env.actor t.volunteer)) [
        | inl e ↦ rw e refl
        | inr h ↦
            let (why, e) = h in
            absurd (
              service_refusal_is_view_refusal env.directory u t.volunteer signed_in
                (λ q. no_value (sym q ∙ (rw actor at e))) free)
      ]

  enters :
      has_capability env.directory (some u) record_crc ≡ true → entered env u record_crc ≡ ok tt
  unfolding entered requires
  enters held = rw held refl

  finds :
      (k : ℕ) (r : CrcRecord)
      → Granted env u record_crc t
      → crc_record_at k t ≡ some r
      → writable_crc_or_404 env u k t ≡ ok r
  unfolding writable_crc_or_404 crc_or_404 rows_in_scope ◌>>=◌ ◌>>◌
  finds k r g found =
      let everything =
        all_in_scope (scope_department_ids env.directory (some u)) (t.volunteer, t.assignments)
          t.crc_records g.may_write.in_scope in
      rw (everything, found, g.may_write.may_record) refl

  accepts :
      (f : ConvictionFields)
      → is_among automatic_categories f.category ≡ true
      → f.acknowledge_permanent ≡ true
      → conviction_form f ≡ some (entry_of f)
  unfolding conviction_form
  accepts f automatic acknowledged =
      rw
        (
          among-append f.category automatic_categories discretionary_choices automatic,
          automatic,
          acknowledged,
        )
        refl

  posted_page :
      (k : ℕ) (r : CrcRecord) (f : ConvictionFields) (e : ConvictionEntry) (w : Tenant)
      → entered env u record_crc ≡ ok tt
      → writable_crc_or_404 env u k t ≡ ok r
      → is_cleared r.result ≡ false
      → conviction_form f ≡ some e
      → record_convictions env k (e ∷ []) t ≡ ok w
      → crc_conviction_add env u k post f t ≡ ok (saved (commit env w))
  unfolding crc_conviction_add get_or_post when_posted committed ◌>>=◌ ◌>>◌
  posted_page k r f e w held found failed accepted done =
      rw (held, found, failed, accepted, done) refl

  -- A signed-in user who holds record_crc, sees the file and may write to it, and who posts a
  -- conviction of an automatic category with the acknowledgement, against a check of the file
  -- that is not clear, always gets it recorded: the page saves, the conviction is then in the
  -- table under the next key, against that check and of that category, and the volunteer is
  -- permanently disqualified and serves nowhere.
  pub crc_conviction_add-Barred :
      (k : ℕ) (r : CrcRecord) (f : ConvictionFields)
      → Granted env u record_crc t
      → crc_record_at k t ≡ some r
      → r.result ≡ not_clear
      → is_among automatic_categories f.category ≡ true
      → f.acknowledge_permanent ≡ true
      → (w : Tenant) × (crc_conviction_add env u k post f t ≡ ok (saved w))
        × Elem (conviction_row t.next_pk k (entry_of f)) w.convictions
        × Barred w
  crc_conviction_add-Barred k r f g found failed automatic acknowledged =
      let accepted = accepts f automatic acknowledged in
      let open_check : is_cleared r.result ≡ false = rw failed refl in
      let (w, done) =
        record_convictions-Succeeds env t (has_capability-in_church env.directory u g.holds) k
          (entry_of f) r (service_allows g.may_write.may_record) found open_check
          (conviction_form-OfPolicy f _ accepted).named in
      (
        commit env w,
        posted_page k r f _ w (enters g.holds) (finds k r g found) open_check accepted done,
        commit-Recorded _ env w ((record_convictions-Recorded env k (entry_of f) [] t).at w done),
        commit-Barred env w ((convict-bars env k _ t refl).at w done),
      )
