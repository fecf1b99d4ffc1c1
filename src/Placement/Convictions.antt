-- ===== src/Placement/Convictions.antt =====
-- What `record_convictions` has recorded is in the table of convictions when it returns, and stays
-- there when the transaction commits.
use risk_management.Common.{
  Option, ℕ, sym, subst, inl, refl, Bool, true, false, List, [], ◌∷◌, Elem, Elem-append_right,
  if◌then◌else◌,
}
use risk_management.Requirements.Records.{DisqualifyingConviction}
use risk_management.Requirements.Decisions.{
  ConvictionEntry, conviction_row, conviction_rows, record_convictions, review_convictions,
  apply_permanent_disqualification, with_convictions,
}
use risk_management.Requirements.Commit.{commit}
use risk_management.Review.{ReviewKind, Snapshot, Entity}
use risk_management.Review.Recording.{open_if_unverified}
use risk_management.Tenant.{Tenant, Env}
use risk_management.Tenant.Outcome.{
  Returns, Returns-bind, Returns-chain, Returns-then, Returns-if, ok-Returns, raised-Returns,
}
use risk_management.Placement.People.{SameFile, audit-SameFile, enqueue-SameFile, commit-SameFile}

module _ (c : DisqualifyingConviction) where
  abbrev Recorded : Tenant → Type 0
  Recorded t = Elem c t.convictions

  SameFile-Recorded : (t u : Tenant) → SameFile t u → Recorded t → Recorded u
  SameFile-Recorded t u same h = subst (Elem c) (sym same.convictions) h

  pub commit-Recorded :
      (env : Env) (t : Tenant) → Elem c t.convictions → Elem c (commit env t).convictions
  commit-Recorded env t h = SameFile-Recorded _ _ (commit-SameFile env t) h

  open_if_unverified-Recorded :
      (env : Env) (kind : ReviewKind) (e : Entity) (affected : Option Entity) (before : Snapshot)
      (t : Tenant)
      → Recorded t
      → Returns Recorded (open_if_unverified env kind e affected before t)
  unfolding open_if_unverified
  open_if_unverified-Recorded env kind e affected before t h =
      Returns-if Recorded _ _ _ (ok-Returns Recorded t h) (
        Returns-if Recorded _ _ _ (raised-Returns Recorded _) (
          ok-Returns Recorded _
            (SameFile-Recorded _ _ (enqueue-SameFile env kind e affected before t) h)))

  review_convictions-Recorded :
      (env : Env) (check : ℕ) (before : Snapshot) (l : List DisqualifyingConviction) (t : Tenant)
      → Recorded t
      → Returns Recorded (review_convictions env check before l t)
  review_convictions-Recorded env check before [] t h = ok-Returns Recorded t h
  review_convictions-Recorded env check before (x ∷ l) t h =
      open_if_unverified-Recorded env _ _ _ _ t h

  Recorded-if : (b : Bool) (t u : Tenant) → Recorded t → Recorded u → Recorded (if b then t else u)
  Recorded-if true t u h h' = h
  Recorded-if false t u h h' = h'

  apply-Recorded :
      (env : Env) (t : Tenant) → Recorded t → Recorded (apply_permanent_disqualification env t)
  unfolding apply_permanent_disqualification
  apply-Recorded env t h = SameFile-Recorded _ _ (audit-SameFile env _ _ _) h

conviction_rows-first :
    (pk check : ℕ) (e : ConvictionEntry) (more : List ConvictionEntry)
    → Returns (Elem (conviction_row pk check e)) (conviction_rows pk check (e ∷ more))
unfolding conviction_rows
conviction_rows-first pk check e more =
    Returns-then _ _ _
      (Returns-bind _ _ _ λ rest. ok-Returns (Elem (conviction_row pk check e)) _ (inl refl))

-- The first of the entries has the next key.
pub record_convictions-Recorded :
    (env : Env) (check : ℕ) (e : ConvictionEntry) (more : List ConvictionEntry) (t : Tenant)
    → Returns
        (λ (w : Tenant). Elem (conviction_row t.next_pk check e) w.convictions)
        (record_convictions env check (e ∷ more) t)
unfolding record_convictions
record_convictions-Recorded env check e more t =
    let row = conviction_row t.next_pk check e in
    Returns-then _ _ _ (
      Returns-bind _ _ _ λ r. Returns-then _ _ _ (
        Returns-chain (Elem row) _ _ _ (conviction_rows-first t.next_pk check e more) λ created m.
          let kept = Elem-append_right row t.convictions created m in
          review_convictions-Recorded row env check _ created _ (
            Recorded-if row _ _ _ (apply-Recorded row env (with_convictions created t) kept)
              (SameFile-Recorded row _ _ (audit-SameFile env _ _ _) kept))))
