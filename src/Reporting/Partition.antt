-- ===== src/Reporting/Partition.antt =====
-- The dashboard's buckets share out the rows of the query, and the two counts of them agree.
use risk_management.Common.{
  ℕ, ◌+◌, ◌≡◌, refl, sym, subst, ◌∙◌, Option, List, [], ◌∷◌, map, arith, length, select,
  length-sorted_by,
}
use risk_management.Calendar.{Date}
use risk_management.Access.{User, Directory}
use risk_management.Requirements.Instance.{
  RequirementInstance, Bucket, satisfied, overdue_bucket, due_soon, outstanding, bucket,
}
use risk_management.Reporting.{
  Row, Filters, Counts, build_buckets, counts, bucket_counts, instance_queryset, falls_in,
  by_due_date, by_name,
}

abbrev instances : List Row → List RequirementInstance
instances rows = map (λ (r : Row). r.instance) rows

-- How many rows are in a bucket.
abbrev size : Date → Bucket → List Row → ℕ
size today b rows = length (select (λ (r : Row). falls_in today b r.instance) rows)

abbrev sizes : Date → List Row → Counts
sizes today rows = record {
  overdue = size today overdue_bucket rows;
  due_soon = size today due_soon rows;
  outstanding = size today outstanding rows;
  satisfied = size today satisfied rows;
}

sizes_cons :
    (today : Date) (r : Row) (rows : List Row) (b : Bucket)
    → bucket today r.instance ≡ b
    → bucket_counts today (instances rows) ≡ sizes today rows
    → bucket_counts today (instances (r ∷ rows)) ≡ sizes today (r ∷ rows)
unfolding bucket_counts
sizes_cons today r rows satisfied e ih = rw (e, ih) (ground arith)
sizes_cons today r rows overdue_bucket e ih = rw (e, ih) (ground arith)
sizes_cons today r rows due_soon e ih = rw (e, ih) (ground arith)
sizes_cons today r rows outstanding e ih = rw (e, ih) (ground arith)

sizes-bucket_counts :
    (today : Date) (rows : List Row) → bucket_counts today (instances rows) ≡ sizes today rows
unfolding bucket_counts
sizes-bucket_counts today [] = refl
sizes-bucket_counts today (r ∷ rows) =
    sizes_cons today r rows (bucket today r.instance) refl (sizes-bucket_counts today rows)

sizes_sum :
    (today : Date) (rows : List Row)
    → let n = sizes today rows in n.overdue + n.due_soon + n.outstanding + n.satisfied ≡ length rows
sizes_sum today [] = refl
sizes_sum today (r ∷ rows) = sum_cons (bucket today r.instance) refl (sizes_sum today rows)
  where
    sum_cons :
        (b : Bucket)
        → bucket today r.instance ≡ b
        → (let n = sizes today rows in
            n.overdue + n.due_soon + n.outstanding + n.satisfied ≡ length rows)
        → (let n = sizes today (r ∷ rows) in
            n.overdue + n.due_soon + n.outstanding + n.satisfied ≡ length (r ∷ rows))
    sum_cons satisfied e ih = rw e (omega (arith, ih))
    sum_cons overdue_bucket e ih = rw e (omega (arith, ih))
    sum_cons due_soon e ih = rw e (omega (arith, ih))
    sum_cons outstanding e ih = rw e (omega (arith, ih))

four :
    {a b c a' b' c' d : ℕ}
    → a ≡ a'
    → b ≡ b'
    → c ≡ c'
    → ◌≡◌ {A = Counts}
        (record { overdue = a; due_soon = b; outstanding = c; satisfied = d })
        (record { overdue = a'; due_soon = b'; outstanding = c'; satisfied = d })
four p q r = ground (arith, p, q, r)

module _ (dir : Directory) (u : Option User) (f : Filters) (today as_of : Date)
    (rows : List Row) where
  -- The sorted lists of the dashboard are as long as one pass over the rows counts, and the four
  -- counts add up to the number of rows: each row is in one bucket.
  pub counts-build_buckets :
      let qs = instance_queryset dir u f rows in
      let n = counts (build_buckets dir u f today as_of rows) in
      (n ≡ bucket_counts today (map (λ (r : Row). r.instance) qs))
      × (n.overdue + n.due_soon + n.outstanding + n.satisfied ≡ length qs)
  unfolding counts build_buckets
  counts-build_buckets =
      let qs = instance_queryset dir u f rows in
      let same : counts (build_buckets dir u f today as_of rows) ≡ sizes today qs =
        four
          (length-sorted_by (by_due_date as_of)
            (select (λ (r : Row). falls_in today overdue_bucket r.instance) qs))
          (length-sorted_by (by_due_date as_of)
            (select (λ (r : Row). falls_in today due_soon r.instance) qs))
          (length-sorted_by by_name
            (select (λ (r : Row). falls_in today outstanding r.instance) qs)) in
      (
        same ∙ sym (sizes-bucket_counts today qs),
        subst (λ (n : Counts). n.overdue + n.due_soon + n.outstanding + n.satisfied ≡ length qs)
            (sym same) (sizes_sum today qs),
      )
