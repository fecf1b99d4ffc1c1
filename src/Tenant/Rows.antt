-- ===== src/Tenant/Rows.antt =====
-- Writing one row of the instance table, whose keys are unique and below the next key.
use risk_management.Common.{
  ℕ, ◌+◌, ◌<◌, ◌≡◌, ◌≢◌, refl, sym, ◌∙◌, ap, ◌⊎◌, inl, inr, List, [], ◌∷◌, ◌++◌, arith, ◌==◌,
  ==_iff, Bool-cases, Elem, Elem-of-append,
}
use risk_management.Requirements.Instance.{RequirementInstance}
use risk_management.Tenant.{put_instance}

pub record WellKeyed (next_pk : ℕ) (rows : List RequirementInstance) : Type 0 where
  pub unique : (x y : RequirementInstance) → Elem x rows → Elem y rows → x.pk ≡ y.pk → x ≡ y
  pub fresh : (x : RequirementInstance) → Elem x rows → x.pk < next_pk

pub put_instance_self :
    (j x : RequirementInstance) (rows : List RequirementInstance)
    → Elem x rows
    → x.pk ≡ j.pk
    → Elem j (put_instance j rows)
unfolding put_instance
put_instance_self j x [] m e = m
put_instance_self j x (y ∷ ys) (inl q) e = rw ((==_iff y.pk j.pk).1 (rw (← q) e)) (inl refl)
put_instance_self j x (y ∷ ys) (inr m) e = inr (put_instance_self j x ys m e)

pub put_instance_other :
    (j x : RequirementInstance) (rows : List RequirementInstance)
    → Elem x rows
    → x.pk ≢ j.pk
    → Elem x (put_instance j rows)
unfolding put_instance
put_instance_other j x [] m ne = m
put_instance_other j x (y ∷ ys) (inl q) ne = elim (Bool-cases (y.pk == j.pk)) [
  | inl e ↦ absurd (ne (rw q ((==_iff _ _).0 e)))
  | inr e ↦ rw e (inl q)
]
put_instance_other j x (y ∷ ys) (inr m) ne = inr (put_instance_other j x ys m ne)

pub Elem-of-put_instance :
    (j y : RequirementInstance) (rows : List RequirementInstance)
    → Elem y (put_instance j rows)
    → (y ≡ j) ⊎ (Elem y rows × (y.pk ≢ j.pk))
unfolding put_instance
Elem-of-put_instance j y [] m = absurd m
Elem-of-put_instance j y (x ∷ xs) (inr m) = elim (Elem-of-put_instance j y xs m) [
  | inl e ↦ inl e
  | inr h ↦ inr (inr h.0, h.1)
]
Elem-of-put_instance j y (x ∷ xs) (inl q) = elim (Bool-cases (x.pk == j.pk)) [
  | inl e ↦ inl (rw e at q)
  | inr e ↦
      (let same : y ≡ x = rw e at q in
        inr
          (inl same, λ p. ground (arith, e, ap (λ (i : RequirementInstance). i.pk) same ∙ refl, p)))
]

pub put_instance-WellKeyed :
    (n : ℕ) (j x : RequirementInstance) (rows : List RequirementInstance)
    → WellKeyed n rows
    → Elem x rows
    → x.pk ≡ j.pk
    → WellKeyed n (put_instance j rows)
put_instance-WellKeyed n j x rows w m e = record {
  unique = λ a b ma mb p. elim (Elem-of-put_instance j a rows ma) [
    | inl qa ↦ elim (Elem-of-put_instance j b rows mb) [
      | inl qb ↦ qa ∙ sym qb
      | inr hb ↦ absurd (hb.1 (sym p ∙ ap (λ (i : RequirementInstance). i.pk) qa))
    ]
    | inr ha ↦ elim (Elem-of-put_instance j b rows mb) [
      | inl qb ↦ absurd (ha.1 (p ∙ ap (λ (i : RequirementInstance). i.pk) qb))
      | inr hb ↦ w.unique a b ha.0 hb.0 p
    ]
  ];
  fresh = λ a ma. elim (Elem-of-put_instance j a rows ma) [
    | inl qa ↦ omega (arith, w.fresh x m, ap (λ (i : RequirementInstance). i.pk) qa)
    | inr ha ↦ w.fresh a ha.0
  ];
}

pub append-WellKeyed :
    (n : ℕ) (j : RequirementInstance) (rows : List RequirementInstance)
    → WellKeyed n rows
    → j.pk ≡ n
    → WellKeyed (n + 1) (rows ++ j ∷ [])
append-WellKeyed n j rows w e = record {
  unique = λ a b ma mb p. elim (Elem-of-append a rows (j ∷ []) ma) [
    | inl ha ↦ elim (Elem-of-append b rows (j ∷ []) mb) [
      | inl hb ↦ w.unique a b ha hb p
      | inr hb ↦ absurd (clash a ha (p ∙ pk_of (single hb)))
    ]
    | inr ha ↦ elim (Elem-of-append b rows (j ∷ []) mb) [
      | inl hb ↦ absurd (clash b hb (sym p ∙ pk_of (single ha)))
      | inr hb ↦ single ha ∙ sym (single hb)
    ]
  ];
  fresh = λ a ma. elim (Elem-of-append a rows (j ∷ []) ma) [
    | inl ha ↦ omega (arith, w.fresh a ha)
    | inr ha ↦ omega (arith, pk_of (single ha))
  ];
}
  where
    pk_of : {a b : RequirementInstance} → a ≡ b → a.pk ≡ b.pk
    pk_of q = ap (λ (i : RequirementInstance). i.pk) q

    clash : (a : RequirementInstance) → Elem a rows → a.pk ≡ j.pk → ⊥
    clash a m p = omega (arith, w.fresh a m)

    single : {a : RequirementInstance} → Elem a (j ∷ []) → a ≡ j
    single h = elim h [ inl q ↦ q | inr none_left ↦ absurd none_left ]

pub empty-WellKeyed : (n : ℕ) → WellKeyed n []
empty-WellKeyed n = record { unique = λ x y m p e. absurd m; fresh = λ x m. absurd m }
