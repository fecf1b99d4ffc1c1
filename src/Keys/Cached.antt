-- ===== src/Keys/Cached.antt =====
-- The cache of keys tells what the stored keys say.
use risk_management.Common.{
  ℕ, ◌≡◌, refl, sym, ap, ◌∙◌, ◌∷◌, inl, inr, false, not, Option, none, some, List, String,
  Bool-cases, Elem, find-Elem, Elem-select,
}
use text.Mathlib.Text.{◌==◌ as same_text}
use text.Mathlib.TextEquality.{eq_iff}
use risk_management.Keys.{
  BoundTenant, Entry, KeyState, is_empty_text, cached, kept, from_row, get_current_key,
}

module _ (unwrap : List ℕ → Option (List ℕ)) (digest_of : List ℕ → String)
    (registry : String → Option (List ℕ)) where
  -- A row whose digest is that of a stored key holds what the stored key unwraps to.
  abbrev Honest : Entry → Type 0
  Honest e = (wrapped : List ℕ) → digest_of wrapped ≡ e.digest → unwrap wrapped ≡ some e.dek

  abbrev pub HonestCache : List Entry → Type 0
  HonestCache cache = (e : Entry) → Elem e cache → Honest e

  module _ (one_digest : (v w : List ℕ) → digest_of v ≡ digest_of w → v ≡ w) where
    kept-Honest :
        (schema : String) (w : List ℕ) (s : KeyState)
        → HonestCache s.cache
        → (o : Option (List ℕ)) → unwrap w ≡ o
        → ((kept unwrap digest_of registry schema w o s).1 ≡ unwrap w)
          × HonestCache (kept unwrap digest_of registry schema w o s).0.cache
    kept-Honest schema w s h none q = (sym q, h)
    kept-Honest schema w s h (some dek) q = (
      sym q,
      λ e m. elim m [
        | inl same ↦ λ v d.
            ap unwrap (one_digest v w (d ∙ ap (λ (x : Entry). x.digest) same))
            ∙ (q ∙ ap (λ (x : Entry). some x.dek) (sym same))
        | inr old ↦
            h e ((Elem-select e (λ (x : Entry). not (same_text x.schema schema)) s.cache).0 old).0
      ],
    )

    from_row-Honest :
        (schema : String) (w : List ℕ) (s : KeyState) (o : Option Entry)
        → HonestCache s.cache
        → cached schema s.cache ≡ o
        → ((from_row unwrap digest_of registry schema w o s).1 ≡ unwrap w)
          × HonestCache (from_row unwrap digest_of registry schema w o s).0.cache
    from_row-Honest schema w s none h q = kept-Honest schema w s h (unwrap w) refl
    from_row-Honest schema w s (some e) h q = elim (Bool-cases (same_text e.digest (digest_of w))) [
      | inl same ↦
          let there = (find-Elem (λ (x : Entry). same_text x.schema schema) s.cache e q).0 in
          let told = h e there w (sym ((eq_iff e.digest (digest_of w)).0 same)) in
          rw same (sym told, h)
      | inr other ↦ rw other (kept-Honest schema w s h (unwrap w) refl)
    ]

    -- Where a tenant with a stored key that is not empty is bound and no key is forced, the key
    -- in use is what that stored key unwraps to, whatever the cache holds from before, if the
    -- cache is honest and no two stored keys share a digest; and the cache stays honest. A
    -- church that has been given another key, not an empty one, is never served the old one
    -- this way.
    pub get_current_key-HonestCache :
        (name : String) (b : ℕ) (rest : List ℕ) (cache : List Entry)
        → is_empty_text name ≡ false
        → HonestCache cache
        → let t : BoundTenant = record { schema_name = name; dek_wrapped = some (b ∷ rest) } in
          let s : KeyState = record { override = none; cache = cache } in
          let r = get_current_key unwrap digest_of registry (some t) s in
          (r.1 ≡ unwrap (b ∷ rest)) × HonestCache r.0.cache
    unfolding get_current_key
    get_current_key-HonestCache name b rest cache named h =
        let s : KeyState = record { override = none; cache = cache } in
        rw named (from_row-Honest name (b ∷ rest) s (cached name cache) h refl)
