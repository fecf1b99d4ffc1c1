-- ===== src/Documents/Uploads.antt =====
-- What is accepted as an upload.
use risk_management.Common.{
  ℕ, zero, suc, ◌≡◌, ◌≤◌, refl, sym, ap, ◌∙◌, true, false, not, ◌&&◌, Option, none, some, List, [],
  ◌∷◌, arith, some_inj, length, any, ltb, ◌==◌, first_of, past_guard, is_empty,
}
use text.Mathlib.Text.{◌==◌ as same_text}
use risk_management.Documents.{
  ContentType, Upload, allowed_extensions, magic_signatures, opens_with, signed_as, brand_of_heic,
  in_ftyp_box, sniff_content_type, sniffed_as, too_large, with_type, validate_upload,
}

opens_with-first_of :
    (signature : List ℕ) (n : ℕ) (bytes : List ℕ)
    → length signature ≤ n
    → opens_with signature (first_of n bytes) ≡ opens_with signature bytes
opens_with-first_of [] n bytes h = refl
opens_with-first_of (b ∷ signature) zero bytes h = absurd (omega (arith, h))
opens_with-first_of (b ∷ signature) (suc n) [] h = refl
opens_with-first_of (b ∷ signature) (suc n) (c ∷ bytes) h =
    ap (λ x. (b == c) && x) (opens_with-first_of signature n bytes (omega (arith, h)))

-- Every signature fits.
abbrev Fit : ℕ → List (List ℕ × ContentType) → Type 0
Fit n [] = Unit
Fit n ((signature, kind) ∷ rest) = (length signature ≤ n) × Fit n rest

signed_as-first_of :
    (table : List (List ℕ × ContentType)) (n : ℕ) (bytes : List ℕ)
    → Fit n table
    → signed_as table (first_of n bytes) ≡ signed_as table bytes
signed_as-first_of [] n bytes h = refl
signed_as-first_of ((signature, kind) ∷ rest) n bytes h =
    rw (opens_with-first_of signature n bytes h.0, signed_as-first_of rest n bytes h.1) refl

brand_of_heic-first_of :
    (n : ℕ) (bytes : List ℕ) → 4 ≤ n → brand_of_heic (first_of n bytes) ≡ brand_of_heic bytes
brand_of_heic-first_of n bytes h =
    rw
      (
        opens_with-first_of (104 ∷ 101 ∷ 105 ∷ 99 ∷ []) n bytes h,
        opens_with-first_of (104 ∷ 101 ∷ 105 ∷ 120 ∷ []) n bytes h,
        opens_with-first_of (109 ∷ 105 ∷ 102 ∷ 49 ∷ []) n bytes h,
      )
      refl

in_ftyp_box-first_of : (bytes : List ℕ) → in_ftyp_box (first_of 32 bytes) ≡ in_ftyp_box bytes
in_ftyp_box-first_of [] = refl
in_ftyp_box-first_of (a ∷ []) = refl
in_ftyp_box-first_of (a ∷ b ∷ []) = refl
in_ftyp_box-first_of (a ∷ b ∷ c ∷ []) = refl
in_ftyp_box-first_of (a ∷ b ∷ c ∷ d ∷ []) = refl
in_ftyp_box-first_of (a ∷ b ∷ c ∷ d ∷ e ∷ []) = refl
in_ftyp_box-first_of (a ∷ b ∷ c ∷ d ∷ e ∷ f ∷ []) = refl
in_ftyp_box-first_of (a ∷ b ∷ c ∷ d ∷ e ∷ f ∷ g ∷ []) = refl
in_ftyp_box-first_of (a ∷ b ∷ c ∷ d ∷ e ∷ f ∷ g ∷ h ∷ brand) =
    ap (λ x. opens_with (102 ∷ 116 ∷ 121 ∷ 112 ∷ []) (e ∷ f ∷ g ∷ h ∷ []) && x)
      (brand_of_heic-first_of 24 brand (omega arith))

-- The first 32 bytes tell as much as the whole file.
sniff_content_type-first_of :
    (bytes : List ℕ) → sniff_content_type (first_of 32 bytes) ≡ sniff_content_type bytes
unfolding sniff_content_type
sniff_content_type-first_of bytes =
    let named =
      signed_as-first_of magic_signatures 32 bytes
        (omega arith, (omega arith, (omega arith, (omega arith, (omega arith, tt))))) in
    ap (λ o. sniffed_as o (in_ftyp_box (first_of 32 bytes))) named
    ∙ ap (sniffed_as (signed_as magic_signatures bytes)) (in_ftyp_box-first_of bytes)

with_type-some :
    (bytes given : List ℕ) (o : Option ContentType) (kind : ContentType)
    → with_type given o ≡ some (bytes, kind)
    → (bytes ≡ given) × (o ≡ some kind)
with_type-some bytes given none kind h = cc
with_type-some bytes given (some k) kind h =
    let pair : (given, k) ≡ (bytes, kind) = some_inj h in
    (
      sym (ap (λ (z : List ℕ × ContentType). z.0) pair),
      ap (λ (z : List ℕ × ContentType). some z.1) pair,
    )

not_empty : (bytes : List ℕ) → is_empty bytes ≡ false → 1 ≤ length bytes
not_empty [] h = cc
not_empty (b ∷ bytes) h = omega arith

-- An upload is accepted with exactly its own bytes, which are not empty and within the limit, under
-- one of the extensions allowed, as the type that the whole file shows.
pub validate_upload_accepts :
    (max_bytes : ℕ) (u : Upload) (bytes : List ℕ) (kind : ContentType)
    → validate_upload max_bytes u ≡ some (bytes, kind)
    → (bytes ≡ u.content)
      × (1 ≤ length bytes)
      × (length bytes ≤ max_bytes)
      × (any (same_text u.extension) allowed_extensions ≡ true)
      × (sniff_content_type bytes ≡ some kind)
unfolding validate_upload too_large
validate_upload_accepts max_bytes u bytes kind h =
    let h1 = (past_guard (too_large max_bytes u) _ h).1 in
    let (allowed, h2) = past_guard (not (any (same_text u.extension) allowed_extensions)) _ h1 in
    let (small, h3) = past_guard (ltb max_bytes (length u.content)) _ h2 in
    let (full, h4) = past_guard (is_empty u.content) _ h3 in
    let (same, typed) =
      with_type-some bytes u.content (sniff_content_type (first_of 32 u.content)) kind h4 in
    (
      same,
      rw same (not_empty u.content full),
      rw same (ground (arith, small)),
      ground (arith, allowed),
      rw same (sym (sniff_content_type-first_of u.content) ∙ typed),
    )
