-- ===== src/Documents/Roundtrip.antt =====
-- What is sealed opens again, and only as what it was sealed for.
use risk_management.Common.{
  ℕ, ◌≤◌, ◌≡◌, ◌≢◌, refl, sym, ap, ◌∙◌, subst, false, not, none, some, List, [], ◌∷◌, ◌++◌, arith,
  some_inj, length, length-append, leb, ◌==◌, first_of, after_first, is_empty, if◌then◌else◌,
  past_guard,
}
use risk_management.Documents.Crypto.{
  Purpose, of_field, of_dek, Aead, AeadIsSound, nonce_size, dek_size, seal, open_sealed, wrap_dek,
  unwrap_dek, encrypt_bytes, decrypt_bytes,
}

first_of-append : (xs ys : List ℕ) → first_of (length xs) (xs ++ ys) ≡ xs
first_of-append [] ys = refl
first_of-append (x ∷ xs) ys = ap (λ l. x ∷ l) (first_of-append xs ys)

after_first-append : (xs ys : List ℕ) → after_first (length xs) (xs ++ ys) ≡ ys
after_first-append [] ys = refl
after_first-append (x ∷ xs) ys = after_first-append xs ys

dek_is_not_field : of_dek ≢ of_field
dek_is_not_field q = cc

field_is_not_dek : of_field ≢ of_dek
field_is_not_dek q = cc

not_empty-append : (xs ys : List ℕ) → 1 ≤ length xs → is_empty (xs ++ ys) ≡ false
not_empty-append [] ys h = absurd (omega (arith, h))
not_empty-append (x ∷ xs) ys h = refl

module _ (cipher : Aead) (sound : AeadIsSound cipher) (nonce : List ℕ)
    (twelve : length nonce ≡ nonce_size) where
  open_sealed-seal :
      (key text : List ℕ) (a b : Purpose)
      → open_sealed cipher key (seal cipher key nonce text a) b
        ≡ cipher.decrypt key nonce (cipher.encrypt key nonce text a) b
  unfolding open_sealed seal
  open_sealed-seal key text a b =
      let body = cipher.encrypt key nonce text a in
      let long : leb (length (nonce ++ body)) nonce_size ≡ false =
        ground (arith, length-append nonce body, twelve, sound.tagged key nonce text a) in
      let front : first_of nonce_size (nonce ++ body) ≡ nonce =
        subst (λ n. first_of n (nonce ++ body) ≡ nonce) twelve (first_of-append nonce body) in
      let back : after_first nonce_size (nonce ++ body) ≡ body =
        subst (λ n. after_first n (nonce ++ body) ≡ body) twelve (after_first-append nonce body) in
      rw (long, front, back) refl

  pub decrypt_bytes-encrypt_bytes :
      (key text : List ℕ)
      → decrypt_bytes cipher (encrypt_bytes cipher text nonce key) key ≡ some text
  unfolding decrypt_bytes encrypt_bytes
  decrypt_bytes-encrypt_bytes key text =
      open_sealed-seal key text of_field of_field ∙ sound.opened key nonce text of_field

  -- With a sound cipher and nonces of twelve bytes, a church's key that is wrapped unwraps to itself
  -- under the same master key; what is wrapped does not open as a field; and what is sealed as a field
  -- does not unwrap.
  pub unwrap_dek-wrap_dek :
      (dek master wrapped text : List ℕ)
      → wrap_dek cipher dek nonce master ≡ some wrapped
      → (unwrap_dek cipher wrapped master ≡ some dek)
        × (decrypt_bytes cipher wrapped master ≡ none)
        × (unwrap_dek cipher (encrypt_bytes cipher text nonce master) master ≡ none)
  unfolding wrap_dek unwrap_dek decrypt_bytes encrypt_bytes seal
  unwrap_dek-wrap_dek dek master wrapped text h =
      let e = (past_guard (not (length dek == dek_size)) _ h).1 in
      let same : seal cipher master nonce dek of_dek ≡ wrapped = some_inj e in
      (
        full wrapped dek of_dek same
            ∙ ap (λ w. open_sealed cipher master w of_dek) (sym same)
            ∙ (open_sealed-seal master dek of_dek of_dek ∙ sound.opened master nonce dek of_dek),
        ap (λ w. open_sealed cipher master w of_field) (sym same)
            ∙ (open_sealed-seal master dek of_dek of_field
                ∙ sound.bound master nonce dek of_dek of_field dek_is_not_field),
        full (seal cipher master nonce text of_field) text of_field refl
            ∙ (open_sealed-seal master text of_field of_dek
                ∙ sound.bound master nonce text of_field of_dek field_is_not_dek),
      )
    where
      full :
          (w t : List ℕ) (a : Purpose)
          → seal cipher master nonce t a ≡ w
          → (if is_empty w then none else open_sealed cipher master w of_dek)
            ≡ open_sealed cipher master w of_dek
      full w t a q =
          let there : is_empty w ≡ false =
            subst (λ v. is_empty v ≡ false) q
              (not_empty-append nonce (cipher.encrypt master nonce t a) (omega (arith, twelve))) in
          rw there refl
