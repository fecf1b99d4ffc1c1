-- ===== src/Documents/Crypto.antt =====
-- apps/core/crypto.py: sealing and opening bytes, and the wrapping of a church's key. The cipher is an
-- argument, as are the random nonces.
use risk_management.Common.{
  ℕ, ◌+◌, ◌≡◌, ◌≢◌, Option, none, some, List, ◌++◌, not, ◌==◌, leb, length, is_empty, first_of,
  after_first, if◌then◌else◌,
}

-- The two labels that a ciphertext is bound to, `vms:v1:field` and `vms:v1:dek`.
pub data Purpose : Type 0 where
  of_field of_dek : Purpose

-- AESGCM: from key, nonce, text and label.
pub record Aead : Type 0 where
  pub encrypt : List ℕ → List ℕ → List ℕ → Purpose → List ℕ
  pub decrypt : List ℕ → List ℕ → List ℕ → Purpose → Option (List ℕ)

-- What is documented: it reads back what it wrote, it refuses another label, and it adds a tag of
-- sixteen bytes.
pub record AeadIsSound (c : Aead) : Type 0 where
  pub opened :
      (key nonce text : List ℕ) (a : Purpose)
      → c.decrypt key nonce (c.encrypt key nonce text a) a ≡ some text
  pub bound :
      (key nonce text : List ℕ) (a b : Purpose)
      → a ≢ b
      → c.decrypt key nonce (c.encrypt key nonce text a) b ≡ none
  pub tagged :
      (key nonce text : List ℕ) (a : Purpose)
      → length (c.encrypt key nonce text a) ≡ length text + 16

abbrev pub dek_size : ℕ
dek_size = 32

abbrev pub nonce_size : ℕ
nonce_size = 12

module _ (cipher : Aead) where
  -- `_seal`
  unfoldable pub seal : List ℕ → List ℕ → List ℕ → Purpose → List ℕ
  seal key nonce text a = nonce ++ cipher.encrypt key nonce text a

  -- `_open`
  unfoldable pub open_sealed : List ℕ → List ℕ → Purpose → Option (List ℕ)
  open_sealed key blob a =
      if leb (length blob) nonce_size
      then none
      else cipher.decrypt key (first_of nonce_size blob) (after_first nonce_size blob) a

  unfoldable pub wrap_dek : List ℕ → List ℕ → List ℕ → Option (List ℕ)
  wrap_dek dek nonce master =
      if not (length dek == dek_size) then none else some (seal master nonce dek of_dek)

  unfoldable pub unwrap_dek : List ℕ → List ℕ → Option (List ℕ)
  unwrap_dek wrapped master = if is_empty wrapped then none else open_sealed master wrapped of_dek

  unfoldable pub encrypt_bytes : List ℕ → List ℕ → List ℕ → List ℕ
  encrypt_bytes text nonce key = seal key nonce text of_field

  unfoldable pub decrypt_bytes : List ℕ → List ℕ → Option (List ℕ)
  decrypt_bytes blob key = open_sealed key blob of_field
