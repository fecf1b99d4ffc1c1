-- ===== src/Documents.antt =====
-- apps/documents/models.py, and the checks of an upload in apps/documents/services.py. Bytes are
-- numbers. The extension of an upload is what `os.path.splitext` and `lower` make of its name.
pub mod Crypto
pub mod Store
pub mod Uploads
pub mod Roundtrip
pub mod Recorded
pub mod Fetched
use risk_management.Common.{
  ℕ, ◌+◌, Bool, true, false, not, ◌&&◌, ◌||◌, Option, none, some, List, [], ◌∷◌, String, ◌==◌, ltb,
  leb, any, length, is_empty, if◌then◌else◌, first_of,
}
use text.Mathlib.Text.{◌==◌ as same_text}
use risk_management.Calendar.{Date}

pub data DocumentMode : Type 0 where
  store link track : DocumentMode

-- The keys of ALLOWED_CONTENT_TYPES.
pub data ContentType : Type 0 where
  pdf jpeg png heic tiff : ContentType

pub record Document : Type 0 where
  pub pk : ℕ
  pub requirement_instance_id : Option ℕ
  pub crc_record_id : Option ℕ
  pub mode : DocumentMode
  pub title : String
  pub document_date : Option Date
  -- The sealed bytes on the volume.
  pub encrypted_file : Option (List ℕ)
  pub content_type : Option ContentType
  pub byte_size : Option ℕ
  pub plaintext_sha256 : String
  pub external_url : String
  pub physical_location : String
  pub superseded_by : Option ℕ
  pub is_current : Bool

abbrev pub allowed_extensions : List String
allowed_extensions = ".pdf" ∷ ".jpg" ∷ ".jpeg" ∷ ".png" ∷ ".heic" ∷ ".tif" ∷ ".tiff" ∷ []

-- `head.startswith(signature)`
abbrev pub opens_with : List ℕ → List ℕ → Bool
opens_with [] head = true
opens_with (b ∷ signature) [] = false
opens_with (b ∷ signature) (c ∷ head) = (b == c) && opens_with signature head

-- MAGIC_SIGNATURES, in its order.
abbrev pub magic_signatures : List (List ℕ × ContentType)
magic_signatures =
    (37 ∷ 80 ∷ 68 ∷ 70 ∷ 45 ∷ [], pdf)
    ∷ (255 ∷ 216 ∷ 255 ∷ [], jpeg)
    ∷ (137 ∷ 80 ∷ 78 ∷ 71 ∷ 13 ∷ 10 ∷ 26 ∷ 10 ∷ [], png)
    ∷ (73 ∷ 73 ∷ 42 ∷ 0 ∷ [], tiff)
    ∷ (77 ∷ 77 ∷ 0 ∷ 42 ∷ [], tiff)
    ∷ []

abbrev pub signed_as : List (List ℕ × ContentType) → List ℕ → Option ContentType
signed_as [] head = none
signed_as ((signature, kind) ∷ rest) head =
    let later = signed_as rest head in if opens_with signature head then some kind else later

-- `head[4:8] == b"ftyp"`, and a brand at `head[8:12]`. Twelve bytes that match are twelve bytes.
abbrev pub brand_of_heic : List ℕ → Bool
brand_of_heic brand =
    opens_with (104 ∷ 101 ∷ 105 ∷ 99 ∷ []) brand
    || (opens_with (104 ∷ 101 ∷ 105 ∷ 120 ∷ []) brand
        || opens_with (109 ∷ 105 ∷ 102 ∷ 49 ∷ []) brand)

abbrev pub in_ftyp_box : List ℕ → Bool
in_ftyp_box (_ ∷ _ ∷ _ ∷ _ ∷ a ∷ b ∷ c ∷ d ∷ brand) =
    opens_with (102 ∷ 116 ∷ 121 ∷ 112 ∷ []) (a ∷ b ∷ c ∷ d ∷ []) && brand_of_heic brand
in_ftyp_box _ = false

abbrev pub sniffed_as : Option ContentType → Bool → Option ContentType
sniffed_as none boxed = if boxed then some heic else none
sniffed_as (some kind) boxed = some kind

unfoldable pub sniff_content_type : List ℕ → Option ContentType
sniff_content_type head = sniffed_as (signed_as magic_signatures head) (in_ftyp_box head)

pub record Upload : Type 0 where
  pub extension : String
  pub size : Option ℕ
  pub content : List ℕ

-- `check_upload_size`: whether it refuses.
unfoldable pub too_large : ℕ → Upload → Bool
too_large max_bytes u = elim u.size [ none ↦ false | some n ↦ ltb max_bytes n ]

abbrev pub with_type : List ℕ → Option ContentType → Option (List ℕ × ContentType)
with_type bytes none = none
with_type bytes (some kind) = some (bytes, kind)

-- The bytes and the type, or a refusal. Every type that is sniffed is one of those allowed.
unfoldable pub validate_upload : ℕ → Upload → Option (List ℕ × ContentType)
unfolding too_large
validate_upload max_bytes u =
    if too_large max_bytes u
    then none
    else if not (any (same_text u.extension) allowed_extensions)
    then none
    else if ltb max_bytes (length u.content)
    then none
    else if is_empty u.content
    then none
    else with_type u.content (sniff_content_type (first_of 32 u.content))
