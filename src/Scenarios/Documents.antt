-- ===== src/Scenarios/Documents.antt =====
-- Applications of the theorems on documents, with a cipher that only labels the text and adds a tag of
-- noughts, and a hash that tells nothing.
use risk_management.Common.{
  ℕ, ◌≡◌, ◌≢◌, ◌≤◌, refl, arith, Bool, true, Option, none, some, List, [], ◌∷◌, ◌++◌, String, ◌==◌,
  length, any, after_first, if◌then◌else◌,
}
use text.Mathlib.Text.{◌==◌ as same_text}
use risk_management.Audit.{download, document}
use risk_management.Documents.{
  Document, store, pdf, Upload, allowed_extensions, sniff_content_type, validate_upload, too_large,
}
use risk_management.Documents.Crypto.{
  Purpose, of_field, of_dek, Aead, AeadIsSound, wrap_dek, unwrap_dek, encrypt_bytes, decrypt_bytes,
  seal,
}
use risk_management.Documents.Store.{
  Paperwork, Storage, store_document, read_document, complete_backing_requirement, blank_document,
}
use risk_management.Documents.Uploads.{validate_upload_accepts}
use risk_management.Documents.Roundtrip.{unwrap_dek-wrap_dek}
use risk_management.Documents.Fetched.{document_at, store_document-read_document}
use risk_management.Tenant.{Tenant, Result, ok, raised, ◌>>◌, audit, entity}
use risk_management.Access.Self.{refuse_self_recording}
use risk_management.Requirements.Progress.{refuse_self, mark_requirement_complete}
use risk_management.Review.Recording.{open_if_unverified}
use risk_management.Scenarios.{request, anna_file}

abbrev label : Purpose → ℕ
label of_field = 1
label of_dek = 2

abbrev noughts : List ℕ
noughts = 0 ∷ 0 ∷ 0 ∷ 0 ∷ 0 ∷ 0 ∷ 0 ∷ 0 ∷ 0 ∷ 0 ∷ 0 ∷ 0 ∷ 0 ∷ 0 ∷ 0 ∷ []

abbrev unlabelled : Purpose → List ℕ → Option (List ℕ)
unlabelled a [] = none
unlabelled a (b ∷ rest) = if b == label a then some (after_first 15 rest) else none

abbrev labelling : Aead
labelling = record {
  encrypt = λ key nonce text a. label a ∷ noughts ++ text;
  decrypt = λ key nonce body a. unlabelled a body;
}

unlabelled_own :
    (text : List ℕ) (a : Purpose) → unlabelled a (label a ∷ noughts ++ text) ≡ some text
unlabelled_own text of_field = refl
unlabelled_own text of_dek = refl

unlabelled_other :
    (text : List ℕ) (a b : Purpose) → a ≢ b → unlabelled b (label a ∷ noughts ++ text) ≡ none
unlabelled_other text of_field of_field h = absurd (h refl)
unlabelled_other text of_field of_dek h = refl
unlabelled_other text of_dek of_field h = refl
unlabelled_other text of_dek of_dek h = absurd (h refl)

labelling-AeadIsSound : AeadIsSound labelling
labelling-AeadIsSound = record {
  opened = λ key nonce text a. unlabelled_own text a;
  bound = λ key nonce text a b h. unlabelled_other text a b h;
  tagged = λ key nonce text a. omega arith;
}

abbrev nonce : List ℕ
nonce = 5 ∷ 5 ∷ 5 ∷ 5 ∷ 5 ∷ 5 ∷ 5 ∷ 5 ∷ 5 ∷ 5 ∷ 5 ∷ 5 ∷ []

abbrev dek : List ℕ
dek = 7 ∷ (nonce ++ (nonce ++ (1 ∷ 2 ∷ 3 ∷ 4 ∷ 5 ∷ 6 ∷ 7 ∷ [])))

abbrev wrapped : List ℕ
wrapped = nonce ++ (2 ∷ noughts ++ dek)

unwrap_dek-wrap_dek_example :
    (unwrap_dek labelling wrapped dek ≡ some dek)
    × (decrypt_bytes labelling wrapped dek ≡ none)
    × (unwrap_dek labelling (encrypt_bytes labelling (1 ∷ []) nonce dek) dek ≡ none)
unfolding wrap_dek seal
unwrap_dek-wrap_dek_example =
    unwrap_dek-wrap_dek labelling labelling-AeadIsSound nonce refl dek dek wrapped (1 ∷ []) refl

abbrev scan : Upload
scan = record {
  extension = ".pdf";
  size = some 8;
  content = 37 ∷ 80 ∷ 68 ∷ 70 ∷ 45 ∷ 1 ∷ 2 ∷ 3 ∷ [];
}

validate_upload_accepts_example :
    (scan.content ≡ scan.content)
    × (1 ≤ length scan.content)
    × (length scan.content ≤ 1000)
    × (any (same_text scan.extension) allowed_extensions ≡ true)
    × (sniff_content_type scan.content ≡ some pdf)
unfolding validate_upload too_large sniff_content_type
validate_upload_accepts_example = validate_upload_accepts 1000 scan scan.content pdf refl

abbrev no_digest : List ℕ → String
no_digest bytes = ""

abbrev all_valid : Document → Bool
all_valid d = true

abbrev storage : Storage
storage = record { mode = store; max_bytes = 1000; key = dek; nonce = nonce }

-- For the orientation, which it completes.
abbrev paperwork : Paperwork
paperwork = record {
  title = "Certificate";
  upload = some scan;
  external_url = "";
  physical_location = "";
  document_date = none;
  requirement_instance = some 102;
  crc_record = none;
  supersedes = none;
}

abbrev taken : Result (Tenant × Document) → Tenant × Document
taken (ok r) = r
taken (raised e) = (anna_file, blank_document 0 store paperwork)

abbrev recorded : Tenant × Document
recorded = taken (store_document labelling no_digest all_valid request storage paperwork anna_file)

recorded_ok :
    store_document labelling no_digest all_valid request storage paperwork anna_file ≡ ok recorded
unfolding store_document ◌>>◌ refuse_self refuse_self_recording validate_upload sniff_content_type
    complete_backing_requirement mark_requirement_complete open_if_unverified
recorded_ok = refl

store_document-read_document_example :
    (found : Document) × (document_at recorded.1.pk recorded.0.documents ≡ some found)
    × (read_document labelling no_digest all_valid request dek found recorded.0
        ≡ ok (audit request download (entity document recorded.1.pk) recorded.0, scan.content))
store_document-read_document_example =
    store_document-read_document labelling labelling-AeadIsSound no_digest all_valid storage refl
      request paperwork anna_file recorded.0 recorded.1 refl refl recorded_ok scan refl request
      recorded.0 refl
