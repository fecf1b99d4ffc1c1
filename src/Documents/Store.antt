-- ===== src/Documents/Store.antt =====
-- apps/documents/services.py: recording a document in each of the three modes, the requirement that
-- it completes, and reading a stored document back. Django's checks of the fields' lengths and of the
-- address are an argument, as are the hash and the cipher.
use risk_management.Common.{
  ℕ, ◌+◌, Bool, true, false, not, ◌||◌, Option, none, some, List, [], ◌∷◌, ◌++◌, String, ◌==◌,
  if◌then◌else◌, map, length, is_blank,
}
use text.Mathlib.Text.{◌==◌ as same_text}
use risk_management.Calendar.{Date}
use risk_management.Audit.{upload, download, document, requirement_instance}
use risk_management.Requirements.Definition.{is_crc}
use risk_management.Requirements.Instance.{is_waived, is_not_applicable, is_blocked}
use risk_management.Requirements.Progress.{refuse_self, fetch, mark_requirement_complete}
use risk_management.Review.{Entity, Snapshot, document_kind}
use risk_management.Review.Recording.{open_if_unverified}
use risk_management.Tenant.{
  Tenant, Env, Result, ok, raised, ◌>>=◌, ◌>>◌, refuse_if, or_raise, requirement_blocked,
  in_the_future, form_invalid, file_missing, file_refused, link_missing, no_stored_file,
  integrity_failed, audit, entity,
}
use risk_management.Documents.{
  Document, DocumentMode, store, link, track, ContentType, Upload, validate_upload,
}
use risk_management.Documents.Crypto.{Aead, encrypt_bytes, decrypt_bytes}

-- What the form hands over.
pub record Paperwork : Type 0 where
  pub title : String
  pub upload : Option Upload
  pub external_url : String
  pub physical_location : String
  pub document_date : Option Date
  pub requirement_instance : Option ℕ
  pub crc_record : Option ℕ
  pub supersedes : Option ℕ

-- The settings and the church's key that recording a document goes by.
pub record Storage : Type 0 where
  pub mode : DocumentMode
  pub max_bytes : ℕ
  pub key : List ℕ
  pub nonce : List ℕ

abbrev pub is_empty_text : String → Bool
is_empty_text String.[] = true
is_empty_text _ = false

abbrev pub blank_document : ℕ → DocumentMode → Paperwork → Document
blank_document pk mode p = record {
  pk = pk;
  requirement_instance_id = p.requirement_instance;
  crc_record_id = p.crc_record;
  mode = mode;
  title = p.title;
  document_date = p.document_date;
  encrypted_file = none;
  content_type = none;
  byte_size = none;
  plaintext_sha256 = "";
  external_url = "";
  physical_location = "";
  superseded_by = none;
  is_current = true;
}

-- `supersede_with`
abbrev pub superseded_with : ℕ → ℕ → Document → Document
superseded_with old replacement d =
    if d.pk == old then record d { superseded_by = some replacement; is_current = false } else d

abbrev pub supersede : Option ℕ → ℕ → List Document → List Document
supersede none replacement documents = documents
supersede (some old) replacement documents = map (superseded_with old replacement) documents

-- A `ValidationError` of the service leaves the requirement as it was; another error goes on.
abbrev pub completion_of : Tenant → Result Tenant → Result (Tenant × Bool)
completion_of t (ok u) = ok (u, true)
completion_of t (raised requirement_blocked) = ok (t, false)
completion_of t (raised in_the_future) = ok (t, false)
completion_of t (raised e) = raised e

abbrev pub date_or : Date → Option Date → Date
date_or today none = today
date_or today (some d) = d

-- Whether the requirement was completed.
unfoldable pub complete_backing_requirement :
    Env → Document → Option ℕ → Tenant → Result (Tenant × Bool)
unfolding fetch
complete_backing_requirement env d none t = ok (t, false)
complete_backing_requirement env d (some k) t = do
  (i, definition) ← fetch k t
  if is_crc definition
        || (is_waived i.status || (is_not_applicable i.status || is_blocked i.status))
      then ok (t, false)
      else completion_of t
          (mark_requirement_complete env k (date_or env.today d.document_date) "" false t)

abbrev pub affected_by : Bool → Option ℕ → Option Entity
affected_by true (some k) = some (entity requirement_instance k)
affected_by _ _ = none

abbrev pub was_current : Snapshot
was_current = record {
  instance_fields = none;
  screening_block = none;
  superseded_by_id = none;
  ended_assignments = [];
}

module _ (cipher : Aead) (digest : List ℕ → String) (fields_valid : Document → Bool) where
  abbrev pub sealed_document : Storage → Document → List ℕ × ContentType → Document
  sealed_document s d (bytes, kind) = record d {
    encrypted_file = some (encrypt_bytes cipher bytes s.nonce s.key);
    content_type = some kind;
    byte_size = some (length bytes);
    plaintext_sha256 = digest bytes;
  }

  -- The part of the document that the mode decides.
  unfoldable pub filled : Storage → DocumentMode → Paperwork → Document → Result Document
  filled s store p d = do
    u ← or_raise file_missing p.upload
    checked ← or_raise file_refused (validate_upload s.max_bytes u)
    ok (sealed_document s d checked)
  filled s link p d =
      if is_empty_text p.external_url
      then raised link_missing
      else ok (record d { external_url = p.external_url })
  filled s track p d = ok (record d { physical_location = p.physical_location })

  -- `full_clean`: a title, and Django's checks. What `clean` adds holds by then.
  abbrev pub unclean : Document → Bool
  unclean d = is_blank d.title || not (fields_valid d)

  unfoldable pub store_document : Env → Storage → Paperwork → Tenant → Result (Tenant × Document)
  unfolding filled
  store_document env s p t = do
    refuse_self env t.volunteer
    d ← filled s s.mode p (blank_document t.next_pk s.mode p)
    refuse_if (unclean d) form_invalid
    let saved = record t {
      documents = supersede p.supersedes d.pk (t.documents ++ d ∷ []);
      next_pk = t.next_pk + 1;
    }
    (u, completed) ← complete_backing_requirement env d p.requirement_instance saved
    let logged = audit env upload (entity document d.pk) u
    queued ←
        open_if_unverified env document_kind (entity document d.pk)
          (affected_by completed p.requirement_instance) was_current logged
    ok (queued, d)

  abbrev pub intact : Document → List ℕ → Bool
  intact d bytes = is_empty_text d.plaintext_sha256 || same_text (digest bytes) d.plaintext_sha256

  -- The bytes; a file that does not open raises an error of the cipher.
  unfoldable pub read_document : Env → List ℕ → Document → Tenant → Result (Tenant × List ℕ)
  read_document env key d t = do
    sealed ← or_raise no_stored_file d.encrypted_file
    bytes ← or_raise integrity_failed (decrypt_bytes cipher sealed key)
    refuse_if (not (intact d bytes)) integrity_failed
    ok (audit env download (entity document d.pk) t, bytes)
