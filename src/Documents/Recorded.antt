-- ===== src/Documents/Recorded.antt =====
-- A document that is recorded can be read.
use risk_management.Common.{
  ℕ, ◌+◌, ◌≡◌, refl, sym, ◌∙◌, subst, inl, inr, Bool, true, false, ◌||◌, Option, none, some, List,
  [], ◌∷◌, ◌++◌, String, arith, Option-cases, length,
}
use text.Mathlib.Text.{◌==◌ as same_text}
use text.Mathlib.TextPositions.{eq_refl}
use risk_management.Audit.{upload, download, document}
use risk_management.Calendar.{Date}
use risk_management.Requirements.Progress.{mark_requirement_complete}
use risk_management.Review.{ReviewKind, document_kind, Snapshot, Entity}
use risk_management.Review.Recording.{open_if_unverified}
use risk_management.Placement.People.{audit-SameFile, refresh_dependents-SameFile, enqueue-SameFile}
use risk_management.Tenant.{
  requirement_blocked, in_the_future, Tenant, Env, Result, ok, raised, ◌>>=◌, ◌>>◌, file_refused,
  audit, entity,
}
use risk_management.Tenant.Outcome.{
  Returns, Returns-bind, Returns-chain, Returns-then, Returns-if, ok-Returns, raised-Returns,
}
use risk_management.Documents.{
  Document, DocumentMode, store, link, track, ContentType, Upload, validate_upload,
}
use risk_management.Documents.Crypto.{Aead, AeadIsSound, nonce_size}
use risk_management.Documents.Uploads.{validate_upload_accepts}
use risk_management.Documents.Roundtrip.{decrypt_bytes-encrypt_bytes}
use risk_management.Documents.Store.{
  Paperwork, Storage, filled, sealed_document, blank_document, completion_of,
  complete_backing_requirement, supersede, is_empty_text, store_document, read_document,
}

-- The file is as it was but for requirement rows, review items and the trail.
abbrev Keeps : Tenant → Tenant → Type 0
Keeps t u = u.documents ≡ t.documents

mark_requirement_complete-Keeps :
    (env : Env) (k : ℕ) (on : Date) (notes : String) (t : Tenant)
    → Returns (Keeps t) (mark_requirement_complete env k on notes false t)
unfolding mark_requirement_complete
mark_requirement_complete-Keeps env k on notes t = Returns-bind _ _ _ λ row. Returns-then _ _ _ (
    Returns-then _ _ _ (
      Returns-then _ _ _ (
        Returns-chain (Keeps t) _ _ _ (ok-Returns (Keeps t) _ (audit-SameFile env _ _ _).documents)
          λ u kept.
            ok-Returns (Keeps t) _ ((refresh_dependents-SameFile env _ u).documents ∙ kept))))

abbrev KeepsFirst : Tenant → Tenant × Bool → Type 0
KeepsFirst t r = r.0.documents ≡ t.documents

completion_of-Keeps :
    (t : Tenant) (m : Result Tenant)
    → Returns (Keeps t) m
    → Returns (KeepsFirst t) (completion_of t m)
completion_of-Keeps t (ok u) h = ok-Returns (KeepsFirst t) (u, true) (h.at u refl)
completion_of-Keeps t (raised requirement_blocked) h = ok-Returns (KeepsFirst t) (t, false) refl
completion_of-Keeps t (raised in_the_future) h = ok-Returns (KeepsFirst t) (t, false) refl
completion_of-Keeps t (raised e) h = raised-Returns (KeepsFirst t) _

complete_backing_requirement-Keeps :
    (env : Env) (d : Document) (k : Option ℕ) (t : Tenant)
    → Returns (KeepsFirst t) (complete_backing_requirement env d k t)
unfolding complete_backing_requirement
complete_backing_requirement-Keeps env d none t = ok-Returns (KeepsFirst t) (t, false) refl
complete_backing_requirement-Keeps env d (some k) t = Returns-bind _ _ _ λ row.
    Returns-if _ _ _ _ (ok-Returns (KeepsFirst t) (t, false) refl)
      (completion_of-Keeps t _ (mark_requirement_complete-Keeps env k _ "" t))

open_if_unverified-Keeps :
    (env : Env) (kind : ReviewKind) (e : Entity) (affected : Option Entity) (before : Snapshot)
    (t : Tenant)
    → Returns (Keeps t) (open_if_unverified env kind e affected before t)
unfolding open_if_unverified
open_if_unverified-Keeps env kind e affected before t =
    Returns-if _ _ _ _ (ok-Returns (Keeps t) t refl) (
      Returns-if _ _ _ _ (raised-Returns (Keeps t) _)
        (ok-Returns (Keeps t) _ (enqueue-SameFile env kind e affected before t).documents))

module _ (cipher : Aead) (sound : AeadIsSound cipher) (digest : List ℕ → String)
    (fields_valid : Document → Bool) (s : Storage) (twelve : length s.nonce ≡ nonce_size) where
  -- The document opens under the church's key to the bytes of the upload.
  abbrev pub ReadsBack : Option Upload → Document → Type 0
  ReadsBack none d = ⊥
  ReadsBack (some u) d =
      (env : Env) (t : Tenant)
      → read_document cipher digest fields_valid env s.key d t
        ≡ ok (audit env download (entity document d.pk) t, u.content)

  intact_refl :
      (bytes : List ℕ)
      → (is_empty_text (digest bytes) || same_text (digest bytes) (digest bytes)) ≡ true
  intact_refl bytes = ground (arith, eq_refl (digest bytes))

  sealed-ReadsBack :
      (d : Document) (u : Upload) (bytes : List ℕ) (kind : ContentType)
      → bytes ≡ u.content
      → ReadsBack (some u) (sealed_document cipher digest fields_valid s d (bytes, kind))
  unfolding read_document ◌>>=◌ ◌>>◌
  sealed-ReadsBack d u bytes kind same env t =
      rw
        (
          decrypt_bytes-encrypt_bytes cipher sound s.nonce twelve s.key bytes,
          intact_refl bytes,
          same,
        )
        refl

  filled-ReadsBack :
      (p : Paperwork) (d : Document)
      → Returns (ReadsBack p.upload) (filled cipher digest fields_valid s store p d)
  unfolding filled ◌>>=◌
  filled-ReadsBack p d = elim (Option-cases p.upload) [
    | inl n ↦ rw n (raised-Returns _ _)
    | inr (u, e) ↦ elim (Option-cases (validate_upload s.max_bytes u)) [
      | inl n ↦ rw (e, n) (raised-Returns (ReadsBack (some u)) file_refused)
      | inr ((bytes, kind), v) ↦
          let same = (validate_upload_accepts s.max_bytes u bytes kind v).0 in
          rw (e, v)
            (ok-Returns (ReadsBack (some u))
              (sealed_document cipher digest fields_valid s d (bytes, kind))
              (sealed-ReadsBack d u bytes kind same))
    ]
  ]

  pub store_document-ReadsBack :
      (env : Env) (p : Paperwork) (t after : Tenant) (d : Document)
      → s.mode ≡ store
      → store_document cipher digest fields_valid env s p t ≡ ok (after, d)
      → ReadsBack p.upload d
  unfolding store_document
  store_document-ReadsBack env p t after d stored h =
      let kept : Returns (λ (r : Tenant × Document). ReadsBack p.upload r.1)
          (store_document cipher digest fields_valid env s p t) =
        Returns-then _ _ _ (
          Returns-chain (ReadsBack p.upload) _ _ _
            (subst
              (λ m.
                Returns (ReadsBack p.upload)
                  (filled cipher digest fields_valid s m p (blank_document t.next_pk s.mode p)))
              (sym stored) (filled-ReadsBack p (blank_document t.next_pk s.mode p)))
            λ made reads. Returns-then _ _ _ (
              Returns-bind _ _ _
                λ done. Returns-bind _ _ _ λ queued. ok-Returns _ (queued, made) reads)) in
      kept.at (after, d) h

module _ (cipher : Aead) (digest : List ℕ → String) (fields_valid : Document → Bool)
    (s : Storage) where
  filled-pk :
      (mode : DocumentMode) (p : Paperwork) (d : Document)
      → Returns (λ (made : Document). made.pk ≡ d.pk) (filled cipher digest fields_valid s mode p d)
  unfolding filled
  filled-pk store p d = Returns-bind _ _ _ λ u. Returns-bind _ _ _ λ checked. ok-Returns _ _ refl
  filled-pk link p d = Returns-if _ _ _ _ (raised-Returns _ _) (ok-Returns _ _ refl)
  filled-pk track p d = ok-Returns _ _ refl

  -- What is recorded has the next key.
  pub store_document-pk :
      (env : Env) (p : Paperwork) (t after : Tenant) (d : Document)
      → store_document cipher digest fields_valid env s p t ≡ ok (after, d)
      → d.pk ≡ t.next_pk
  unfolding store_document
  store_document-pk env p t after d h =
      let numbered : Returns Next (store_document cipher digest fields_valid env s p t) =
        Returns-then Next _ _ (
          Returns-chain (λ (made : Document). made.pk ≡ t.next_pk) Next _ _ (filled-pk s.mode p _)
            λ made key. Returns-then Next _ _ (
              Returns-bind Next _ _
                λ done. Returns-bind Next _ _ λ queued. ok-Returns Next (queued, made) key)) in
      numbered.at (after, d) h
    where
      Next : Tenant × Document → Type 0
      Next r = r.1.pk ≡ t.next_pk

  -- What is recorded is in the table of documents, after those that were there, and the document that
  -- it supersedes is no longer current; whether a requirement was completed makes no difference.
  pub store_document-listed :
      (env : Env) (p : Paperwork) (t after : Tenant) (d : Document)
      → store_document cipher digest fields_valid env s p t ≡ ok (after, d)
      → after.documents ≡ supersede p.supersedes d.pk (t.documents ++ d ∷ [])
  unfolding store_document
  store_document-listed env p t after d h =
      let listed : Returns Listed (store_document cipher digest fields_valid env s p t) =
        Returns-then Listed _ _ (
          Returns-bind Listed _ _ λ made. Returns-then Listed _ _ (
            Returns-chain (KeepsFirst (saved made)) Listed _ _
              (complete_backing_requirement-Keeps env made p.requirement_instance (saved made))
              λ done kept.
                Returns-chain (Keeps (audit env upload (entity document made.pk) done.0)) Listed _ _
                  (open_if_unverified-Keeps env document_kind _ _ _ _)
                  λ queued same.
                    ok-Returns Listed (queued, made)
                      (same ∙ ((audit-SameFile env upload _ done.0).documents ∙ kept)))) in
      listed.at (after, d) h
    where
      Listed : Tenant × Document → Type 0
      Listed r = r.0.documents ≡ supersede p.supersedes r.1.pk (t.documents ++ r.1 ∷ [])

      saved : Document → Tenant
      saved made = record t {
        documents = supersede p.supersedes made.pk (t.documents ++ made ∷ []);
        next_pk = t.next_pk + 1;
      }
