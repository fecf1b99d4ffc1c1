-- ===== src/Documents/Fetched.antt =====
-- A document that is fetched by its key, after it was recorded, and read.
use risk_management.Common.{
  ℕ, ◌≡◌, refl, ◌∙◌, ap, subst, inl, inr, Bool, Option, none, some, List, [], ◌∷◌, ◌++◌, String,
  ◌==◌, ==_refl, arith, Bool-cases, some_inj, map, find, length,
}
use risk_management.Audit.{download, document}
use risk_management.Tenant.{Tenant, Env, ok, audit, entity}
use risk_management.Documents.{Document, store, Upload}
use risk_management.Documents.Crypto.{Aead, AeadIsSound, nonce_size}
use risk_management.Documents.Store.{
  Paperwork, Storage, superseded_with, supersede, store_document, read_document,
}
use risk_management.Documents.Recorded.{
  ReadsBack, store_document-ReadsBack, store_document-pk, store_document-listed,
}

-- `Document.objects.get(pk=k)`
abbrev pub document_at : ℕ → List Document → Option Document
document_at k documents = find (λ (d : Document). d.pk == k) documents

document_at-last :
    (k : ℕ) (d : Document) (l : List Document)
    → d.pk ≡ k
    → document_at k l ≡ none
    → document_at k (l ++ d ∷ []) ≡ some d
document_at-last k d [] key h = rw (key, ==_refl k) refl
document_at-last k d (x ∷ l) key h = elim (Bool-cases (x.pk == k)) [
  | inl e ↦ (let clash : some x ≡ none = rw e at h in cc)
  | inr e ↦ rw e (document_at-last k d l key (rw e at h))
]

superseded_with-pk : (old new : ℕ) (d : Document) → (superseded_with old new d).pk ≡ d.pk
superseded_with-pk old new d = ground arith

document_at-map :
    (k old new : ℕ) (l : List Document) (d : Document)
    → document_at k l ≡ some d
    → document_at k (map (superseded_with old new) l) ≡ some (superseded_with old new d)
document_at-map k old new [] d h = cc
document_at-map k old new (x ∷ l) d h = elim (Bool-cases (x.pk == k)) [
  | inl e ↦
      let same : x ≡ d = some_inj (rw e at h) in
      rw (superseded_with-pk old new x, e) (ap (λ y. some (superseded_with old new y)) same)
  | inr e ↦ rw (superseded_with-pk old new x, e) (document_at-map k old new l d (rw e at h))
]

module _ (cipher : Aead) (sound : AeadIsSound cipher) (digest : List ℕ → String)
    (fields_valid : Document → Bool) (s : Storage) (twelve : length s.nonce ≡ nonce_size) where
  abbrev Opens : Upload → Document → Type 0
  Opens u d =
      (env : Env) (t : Tenant)
      → read_document cipher digest fields_valid env s.key d t
        ≡ ok (audit env download (entity document d.pk) t, u.content)

  superseded-Opens :
      (old new : ℕ) (u : Upload) (d : Document) → Opens u d → Opens u (superseded_with old new d)
  unfolding read_document
  superseded-Opens old new u d h = elim (Bool-cases (d.pk == old)) [
    | inl e ↦ rw e h
    | inr e ↦ rw e h
  ]

  fetched :
      (o : Option ℕ) (k : ℕ) (u : Upload) (l : List Document) (d : Document)
      → document_at k l ≡ some d
      → d.pk ≡ k
      → Opens u d
      → (found : Document) × (document_at k (supersede o k l) ≡ some found)
        × (found.pk ≡ k)
        × Opens u found
  fetched none k u l d at key h = (d, at, key, h)
  fetched (some old) k u l d at key h = (
    superseded_with old k d,
    document_at-map k old k l d at,
    superseded_with-pk old k d ∙ key,
    superseded-Opens old k u d h,
  )

  -- With a sound cipher, a document that a church which stores documents has recorded is found in the
  -- table under its key, also if what it supersedes is marked, and the row that is found reads back,
  -- under the same church key, as the bytes that were uploaded, as long as the table is as it was;
  -- the read leaves its entry in the trail. No document has the next key before.
  pub store_document-read_document :
      (env : Env) (p : Paperwork) (t after : Tenant) (d : Document)
      → s.mode ≡ store
      → document_at t.next_pk t.documents ≡ none
      → store_document cipher digest fields_valid env s p t ≡ ok (after, d)
      → (u : Upload) → p.upload ≡ some u
      → (later : Env) (now : Tenant) → now.documents ≡ after.documents
      → (found : Document) × (document_at d.pk now.documents ≡ some found)
        × (read_document cipher digest fields_valid later s.key found now
            ≡ ok (audit later download (entity document d.pk) now, u.content))
  store_document-read_document env p t after d stored fresh h u given later now same =
      let key = store_document-pk cipher digest fields_valid s env p t after d h in
      let table = store_document-listed cipher digest fields_valid s env p t after d h in
      let opens : Opens u d =
        subst (λ o. ReadsBack cipher sound digest fields_valid s twelve o d) given
          (store_document-ReadsBack cipher sound digest fields_valid s twelve env p t after d stored
            h) in
      let last = document_at-last d.pk d t.documents refl (rw key fresh) in
      let (found, at, number, reads) =
        fetched p.supersedes d.pk u (t.documents ++ d ∷ []) d last refl opens in
      (
        found,
        ap (document_at d.pk) (same ∙ table) ∙ at,
        subst
            (λ k.
              read_document cipher digest fields_valid later s.key found now
              ≡ ok (audit later download (entity document k) now, u.content))
            number (reads later now),
      )
