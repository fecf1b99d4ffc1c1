-- ===== src/SignIn/Once.antt =====
-- A sign-in link is good for one sign-in.
use risk_management.Common.{
  ℕ, ap, ◌≡◌, refl, sym, subst, inl, inr, true, ◌||◌, Option, none, some, List, [], map, String,
  Bool-cases, Option-cases, is_some,
}
use risk_management.SignIn.{LoginLink, Account, Platform, is_empty_text, links_in}
use risk_management.SignIn.Links.{
  Payload, Signer, SignerIsSound, Lifetimes, token_link, consume_row, consume, max_age, bind,
  accepted, verify_payload, verify_link, spent_by, consume_link,
}
use risk_management.SignIn.Events.{Event, run, run-spent}
use risk_management.SignIn.Accepted.{bind_is_live, verify_link-Accepted}
use risk_management.SignIn.Spent.{spent_in, change_schema-same, spent_in-consumed, token_link-spent}

module _ (signer : Signer) (hash : String → String) (config : Lifetimes) where
  -- The URL stands for a row that has been spent.
  abbrev Used : String → Platform → Type 0
  Used payload p =
      (said : Payload) × (now : ℕ) × (signer.loads now (max_age config) payload ≡ some said)
      × (spent_in (hash said.token) (links_in said.schema p) ≡ true)

  verify_payload-Used :
      (now : ℕ) (bound : String) (said : Payload) (p : Platform)
      → spent_in (hash said.token) (links_in said.schema p) ≡ true
      → (verify_payload signer hash config now bound (some said) p).1 ≡ none
  unfolding verify_payload accepted
  verify_payload-Used now bound said p s =
      elim (Bool-cases (is_empty_text said.schema || is_empty_text said.token)) [
        | inl e ↦ rw e refl
        | inr e ↦ elim (Option-cases (bind said.schema p)) [
          | inl n ↦ rw (e, n) refl
          | inr (b, q) ↦
              let same = (bind_is_live said.schema b p q).0 in
              elim (Option-cases (token_link (hash said.token) (links_in said.schema p))) [
                | inl n ↦ rw (e, q, same, n) refl
                | inr (l, t) ↦
                    rw
                      (
                        e,
                        q,
                        same,
                        t,
                        token_link-spent (hash said.token) now (links_in said.schema p) l s t,
                      )
                      refl
              ]
        ]
      ]

  verify_link-Used :
      SignerIsSound signer
      → (now : ℕ) (bound payload : String) (p : Platform) → Used payload p
      → (verify_link signer hash config now bound payload p).1 ≡ none
  unfolding verify_link verify_payload
  verify_link-Used laws now bound payload p (said, at, read, s) =
      elim (Option-cases (signer.loads now (max_age config) payload)) [
        | inl e ↦ rw e refl
        | inr (other, e) ↦
            let same : said ≡ other = laws.loads_agree at now _ _ payload said other read e in
            let still : spent_in (hash other.token) (links_in other.schema p) ≡ true =
              subst (λ (q : Payload). spent_in (hash q.token) (links_in q.schema p) ≡ true) same
                s in
            rw e (verify_payload-Used now bound other p still)
      ]

  consume_spends :
      (now : ℕ) (schema h : String) (p : Platform) (l : LoginLink)
      → token_link h (links_in schema p) ≡ some l
      → spent_in h (links_in schema (consume now schema l.pk p)) ≡ true
  unfolding consume
  consume_spends now schema h p l row =
      subst (λ (ls : List LoginLink). spent_in h ls ≡ true)
        (sym
          (change_schema-same schema (map (consume_row l.pk now)) [] p.schemas h (ap is_some row)))
        (spent_in-consumed h now (links_in schema p) l row)

  consume_link-Used :
      (now : ℕ) (bound payload : String) (p : Platform)
      → is_some (consume_link signer hash config now bound payload p).1 ≡ true
      → Used payload (consume_link signer hash config now bound payload p).0
  unfolding consume_link spent_by
  consume_link-Used now bound payload p h =
      marked (verify_link signer hash config now bound payload p) refl h
    where
      marked :
          (v : String × Option (Account × LoginLink))
          → verify_link signer hash config now bound payload p ≡ v
          → is_some v.1 ≡ true
          → Used payload (spent_by now v p)
      marked (schema, none) e h = cc
      marked (schema, some (u, l)) e h =
          let (said, read, ok) =
            verify_link-Accepted signer hash config now bound payload schema p u l e in
          let named = (bind_is_live said.schema schema p ok.bound_to).0 in
          let h = hash said.token in
          (
            said,
            now,
            read,
            subst (λ s. spent_in h (links_in s (consume now schema l.pk p)) ≡ true) named
                (consume_spends now schema h p l ok.row_of),
          )

  -- With a signer that is sound, once a sign-in link has let somebody in, it is refused at every
  -- later time, from wherever the request comes and whatever happens on the platform in between:
  -- links issued and spent, accounts and churches changed.
  pub consume_link_once :
      SignerIsSound signer
      → (now : ℕ) (bound payload : String) (p : Platform)
      → is_some (consume_link signer hash config now bound payload p).1 ≡ true
      → (events : List (Event signer hash config)) (later : ℕ) (bound' : String)
      → let after = (consume_link signer hash config now bound payload p).0 in
        (verify_link signer hash config later bound' payload
          (run signer hash config events after)).1
        ≡ none
  consume_link_once laws now bound payload p h events later bound' =
      let after = (consume_link signer hash config now bound payload p).0 in
      let (said, at, read, s) = consume_link-Used now bound payload p h in
      verify_link-Used laws later bound' payload (run signer hash config events after)
        (said, at, read, run-spent signer hash config events said.schema (hash said.token) after s)
