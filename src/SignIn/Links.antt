-- ===== src/SignIn/Links.antt =====
-- apps/accounts/links.py: a sign-in link is issued, verified and spent. What Django's signer and the
-- hash do are arguments. The request is the name of the schema that it is bound to.
use risk_management.Common.{
  ℕ, ◌+◌, ◌*◌, ◌≡◌, ◌≤◌, not, ◌||◌, Option, none, some, List, [], ◌∷◌, map, ◌++◌, String, ◌==◌,
  if◌then◌else◌, find, any,
}
use risk_management.Audit.{AuditEvent, link_issued, user}
use text.Mathlib.Text.{◌==◌ as same_text}
use risk_management.SignIn.{
  LinkPurpose, invite, recovery, LoginLink, Account, Schema, Platform, public, is_empty_text,
  links_in, users_in, is_usable, resolve_tenant,
}

-- What is in the URL.
pub record Payload : Type 0 where
  pub schema : String
  pub token : String

-- `signing.dumps` at a moment, and `signing.loads` at a moment with the age that it allows.
pub record Signer : Type 0 where
  pub dumps : ℕ → Payload → String
  pub loads : ℕ → ℕ → String → Option Payload

-- What the program relies on: the signer reads back what it wrote until it is too old, and a text
-- means one payload.
pub record SignerIsSound (s : Signer) : Type 0 where
  pub loads_dumped :
      (at now age : ℕ) (p : Payload) → now ≤ at + age → s.loads now age (s.dumps at p) ≡ some p
  pub loads_agree :
      (now now' age age' : ℕ) (text : String) (p q : Payload)
      → s.loads now age text ≡ some p
      → s.loads now' age' text ≡ some q
      → p ≡ q

-- The two settings, VMS_RECOVERY_LINK_MINUTES and VMS_INVITE_LINK_DAYS.
pub record Lifetimes : Type 0 where
  pub recovery_minutes : ℕ
  pub invite_days : ℕ

-- In seconds.
unfoldable pub lifetime : Lifetimes → LinkPurpose → ℕ
lifetime c recovery = c.recovery_minutes * 60
lifetime c invite = c.invite_days * 86400

-- The links of one schema change, and its trail grows.
abbrev pub change_schema :
    String → (List LoginLink → List LoginLink) → List AuditEvent → List Schema → List Schema
change_schema name f events schemas =
    map
      (λ (s : Schema).
        if same_text s.name name
        then record s { links = f s.links; trail = s.trail ++ events }
        else s)
      schemas

abbrev pub with_links :
    String → (List LoginLink → List LoginLink) → List AuditEvent → Platform → Platform
with_links name f events p = record p { schemas = change_schema name f events p.schemas }

-- `audit.record` outside a church writes nothing.
abbrev pub link_issued_in : String → Option ℕ → ℕ → List AuditEvent
link_issued_in bound actor k =
    if same_text bound public
    then []
    else record { actor_user_id = actor; action = link_issued; entity_type = user; entity_id = k }
      ∷ []

abbrev pub token_link : String → List LoginLink → Option LoginLink
token_link hash links = find (λ (l : LoginLink). same_text l.token_hash hash) links

abbrev pub account_of : LoginLink → List Account → Option Account
account_of l users = find (λ (u : Account). u.pk == l.user_id) users

-- `link.consume()`
abbrev pub consume_row : ℕ → ℕ → LoginLink → LoginLink
consume_row k now l = if l.pk == k then record l { consumed_at = some now } else l

unfoldable pub consume : ℕ → String → ℕ → Platform → Platform
consume now schema k p = with_links schema (map (consume_row k now)) [] p

unfoldable pub max_age : Lifetimes → ℕ
unfolding lifetime
max_age config = lifetime config invite

-- `_bind`: the schema that the request is bound to, or a refusal.
unfoldable pub bind : String → Platform → Option String
bind schema p =
    if same_text schema public
    then some public
    else elim (resolve_tenant schema p) [ none ↦ none | some c ↦ some c.schema_name ]

-- A link that exists, is usable and belongs to an active account.
unfoldable pub accepted : ℕ → List Account → Option LoginLink → Option (Account × LoginLink)
accepted now users none = none
accepted now users (some l) = if not (is_usable now l) then none else elim (account_of l users) [
  | none ↦ none
  | some u ↦ (if u.is_active then some (u, l) else none)
]

-- A failed attempt leaves the request in the public schema.
abbrev pub settled : String → Option (Account × LoginLink) → String × Option (Account × LoginLink)
settled schema none = (public, none)
settled schema (some found) = (schema, some found)

unfoldable pub spent_by : ℕ → String × Option (Account × LoginLink) → Platform → Platform
spent_by now (schema, none) p = p
spent_by now (schema, some (u, l)) p = consume now schema l.pk p

module _ (signer : Signer) (hash : String → String) (config : Lifetimes) where
  -- The row and the payload of the URL. `token_hash` is unique: a second row with it is refused.
  unfoldable pub issue_link :
      ℕ
      → String
      → Option ℕ
      → String
      → Account
      → LinkPurpose
      → Option ℕ
      → Platform
      → Option (Platform × String)
  unfolding lifetime
  issue_link now bound actor secret account purpose issued_by p =
      if any (λ (l : LoginLink). same_text l.token_hash (hash secret)) (links_in bound p)
      then none
      else let link : LoginLink = record {
        pk = p.next_pk;
        user_id = account.pk;
        token_hash = hash secret;
        purpose = purpose;
        issued_by = issued_by;
        expires_at = now + lifetime config purpose;
        consumed_at = none;
      } in
        some (
          record (with_links bound (λ links. link ∷ links) (link_issued_in bound actor account.pk)
              p) { next_pk = p.next_pk + 1 },
          signer.dumps now (record { schema = bound; token = secret }),
        )

  unfoldable pub verify_payload :
      ℕ → String → Option Payload → Platform → String × Option (Account × LoginLink)
  verify_payload now bound none p = (bound, none)
  verify_payload now bound (some said) p =
      if is_empty_text said.schema || is_empty_text said.token
      then (bound, none)
      else elim (bind said.schema p) [
        | none ↦ (bound, none)
        | some schema ↦
            settled schema
              (accepted now (users_in schema p) (token_link (hash said.token) (links_in schema p)))
      ]

  -- The schema that the request is left in, and the account and the link, unless it is refused.
  unfoldable pub verify_link :
      ℕ → String → String → Platform → String × Option (Account × LoginLink)
  verify_link now bound payload p =
      verify_payload now bound (signer.loads now (max_age config) payload) p

  -- Verified and marked as spent.
  unfoldable pub consume_link :
      ℕ → String → String → Platform → Platform × Option (Account × LoginLink)
  consume_link now bound payload p =
      let v = verify_link now bound payload p in (spent_by now v p, v.1)
