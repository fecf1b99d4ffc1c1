-- ===== src/Keys.antt =====
-- apps/core/keys.py: the key of the church in scope, and the cache of keys. Unwrapping a stored key, the
-- digest of a stored key and the registry in the public schema are arguments.
pub mod Cached
use risk_management.Common.{
  ℕ, Bool, true, false, not, Option, none, some, List, [], ◌∷◌, String, if◌then◌else◌, find, select,
  is_some,
}
use text.Mathlib.Text.{◌==◌ as same_text}

-- The tenant that the connection is bound to; a FakeTenant has no stored key.
pub record BoundTenant : Type 0 where
  pub schema_name : String
  pub dek_wrapped : Option (List ℕ)

-- A row of the cache: the digest of the stored key, and the key.
pub record Entry : Type 0 where
  pub schema : String
  pub digest : String
  pub dek : List ℕ

pub record KeyState : Type 0 where
  pub override : Option (List ℕ)
  pub cache : List Entry

abbrev pub is_empty_text : String → Bool
is_empty_text String.[] = true
is_empty_text _ = false

-- A stored key that is empty, as the column is by default, is none: `if not wrapped`.
abbrev pub present : Option (List ℕ) → Option (List ℕ)
present (some (b ∷ w)) = some (b ∷ w)
present _ = none

abbrev pub cached : String → List Entry → Option Entry
cached schema cache = find (λ (e : Entry). same_text e.schema schema) cache

-- `_cache.pop(schema, None)`
abbrev pub without : String → List Entry → List Entry
without schema cache = select (λ (e : Entry). not (same_text e.schema schema)) cache

module _ (unwrap : List ℕ → Option (List ℕ)) (digest_of : List ℕ → String)
    (registry : String → Option (List ℕ)) where
  -- A key that does not unwrap is an error, and nothing is cached.
  abbrev pub kept : String → List ℕ → Option (List ℕ) → KeyState → KeyState × Option (List ℕ)
  kept schema wrapped none s = (s, none)
  kept schema wrapped (some dek) s = (
    record s {
      cache =
          record { schema = schema; digest = digest_of wrapped; dek = dek }
          ∷ without schema s.cache;
    },
    some dek,
  )

  abbrev pub from_row : String → List ℕ → Option Entry → KeyState → KeyState × Option (List ℕ)
  from_row schema wrapped none s = kept schema wrapped (unwrap wrapped) s
  from_row schema wrapped (some e) s =
      if same_text e.digest (digest_of wrapped)
      then (s, some e.dek)
      else kept schema wrapped (unwrap wrapped) s

  abbrev pub from_registry : String → Option (List ℕ) → KeyState → KeyState × Option (List ℕ)
  from_registry schema none s = (s, none)
  from_registry schema (some wrapped) s = from_row schema wrapped (cached schema s.cache) s

  -- Without a stored key at hand, the cache comes first, then the registry.
  abbrev pub from_name : String → Option Entry → KeyState → KeyState × Option (List ℕ)
  from_name schema none s = from_registry schema (present (registry schema)) s
  from_name schema (some e) s = (s, some e.dek)

  abbrev pub for_tenant : Option BoundTenant → KeyState → KeyState × Option (List ℕ)
  for_tenant none s = (s, none)
  for_tenant (some t) s =
      if is_empty_text t.schema_name then (s, none) else elim (present t.dek_wrapped) [
        | none ↦ from_name t.schema_name (cached t.schema_name s.cache) s
        | some wrapped ↦ from_row t.schema_name wrapped (cached t.schema_name s.cache) s
      ]

  abbrev pub forced_or :
      Option (List ℕ) → Option BoundTenant → KeyState → KeyState × Option (List ℕ)
  forced_or none tenant s = for_tenant tenant s
  forced_or (some key) tenant s = (s, some key)

  -- The cache after it, and the key, unless an error says that there is none.
  unfoldable pub get_current_key : Option BoundTenant → KeyState → KeyState × Option (List ℕ)
  get_current_key tenant s = forced_or s.override tenant s

  unfoldable pub has_current_key : Option BoundTenant → KeyState → Bool
  unfolding get_current_key
  has_current_key tenant s = is_some (get_current_key tenant s).1

-- The block runs under the key, and the key from before is back afterwards.
unfoldable pub override_key :
    {A : Type 0} → Option (List ℕ) → (KeyState → KeyState × A) → KeyState → KeyState × A
override_key key block s =
    let (after, result) = block (record s { override = key }) in
    (record after { override = s.override }, result)

unfoldable pub forget_cached_keys : Option String → KeyState → KeyState
forget_cached_keys none s = record s { cache = [] }
forget_cached_keys (some schema) s = record s { cache = without schema s.cache }
