-- ===== src/Scenarios/Keys.antt =====
-- An application of the theorem on the cache of keys, with keys that are stored as they are, and a
-- digest that spells the bytes out.
use Prim.Native.Char.{char, code}
use risk_management.Common.{
  ℕ, zero, suc, ◌+◌, ◌==◌, if◌then◌else◌, arith, inl, inr, sym, ◌∙◌, ◌≡◌, refl, ap, Option, none,
  some, List, [], ◌∷◌, String,
}
use risk_management.Keys.{Entry, KeyState, get_current_key}
use risk_management.Keys.Cached.{get_current_key-HonestCache, HonestCache}

abbrev as_stored : List ℕ → Option (List ℕ)
as_stored wrapped = some wrapped

-- Each byte as so many dashes and a stop.
abbrev dashes : ℕ → String → String
dashes zero rest = String.◌∷◌ (char 46 tt) rest
dashes (suc n) rest = String.◌∷◌ (char 45 tt) (dashes n rest)

abbrev spelt : List ℕ → String
spelt [] = ""
spelt (b ∷ bytes) = dashes b (spelt bytes)

abbrev unspelt : ℕ → String → List ℕ
unspelt n String.[] = []
unspelt n (String.◌∷◌ c s) =
    let here = unspelt zero s in let on = unspelt (suc n) s in if code c == 46 then n ∷ here else on

unspelt-dashes : (n b : ℕ) (rest : String) → unspelt n (dashes b rest) ≡ (n + b) ∷ unspelt zero rest
unspelt-dashes n zero rest = ap (λ k. k ∷ unspelt zero rest) (omega arith)
unspelt-dashes n (suc b) rest =
    unspelt-dashes (suc n) b rest ∙ ap (λ k. k ∷ unspelt zero rest) (omega arith)

unspelt-spelt : (v : List ℕ) → unspelt zero (spelt v) ≡ v
unspelt-spelt [] = refl
unspelt-spelt (b ∷ v) =
    unspelt-dashes zero b (spelt v)
    ∙ ap (λ k. k ∷ unspelt zero (spelt v)) (omega arith)
    ∙ ap (λ l. b ∷ l) (unspelt-spelt v)

spelt_once : (v w : List ℕ) → spelt v ≡ spelt w → v ≡ w
spelt_once v w h = sym (unspelt-spelt v) ∙ ap (unspelt zero) h ∙ unspelt-spelt w

abbrev nowhere : String → Option (List ℕ)
nowhere schema = none

-- The church had the key 7 before it was given the key 8.
abbrev earlier : Entry
earlier = record { schema = "grace"; digest = "-------."; dek = 7 ∷ [] }

earlier-HonestCache : HonestCache as_stored spelt nowhere (earlier ∷ [])
earlier-HonestCache e (inl same) wrapped d =
    ap some (spelt_once wrapped (7 ∷ []) (d ∙ ap (λ (x : Entry). x.digest) same))
    ∙ ap (λ (x : Entry). some x.dek) (sym same)
earlier-HonestCache e (inr never) wrapped d = absurd never

abbrev rekeyed : KeyState × Option (List ℕ)
rekeyed =
    get_current_key as_stored spelt nowhere
      (some (record { schema_name = "grace"; dek_wrapped = some (8 ∷ []) }))
      (record { override = none; cache = earlier ∷ [] })

get_current_key-HonestCache_example :
    (rekeyed.1 ≡ some (8 ∷ [])) × HonestCache as_stored spelt nowhere rekeyed.0.cache
get_current_key-HonestCache_example =
    get_current_key-HonestCache as_stored spelt nowhere spelt_once "grace" 8 [] (earlier ∷ []) refl
      earlier-HonestCache
