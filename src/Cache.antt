-- ===== src/Cache.antt =====
-- src/simplecc/lsp/client.rs: `CodeLensCache` and `CodeActionCache`, one code over two kinds of items.
-- The proofs are in the modules below.
pub mod History
pub mod Retired
pub mod Tests
use simplecc.Base.{
  ℕ, String, Bool, true, false, not, ◌&&◌, ◌||◌, Option, none, some, List, [], ◌∷◌, ltb, leb, ◌==◌,
  string_key, nat_key, get_elem?, if◌then◌else◌,
}

-- A lens or action index is meaningful only inside the reply that supplied it.
pub record IdentityCache {ℓ} (A : Type ℓ) : Type ℓ where
  pub generation : ℕ
  pub uri : String
  pub items : List A

pub data CacheError : Type 0 where
  stale_identity invalid_index : CacheError

pub data Lookup {ℓ} (A : Type ℓ) : Type ℓ where
  found : A → Lookup A
  refused : CacheError → Lookup A

abbrev pub or_invalid {ℓ} : {A : Type ℓ} → Option A → Lookup A
or_invalid none = refused invalid_index
or_invalid (some a) = found a

module _ {ℓ} {A : Type ℓ} where
  abbrev pub init : IdentityCache A
  init = record { generation = 0; uri = ""; items = [] }

  -- A request is accepted only above the watermark and for a document; it drops the old items.
  unfoldable pub begin : IdentityCache A → ℕ → String → IdentityCache A × Bool
  begin c g u =
      if leb g c.generation || u == ""
      then (c, false)
      else (record { generation = g; uri = u; items = [] }, true)

  unfoldable pub matches : IdentityCache A → ℕ → String → Bool
  matches c g u = ltb 0 g && (not (u == "") && (c.generation == g && c.uri == u))

  unfoldable pub replace : IdentityCache A → ℕ → String → List A → IdentityCache A × Bool
  unfolding matches
  replace c g u xs = if not (matches c g u) then (c, false) else (record c { items = xs }, true)

  -- The watermark stays.
  unfoldable pub invalidate : IdentityCache A → IdentityCache A
  invalidate c = record c { uri = ""; items = [] }

  unfoldable pub invalidate_uri : IdentityCache A → String → IdentityCache A
  unfolding invalidate
  invalidate_uri c u = if c.uri == u then invalidate c else c

  -- `lens` and `action`.
  unfoldable pub item : IdentityCache A → ℕ → String → ℕ → Lookup A
  unfolding matches
  item c g u i =
      if not (matches c g u) then refused stale_identity else or_invalid (get_elem? c.items i)
