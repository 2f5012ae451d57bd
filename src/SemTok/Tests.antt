-- ===== src/SemTok/Tests.antt =====
-- The semantic tokens of src/simplecc/lsp/client.rs at concrete arrays and caches.
use simplecc.Base.{
  ℕ, ◌≡◌, ◌↔◌, refl, true, inl, inr, String, none, some, List, [], ◌∷◌, map, arith, string_key,
}
use simplecc.Base.Assoc.{lookup}
use simplecc.SemTok.{Token, TokensEdit}
use simplecc.SemTok.Edits.{ok, apply_semantic_token_edits}
use simplecc.SemTok.Rebuild.{Accepted}
use simplecc.SemTok.Delta.{IsFalling, IsStable, rewritten, apply_edits_iff}
use simplecc.SemTok.Decode.{decode_raw_tokens}
use simplecc.SemTok.Encode.{Placed, shown, encode_from, decode-encode}
use simplecc.SemTok.Bounded.{Cache, store_semtok_cache}
use simplecc.SemTok.Store.{new_entry, store_lru}
use simplecc.SemTok.Flow.{World, tokens, as_delta, semantic_tokens_full_delta}
use simplecc.SemTok.Coherent.{Fits, Shows, full_delta-Shows}

abbrev tok : ℕ → Token
tok n = record { delta_line = n; delta_start = n; length = 1; token_type = n; modifiers_bitset = 0 }

abbrev three : List Token
three = tok 1 ∷ tok 2 ∷ tok 3 ∷ []

abbrev replace_second : List TokensEdit
replace_second = record { start = 5; delete_count = 5; tokens = some (tok 9 ∷ []) } ∷ []

apply_edits_iff_example :
    (es : List TokensEdit) × (IsFalling es
      × IsStable es replace_second
      × ((tokens : List Token)
          → (apply_semantic_token_edits three replace_second ≡ ok tokens)
            ↔ (Accepted 3 3 es × (tokens ≡ rewritten three 3 es))))
apply_edits_iff_example = apply_edits_iff three replace_second

abbrev placed : List Placed
placed =
    record { line = 2; start = 4; length = 3; token_type = 0; modifiers = true ∷ [] }
    ∷ record { line = 2; start = 9; length = 2; token_type = 5; modifiers = [] }
    ∷ []

abbrev no_name : ℕ → String
no_name n = "type"

decode-encode_example :
    decode_raw_tokens no_name ("fn" ∷ []) ("static" ∷ []) (encode_from 0 0 placed)
    ≡ map (shown no_name ("fn" ∷ []) ("static" ∷ [])) placed
decode-encode_example = decode-encode no_name ("fn" ∷ []) ("static" ∷ []) placed (omega arith) (
  inl (omega arith),
  omega arith,
  omega arith,
  (inr (refl, omega arith), omega arith, omega arith, tt),
)

abbrev one_entry : Cache
one_entry = ("a", record { result_id = some "1"; tokens = three; last_used = 1 }) ∷ []

one_entry-Fits : Fits 5 one_entry
unfolding lookup
one_entry-Fits = record { distinct = (tt, tt); small = omega arith; older = λ j e h. ground arith }

store_lru_example :
    lookup "b" (store_semtok_cache 5 "b" none three one_entry) ≡ some (new_entry 5 none three)
store_lru_example =
    (store_lru 5 "b" none three one_entry one_entry-Fits.distinct one_entry-Fits.small
      one_entry-Fits.older).2

abbrev world : World
world = record {
  delta = some (as_delta (some "2") replace_second);
  delta_time = 5;
  before_delta = λ m. m;
  full = some (tokens none three);
  full_time = 5;
  before_full = λ m. m;
}

full_delta-Shows_example :
    Shows no_name
      ("fn" ∷ [])
      []
      "a"
      (semantic_tokens_full_delta no_name ("fn" ∷ []) [] "a" world one_entry)
full_delta-Shows_example =
    full_delta-Shows no_name ("fn" ∷ []) [] 5 world "a" one_entry
      (record { later = omega arith; delta_step = λ m f. f; full_step = λ m f. f }) one_entry-Fits
