-- ===== src/SemTok/Decode.antt =====
-- src/simplecc/lsp/client.rs: `decode_raw_tokens`. Sums are `u32` and wrap, as in the release build; the shift
-- `1 << i` takes its amount modulo 32 there.
use simplecc.Base.{
  ℕ, suc, ◌+◌, ◌/◌, ◌%◌, ◌^◌, String, get_or, List, [], ◌∷◌, ltb, ◌==◌, nat_key, get_elem?,
  if◌then◌else◌,
}
use simplecc.SemTok.{Token, TokenItem}

abbrev pub u32_mod : ℕ
u32_mod = 2 ^ 32

-- `format!("type_{}", …)` and the legend are what the names come from.
module _ (type_number : ℕ → String) where
  unfoldable pub token_type_name : List String → ℕ → String
  token_type_name names t = get_or (get_elem? names t) (type_number t)

-- The names whose bit is set, from the bit `i` on.
unfoldable pub modifier_names : ℕ → ℕ → List String → List String
modifier_names bits i [] = []
modifier_names bits i (name ∷ names) =
    let rest = modifier_names bits (suc i) names in
    if bits / 2 ^ (i % 32) % 2 == 0 then rest else name ∷ rest

unfoldable pub next_line : ℕ → Token → ℕ
next_line line t = if ltb 0 t.delta_line then (line + t.delta_line) % u32_mod else line

unfoldable pub next_start : ℕ → Token → ℕ
next_start start t = if ltb 0 t.delta_line then t.delta_start else (start + t.delta_start) % u32_mod

module _ (type_number : ℕ → String) (type_names mod_names : List String) where
  -- The item of a token at an absolute place.
  unfoldable pub item_at : ℕ → ℕ → Token → TokenItem
  unfolding token_type_name modifier_names
  item_at line start t = record {
    line = line;
    start = start;
    length = t.length;
    token_type = token_type_name type_number type_names t.token_type;
    modifiers = modifier_names t.modifiers_bitset 0 mod_names;
  }

  -- The loop, from a current line and start.
  unfoldable pub decode_from : ℕ → ℕ → List Token → List TokenItem
  unfolding item_at next_line next_start
  decode_from line start [] = []
  decode_from line start (t ∷ ts) =
      item_at (next_line line t) (next_start start t) t
      ∷ decode_from (next_line line t) (next_start start t) ts

  unfoldable pub decode_raw_tokens : List Token → List TokenItem
  unfolding decode_from
  decode_raw_tokens = decode_from 0 0
