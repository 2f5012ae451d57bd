-- ===== src/SemTok/Encode.antt =====
-- The protocol's encoding of semantic tokens, which decode_raw_tokens of src/simplecc/lsp/client.rs undoes.
use native.Mathlib.Nat.{pow-suc, div-div-eq-div-mul}
use simplecc.Base.{
  ℕ, suc, ◌+◌, ◌*◌, ◌-◌, ◌/◌, ◌%◌, ◌^◌, ◌≤◌, ◌<◌, String, ◌≡◌, ◌⊎◌, refl, sym, ap, ◌∙◌, Bool,
  length, get_or, List, [], ◌∷◌, map, arith, ◌==◌, nat_key, get_elem?, if◌then◌else◌,
}
use simplecc.SemTok.{Token, TokenItem}
use simplecc.SemTok.Decode.{
  u32_mod, token_type_name, modifier_names, next_line, next_start, item_at, decode_from,
  decode_raw_tokens,
}

-- A token at its absolute place, as a server has it before it writes deltas; of each modifier of the
-- legend it says whether the token has it.
pub record Placed : Type 0 where
  pub line : ℕ
  pub start : ℕ
  pub length : ℕ
  pub token_type : ℕ
  pub modifiers : List Bool

-- One bit for each modifier, the first of them the lowest.
abbrev pub bitset : List Bool → ℕ
bitset [] = 0
bitset (b ∷ bs) = (if b then 1 else 0) + 2 * bitset bs

-- The names of the modifiers that a token has.
abbrev pub chosen : List String → List Bool → List String
chosen [] bs = []
chosen (name ∷ names) [] = []
chosen (name ∷ names) (b ∷ bs) = if b then name ∷ chosen names bs else chosen names bs

-- The protocol's relative encoding.
abbrev pub relative : ℕ → ℕ → Placed → Token
relative line start p = record {
  delta_line = p.line - line;
  delta_start = if p.line == line then p.start - start else p.start;
  length = p.length;
  token_type = p.token_type;
  modifiers_bitset = bitset p.modifiers;
}

abbrev pub encode_from : ℕ → ℕ → List Placed → List Token
encode_from line start [] = []
encode_from line start (p ∷ ps) = relative line start p ∷ encode_from p.line p.start ps

-- In document order from a place on, and within `u32`.
abbrev pub InOrder : ℕ → ℕ → List Placed → Type 0
InOrder line start [] = Unit {0}
InOrder line start (p ∷ ps) =
    ((line < p.line) ⊎ ((line ≡ p.line) × (start ≤ p.start)))
    × (p.line < u32_mod)
    × (p.start < u32_mod)
    × InOrder p.line p.start ps

next_line-relative :
    (line start : ℕ) (p : Placed)
    → line < u32_mod
    → (line < p.line) ⊎ ((line ≡ p.line) × (start ≤ p.start))
    → p.line < u32_mod
    → next_line line (relative line start p) ≡ p.line
unfolding next_line
next_line-relative line start p hl place h = ground arith

next_start-relative :
    (line start : ℕ) (p : Placed)
    → start < u32_mod
    → (line < p.line) ⊎ ((line ≡ p.line) × (start ≤ p.start))
    → p.start < u32_mod
    → next_start start (relative line start p) ≡ p.start
unfolding next_start
next_start-relative line start p hs place h = ground arith

-- The bits from the next one on are half of those from this one on.
next_bits : (bits i x : ℕ) → bits / 2 ^ i ≡ x → bits / 2 ^ suc i ≡ x / 2
next_bits bits i x h =
    ap (λ d. bits / d) (pow-suc 2 i) ∙ (sym (div-div-eq-div-mul bits (2 ^ i) 2) ∙ ap (λ y. y / 2) h)

-- One round: a shift by less than 32 is not reduced.
one_name :
    (bits i x : ℕ) (name : String) (names : List String)
    → bits / 2 ^ i ≡ x
    → i < 32
    → modifier_names bits i (name ∷ names) ≡ (
        if x % 2 == 0
        then modifier_names bits (suc i) names
        else name ∷ modifier_names bits (suc i) names)
unfolding modifier_names
one_name bits i x name names h few =
    let small : i % 32 ≡ i = omega (arith, few) in rw (small, h) refl

no_bits :
    (bits i : ℕ) (names : List String)
    → bits / 2 ^ i ≡ 0
    → i + length names ≤ 32
    → modifier_names bits i names ≡ []
unfolding modifier_names
no_bits bits i [] none_left few = refl
no_bits bits i (name ∷ names) none_left few =
    one_name bits i 0 name names none_left (omega (arith, few))
    ∙ no_bits bits (suc i) names (next_bits bits i 0 none_left) (omega (arith, few))

half_bitset : (b : Bool) (bs : List Bool) → bitset (b ∷ bs) / 2 ≡ bitset bs
half_bitset b bs = ground arith

pick_name :
    (b : Bool) (n : ℕ) (name : String) (names : List String)
    → (if ((if b then 1 else 0) + 2 * n) % 2 == 0 then names else name ∷ names)
      ≡ (if b then name ∷ names else names)
pick_name b n name names = ground arith

-- The names from a bit on are those of the flags that are left.
modifiers-chosen_from :
    (bits i : ℕ) (names : List String) (flags : List Bool)
    → bits / 2 ^ i ≡ bitset flags
    → i + length names ≤ 32
    → modifier_names bits i names ≡ chosen names flags
unfolding modifier_names
modifiers-chosen_from bits i [] flags rest few = refl
modifiers-chosen_from bits i (name ∷ names) [] rest few = no_bits bits i (name ∷ names) rest few
modifiers-chosen_from bits i (name ∷ names) (b ∷ bs) rest few =
    one_name bits i (bitset (b ∷ bs)) name names rest (omega (arith, few))
    ∙ (pick_name b (bitset bs) name (modifier_names bits (suc i) names)
        ∙ ap (λ ns. if b then name ∷ ns else ns)
            (modifiers-chosen_from bits (suc i) names bs
              (next_bits bits i (bitset (b ∷ bs)) rest ∙ half_bitset b bs) (omega (arith, few))))

modifiers-chosen :
    (names : List String) (flags : List Bool)
    → length names ≤ 32
    → modifier_names (bitset flags) 0 names ≡ chosen names flags
modifiers-chosen names flags few =
    modifiers-chosen_from (bitset flags) 0 names flags (omega arith) (omega (arith, few))

module _ (type_number : ℕ → String) (type_names mod_names : List String) where
  -- The item of a placed token.
  abbrev pub shown : Placed → TokenItem
  shown p = record {
    line = p.line;
    start = p.start;
    length = p.length;
    token_type = get_or (get_elem? type_names p.token_type) (type_number p.token_type);
    modifiers = chosen mod_names p.modifiers;
  }

  decode-encode_from :
      length mod_names ≤ 32
      → (line start : ℕ) (ps : List Placed) → line < u32_mod
      → start < u32_mod
      → InOrder line start ps
      → decode_from type_number type_names mod_names line start (encode_from line start ps)
        ≡ map shown ps
  unfolding decode_from item_at token_type_name
  decode-encode_from few line start [] hl hs o = refl
  decode-encode_from few line start (p ∷ ps) hl hs (place, okl, oks, rest) =
      rw
        (
          next_line-relative line start p hl place okl,
          next_start-relative line start p hs place oks,
          modifiers-chosen mod_names p.modifiers few,
        )
        (ap (λ xs. shown p ∷ xs) (decode-encode_from few p.line p.start ps okl oks rest))

  -- Decoding undoes the protocol's encoding of any tokens in document order, for a legend of at most
  -- 32 modifiers: each token is shown at its place, with the names of its modifiers and of its type,
  -- or the number of a type that the legend does not have.
  pub decode-encode :
      (ps : List Placed)
      → length mod_names ≤ 32
      → InOrder 0 0 ps
      → decode_raw_tokens type_number type_names mod_names (encode_from 0 0 ps) ≡ map shown ps
  unfolding decode_raw_tokens
  decode-encode ps few = decode-encode_from few 0 0 ps (omega arith) (omega arith)
