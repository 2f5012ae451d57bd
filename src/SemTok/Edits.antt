-- ===== src/SemTok/Edits.antt =====
-- src/simplecc/lsp/client.rs: `apply_semantic_token_edits`. The sum of two `u32` fifths cannot overflow a `usize`.
use simplecc.Base.{
  ℕ, ◌+◌, ◌/◌, ◌%◌, ◌≡◌, refl, Bool, not, ◌||◌, none, some, get_or, List, [], ◌∷◌, ◌++◌, length,
  take, drop, ltb, leb, ◌==◌, nat_key, if◌then◌else◌,
}
use simplecc.Base.Sort.{sort_by, insert_by}
use simplecc.SemTok.{Token, TokensEdit}

pub data EditError : Type 0 where
  start_not_aligned delete_not_aligned out_of_range overlapping : EditError

pub data Result {ℓ} (A : Type ℓ) : Type ℓ where
  ok : A → Result A
  err : EditError → Result A

-- `sort_by_key(Reverse(start))`, which is stable.
abbrev pub falls : TokensEdit → TokensEdit → Bool
falls a b = leb b.start a.start

unfoldable pub sort_edits : List TokensEdit → List TokensEdit
sort_edits edits = sort_by falls edits

-- A range of tokens and what stands in for it.
pub record Splice : Type 0 where
  pub start : ℕ
  pub end : ℕ
  pub replacement : List Token

abbrev pub splice_of : TokensEdit → Splice
splice_of e = record {
  start = e.start / 5;
  end = e.start / 5 + e.delete_count / 5;
  replacement = get_or e.tokens [];
}

abbrev pub push : Splice → Result (List Splice) → Result (List Splice)
push s (ok rest) = ok (s ∷ rest)
push s (err e) = err e

-- One round of the loop, for `n` cached tokens; `rest` is what the later rounds make.
unfoldable pub take_edit : ℕ → ℕ → TokensEdit → Result (List Splice) → Result (List Splice)
take_edit n bound e rest =
    let s = splice_of e in
    if not (e.start % 5 == 0)
    then err start_not_aligned
    else if not (e.delete_count % 5 == 0)
    then err delete_not_aligned
    else if ltb n s.start || ltb n s.end
    then err out_of_range
    else if ltb bound s.end
    then err overlapping
    else push s rest

-- The loop over the sorted edits.
unfoldable pub normalize : ℕ → ℕ → List TokensEdit → Result (List Splice)
unfolding take_edit
normalize n bound [] = ok []
normalize n bound (e ∷ es) = take_edit n bound e (normalize n (e.start / 5) es)

-- `Vec::splice`, for a range within the vector.
unfoldable pub splice : List Token → Splice → List Token
splice tokens s = take s.start tokens ++ (s.replacement ++ drop s.end tokens)

unfoldable pub splice_all : List Token → List Splice → List Token
unfolding splice
splice_all tokens [] = tokens
splice_all tokens (s ∷ ss) = splice_all (splice tokens s) ss

unfoldable pub splice_checked : List Token → Result (List Splice) → Result (List Token)
splice_checked previous (err e) = err e
splice_checked previous (ok ss) = ok (splice_all previous ss)

unfoldable pub apply_semantic_token_edits : List Token → List TokensEdit → Result (List Token)
apply_semantic_token_edits previous edits =
    splice_checked previous (normalize (length previous) (length previous) (sort_edits edits))

abbrev tok : ℕ → Token
tok n = record { delta_line = n; delta_start = n; length = 1; token_type = n; modifiers_bitset = 0 }

applies_flat_wire_offsets :
    apply_semantic_token_edits
      (tok 1 ∷ tok 2 ∷ tok 3 ∷ [])
      (record { start = 5; delete_count = 5; tokens = some (tok 9 ∷ []) } ∷ [])
    ≡ ok (tok 1 ∷ tok 9 ∷ tok 3 ∷ [])
unfolding apply_semantic_token_edits sort_edits sort_by insert_by normalize splice_checked
    splice_all
applies_flat_wire_offsets = refl

rejects_unaligned :
    apply_semantic_token_edits
      (tok 1 ∷ tok 2 ∷ [])
      (record { start = 5; delete_count = 1; tokens = none } ∷ [])
    ≡ err delete_not_aligned
unfolding apply_semantic_token_edits sort_edits sort_by insert_by normalize splice_checked
    splice_all
rejects_unaligned = refl
