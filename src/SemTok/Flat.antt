-- ===== src/SemTok/Flat.antt =====
-- The delta of src/simplecc/lsp/client.rs against the protocol's own reading, edits of a flat array of numbers.
use simplecc.Base.{
  ℕ, zero, suc, ◌+◌, ◌*◌, ◌/◌, ◌≡◌, refl, sym, ap, ap₂, ◌∙◌, get_or, List, [], ◌∷◌, ◌++◌, map,
  arith, length, take, drop,
}
use simplecc.SemTok.{Token, TokensEdit}
use simplecc.SemTok.Edits.{ok, splice_of, sort_edits, apply_semantic_token_edits}
use simplecc.SemTok.Rebuild.{slice, rebuild, Accepted}
use simplecc.SemTok.Delta.{sorted_iff}

-- Five numbers a token.
abbrev pub flat : List Token → List ℕ
flat [] = []
flat (t ∷ ts) =
    t.delta_line ∷ t.delta_start ∷ t.length ∷ t.token_type ∷ t.modifiers_bitset ∷ flat ts

-- Edits by falling start: the numbers from `start` on, `delete_count` of them, are replaced.
abbrev pub edit_numbers : List ℕ → ℕ → List TokensEdit → List ℕ
edit_numbers xs bound [] = take bound xs
edit_numbers xs bound (e ∷ es) =
    edit_numbers xs e.start es
    ++ (flat (get_or e.tokens []) ++ slice (e.start + e.delete_count) bound xs)

abbrev five_times : ℕ → ℕ
five_times zero = 0
five_times (suc n) = suc (suc (suc (suc (suc (five_times n)))))

five_times-eq : (n : ℕ) → five_times n ≡ n * 5
five_times-eq zero = omega arith
five_times-eq (suc n) = omega (arith, five_times-eq n)

flat-append : (ts us : List Token) → flat (ts ++ us) ≡ flat ts ++ flat us
flat-append [] us = refl
flat-append (t ∷ ts) us = cc (flat-append ts us)

flat-take : (n : ℕ) (ts : List Token) → flat (take n ts) ≡ take (five_times n) (flat ts)
flat-take zero ts = refl
flat-take (suc n) [] = refl
flat-take (suc n) (t ∷ ts) = cc (flat-take n ts)

flat-drop : (n : ℕ) (ts : List Token) → flat (drop n ts) ≡ drop (five_times n) (flat ts)
flat-drop zero ts = refl
flat-drop (suc n) [] = refl
flat-drop (suc n) (t ∷ ts) = flat-drop n ts

length-flat : (ts : List Token) → length (flat ts) ≡ five_times (length ts)
length-flat [] = refl
length-flat (t ∷ ts) = omega (arith, length-flat ts)

flat-slice :
    (i j : ℕ) (ts : List Token)
    → flat (slice i j ts) ≡ slice (five_times i) (five_times j) (flat ts)
flat-slice i j ts = flat-drop i (take j ts) ∙ ap (drop (five_times i)) (flat-take j ts)

flat-rebuild :
    (ts : List Token) (n bound : ℕ) (es : List TokensEdit)
    → Accepted n bound es
    → flat (rebuild ts bound (map splice_of es)) ≡ edit_numbers (flat ts) (five_times bound) es
unfolding rebuild
flat-rebuild ts n bound [] a = flat-take bound ts
flat-rebuild ts n bound (e ∷ es) (whole, deleted, inside, below, rest) =
    let first : five_times (e.start / 5) ≡ e.start = omega (arith, five_times-eq (e.start / 5)) in
    let last : five_times (e.start / 5 + e.delete_count / 5) ≡ e.start + e.delete_count =
      omega (arith, five_times-eq (e.start / 5 + e.delete_count / 5)) in
    rw flat-append (
      ap₂ ◌++◌
        (flat-rebuild ts n (e.start / 5) es rest ∙ ap (λ b. edit_numbers (flat ts) b es) first)
        (flat-append (get_or e.tokens []) (slice (e.start / 5 + e.delete_count / 5) bound ts)
          ∙ ap (λ xs. flat (get_or e.tokens []) ++ xs)
              (flat-slice (e.start / 5 + e.delete_count / 5) bound ts
                ∙ ap (λ i. slice i (five_times bound) (flat ts)) last)))

-- An accepted delta gives the array that the protocol means: its edits, which are offsets into the
-- flat array of numbers, made on the numbers of the cached tokens.
pub apply_edits-flat :
    (previous : List Token) (edits : List TokensEdit) (tokens : List Token)
    → apply_semantic_token_edits previous edits ≡ ok tokens
    → flat tokens ≡ edit_numbers (flat previous) (length (flat previous)) (sort_edits edits)
apply_edits-flat previous edits tokens h =
    let (valid, made) = (sorted_iff previous edits tokens).0 h in
    ap flat made
    ∙ (flat-rebuild previous (length previous) (length previous) (sort_edits edits) valid
        ∙ ap (λ b. edit_numbers (flat previous) b (sort_edits edits)) (sym (length-flat previous)))
