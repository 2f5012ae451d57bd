-- ===== src/SemTok/Delta.antt =====
-- What a delta of src/simplecc/lsp/client.rs does, in terms of its edits alone.
use simplecc.Base.{
  ℕ, ◌+◌, ◌/◌, ◌≤◌, ◌≡◌, ◌↔◌, refl, sym, ap, ◌∙◌, Bool, get_or, List, [], ◌∷◌, ◌++◌, map, length,
  take, keep, ◌==◌, nat_key, nat_same_iff, arith,
}
use simplecc.Base.Sort.{sort_by, Leads, Sorted, Sorted-sort, sort_stable}
use simplecc.SemTok.{Token, TokensEdit}
use simplecc.SemTok.Edits.{
  ok, falls, sort_edits, splice_of, normalize, splice_all, apply_semantic_token_edits,
}
use simplecc.SemTok.Rebuild.{
  slice, rebuild, Accepted, Accepted-Apart, normalize_iff, splice_checked_iff,
  splice_all-eq-rebuild,
}

-- No edit starts after one that stands before it.
abbrev NoneAbove : TokensEdit → List TokensEdit → Type 0
NoneAbove e [] = Unit {0}
NoneAbove e (x ∷ xs) = (x.start ≤ e.start) × NoneAbove e xs

abbrev pub IsFalling : List TokensEdit → Type 0
IsFalling [] = Unit {0}
IsFalling (e ∷ es) = NoneAbove e es × IsFalling es

-- The same edits, those with one start in the order in which they were.
abbrev starts_at : ℕ → TokensEdit → Bool
starts_at start e = e.start == start

abbrev pub IsStable : List TokensEdit → List TokensEdit → Type 0
IsStable es edits = (start : ℕ) → keep (starts_at start) es ≡ keep (starts_at start) edits

-- The tokens below `bound` with each edit made, from the last one to the first: an edit stands for
-- a fifth of its numbers, and a missing list of tokens is an empty one.
unfoldable pub rewritten : List Token → ℕ → List TokensEdit → List Token
rewritten tokens bound [] = take bound tokens
rewritten tokens bound (e ∷ es) =
    rewritten tokens (e.start / 5) es
    ++ (get_or e.tokens [] ++ slice (e.start / 5 + e.delete_count / 5) bound tokens)

rebuild-rewritten :
    (tokens : List Token) (bound : ℕ) (es : List TokensEdit)
    → rebuild tokens bound (map splice_of es) ≡ rewritten tokens bound es
unfolding rebuild rewritten
rebuild-rewritten tokens bound [] = refl
rebuild-rewritten tokens bound (e ∷ es) =
    ap (λ ts. ts ++ (get_or e.tokens [] ++ slice (e.start / 5 + e.delete_count / 5) bound tokens))
      (rebuild-rewritten tokens (e.start / 5) es)

none_above : (e : TokensEdit) (es : List TokensEdit) → Leads falls e es → NoneAbove e es
none_above e [] l = tt
none_above e (x ∷ xs) (h, l) = (ground (arith, h), none_above e xs l)

falling : (es : List TokensEdit) → Sorted falls es → IsFalling es
falling [] s = tt
falling (e ∷ es) (l, s) = (none_above e es l, falling es s)

sort_edits-IsFalling : (edits : List TokensEdit) → IsFalling (sort_edits edits)
unfolding sort_edits
sort_edits-IsFalling edits =
    falling (sort_by falls edits)
      (Sorted-sort falls (λ x y h. ground (arith, h)) (λ x y z h k. ground (arith, h, k)) edits)

sort_edits-IsStable : (edits : List TokensEdit) → IsStable (sort_edits edits) edits
unfolding sort_edits
sort_edits-IsStable edits start =
    sort_stable falls (starts_at start)
      (λ x y h k. ground (arith, h, k, nat_same_iff x.start start, nat_same_iff y.start start))
      edits

pub sorted_iff :
    (previous : List Token) (edits : List TokensEdit) (tokens : List Token)
    → (apply_semantic_token_edits previous edits ≡ ok tokens) ↔ (
        Accepted (length previous) (length previous) (sort_edits edits)
        × (tokens ≡ rebuild previous (length previous) (map splice_of (sort_edits edits))))
unfolding apply_semantic_token_edits
sorted_iff previous edits tokens =
    let n = length previous in
    let es = sort_edits edits in
    let checked = splice_checked_iff previous (normalize n n es) tokens in
    let spliced = λ (a : Accepted n n es).
      splice_all-eq-rebuild previous (map splice_of es) (Accepted-Apart n n es a) in
    (
      λ h.
          let (ss, done, made) = checked.0 h in
          let (valid, same) = (normalize_iff n n es ss).0 done in
          (valid, made ∙ (ap (splice_all previous) same ∙ spliced valid)),
      λ (valid, made). checked.1 (
        map splice_of es,
        (normalize_iff n n es (map splice_of es)).1 (valid, refl),
        made ∙ sym (spliced valid),
      ),
    )

-- The edits of a delta have a stable order by falling start, and the delta is accepted exactly if
-- they are then whole tokens, within the cached array and apart; the new array is then the old one
-- with the range of each edit replaced by its tokens, and all else kept.
pub apply_edits_iff :
    (previous : List Token) (edits : List TokensEdit)
    → (es : List TokensEdit) × (IsFalling es
        × IsStable es edits
        × ((tokens : List Token)
            → (apply_semantic_token_edits previous edits ≡ ok tokens) ↔ (
                Accepted (length previous) (length previous) es
                × (tokens ≡ rewritten previous (length previous) es))))
apply_edits_iff previous edits =
    let n = length previous in
    let es = sort_edits edits in
    let same = rebuild-rewritten previous n es in
    (
      es,
      (
        sort_edits-IsFalling edits,
        sort_edits-IsStable edits,
        λ tokens.
            let both = sorted_iff previous edits tokens in
            (
              λ h. let (valid, made) = both.0 h in (valid, made ∙ same),
              λ (valid, made). both.1 (valid, made ∙ sym same),
            ),
      ),
    )
