-- ===== src/SemTok/Rebuild.antt =====
-- What accepted token edits do, as one reading of the old array: the proof for src/simplecc/lsp/client.rs.
use mathlib.Core.List.{append_assoc, append-nil}
use simplecc.Base.{
  ℕ, zero, suc, ◌+◌, ◌/◌, ◌%◌, ◌≤◌, ◌≡◌, ◌↔◌, refl, sym, ap, ◌∙◌, List, [], ◌∷◌, ◌++◌, map, arith,
  length, take, drop,
}
use simplecc.SemTok.{Token, TokensEdit}
use simplecc.SemTok.Edits.{
  Result, ok, err, Splice, splice_of, take_edit, normalize, splice_all, splice_checked,
}

-- The entries from `i` up to `j`.
abbrev pub slice {ℓ} : {A : Type ℓ} → ℕ → ℕ → List A → List A
slice i j xs = drop i (take j xs)

-- The entries below `bound`, with each range replaced: from the last range to the first.
unfoldable pub rebuild : List Token → ℕ → List Splice → List Token
rebuild tokens bound [] = take bound tokens
rebuild tokens bound (s ∷ ss) =
    rebuild tokens s.start ss ++ (s.replacement ++ slice s.end bound tokens)

-- The ranges lie below the bound, in order and apart.
abbrev pub Apart : ℕ → List Splice → Type 0
Apart bound [] = Unit {0}
Apart bound (s ∷ ss) = (s.start ≤ s.end) × (s.end ≤ bound) × Apart s.start ss

module _ {ℓ} {A : Type ℓ} where
  take_of_take :
      (s b : ℕ) (xs tail : List A) → s ≤ b → b ≤ length xs → take s (take b xs ++ tail) ≡ take s xs
  take_of_take zero b xs tail h k = refl
  take_of_take (suc s) zero xs tail h k = absurd (omega arith)
  take_of_take (suc s) (suc b) [] tail h k = absurd (omega arith)
  take_of_take (suc s) (suc b) (x ∷ xs) tail h k =
      ap (λ ys. x ∷ ys) (take_of_take s b xs tail (omega arith) (omega arith))

  drop_of_take :
      (e b : ℕ) (xs tail : List A)
      → e ≤ b
      → b ≤ length xs
      → drop e (take b xs ++ tail) ≡ slice e b xs ++ tail
  drop_of_take zero b xs tail h k = refl
  drop_of_take (suc e) zero xs tail h k = absurd (omega arith)
  drop_of_take (suc e) (suc b) [] tail h k = absurd (omega arith)
  drop_of_take (suc e) (suc b) (x ∷ xs) tail h k =
      drop_of_take e b xs tail (omega arith) (omega arith)

  pub take_all : (xs : List A) → take (length xs) xs ≡ xs
  take_all [] = refl
  take_all (x ∷ xs) = ap (λ ys. x ∷ ys) (take_all xs)

splice_all-rebuild :
    (tokens : List Token) (bound : ℕ) (ss : List Splice) (tail : List Token)
    → bound ≤ length tokens
    → Apart bound ss
    → splice_all (take bound tokens ++ tail) ss ≡ rebuild tokens bound ss ++ tail
unfolding splice_all rebuild
splice_all-rebuild tokens bound [] tail h a = refl
splice_all-rebuild tokens bound (s ∷ ss) tail h (ordered, below, rest) =
    rw
      (
        take_of_take s.start bound tokens tail (omega arith) h,
        drop_of_take s.end bound tokens tail below h,
      )
      (splice_all-rebuild tokens s.start ss _ (omega arith) rest ∙ simp append_assoc)

-- What the code accepts of edits that are sorted by falling start: each counts whole tokens, lies
-- in the array, and ends before the one that was taken above it begins.
abbrev pub Accepted : ℕ → ℕ → List TokensEdit → Type 0
Accepted n bound [] = Unit {0}
Accepted n bound (e ∷ es) =
    (e.start % 5 ≡ 0)
    × (e.delete_count % 5 ≡ 0)
    × (e.start / 5 + e.delete_count / 5 ≤ n)
    × (e.start / 5 + e.delete_count / 5 ≤ bound)
    × Accepted n (e.start / 5) es

take_edit_iff :
    (n bound : ℕ) (e : TokensEdit) (rest : Result (List Splice)) (ss : List Splice)
    → (take_edit n bound e rest ≡ ok ss) ↔ (
        (e.start % 5 ≡ 0)
        × (e.delete_count % 5 ≡ 0)
        × (e.start / 5 + e.delete_count / 5 ≤ n)
        × (e.start / 5 + e.delete_count / 5 ≤ bound)
        × ((rs : List Splice) × (rest ≡ ok rs) × (ss ≡ splice_of e ∷ rs)))
unfolding take_edit
take_edit_iff n bound e (err x) ss = (λ h. absurd (ground arith), λ p. cc (p.4.1))
take_edit_iff n bound e (ok rs) ss = (
  λ h. (ground arith, ground arith, ground arith, ground arith, (rs, refl, ground arith)),
  λ (a, b, c, d, (qs, same, made)). ground arith,
)

pub normalize_iff :
    (n bound : ℕ) (es : List TokensEdit) (ss : List Splice)
    → (normalize n bound es ≡ ok ss) ↔ (Accepted n bound es × (ss ≡ map splice_of es))
unfolding normalize
normalize_iff n bound [] ss = (λ h. (tt, cc), λ p. cc (p.1))
normalize_iff n bound (e ∷ es) ss =
    let round = take_edit_iff n bound e (normalize n (e.start / 5) es) ss in
    let later = normalize_iff n (e.start / 5) es in
    (
      λ h.
          let (a, b, c, d, (rs, done, made)) = round.0 h in
          let (valid, same) = (later rs).0 done in
          ((a, b, c, d, valid), made ∙ ap (λ x. splice_of e ∷ x) same),
      λ ((a, b, c, d, valid), made).
          round.1
            (a, b, c, d, (map splice_of es, (later (map splice_of es)).1 (valid, refl), made)),
    )

pub Accepted-Apart :
    (n bound : ℕ) (es : List TokensEdit) → Accepted n bound es → Apart bound (map splice_of es)
Accepted-Apart n bound [] a = tt
Accepted-Apart n bound (e ∷ es) a = (omega arith, a.3, Accepted-Apart n (e.start / 5) es a.4)

pub splice_all-eq-rebuild :
    (tokens : List Token) (ss : List Splice)
    → Apart (length tokens) ss
    → splice_all tokens ss ≡ rebuild tokens (length tokens) ss
splice_all-eq-rebuild tokens ss a =
    ap (λ ts. splice_all ts ss) (sym (append-nil (take (length tokens) tokens) ∙ take_all tokens))
    ∙ (splice_all-rebuild tokens (length tokens) ss [] (omega arith) a
        ∙ append-nil (rebuild tokens (length tokens) ss))

pub splice_checked_iff :
    (previous : List Token) (r : Result (List Splice)) (tokens : List Token)
    → (splice_checked previous r ≡ ok tokens)
      ↔ ((ss : List Splice) × (r ≡ ok ss) × (tokens ≡ splice_all previous ss))
unfolding splice_checked
splice_checked_iff previous (err e) tokens = (λ h. cc, λ p. cc (p.1))
splice_checked_iff previous (ok ss) tokens = (λ h. (ss, refl, cc), λ p. cc (p.1, p.2))
