-- ===== src/Signature/Slices.antt =====
-- src/simplecc/lsp/types.rs: what the operations on a label mean: its parts by bytes and by units.
use simplecc.Base.{
  ℕ, ◌+◌, ◌-◌, ◌≤◌, ◌≡◌, refl, ap, sym, ◌∙◌, Bool, true, false, Option, none, some, [], ◌∷◌, ◌++◌,
  arith, ltb, leb, ◌==◌, nat_key, if◌then◌else◌, ◌⊎◌, inl, inr,
}
use simplecc.Signature.{
  Label, len_utf8, len_utf16, bytes, get_from, get_first, put_first, starts_with, find, after,
  byte_offset,
}

-- The length in UTF-16.
abbrev pub units : Label → ℕ
units [] = 0
units (c ∷ cs) = len_utf16 c + units cs

-- The branch that a test has taken.
branch {ℓ} :
    {A : Type ℓ} (b : Bool) (x y z : A)
    → (if b then x else y) ≡ z
    → ((b ≡ true) × (x ≡ z)) ⊎ ((b ≡ false) × (y ≡ z))
branch true x y z h = inl (refl, h)
branch false x y z h = inr (refl, h)

-- The label is `before` and then `rest`.
pub get_from-split :
    (n : ℕ) (cs rest : Label)
    → get_from n cs ≡ some rest
    → (before : Label) × ((cs ≡ before ++ rest) × (bytes before ≡ n))
unfolding get_from
get_from-split n [] rest h = elim (branch (n == 0) (some []) none (some rest) h) [
  | inl (z, e) ↦ ([], (cc, ground (arith, z)))
  | inr (z, e) ↦ absurd cc
]
get_from-split n (c ∷ cs) rest h = elim (branch (n == 0) _ _ (some rest) h) [
  | inl (z, e) ↦ ([], (cc, ground (arith, z)))
  | inr (z, e) ↦ elim (branch (leb (len_utf8 c) n) _ _ (some rest) e) [
    | inl (fits, e₂) ↦
        let (before, (joined, size)) = get_from-split (n - len_utf8 c) cs rest e₂ in
        let room : len_utf8 c ≤ n = ground (arith, fits) in
        (c ∷ before, (ap (λ t. c ∷ t) joined, omega (arith, size, room)))
    | inr (short, e₂) ↦ absurd cc
  ]
]

put_first-some :
    (c : ℕ) (o : Option Label) (part : Label)
    → put_first c o ≡ some part
    → (rest : Label) × ((o ≡ some rest) × (part ≡ c ∷ rest))
put_first-some c none part h = absurd cc
put_first-some c (some rest) part h = (rest, (refl, cc))

-- The label is `part` and then `behind`.
pub get_first-split :
    (n : ℕ) (cs part : Label)
    → get_first n cs ≡ some part
    → (behind : Label) × ((cs ≡ part ++ behind) × (bytes part ≡ n))
unfolding get_first
get_first-split n [] part h = elim (branch (n == 0) (some []) none (some part) h) [
  | inl (z, e) ↦
      let empty : [] ≡ part = cc in
      ([], (ap (λ t. t ++ []) empty, sym (ap bytes empty) ∙ ground (arith, z)))
  | inr (z, e) ↦ absurd cc
]
get_first-split n (c ∷ cs) part h = elim (branch (n == 0) _ _ (some part) h) [
  | inl (z, e) ↦
      let empty : [] ≡ part = cc in
      (c ∷ cs, (ap (λ t. t ++ (c ∷ cs)) empty, sym (ap bytes empty) ∙ ground (arith, z)))
  | inr (z, e) ↦ elim (branch (leb (len_utf8 c) n) _ _ (some part) e) [
    | inl (fits, e₂) ↦
        let (rest, (got, joined)) = put_first-some c _ part e₂ in
        let (behind, (whole, size)) = get_first-split (n - len_utf8 c) cs rest got in
        let room : len_utf8 c ≤ n = ground (arith, fits) in
        let long : bytes (c ∷ rest) ≡ n = omega (arith, size, room) in
        (
          behind,
          (ap (λ t. c ∷ t) whole ∙ ap (λ t. t ++ behind) (sym joined), ap bytes joined ∙ long),
        )
    | inr (short, e₂) ↦ absurd cc
  ]
]

starts_with-split :
    (ds cs : Label) → starts_with ds cs ≡ true → (behind : Label) × (cs ≡ ds ++ behind)
unfolding starts_with
starts_with-split [] cs h = (cs, refl)
starts_with-split (d ∷ ds) [] h = absurd cc
starts_with-split (d ∷ ds) (c ∷ cs) h =
    let first : d ≡ c = ground (arith, h) in
    let others : starts_with ds cs ≡ true = ground (arith, h) in
    let (behind, joined) = starts_with-split ds cs others in
    (behind, ap (λ t. t ∷ cs) (sym first) ∙ ap (λ t. d ∷ t) joined)

after-some :
    (n : ℕ) (o : Option ℕ) (at : ℕ) → after n o ≡ some at → (k : ℕ) × ((o ≡ some k) × (n + k ≡ at))
after-some n none at h = absurd cc
after-some n (some k) at h = (k, (refl, cc))

-- What is found stands there.
pub find-split :
    (ds cs : Label) (at : ℕ)
    → find ds cs ≡ some at
    → (before : Label) × ((behind : Label) × ((cs ≡ before ++ (ds ++ behind))
          × (bytes before ≡ at)))
unfolding find
find-split ds [] at h = elim (branch (starts_with ds []) (some 0) none (some at) h) [
  | inl (found, e) ↦
      let (behind, joined) = starts_with-split ds [] found in ([], (behind, (joined, cc)))
  | inr (other, e) ↦ absurd cc
]
find-split ds (c ∷ cs) at h = elim (branch (starts_with ds (c ∷ cs)) _ _ (some at) h) [
  | inl (found, e) ↦
      let (behind, joined) = starts_with-split ds (c ∷ cs) found in ([], (behind, (joined, cc)))
  | inr (other, e) ↦
      let (k, (got, place)) = after-some (len_utf8 c) (find ds cs) at e in
      let (before, (behind, (joined, size))) = find-split ds cs k got in
      (c ∷ before, (behind, (ap (λ t. c ∷ t) joined, omega (arith, size, place))))
]

-- The units before an offset, and the bytes.
pub byte_offset-split :
    (u b : ℕ) (cs : Label) (offset byte : ℕ)
    → byte_offset u b cs offset ≡ some byte
    → (before : Label) × ((rest : Label) × ((cs ≡ before ++ rest)
          × ((u + units before ≡ offset) × (b + bytes before ≡ byte))))
unfolding byte_offset
byte_offset-split u b [] offset byte h = elim (branch (u == offset) _ _ (some byte) h) [
  | inl (z, e) ↦
      let same : b ≡ byte = cc in ([], ([], (refl, (ground (arith, z), omega (arith, same)))))
  | inr (z, e) ↦ absurd cc
]
byte_offset-split u b (c ∷ cs) offset byte h = elim (branch (u == offset) _ _ (some byte) h) [
  | inl (z, e) ↦
      let same : b ≡ byte = cc in ([], (c ∷ cs, (refl, (ground (arith, z), omega (arith, same)))))
  | inr (z, e) ↦ elim (branch (ltb offset (u + len_utf16 c)) _ _ (some byte) e) [
    | inl (inside, e₂) ↦ absurd cc
    | inr (on, e₂) ↦
        let (before, (rest, (joined, (width, size)))) =
          byte_offset-split (u + len_utf16 c) (b + len_utf8 c) cs offset byte e₂ in
        (c ∷ before, (rest, (ap (λ t. c ∷ t) joined, (omega (arith, width), omega (arith, size)))))
  ]
]

-- Two beginnings of a label that have the same bytes are the same.
pub same_bytes : (xs ys us vs : Label) → xs ++ us ≡ ys ++ vs → bytes xs ≡ bytes ys → xs ≡ ys
same_bytes [] [] us vs h size = refl
same_bytes [] (y ∷ ys) us vs h size = absurd (ground (arith, size))
same_bytes (x ∷ xs) [] us vs h size = absurd (ground (arith, size))
same_bytes (x ∷ xs) (y ∷ ys) us vs h size =
    let first : x ≡ y = cc in
    let others : xs ++ us ≡ ys ++ vs = cc in
    let width : len_utf8 x ≡ len_utf8 y = ap len_utf8 first in
    let left : bytes xs ≡ bytes ys = omega (arith, size, width) in
    ap (λ t. t ∷ xs) first ∙ ap (λ t. y ∷ t) (same_bytes xs ys us vs others left)
