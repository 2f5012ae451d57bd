-- ===== src/Signature/Ranges.antt =====
-- src/simplecc/lsp/types.rs: the byte ranges of the parameters of a signature.
use simplecc.Base.{
  ℕ, ◌+◌, ◌-◌, ◌≤◌, ◌≡◌, refl, ap, sym, ◌∙◌, Option, none, some, [], ◌∷◌, ◌++◌, append_assoc, arith,
  leb, Bool-cases, inl, inr,
}
use simplecc.Signature.{
  Label, bytes, get_from, first_of, get, find_in, byte_offset, begin_at, slice_between,
  signature_label_slice, slice_text, slice_range, range_at, simple_range, ParameterLabel, simple,
  label_offsets, label_of,
}
use simplecc.Signature.Slices.{
  units, get_from-split, get_first-split, find-split, byte_offset-split, same_bytes,
}

-- What the server says of the part that a label stands for and of what is before it.
abbrev pub Marks : ParameterLabel → Label → Label → Type 0
Marks (simple text) before part = part ≡ text
Marks (label_offsets start end) before part = (units before ≡ start) × (start + units part ≡ end)

-- A range delimits the text in the label of the signature; a text without a range is the one that
-- the server names, or empty where it names offsets.
abbrev pub Stands : Label → ParameterLabel → Label → Option (ℕ × ℕ) → Type 0
Stands whole (simple text) part none = part ≡ text
Stands whole (label_offsets start end) part none = part ≡ []
Stands whole l part (some (a, b)) =
    (before : Label) × ((behind : Label) × ((whole ≡ before ++ (part ++ behind))
        × ((bytes before ≡ a) × ((a + bytes part ≡ b) × Marks l before part))))

bytes-append : (xs ys : Label) → bytes (xs ++ ys) ≡ bytes xs + bytes ys
bytes-append [] ys = omega arith
bytes-append (x ∷ xs) ys = omega (arith, bytes-append xs ys)

units-append : (xs ys : Label) → units (xs ++ ys) ≡ units xs + units ys
units-append [] ys = omega arith
units-append (x ∷ xs) ys = omega (arith, units-append xs ys)

-- Below, `tail` is what follows the place where the search begins, and `o` is what it finds.
found-Stands :
    (whole : Label) (from : ℕ) (text : Label) (tail : Option Label) (o : Option ℕ)
    → get_from from whole ≡ tail
    → find_in text tail ≡ o
    → Stands whole (simple text) text (range_at from (bytes text) o)
found-Stands whole from text tail none at h = refl
found-Stands whole from text none (some offset) at h = absurd cc
found-Stands whole from text (some cs) (some offset) at h =
    let (before, (joined, size)) = get_from-split from whole cs at in
    let (between, (behind, (rest, width))) = find-split text cs offset h in
    (
      before ++ between,
      (
        behind,
        (
          joined ∙ ap (λ t. before ++ t) rest ∙ sym (append_assoc before between (text ++ behind)),
          (omega (arith, bytes-append before between, size, width), (refl, refl)),
        ),
      ),
    )

simple-Stands :
    (whole : Label) (from : ℕ) (text : Label)
    → Stands whole (simple text) text (simple_range whole from text)
unfolding simple_range
simple-Stands whole from [] = refl
simple-Stands whole from (c ∷ cs) = found-Stands whole from (c ∷ cs) _ _ refl refl

first_of-some :
    (n : ℕ) (o : Option Label) (part : Label)
    → first_of n o ≡ some part
    → (cs : Label) × ((o ≡ some cs) × (first_of n (some cs) ≡ some part))
first_of-some n none part h = absurd cc
first_of-some n (some cs) part h = (cs, (refl, h))

-- What lies between two bytes.
get-split :
    (a b : ℕ) (whole part : Label)
    → get a b whole ≡ some part
    → (before : Label) × ((behind : Label) × ((whole ≡ before ++ (part ++ behind))
          × ((bytes before ≡ a) × (a + bytes part ≡ b))))
unfolding get
get-split a b whole part h = elim (Bool-cases (leb a b)) [
  | inl ordered ↦
      let taken : first_of (b - a) (get_from a whole) ≡ some part = rw ordered at h in
      let room : a ≤ b = ground (arith, ordered) in
      let (cs, (got, part_of)) = first_of-some (b - a) (get_from a whole) part taken in
      let (before, (joined, size)) = get_from-split a whole cs got in
      let (behind, (rest, width)) = get_first-split (b - a) cs part part_of in
      (before, (behind, (joined ∙ ap (λ t. before ++ t) rest, (size, omega (arith, width, room)))))
  | inr crossed ↦ absurd (ground (arith, crossed, h))
]

-- The beginning of a label that has the bytes of an offset has its units.
offset-units :
    (xs ys whole : Label) (offset byte : ℕ)
    → byte_offset 0 0 whole offset ≡ some byte
    → whole ≡ xs ++ ys
    → bytes xs ≡ byte
    → units xs ≡ offset
offset-units xs ys whole offset byte h joined size =
    let (before, (rest, (split, (width, long)))) = byte_offset-split 0 0 whole offset byte h in
    let one : xs ≡ before =
      same_bytes xs before ys rest (sym joined ∙ split) (omega (arith, size, long)) in
    ap units one ∙ omega (arith, width)

begin_at-Stands :
    (whole : Label) (start end a b : ℕ) (o : Option Label)
    → byte_offset 0 0 whole start ≡ some a
    → byte_offset 0 0 whole end ≡ some b
    → get a b whole ≡ o
    → Stands whole
        (label_offsets start end)
        (slice_text (begin_at a o))
        (slice_range (begin_at a o))
begin_at-Stands whole start end a b none from to h = refl
begin_at-Stands whole start end a b (some part) from to h =
    let (before, (behind, (joined, (size, width)))) = get-split a b whole part h in
    let first : units before ≡ start =
      offset-units before (part ++ behind) whole start a from joined size in
    let both : units (before ++ part) ≡ end =
      offset-units (before ++ part) behind whole end b to
        (joined ∙ sym (append_assoc before part behind))
        (omega (arith, bytes-append before part, size, width)) in
    (
      before,
      (
        behind,
        (joined, (size, (refl, (first, omega (arith, units-append before part, first, both))))),
      ),
    )

slice_between-Stands :
    (whole : Label) (start end : ℕ) (o p : Option ℕ)
    → byte_offset 0 0 whole start ≡ o
    → byte_offset 0 0 whole end ≡ p
    → Stands whole
        (label_offsets start end)
        (slice_text (slice_between whole o p))
        (slice_range (slice_between whole o p))
slice_between-Stands whole start end none p from to = refl
slice_between-Stands whole start end (some a) none from to = refl
slice_between-Stands whole start end (some a) (some b) from to =
    begin_at-Stands whole start end a b _ from to refl

-- The label and the range of a parameter, wherever the search for it begins.
pub label_of-Stands :
    (whole : Label) (from : ℕ) (l : ParameterLabel)
    → Stands whole l (label_of whole from l).0 (label_of whole from l).1
unfolding label_of signature_label_slice
label_of-Stands whole from (simple text) = simple-Stands whole from text
label_of-Stands whole from (label_offsets start end) =
    slice_between-Stands whole start end _ _ refl refl
