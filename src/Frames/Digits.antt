-- ===== src/Frames/Digits.antt =====
-- src/simplecc/lsp/transport.rs: the line that `send` writes, as `read_loop` reads it.
use simplecc.Base.{
  ℕ, zero, suc, ◌+◌, ◌-◌, ◌*◌, ◌/◌, ◌%◌, ◌^◌, ◌≤◌, ◌<◌, ◌≡◌, refl, sym, ap, ◌∙◌, inl, inr,
  Bool-cases, true, false, none, some, List, [], ◌∷◌, ◌++◌, ltb, leb, ◌==◌, nat_key, if◌then◌else◌,
  arith, append_nil, append_assoc,
}
use simplecc.Config.{is_whitespace}
use simplecc.Lines.{Bytes, cut, is_utf8, utf8_from, following, within}
use simplecc.Frames.Text.{
  chars, trim, trim_start, trim_end, split_once, content_length_name, parse_usize, value_from,
  same_codes,
}
use simplecc.Frames.Stream.{
  digits_before, max_content_length, header_of, content_length, length_header, bad_header,
  length_too_large,
}

abbrev IsDigit : ℕ → Type 0
IsDigit c = (48 ≤ c) × (c ≤ 57)

abbrev pub AllDigits : Bytes → Type 0
AllDigits [] = Unit
AllDigits (c ∷ cs) = IsDigit c × AllDigits cs

within_digit : (c : ℕ) → IsDigit c → within 48 57 c ≡ true
within_digit c h = ground (arith, h)

pub digits-AllDigits :
    (fuel n : ℕ) (rest : Bytes) → n < fuel → AllDigits rest → AllDigits (digits_before fuel n rest)
unfolding digits_before
digits-AllDigits zero n rest h d = absurd (omega (arith, h))
digits-AllDigits (suc fuel) n rest h d = elim (Bool-cases (ltb n 10)) [
  | inl small ↦ rw small ((omega arith, ground (arith, small)), d)
  | inr big ↦ rw big (
      digits-AllDigits fuel (n / 10) ((48 + n % 10) ∷ rest) (ground (arith, big, h))
        ((omega arith, omega arith), d))
]

value-step :
    (acc d : ℕ) (rest : Bytes)
    → d < 10
    → value_from acc ((48 + d) ∷ rest) ≡ value_from (acc * 10 + d) rest
unfolding value_from
value-step acc d rest h =
    let is = within_digit (48 + d) (omega arith, omega (arith, h)) in
    let same : 48 + d - 48 ≡ d = omega arith in
    ap (λ b. if b then value_from (acc * 10 + (48 + d - 48)) rest else none) is
    ∙ ap (λ e. value_from (acc * 10 + e) rest) same

-- What has been read of the digits is the number.
pub value-digits :
    (fuel n : ℕ) (rest : Bytes)
    → n < fuel
    → value_from 0 (digits_before fuel n rest) ≡ value_from n rest
unfolding digits_before
value-digits zero n rest h = absurd (omega (arith, h))
value-digits (suc fuel) n rest h = elim (Bool-cases (ltb n 10)) [
  | inl small ↦
      let none_before : 0 * 10 + n ≡ n = omega arith in
      rw small
        (value-step 0 n rest (ground (arith, small)) ∙ ap (λ m. value_from m rest) none_before)
  | inr big ↦
      let whole : (n / 10) * 10 + n % 10 ≡ n = omega arith in
      rw big (
        value-digits fuel (n / 10) ((48 + n % 10) ∷ rest) (ground (arith, big, h))
        ∙ value-step (n / 10) (n % 10) rest (omega arith)
        ∙ ap (λ m. value_from m rest) whole)
]

-- A number has a digit.
pub digits-some :
    (fuel n : ℕ) (rest : Bytes)
    → n < fuel
    → (c : ℕ) × (cs : Bytes) × (digits_before fuel n rest ≡ c ∷ cs)
unfolding digits_before
digits-some zero n rest h = absurd (omega (arith, h))
digits-some (suc fuel) n rest h = elim (Bool-cases (ltb n 10)) [
  | inl small ↦ (48 + n, rest, rw small refl)
  | inr big ↦
      let (c, cs, e) = digits-some fuel (n / 10) ((48 + n % 10) ∷ rest) (ground (arith, big, h)) in
      (c, cs, rw big e)
]

-- Digits have no newline, are ASCII, and are no white space.
cut-digits : (ds : Bytes) → AllDigits ds → (cut (ds ++ (13 ∷ []))).1 ≡ none
unfolding cut
cut-digits [] h = refl
cut-digits (d ∷ ds) (h, hs) =
    let other : (d == 10) ≡ false = ground (arith, h) in rw other (cut-digits ds hs)

following-low : (d : ℕ) → IsDigit d → following d ≡ some []
unfolding following
following-low d h = let low : leb d 127 ≡ true = ground (arith, h) in rw low refl

utf8-digits : (ds s : Bytes) → AllDigits ds → utf8_from (some []) (ds ++ s) ≡ utf8_from (some []) s
unfolding utf8_from
utf8-digits [] s h = refl
utf8-digits (d ∷ ds) s (h, hs) =
    ap (λ o. utf8_from o (ds ++ s)) (following-low d h) ∙ utf8-digits ds s hs

chars-digits : (ds s : Bytes) → AllDigits ds → chars 0 0 (ds ++ s) ≡ ds ++ chars 0 0 s
unfolding chars
chars-digits [] s h = refl
chars-digits (d ∷ ds) s (h, hs) =
    let low : leb d 127 ≡ true = ground (arith, h) in
    rw low (ap (λ t. d ∷ t) (chars-digits ds s hs))

digit_is_dark : (d : ℕ) → IsDigit d → is_whitespace d ≡ false
digit_is_dark d h = ground (arith, h)

trim_end-dark :
    (c : ℕ) (cs : List ℕ) → is_whitespace c ≡ false → trim_end (c ∷ cs) ≡ c ∷ trim_end cs
unfolding trim_end
trim_end-dark c cs h = rw h refl

trim_end-digits : (ds s : List ℕ) → AllDigits ds → trim_end (ds ++ s) ≡ ds ++ trim_end s
trim_end-digits [] s h = refl
trim_end-digits (d ∷ ds) s (h, hs) =
    trim_end-dark d (ds ++ s) (digit_is_dark d h) ∙ ap (λ t. d ∷ t) (trim_end-digits ds s hs)

trim_end-before : (c d : ℕ) (cs ds : List ℕ) → trim_end cs ≡ d ∷ ds → trim_end (c ∷ cs) ≡ c ∷ d ∷ ds
unfolding trim_end
trim_end-before c d cs ds e = elim (Bool-cases (is_whitespace c)) [
  | inl light ↦ rw (light, e) refl
  | inr dark ↦ rw (dark, e) refl
]

-- A text goes on to what is left of its end.
trim_end-prefix :
    (p : List ℕ) (d : ℕ) (cs ds : List ℕ)
    → trim_end cs ≡ d ∷ ds
    → trim_end (p ++ cs) ≡ p ++ (d ∷ ds)
trim_end-prefix [] d cs ds e = e
trim_end-prefix (c ∷ []) d cs ds e = trim_end-before c d cs ds e
trim_end-prefix (c ∷ b ∷ p) d cs ds e =
    trim_end-before c b ((b ∷ p) ++ cs) (p ++ (d ∷ ds)) (trim_end-prefix (b ∷ p) d cs ds e)

-- The line of a length, and its text.
abbrev pub length_line : Bytes → Bytes
length_line ds = content_length_name ++ (58 ∷ 32 ∷ (ds ++ (13 ∷ [])))

pub cut-length_line : (ds : Bytes) → AllDigits ds → (cut (length_line ds)).1 ≡ none
unfolding cut
cut-length_line ds h = cut-digits ds h

pub utf8-length_line : (ds : Bytes) → AllDigits ds → is_utf8 (length_line ds ++ (10 ∷ [])) ≡ true
unfolding utf8_from following
utf8-length_line ds h =
    ap (λ t. utf8_from (some []) t) (append_assoc ds (13 ∷ []) (10 ∷ []))
    ∙ utf8-digits ds (13 ∷ 10 ∷ []) h

pub chars-length_line :
    (ds : Bytes)
    → AllDigits ds
    → chars 0 0 (length_line ds ++ (10 ∷ [])) ≡ length_line ds ++ (10 ∷ [])
unfolding chars
chars-length_line ds h =
    ap (λ t. content_length_name ++ (58 ∷ 32 ∷ t))
      (ap (λ t. chars 0 0 t) (append_assoc ds (13 ∷ []) (10 ∷ []))
        ∙ chars-digits ds (13 ∷ 10 ∷ []) h
        ∙ sym (append_assoc ds (13 ∷ []) (10 ∷ [])))

trim_blank : (d : ℕ) (ds : Bytes) → (d ∷ ds) ++ trim_end (13 ∷ 10 ∷ []) ≡ d ∷ ds
unfolding trim_end
trim_blank d ds = append_nil (d ∷ ds)

trim_nil : (d : ℕ) (ds : Bytes) → (d ∷ ds) ++ trim_end [] ≡ d ∷ ds
unfolding trim_end
trim_nil d ds = append_nil (d ∷ ds)

-- The white space at the end goes.
pub trim-length_line :
    (d : ℕ) (ds : Bytes)
    → AllDigits (d ∷ ds)
    → trim (length_line (d ∷ ds) ++ (10 ∷ [])) ≡ content_length_name ++ (58 ∷ 32 ∷ d ∷ ds)
unfolding trim_start
trim-length_line d ds h = trim_end-prefix (content_length_name ++ (58 ∷ 32 ∷ [])) d _ ds (
    ap trim_end (append_assoc (d ∷ ds) (13 ∷ []) (10 ∷ []))
    ∙ trim_end-digits (d ∷ ds) (13 ∷ 10 ∷ []) h
    ∙ trim_blank d ds)

trim-value : (d : ℕ) (ds : Bytes) → AllDigits (d ∷ ds) → trim (32 ∷ d ∷ ds) ≡ d ∷ ds
unfolding trim_start
trim-value d ds h =
    rw (digit_is_dark d h.0)
      (ap trim_end (sym (append_nil (d ∷ ds))) ∙ trim_end-digits (d ∷ ds) [] h ∙ trim_nil d ds)

parse-digits :
    (d : ℕ) (ds : Bytes) (n : ℕ)
    → AllDigits (d ∷ ds)
    → value_from 0 (d ∷ ds) ≡ some n
    → n ≤ max_content_length
    → parse_usize (d ∷ ds) ≡ some n
unfolding parse_usize
parse-digits d ds n h value small =
    let other : (d == 43) ≡ false = ground (arith, h) in
    let fits : ltb n (2 ^ 64) ≡ true = ground (arith, small) in rw (other, value, fits) refl

-- What the line says.
pub header-length_line :
    (d : ℕ) (ds : Bytes) (n : ℕ)
    → AllDigits (d ∷ ds)
    → value_from 0 (d ∷ ds) ≡ some n
    → n ≤ max_content_length
    → header_of none (content_length_name ++ (58 ∷ 32 ∷ d ∷ ds)) ≡ content_length n
unfolding header_of split_once trim_start trim_end same_codes
header-length_line d ds n h value small =
    let near : ltb max_content_length n ≡ false = ground (arith, small) in
    ap (λ t. length_header none (parse_usize t)) (trim-value d ds h)
    ∙ ap (length_header none) (parse-digits d ds n h value small)
    ∙ ap (λ b. if b then bad_header length_too_large else content_length n) near
