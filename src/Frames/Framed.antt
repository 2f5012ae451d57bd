-- ===== src/Frames/Framed.antt =====
-- src/simplecc/lsp/transport.rs: the headers that `send` writes are the headers that read_loop reads.
use simplecc.Base.{
  ℕ, zero, suc, ◌+◌, ◌*◌, ◌/◌, ◌%◌, ◌≤◌, ◌<◌, ◌≡◌, refl, sym, ap, ◌∙◌, subst, inl, inr, Bool-cases,
  Bool, true, false, not, Option, none, some, List, [], ◌∷◌, ◌++◌, length, ltb, if◌then◌else◌,
  arith, append_assoc, length-append,
}
use simplecc.Lines.{Bytes, Piece, concat, cut, is_utf8, utf8_from, following}
use simplecc.Lines.Pieces.{after, cut-append-none}
use simplecc.Frames.{read_limited_header_line}
use simplecc.Frames.Header.{through, ReadsHeader, read_header-ReadsHeader, through-append}
use simplecc.Frames.Text.{content_length_name, chars, trim, trim_start, trim_end, value_from}
use simplecc.Frames.Digits.{
  AllDigits, digits-AllDigits, digits-some, value-digits, length_line, cut-length_line,
  utf8-length_line, chars-length_line, trim-length_line, header-length_line,
}
use simplecc.Frames.Stream.{
  max_header_line_bytes, max_header_bytes, max_content_length, digits_before, decimal, frame,
  header_of, Header, Headers, headers, bad_headers, headers_too_long, not_text, take_header,
  by_header, read_headers,
}

-- A line that is followed by its newline.
read-line :
    (ps : List Piece) (line rest : Bytes)
    → concat ps ≡ line ++ (10 ∷ rest)
    → (cut line).1 ≡ none
    → length line + 1 ≤ max_header_line_bytes
    → ((read_limited_header_line max_header_line_bytes ps).0 ≡ some (line ++ (10 ∷ [])))
      × (concat (read_limited_header_line max_header_line_bytes ps).1 ≡ rest)
unfolding cut
read-line ps line rest whole plain small =
    let here = through-append line (10 ∷ rest) plain in
    let there : after (cut (line ++ (10 ∷ rest))).1 ≡ rest =
      ap after (cut-append-none (10 ∷ rest) line plain).1.1 in
    let size : length (through (line ++ (10 ∷ rest))) ≤ max_header_line_bytes =
      omega (arith, small, ap length here, length-append line (10 ∷ [])) in
    let read =
      (subst
          (λ w.
            ReadsHeader max_header_line_bytes w (read_limited_header_line max_header_line_bytes ps))
          whole (read_header-ReadsHeader max_header_line_bytes ps)).0
        size in
    (read.0 ∙ ap some here, read.1 ∙ there)

-- The headers of a frame.
take-length :
    (d : ℕ) (ds : Bytes) (n : ℕ) (left : List Piece)
    (next : List Piece → ℕ → Option ℕ → Headers × List Piece)
    → AllDigits (d ∷ ds)
    → value_from 0 (d ∷ ds) ≡ some n
    → n ≤ max_content_length
    → length (length_line (d ∷ ds) ++ (10 ∷ [])) ≤ max_header_bytes
    → take_header 0 none (some (length_line (d ∷ ds) ++ (10 ∷ [])), left) next
      ≡ next left (length (length_line (d ∷ ds) ++ (10 ∷ []))) (some n)
take-length d ds n left next h value small short =
    let line = length_line (d ∷ ds) ++ (10 ∷ []) in
    let near : ltb max_header_bytes (0 + length line) ≡ false = ground (arith, short) in
    let text = utf8-length_line (d ∷ ds) h in
    let says =
      ap (λ t. header_of none (trim t)) (chars-length_line (d ∷ ds) h)
      ∙ ap (header_of none) (trim-length_line d ds h)
      ∙ header-length_line d ds n h value small in
    let go = λ (hd : Header). by_header hd none left (next left (0 + length line)) in
    let last = λ (b : Bool).
      if not b then (bad_headers not_text, left) else go (header_of none (trim (chars 0 0 line))) in
    ap (λ b. if b then (bad_headers headers_too_long, left) else last (is_utf8 line)) near
    ∙ ap last text
    ∙ ap go says
    ∙ ap (λ c. next left c (some n)) (omega arith)

take-blank :
    (count : ℕ) (seen : Option ℕ) (left : List Piece)
    (next : List Piece → ℕ → Option ℕ → Headers × List Piece)
    → count + 2 ≤ max_header_bytes
    → take_header count seen (some (13 ∷ 10 ∷ []), left) next ≡ (headers seen, left)
unfolding chars trim_start trim_end header_of utf8_from following
take-blank count seen left next short =
    let near : ltb max_header_bytes (count + 2) ≡ false = ground (arith, short) in
    ap (λ b. if b then (bad_headers headers_too_long, left) else (headers seen, left)) near

abbrev tens : ℕ → ℕ
tens zero = 1
tens (suc k) = 10 * tens k

-- A number below a power of ten has no more digits.
length-digits :
    (k fuel n : ℕ) (rest : Bytes)
    → n < fuel
    → n < tens (suc k)
    → length (digits_before fuel n rest) ≤ suc k + length rest
unfolding digits_before
length-digits k zero n rest h small = absurd (omega (arith, h))
length-digits zero (suc fuel) n rest h small =
    let one : ltb n 10 ≡ true = ground (arith, small) in rw one (omega arith)
length-digits (suc k) (suc fuel) n rest h small = elim (Bool-cases (ltb n 10)) [
  | inl one ↦ rw one (omega arith)
  | inr big ↦ rw big (
      omega (
        arith,
        length-digits k fuel (n / 10) ((48 + n % 10) ∷ rest) (ground (arith, big, h))
            (omega (arith, small)),
      ))
]

-- The two lines of a frame's headers, and what follows them.
read-lines :
    (fuel d : ℕ) (ds : Bytes) (n : ℕ) (tail : Bytes) (ps : List Piece)
    → AllDigits (d ∷ ds)
    → value_from 0 (d ∷ ds) ≡ some n
    → n ≤ max_content_length
    → length (d ∷ ds) ≤ 8
    → concat ps ≡ length_line (d ∷ ds) ++ (10 ∷ 13 ∷ 10 ∷ tail)
    → (left : List Piece) × (read_headers (suc (suc fuel)) 0 none ps ≡ (headers (some n), left))
      × (concat left ≡ tail)
unfolding read_headers cut
read-lines fuel d ds n tail ps h value small few whole =
    let line = length_line (d ∷ ds) in
    let size : length line ≤ 25 = omega (arith, few, length-append (d ∷ ds) (13 ∷ [])) in
    let first =
      read-line ps line (13 ∷ 10 ∷ tail) whole (cut-length_line (d ∷ ds) h) (omega (arith, size)) in
    let after_first = (read_limited_header_line max_header_line_bytes ps).1 in
    let second = read-line after_first (13 ∷ []) tail first.1 refl (omega arith) in
    let left = (read_limited_header_line max_header_line_bytes after_first).1 in
    let count = length (line ++ (10 ∷ [])) in
    let short : count ≤ 26 = omega (arith, size, length-append line (10 ∷ [])) in
    let next = λ (l : List Piece) (c : ℕ) (s : Option ℕ). read_headers (suc fuel) c s l in
    (
      left,
      ap (λ o. take_header 0 none (o, after_first) next) first.0
          ∙ take-length d ds n after_first next h value small (omega (arith, short))
          ∙ ap (λ o. take_header count (some n) (o, left) (λ l c s. read_headers fuel c s l))
              second.0
          ∙ take-blank count (some n) left (λ l c s. read_headers fuel c s l)
              (omega (arith, short)),
      second.1,
    )

frame-shape :
    (ds body rest : Bytes)
    → (content_length_name ++ (58 ∷ 32 ∷ (ds ++ (13 ∷ 10 ∷ 13 ∷ 10 ∷ body)))) ++ rest
      ≡ length_line ds ++ (10 ∷ 13 ∷ 10 ∷ (body ++ rest))
frame-shape ds body rest =
    ap (λ t. content_length_name ++ (58 ∷ 32 ∷ t))
      (append_assoc ds (13 ∷ 10 ∷ 13 ∷ 10 ∷ body) rest
        ∙ sym (append_assoc ds (13 ∷ []) (10 ∷ 13 ∷ 10 ∷ (body ++ rest))))

value_nil : (n : ℕ) → value_from n [] ≡ some n
unfolding value_from
value_nil n = refl

by_digits :
    (d : ℕ) (ds body rest : Bytes) (ps : List Piece)
    → decimal (length body) ≡ d ∷ ds
    → length body ≤ max_content_length
    → concat ps
      ≡ (content_length_name ++ (58 ∷ 32 ∷ (decimal (length body) ++ (13 ∷ 10 ∷ 13 ∷ 10 ∷ body))))
        ++ rest
    → (left : List Piece) × (read_headers (max_header_bytes + 1) 0 none ps
        ≡ (headers (some (length body)), left))
      × (concat left ≡ body ++ rest)
by_digits d ds body rest ps shape small whole =
    let n = length body in
    let all = subst AllDigits shape (digits-AllDigits (n + 1) n [] (omega arith) tt) in
    let value : value_from 0 (d ∷ ds) ≡ some n =
      ap (value_from 0) (sym shape) ∙ value-digits (n + 1) n [] (omega arith) ∙ value_nil n in
    let few : length (d ∷ ds) ≤ 8 =
      omega (
        arith,
        ap length shape,
        length-digits 7 (n + 1) n [] (omega arith) (omega (arith, small)),
      ) in
    read-lines 32767 d ds n (body ++ rest) ps all value small few (
      whole
      ∙ frame-shape (decimal n) body rest
      ∙ ap (λ t. length_line t ++ (10 ∷ 13 ∷ 10 ∷ (body ++ rest))) shape)

pub read-headers :
    (body rest : Bytes) (ps : List Piece)
    → length body ≤ max_content_length
    → concat ps ≡ frame body ++ rest
    → (left : List Piece) × (read_headers (max_header_bytes + 1) 0 none ps
        ≡ (headers (some (length body)), left))
      × (concat left ≡ body ++ rest)
unfolding frame
read-headers body rest ps small whole =
    let (d, ds, shape) = digits-some (length body + 1) (length body) [] (omega arith) in
    by_digits d ds body rest ps shape small whole
