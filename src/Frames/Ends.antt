-- ===== src/Frames/Ends.antt =====
-- src/simplecc/lsp/transport.rs: read_loop comes to an end of its own.
use simplecc.Base.{
  ℕ, zero, suc, ◌+◌, ◌≤◌, ◌<◌, ltb, ltb→ge, ◌≡◌, refl, sym, ap, ◌∙◌, inl, inr, Bool-cases,
  Option-cases, Bool, true, false, not, Option, none, some, List, [], ◌∷◌, length, Result, ok, err,
  if◌then◌else◌, arith, length-append, ◌==◌, nat_key,
}
use simplecc.Lines.{Bytes, Piece, concat, cut, unread, is_utf8}
use simplecc.Lines.Pieces.{after, concat-unread}
use simplecc.Frames.{read_limited_header_line, with_newline}
use simplecc.Frames.Header.{through, ReadsHeader, read_header-ReadsHeader}
use simplecc.Frames.Text.{chars, trim}
use simplecc.Frames.Stream.{
  max_header_line_bytes, max_header_bytes, header_of, Header, end_of_headers, other_header,
  content_length, bad_header, Headers, end_of_stream, no_fuel, headers, bad_headers, take_header,
  by_header, read_headers, cons_byte, read_exact, closed, dropped, out_of_fuel, failed, Read,
  deliver, take_body, read_body, by_headers, read_loop, read_stream,
}

longer :
    (content : Bytes) (o : Option Bytes) (b : ℕ) (bs : Bytes)
    → length (with_newline (content, o)) + length (after o) ≡ length bs
    → length (with_newline (b ∷ content, o)) + length (after o) ≡ suc (length bs)
longer content none b bs h = omega (arith, h)
longer content (some r) b bs h = omega (arith, h)

-- A line and what follows it are all the bytes.
length-through : (w : Bytes) → length (through w) + length (after (cut w).1) ≡ length w
unfolding cut
length-through [] = refl
length-through (b ∷ bs) = elim (Bool-cases (b == 10)) [
  | inl newline ↦ rw newline (omega arith)
  | inr other ↦ rw other (longer (cut bs).0 (cut bs).1 b bs (length-through bs))
]

abbrev or_empty : Option Bytes → Bytes
or_empty none = []
or_empty (some l) = l

some_injective : {l m : Bytes} → some l ≡ some m → l ≡ m
some_injective e = ap or_empty e

abbrev or_nothing : Option (Bytes × List Piece) → Bytes × List Piece
or_nothing none = ([], [])
or_nothing (some x) = x

-- What a read of a line takes.
line_takes :
    (limit : ℕ) (whole line : Bytes) (r : Option Bytes × List Piece)
    → ReadsHeader limit whole r
    → r.0 ≡ some line
    → length line + length (concat r.1) ≡ length whole
line_takes limit whole line r reads at = elim (Bool-cases (ltb limit (length (through whole)))) [
  | inl far ↦ let gone = reads.1 (ground (arith, far)) in absurd (ground (arith, gone, at))
  | inr near ↦
      let (it, rest) = reads.0 (ltb→ge limit (length (through whole)) near) in
      let same : line ≡ through whole = some_injective (sym at ∙ it) in
      omega (arith, ap length same, ap length rest, length-through whole)
]

-- What the headers leave: less than there was, where they have an end.
abbrev Spent : ℕ → Headers × List Piece → Type 0
Spent size (end_of_stream, left) = Unit
Spent size (no_fuel, left) = ⊥
Spent size (headers n, left) = length (concat left) < size
Spent size (bad_headers e, left) = Unit

Spent-more :
    (small size : ℕ) (h : Headers) (left : List Piece)
    → small < size
    → Spent small (h, left)
    → Spent size (h, left)
Spent-more small size end_of_stream left less spent = tt
Spent-more small size no_fuel left less spent = spent
Spent-more small size (headers n) left less spent = omega (arith, less, spent)
Spent-more small size (bad_headers e) left less spent = tt

by_header-Spent :
    (size : ℕ) (h : Header) (seen : Option ℕ) (left : List Piece)
    (next : Option ℕ → Headers × List Piece)
    → length (concat left) < size
    → ((seen' : Option ℕ) → Spent size (next seen'))
    → Spent size (by_header h seen left next)
by_header-Spent size end_of_headers seen left next less each = less
by_header-Spent size other_header seen left next less each = each seen
by_header-Spent size (content_length n) seen left next less each = each (some n)
by_header-Spent size (bad_header e) seen left next less each = tt

if-Spent :
    (size : ℕ) (b : Bool) (x y : Headers × List Piece)
    → Spent size x
    → (b ≡ false → Spent size y)
    → Spent size (if b then x else y)
if-Spent size true x y first second = first
if-Spent size false x y first second = second refl

take_header-Spent :
    (size count : ℕ) (seen : Option ℕ) (line : Option Bytes) (left : List Piece)
    (next : List Piece → ℕ → Option ℕ → Headers × List Piece)
    → ((l : Bytes) → line ≡ some l → length l + length (concat left) ≡ size)
    → ((more : ℕ) (seen' : Option ℕ)
        → count < more
        → more ≤ max_header_bytes
        → length (concat left) < size
        → Spent size (next left more seen'))
    → Spent size (take_header count seen (line, left) next)
take_header-Spent size count seen none left next takes each = tt
take_header-Spent size count seen (some []) left next takes each = tt
take_header-Spent size count seen (some (b ∷ bs)) left next takes each =
    let less : length (concat left) < size = omega (arith, takes (b ∷ bs) refl) in
    if-Spent size (ltb max_header_bytes (count + length (b ∷ bs))) _ _ tt (λ near.
      if-Spent size (not (is_utf8 (b ∷ bs))) _ _ tt (λ _.
        by_header-Spent size (header_of seen (trim (chars 0 0 (b ∷ bs)))) seen left _ less (λ seen'.
          each (count + length (b ∷ bs)) seen' (omega arith)
            (ltb→ge max_header_bytes (count + length (b ∷ bs)) near) less)))

-- The limit of the headers' bytes is enough fuel for their lines.
read_headers-Spent :
    (fuel count : ℕ) (seen : Option ℕ) (ps : List Piece)
    → max_header_bytes < fuel + count
    → count ≤ max_header_bytes
    → Spent (length (concat ps)) (read_headers fuel count seen ps)
unfolding read_headers
read_headers-Spent zero count seen ps enough within = absurd (omega (arith, enough, within))
read_headers-Spent (suc fuel) count seen ps enough within =
    let r = read_limited_header_line max_header_line_bytes ps in
    take_header-Spent (length (concat ps)) count seen r.0 r.1 _
      (λ l at.
        line_takes max_header_line_bytes (concat ps) l r
          (read_header-ReadsHeader max_header_line_bytes ps) at)
      (λ more seen' longer_now small less.
        let later = read_headers fuel more seen' r.1 in
        Spent-more (length (concat r.1)) (length (concat ps)) later.0 later.1 less
          (read_headers-Spent fuel more seen' r.1 (omega (arith, enough, longer_now)) small))

read_exact-length :
    (n : ℕ) (ps : List Piece) (body : Bytes) (left : List Piece)
    → read_exact n ps ≡ some (body, left)
    → length (concat left) ≤ length (concat ps)
unfolding read_exact
read_exact-length zero ps body left at =
    let same : ps ≡ left = ap (λ o. (or_nothing o).1) at in
    omega (arith, ap (λ l. length (concat l)) same)
read_exact-length (suc n) [] body left at = absurd (ground (arith, at))
read_exact-length (suc n) ((b, bs) ∷ ps) body left at =
    elim (Option-cases (read_exact n (unread bs ps))) [
      | inl gone ↦ absurd (ground (arith, sym (ap (cons_byte b) gone) ∙ at))
      | inr ((rest, left'), found) ↦
          let same : left' ≡ left =
            ap (λ o. (or_nothing o).1) (sym (ap (cons_byte b) found) ∙ at) in
          omega (
            arith,
            read_exact-length n (unread bs ps) rest left' found,
            ap length (concat-unread bs ps),
            ap (λ l. length (concat l)) same,
            length-append bs (concat ps),
          )
    ]

-- The loop has ended, not run out of fuel.
abbrev pub Ends : {V : Type 0} → Read V → Type 0
Ends (ms, closed) = Unit
Ends (ms, dropped) = Unit
Ends (ms, out_of_fuel) = ⊥
Ends (ms, failed e) = Unit

deliver-Ends :
    {V : Type 0} (m : V) (taken : Bool) (later : Read V) → Ends later → Ends (deliver m taken later)
deliver-Ends m true later h = h
deliver-Ends m false later h = tt

take_body-Ends :
    {V : Type 0} (taken : Bool) (r : Result V) (later : Read V)
    → Ends later
    → Ends (take_body taken r later)
take_body-Ends taken (ok m) later h = deliver-Ends m taken later h
take_body-Ends taken (err e) later h = tt

read_body-Ends :
    {V : Type 0} (from_slice : Bytes → Result V) (taken : Bool) (o : Option (Bytes × List Piece))
    (next : List Piece → Read V)
    → ((body : Bytes) (left : List Piece) → o ≡ some (body, left) → Ends (next left))
    → Ends (read_body from_slice taken o next)
read_body-Ends from_slice taken none next each = tt
read_body-Ends from_slice taken (some (body, left)) next each =
    take_body-Ends taken (from_slice body) (next left) (each body left refl)

by_headers-Ends :
    {V : Type 0} (from_slice : Bytes → Result V) (taken : Bool) (size : ℕ) (h : Headers)
    (left : List Piece) (next : List Piece → Read V)
    → Spent size (h, left)
    → ((left' : List Piece) → length (concat left') < size → Ends (next left'))
    → Ends (by_headers from_slice taken (h, left) next)
by_headers-Ends from_slice taken size end_of_stream left next spent each = tt
by_headers-Ends from_slice taken size no_fuel left next spent each = absurd spent
by_headers-Ends from_slice taken size (headers none) left next spent each = tt
by_headers-Ends from_slice taken size (headers (some n)) left next spent each =
    read_body-Ends from_slice taken (read_exact n left) next
      (λ body left' at. each left' (omega (arith, spent, read_exact-length n left body left' at)))
by_headers-Ends from_slice taken size (bad_headers e) left next spent each = tt

read_loop-Ends :
    {V : Type 0} (from_slice : Bytes → Result V) (taken : ℕ → Bool) (fuel k : ℕ) (ps : List Piece)
    → length (concat ps) < fuel
    → Ends (read_loop from_slice taken fuel k ps)
unfolding read_loop
read_loop-Ends from_slice taken zero k ps enough = absurd (omega (arith, enough))
read_loop-Ends from_slice taken (suc fuel) k ps enough =
    let h = read_headers (max_header_bytes + 1) 0 none ps in
    by_headers-Ends from_slice (taken k) (length (concat ps)) h.0 h.1 _
      (read_headers-Spent (max_header_bytes + 1) 0 none ps (omega arith) (omega arith))
      (λ left less. read_loop-Ends from_slice taken fuel (k + 1) left (omega (arith, enough, less)))

-- Whatever bytes a server sends, however they are cut, and whichever messages the receiver takes,
-- read_loop ends: at the end of the stream, with the receiver gone, or with an error. A round for
-- each byte, and for the headers of a message a line for each byte of their limit, are enough.
pub read_stream-Ends :
    {V : Type 0} (from_slice : Bytes → Result V) (taken : ℕ → Bool) (ps : List Piece)
    → Ends (read_stream from_slice taken ps)
read_stream-Ends from_slice taken ps =
    read_loop-Ends from_slice taken (length (concat ps) + 1) 0 ps (omega arith)
