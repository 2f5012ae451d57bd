-- ===== src/Frames/Stream.antt =====
-- src/simplecc/lsp/transport.rs: LspTransport::send, and read_loop, which reads a server's messages.
-- The body of a message is serde_json's: `to_string` and `from_slice` are parameters.
use simplecc.Base.{
  ℕ, zero, suc, ◌+◌, ◌*◌, ◌/◌, ◌%◌, String, Bool, true, false, not, Option, none, some, List, [],
  ◌∷◌, ◌++◌, length, take, ltb, Result, ok, err, nat_key, if◌then◌else◌,
}
use simplecc.Lines.{Bytes, Piece, unread, concat, is_utf8}
use simplecc.Frames.{read_limited_header_line}
use simplecc.Frames.Text.{
  chars, trim, split_once, eq_ignore_ascii_case, content_length_name, parse_usize,
}

abbrev pub max_header_line_bytes : ℕ
max_header_line_bytes = 8 * 1024

abbrev pub max_header_bytes : ℕ
max_header_bytes = 32 * 1024

abbrev pub max_content_length : ℕ
max_content_length = 64 * 1024 * 1024

-- The decimal digits of a number, before `rest`; the fuel is the number and one.
unfoldable pub digits_before : ℕ → ℕ → Bytes → Bytes
digits_before zero n rest = rest
digits_before (suc fuel) n rest =
    let later = digits_before fuel (n / 10) ((48 + n % 10) ∷ rest) in
    if ltb n 10 then (48 + n) ∷ rest else later

abbrev pub decimal : ℕ → Bytes
decimal n = digits_before (n + 1) n []

-- A message on the wire.
unfoldable pub frame : Bytes → Bytes
unfolding digits_before
frame body =
    content_length_name ++ (58 ∷ 32 ∷ (decimal (length body) ++ (13 ∷ 10 ∷ 13 ∷ 10 ∷ body)))

-- The child's stdin is open until `terminate` takes it.
pub record LspTransport : Type 0 where
  pub writer : Bool
  pub terminated : Bool
  pub written : Bytes

-- A write that breaks off leaves the first bytes.
abbrev pub write_all : Option ℕ → Bytes → LspTransport → Result (Unit {0}) × LspTransport
write_all none bytes t = (ok tt, record t { written = t.written ++ bytes })
write_all (some k) bytes t = (err "broken pipe", record t { written = t.written ++ take k bytes })

unfoldable pub send :
    {V : Type 0} → (V → Bytes) → Option ℕ → V → LspTransport → Result (Unit {0}) × LspTransport
unfolding frame
send to_string breaks msg t =
    if t.terminated
    then (err "language server transport is terminated", t)
    else if not t.writer
    then (err "language server stdin is closed", t)
    else write_all breaks (frame (to_string msg)) t

pub data FrameError : Type 0 where
  line_too_long headers_too_long not_text duplicate_length bad_length length_too_large : FrameError
  missing_length short_body : FrameError
  bad_body : String → FrameError

-- What a header line says: the end of the headers, the length of the body, nothing, or an error.
pub data Header : Type 0 where
  end_of_headers other_header : Header
  content_length : ℕ → Header
  bad_header : FrameError → Header

abbrev pub length_header : Option ℕ → Option ℕ → Header
length_header (some seen) value = bad_header duplicate_length
length_header none none = bad_header bad_length
length_header none (some n) =
    if ltb max_content_length n then bad_header length_too_large else content_length n

abbrev pub named_header : Option ℕ → List ℕ × Option (List ℕ) → Header
named_header seen (name, none) = other_header
named_header seen (name, some value) =
    if eq_ignore_ascii_case (trim name) content_length_name
    then length_header seen (parse_usize (trim value))
    else other_header

-- A line that has been trimmed.
unfoldable pub header_of : Option ℕ → List ℕ → Header
unfolding split_once parse_usize
header_of seen [] = end_of_headers
header_of seen (c ∷ cs) = named_header seen (split_once (c ∷ cs))

-- What the headers of a message say: the end of the stream, the length, or an error.
pub data Headers : Type 0 where
  end_of_stream no_fuel : Headers
  headers : Option ℕ → Headers
  bad_headers : FrameError → Headers

abbrev pub by_header :
    Header → Option ℕ → List Piece → (Option ℕ → Headers × List Piece) → Headers × List Piece
by_header end_of_headers seen left next = (headers seen, left)
by_header other_header seen left next = next seen
by_header (content_length n) seen left next = next (some n)
by_header (bad_header e) seen left next = (bad_headers e, left)

-- One line of the headers, of `count` bytes before it.
abbrev pub take_header :
    ℕ
    → Option ℕ
    → Option Bytes × List Piece
    → (List Piece → ℕ → Option ℕ → Headers × List Piece)
    → Headers × List Piece
take_header count seen (none, left) next = (bad_headers line_too_long, left)
take_header count seen (some [], left) next = (end_of_stream, left)
take_header count seen (some (b ∷ bs), left) next =
    if ltb max_header_bytes (count + length (b ∷ bs))
    then (bad_headers headers_too_long, left)
    else if not (is_utf8 (b ∷ bs))
    then (bad_headers not_text, left)
    else by_header (header_of seen (trim (chars 0 0 (b ∷ bs)))) seen left
        (next left (count + length (b ∷ bs)))

-- The inner loop.
unfoldable pub read_headers : ℕ → ℕ → Option ℕ → List Piece → Headers × List Piece
unfolding header_of read_limited_header_line
read_headers zero count seen ps = (no_fuel, ps)
read_headers (suc fuel) count seen ps =
    take_header count seen (read_limited_header_line max_header_line_bytes ps)
      (λ left count' seen'. read_headers fuel count' seen' left)

abbrev pub cons_byte : ℕ → Option (Bytes × List Piece) → Option (Bytes × List Piece)
cons_byte b none = none
cons_byte b (some (bs, left)) = some (b ∷ bs, left)

-- `read_exact`.
unfoldable pub read_exact : ℕ → List Piece → Option (Bytes × List Piece)
read_exact zero ps = some ([], ps)
read_exact (suc n) [] = none
read_exact (suc n) ((b, bs) ∷ ps) = cons_byte b (read_exact n (unread bs ps))

-- How the loop ends: at the end of the stream, when the receiver is gone, or with an error.
pub data Ended : Type 0 where
  closed dropped out_of_fuel : Ended
  failed : FrameError → Ended

abbrev pub Read : Type 0 → Type 0
Read V = List V × Ended

abbrev pub deliver : {V : Type 0} → V → Bool → Read V → Read V
deliver msg true later = (msg ∷ later.0, later.1)
deliver msg false later = ([], dropped)

abbrev pub take_body : {V : Type 0} → Bool → Result V → Read V → Read V
take_body taken (err e) later = ([], failed (bad_body e))
take_body taken (ok msg) later = deliver msg taken later

abbrev pub read_body :
    {V : Type 0}
    → (Bytes → Result V)
    → Bool
    → Option (Bytes × List Piece)
    → (List Piece → Read V)
    → Read V
read_body from_slice taken none next = ([], failed short_body)
read_body from_slice taken (some (body, left)) next = take_body taken (from_slice body) (next left)

abbrev pub by_headers :
    {V : Type 0} → (Bytes → Result V) → Bool → Headers × List Piece → (List Piece → Read V) → Read V
by_headers from_slice taken (end_of_stream, left) next = ([], closed)
by_headers from_slice taken (no_fuel, left) next = ([], out_of_fuel)
by_headers from_slice taken (bad_headers e, left) next = ([], failed e)
by_headers from_slice taken (headers none, left) next = ([], failed missing_length)
by_headers from_slice taken (headers (some n), left) next =
    read_body from_slice taken (read_exact n left) next

-- `read_loop`, where `taken k` says whether the receiver takes the message after `k` others. A line of
-- the headers has a byte at least, so that the limit of their bytes bounds their lines.
unfoldable pub read_loop :
    {V : Type 0} → (Bytes → Result V) → (ℕ → Bool) → ℕ → ℕ → List Piece → Read V
unfolding read_headers read_exact
read_loop from_slice taken zero k ps = ([], out_of_fuel)
read_loop from_slice taken (suc fuel) k ps =
    by_headers from_slice (taken k) (read_headers (max_header_bytes + 1) 0 none ps)
      (λ left. read_loop from_slice taken fuel (k + 1) left)

-- A message has a byte at least.
abbrev pub read_stream : {V : Type 0} → (Bytes → Result V) → (ℕ → Bool) → List Piece → Read V
read_stream from_slice taken ps = read_loop from_slice taken (length (concat ps) + 1) 0 ps
