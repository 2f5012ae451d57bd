-- ===== src/Frames.antt =====
-- src/simplecc/lsp/transport.rs: the reader of a header line, read_limited_header_line. The input is
-- the list of the pieces that `fill_buf` gives.
pub mod Header
pub mod Text
pub mod Stream
pub mod Digits
pub mod Framed
pub mod RoundTrip
pub mod Ends
mod Tests
use simplecc.Base.{
  ℕ, ◌+◌, Bool, Option, none, some, List, [], ◌∷◌, ◌++◌, length, ltb, if◌then◌else◌,
}
use simplecc.Lines.{Bytes, Piece, bytes_of, cut, unread}

-- What is taken of a piece: its bytes through the newline, or all of them.
abbrev pub with_newline : Bytes × Option Bytes → Bytes
with_newline (content, none) = content
with_newline (content, some r) = content ++ (10 ∷ [])

-- With a newline the line is done.
abbrev pub line_end :
    Bytes → List Piece → Option Bytes → Option Bytes × List Piece → Option Bytes × List Piece
line_end line ps none later = later
line_end line ps (some r) later = (some line, unread r ps)

-- The loop, once `line` is read: the line with its newline, all that is left at the end of the input,
-- or none for a line that is longer than the limit.
unfoldable pub header_loop : ℕ → Bytes → List Piece → Option Bytes × List Piece
unfolding cut
header_loop limit line [] = (some line, [])
header_loop limit line (p ∷ ps) =
    let taken = with_newline (cut (bytes_of p)) in
    let later = header_loop limit (line ++ taken) ps in
    if ltb limit (length line + length taken)
    then (none, p ∷ ps)
    else line_end (line ++ taken) ps (cut (bytes_of p)).1 later

unfoldable pub read_limited_header_line : ℕ → List Piece → Option Bytes × List Piece
unfolding header_loop
read_limited_header_line limit ps = header_loop limit [] ps
