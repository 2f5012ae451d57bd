-- ===== src/Frames/Tests.antt =====
-- A header line and two messages of src/simplecc/lsp/transport.rs in pieces.
use simplecc.Base.{◌≡◌, refl, true, false, some, List, [], ◌∷◌, ok, arith}
use simplecc.Frames.{read_limited_header_line, header_loop}
use simplecc.Frames.Header.{ReadsHeader, read_header-ReadsHeader}
use simplecc.Frames.Stream.{
  LspTransport, closed, failed, missing_length, read_stream, read_loop, read_headers, header_of,
  frame, digits_before, send,
}
use simplecc.Frames.Text.{chars, trim_start, trim_end}
use simplecc.Frames.RoundTrip.{send_all, read_stream-sent}
use simplecc.Frames.Ends.{Ends, read_stream-Ends}
use simplecc.Lines.{Bytes, Piece, utf8_from, following, concat, cut}

abbrev two_pieces : List Piece
two_pieces = (65, 58 ∷ []) ∷ (49, 13 ∷ 10 ∷ 123 ∷ []) ∷ []

read_whole : (read_limited_header_line 5 two_pieces).0 ≡ some (65 ∷ 58 ∷ 49 ∷ 13 ∷ 10 ∷ [])
unfolding read_limited_header_line header_loop cut
read_whole = refl

read_header-ReadsHeader_example :
    ReadsHeader 5 (concat two_pieces) (read_limited_header_line 5 two_pieces)
read_header-ReadsHeader_example = read_header-ReadsHeader 5 two_pieces

-- A message is its bytes; the pipe hands over all that was written at once.
abbrev pipe : LspTransport
pipe = record { writer = true; terminated = false; written = [] }

abbrev as_it_is : Bytes → Bytes
as_it_is body = body

abbrev two_messages : List Bytes
two_messages = (123 ∷ 125 ∷ []) ∷ (91 ∷ 93 ∷ []) ∷ []

abbrev pieces_of : Bytes → List Piece
pieces_of [] = []
pieces_of (b ∷ bs) = (b, bs) ∷ []

abbrev whole_pipe : List Piece
whole_pipe = pieces_of (send_all as_it_is two_messages pipe).written

written_whole : concat whole_pipe ≡ (send_all as_it_is two_messages pipe).written
unfolding send_all send frame digits_before
written_whole = refl

read_stream-sent_example :
    read_stream (λ body. ok body) (λ i. true) whole_pipe ≡ (two_messages, closed)
read_stream-sent_example =
    read_stream-sent as_it_is (λ body. ok body) (λ m. refl) two_messages pipe whole_pipe
      (omega arith, (omega arith, tt)) refl refl refl written_whole

-- A body without its length.
no_length :
    read_stream {V = Bytes} (λ body. ok body) (λ i. true) ((13, 10 ∷ 123 ∷ []) ∷ [])
    ≡ ([], failed missing_length)
unfolding read_loop read_headers read_limited_header_line header_loop cut utf8_from following chars
    trim_start trim_end header_of
no_length = refl

read_stream-Ends_example : Ends (read_stream {V = Bytes} (λ body. ok body) (λ i. true) two_pieces)
read_stream-Ends_example = read_stream-Ends (λ body. ok body) (λ i. true) two_pieces
