-- ===== src/Lines/Tests.antt =====
-- A line of src/simplecc/simplecc_daemon.rs that comes in two pieces, with a carriage return.
use simplecc.Base.{◌≡◌, refl, some, List, [], ◌∷◌}
use simplecc.Lines.{
  Piece, text, bad, too_long, concat, cut, read_request_line, read_loop, grow, finish_request_line,
  pop_cr, utf8_from, following,
}
use simplecc.Lines.Pieces.{first_line, after, read_request_line-first_line}

-- `hé` and a carriage return, then a line that is too long.
abbrev pieces : List Piece
pieces = (104, 195 ∷ []) ∷ (169, 13 ∷ 10 ∷ 49 ∷ 50 ∷ []) ∷ (51, 52 ∷ 53 ∷ 10 ∷ 54 ∷ []) ∷ []

two_lines : (read_request_line 3 pieces).0 ≡ some (text (104 ∷ 195 ∷ 169 ∷ []))
unfolding read_request_line read_loop cut grow finish_request_line pop_cr utf8_from following
two_lines = refl

second_line : (read_request_line 3 (read_request_line 3 pieces).1).0 ≡ some (bad too_long)
unfolding read_request_line read_loop cut grow finish_request_line pop_cr utf8_from following
second_line = refl

read_request_line-first_line_example :
    ((read_request_line 3 pieces).0 ≡ first_line 3 (concat pieces))
    × (concat (read_request_line 3 pieces).1 ≡ after (cut (concat pieces)).1)
read_request_line-first_line_example = read_request_line-first_line 3 pieces
