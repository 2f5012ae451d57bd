-- ===== src/Lines.antt =====
-- src/simplecc/simplecc_daemon.rs: the reader of the editor's request lines. A byte is a number, and
-- the input is the list of the pieces that `fill_buf` gives, none of which is empty.
pub mod Pieces
mod Tests
use simplecc.Base.{
  ℕ, suc, ◌+◌, ◌≡◌, Bool, true, false, not, ◌&&◌, ◌||◌, Option, none, some, List, [], ◌∷◌, ◌++◌,
  length, ltb, leb, ◌==◌, nat_key, if◌then◌else◌,
}

abbrev pub Bytes : Type 0
Bytes = List ℕ

-- A piece: its first byte, and the others.
abbrev pub Piece : Type 0
Piece = ℕ × Bytes

abbrev pub bytes_of : Piece → Bytes
bytes_of (b, bs) = b ∷ bs

abbrev pub concat : List Piece → Bytes
concat [] = []
concat (p ∷ ps) = bytes_of p ++ concat ps

pub data LineError : Type 0 where
  too_long not_utf8 : LineError

pub data Line : Type 0 where
  text : Bytes → Line
  bad : LineError → Line

abbrev pub within : ℕ → ℕ → ℕ → Bool
within low high b = leb low b && leb b high

-- The bytes that may follow a leading byte, each as its bounds; none if it leads nothing.
unfoldable pub following : ℕ → Option (List (ℕ × ℕ))
following b =
    if leb b 127
    then some []
    else if within 194 223 b
    then some ((128, 191) ∷ [])
    else if b == 224
    then some ((160, 191) ∷ (128, 191) ∷ [])
    else if b == 237
    then some ((128, 159) ∷ (128, 191) ∷ [])
    else if within 225 239 b
    then some ((128, 191) ∷ (128, 191) ∷ [])
    else if b == 240
    then some ((144, 191) ∷ (128, 191) ∷ (128, 191) ∷ [])
    else if within 241 243 b
    then some ((128, 191) ∷ (128, 191) ∷ (128, 191) ∷ [])
    else if b == 244
    then some ((128, 143) ∷ (128, 191) ∷ (128, 191) ∷ [])
    else none

-- `from_utf8`: the rest of a text, with what must follow first.
unfoldable pub utf8_from : Option (List (ℕ × ℕ)) → Bytes → Bool
unfolding following
utf8_from none bs = false
utf8_from (some []) [] = true
utf8_from (some (r ∷ rs)) [] = false
utf8_from (some []) (b ∷ bs) = utf8_from (following b) bs
utf8_from (some ((low, high) ∷ rs)) (b ∷ bs) =
    let rest = utf8_from (some rs) bs in within low high b && rest

abbrev pub is_utf8 : Bytes → Bool
is_utf8 bs = utf8_from (some []) bs

-- The pop of a carriage return at the end.
unfoldable pub pop_cr : Bytes → Bytes
pop_cr [] = []
pop_cr (b ∷ []) = if b == 13 then [] else b ∷ []
pop_cr (b ∷ c ∷ bs) = b ∷ pop_cr (c ∷ bs)

unfoldable pub finish_request_line : Bytes → Bool → ℕ → Line
finish_request_line bytes long limit =
    if long || ltb limit (length (pop_cr bytes))
    then bad too_long
    else if is_utf8 (pop_cr bytes)
    then text (pop_cr bytes)
    else bad not_utf8

-- The bytes before a newline, and those after it if there is one.
unfoldable pub cut : Bytes → Bytes × Option Bytes
cut [] = ([], none)
cut (b ∷ bs) =
    let (content, rest) = cut bs in if b == 10 then ([], some bs) else (b ∷ content, rest)

-- What is kept of a record once more of it has come.
unfoldable pub grow : ℕ → Bytes → Bool → Bytes → Bytes × Bool
grow limit bytes long content =
    if long
    then (bytes, true)
    else if ltb (limit + 1) (length bytes + length content)
    then ([], true)
    else (bytes ++ content, false)

-- What `consume` leaves.
abbrev pub unread : Bytes → List Piece → List Piece
unread [] ps = ps
unread (b ∷ bs) ps = (b, bs) ∷ ps

abbrev pub is_empty : Bytes → Bool
is_empty [] = true
is_empty (b ∷ bs) = false

-- The end of a round: with a newline the record is done.
abbrev pub by_newline :
    ℕ
    → Bytes
    → Bool
    → List Piece
    → Option Bytes
    → Option Line × List Piece
    → Option Line × List Piece
by_newline limit bytes long ps none later = later
by_newline limit bytes long ps (some r) later =
    (some (finish_request_line bytes long limit), unread r ps)

-- The loop: the record, or none at the end of the input, and the pieces that are left.
unfoldable pub read_loop : ℕ → Bytes → Bool → List Piece → Option Line × List Piece
unfolding cut grow finish_request_line
read_loop limit bytes long [] =
    (if is_empty bytes && not long then none else some (finish_request_line bytes long limit), [])
read_loop limit bytes long (p ∷ ps) =
    let (content, rest) = cut (bytes_of p) in
    let (bytes', long') = grow limit bytes long content in
    let later = read_loop limit bytes' long' ps in by_newline limit bytes' long' ps rest later

unfoldable pub read_request_line : ℕ → List Piece → Option Line × List Piece
unfolding read_loop
read_request_line limit ps = read_loop limit [] false ps
