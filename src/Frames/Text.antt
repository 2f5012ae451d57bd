-- ===== src/Frames/Text.antt =====
-- src/simplecc/lsp/transport.rs: the text of a header line, as Rust's `str` reads it. A text is the
-- list of its code points.
use simplecc.Base.{
  ℕ, zero, suc, ◌+◌, ◌-◌, ◌*◌, ◌^◌, Bool, true, false, ◌&&◌, Option, none, some, List, [], ◌∷◌, map,
  ltb, leb, ◌==◌, nat_key, if◌then◌else◌,
}
use simplecc.Config.{is_whitespace}
use simplecc.Lines.{Bytes, within}

-- The code points of UTF-8, with how many bytes are still to come and what has come of one.
unfoldable pub chars : ℕ → ℕ → Bytes → List ℕ
chars k acc [] = []
chars zero acc (b ∷ bs) =
    let one = chars 0 0 bs in
    let two = chars 1 (b - 192) bs in
    let three = chars 2 (b - 224) bs in
    let four = chars 3 (b - 240) bs in
    if leb b 127 then b ∷ one else if leb b 223 then two else if leb b 239 then three else four
chars (suc zero) acc (b ∷ bs) = (acc * 64 + (b - 128)) ∷ chars 0 0 bs
chars (suc (suc k)) acc (b ∷ bs) = chars (suc k) (acc * 64 + (b - 128)) bs

abbrev pub is_nil : List ℕ → Bool
is_nil [] = true
is_nil (c ∷ cs) = false

unfoldable pub trim_start : List ℕ → List ℕ
trim_start [] = []
trim_start (c ∷ cs) = let rest = trim_start cs in if is_whitespace c then rest else c ∷ cs

unfoldable pub trim_end : List ℕ → List ℕ
trim_end [] = []
trim_end (c ∷ cs) =
    let rest = trim_end cs in if is_whitespace c && is_nil rest then [] else c ∷ rest

abbrev pub trim : List ℕ → List ℕ
trim cs = trim_end (trim_start cs)

-- `split_once(':')`: what is before the first colon, and what is after it if there is one.
unfoldable pub split_once : List ℕ → List ℕ × Option (List ℕ)
split_once [] = ([], none)
split_once (c ∷ cs) =
    let (name, value) = split_once cs in if c == 58 then ([], some cs) else (c ∷ name, value)

abbrev pub lower : ℕ → ℕ
lower c = if within 65 90 c then c + 32 else c

unfoldable pub same_codes : List ℕ → List ℕ → Bool
same_codes [] [] = true
same_codes [] (d ∷ ds) = false
same_codes (c ∷ cs) [] = false
same_codes (c ∷ cs) (d ∷ ds) = let rest = same_codes cs ds in c == d && rest

abbrev pub eq_ignore_ascii_case : List ℕ → List ℕ → Bool
eq_ignore_ascii_case cs ds = same_codes (map lower cs) (map lower ds)

-- "Content-Length".
abbrev pub content_length_name : List ℕ
content_length_name =
    67 ∷ 111 ∷ 110 ∷ 116 ∷ 101 ∷ 110 ∷ 116 ∷ 45 ∷ 76 ∷ 101 ∷ 110 ∷ 103 ∷ 116 ∷ 104 ∷ []

-- The digits of a number, and none for any other character.
unfoldable pub value_from : ℕ → List ℕ → Option ℕ
value_from acc [] = some acc
value_from acc (c ∷ cs) =
    let later = value_from (acc * 10 + (c - 48)) cs in if within 48 57 c then later else none

abbrev pub fits_usize : Option ℕ → Option ℕ
fits_usize none = none
fits_usize (some n) = if ltb n (2 ^ 64) then some n else none

abbrev pub digits_of : List ℕ → Option ℕ
digits_of [] = none
digits_of (c ∷ cs) = fits_usize (value_from 0 (c ∷ cs))

-- `parse::<usize>`, which takes a plus sign.
unfoldable pub parse_usize : List ℕ → Option ℕ
unfolding value_from
parse_usize [] = none
parse_usize (c ∷ cs) = if c == 43 then digits_of cs else digits_of (c ∷ cs)
