-- ===== src/Lines/Pieces.antt =====
-- src/simplecc/simplecc_daemon.rs: a request line is read the same however the input is cut.
use simplecc.Base.{
  append_nil, append_assoc, ℕ, ◌+◌, ◌≤◌, ◌<◌, ◌≡◌, refl, sym, subst, ap, ◌∙◌, inl, inr, Bool-cases,
  Option-cases, Bool, true, false, not, ◌&&◌, Option, none, some, List, [], ◌∷◌, ◌++◌, length,
  length-append, ltb, ◌==◌, nat_key, if◌then◌else◌, arith,
}
use simplecc.Lines.{
  Bytes, Piece, bytes_of, concat, too_long, not_utf8, Line, text, bad, is_utf8, pop_cr,
  finish_request_line, cut, grow, unread, is_empty, read_loop, by_newline, read_request_line,
}

-- What a line is, of the bytes before its newline.
abbrev pub line_of : ℕ → Bytes → Line
line_of limit content =
    if ltb limit (length (pop_cr content))
    then bad too_long
    else if is_utf8 (pop_cr content)
    then text (pop_cr content)
    else bad not_utf8

-- The first line of an input and what follows it: none of an empty input.
abbrev pub first_line : ℕ → Bytes → Option Line
first_line limit [] = none
first_line limit (b ∷ bs) = some (line_of limit (cut (b ∷ bs)).0)

abbrev pub after : Option Bytes → Bytes
after none = []
after (some r) = r

-- The reader holds `seen`, or has given it up for its length.
Holds : ℕ → Bytes → Bytes → Bool → Type 0
Holds limit seen bytes true = (bytes ≡ []) × (limit + 1 < length seen)
Holds limit seen bytes false = (bytes ≡ seen) × (length seen ≤ limit + 1)

length-pop_cr : (bs : Bytes) → length bs ≤ length (pop_cr bs) + 1
unfolding pop_cr
length-pop_cr [] = omega arith
length-pop_cr (b ∷ []) = ground arith
length-pop_cr (b ∷ c ∷ bs) = omega (arith, length-pop_cr (c ∷ bs))

finish-Holds :
    (limit : ℕ) (seen bytes : Bytes) (long : Bool)
    → Holds limit seen bytes long
    → finish_request_line bytes long limit ≡ line_of limit seen
unfolding finish_request_line Holds
finish-Holds limit seen bytes true (e, far) = ground (arith, length-pop_cr seen)
finish-Holds limit seen bytes false (e, near) = rw e refl

grow-Holds :
    (limit : ℕ) (seen bytes content : Bytes) (long : Bool)
    → Holds limit seen bytes long
    → Holds limit
        (seen ++ content)
        (grow limit bytes long content).0
        (grow limit bytes long content).1
unfolding grow Holds
grow-Holds limit seen bytes content true (e, far) =
    (e, omega (arith, far, length-append seen content))
grow-Holds limit seen bytes content false (e, near) =
    elim (Bool-cases (ltb (limit + 1) (length bytes + length content))) [
      | inl far ↦ rw far (refl, ground (arith, far, e, length-append seen content))
      | inr close ↦ rw close (rw e refl, ground (arith, close, e, length-append seen content))
    ]

module _ (q : Bytes) where
  pub cut-append-none :
      (p : Bytes)
      → (cut p).1 ≡ none
      → ((cut p).0 ≡ p) × (((cut (p ++ q)).0 ≡ p ++ (cut q).0) × ((cut (p ++ q)).1 ≡ (cut q).1))
  unfolding cut
  cut-append-none [] h = (refl, (refl, refl))
  cut-append-none (b ∷ bs) h = elim (Bool-cases (b == 10)) [
    | inl newline ↦ absurd (ground (arith, newline, h))
    | inr other ↦
        let (c, (x, y)) = cut-append-none bs (ground (arith, other, h)) in
        rw (other, cut) (ap (λ t. b ∷ t) c, (ap (λ t. b ∷ t) x, y))
  ]

  pub cut-append-some :
      (p r : Bytes)
      → (cut p).1 ≡ some r
      → ((cut (p ++ q)).0 ≡ (cut p).0) × ((cut (p ++ q)).1 ≡ some (r ++ q))
  unfolding cut
  cut-append-some [] r h = absurd cc
  cut-append-some (b ∷ bs) r h = elim (Bool-cases (b == 10)) [
    | inl newline ↦
        let e : bs ≡ r = ground (arith, newline, h) in
        rw (newline, cut) (refl, ap (λ t. some (t ++ q)) e)
    | inr other ↦
        let (x, y) = cut-append-some bs r (ground (arith, other, h)) in
        rw (other, cut) (ap (λ t. b ∷ t) x, y)
  ]

first_line-some :
    (limit : ℕ) (xs : Bytes)
    → is_empty xs ≡ false
    → first_line limit xs ≡ some (line_of limit (cut xs).0)
first_line-some limit [] h = absurd cc
first_line-some limit (b ∷ bs) h = refl

append-empty : (xs : Bytes) (b : ℕ) (ys : Bytes) → is_empty (xs ++ (b ∷ ys)) ≡ false
append-empty [] b ys = refl
append-empty (x ∷ xs) b ys = refl

pub concat-unread : (r : Bytes) (ps : List Piece) → concat (unread r ps) ≡ r ++ concat ps
concat-unread [] ps = refl
concat-unread (b ∷ bs) ps = refl

-- A reader that holds a beginning without a newline goes on to the first line of the whole.
ReadsOn : ℕ → Bytes → Option Line × List Piece → Type 0
ReadsOn limit whole (res, left) =
    (res ≡ first_line limit whole) × (concat left ≡ after (cut whole).1)

read_end-Holds :
    (limit : ℕ) (seen bytes : Bytes) (long : Bool)
    → Holds limit seen bytes long
    → (cut seen).1 ≡ none
    → (if is_empty bytes && not long then none else some (finish_request_line bytes long limit))
      ≡ first_line limit seen
unfolding Holds
read_end-Holds limit [] bytes true (e, far) plain = absurd (omega (arith, far))
read_end-Holds limit [] bytes false (e, near) plain = rw e refl
read_end-Holds limit (b ∷ bs) bytes true (e, far) plain =
    let whole = (cut-append-none [] (b ∷ bs) plain).0 in
    ground (arith, e, whole, finish-Holds limit (b ∷ bs) bytes true (e, far))
read_end-Holds limit (b ∷ bs) bytes false (e, near) plain =
    let whole = (cut-append-none [] (b ∷ bs) plain).0 in
    ground (arith, e, whole, finish-Holds limit (b ∷ bs) bytes false (e, near))

-- The piece with the newline ends the line.
line_end-ReadsOn :
    (limit : ℕ) (seen bytes : Bytes) (long : Bool) (p : Piece) (ps : List Piece) (r : Bytes)
    → Holds limit (seen ++ (cut (bytes_of p)).0) bytes long
    → (cut seen).1 ≡ none
    → (cut (bytes_of p)).1 ≡ some r
    → ReadsOn limit
        (seen ++ (bytes_of p ++ concat ps))
        (some (finish_request_line bytes long limit), unread r ps)
unfolding ReadsOn
line_end-ReadsOn limit seen bytes long p ps r h plain at =
    let rest = bytes_of p ++ concat ps in
    let (before, behind) = cut-append-some (concat ps) (bytes_of p) r at in
    let whole = cut-append-none rest seen plain in
    let content = whole.1.0 ∙ ap (λ t. seen ++ t) before in
    (
      ap some (
            finish-Holds limit (seen ++ (cut (bytes_of p)).0) bytes long h
            ∙ ap (line_of limit) (sym content))
          ∙ sym (first_line-some limit (seen ++ rest) (append-empty seen p.0 (p.1 ++ concat ps))),
      concat-unread r ps ∙ sym (ap after (whole.1.1 ∙ behind)),
    )

read_loop-ReadsOn :
    (limit : ℕ) (seen bytes : Bytes) (long : Bool) (ps : List Piece)
    → Holds limit seen bytes long
    → (cut seen).1 ≡ none
    → ReadsOn limit (seen ++ concat ps) (read_loop limit bytes long ps)
unfolding read_loop ReadsOn
read_loop-ReadsOn limit seen bytes long [] h plain =
    subst (λ t. ReadsOn limit t (read_loop limit bytes long [])) (sym (append_nil seen))
      (read_end-Holds limit seen bytes long h plain, sym (ap after plain))
read_loop-ReadsOn limit seen bytes long (p ∷ ps) h plain =
    let c = (cut (bytes_of p)).0 in
    let g = grow limit bytes long c in
    let holds = grow-Holds limit seen bytes c long h in
    let whole = seen ++ (bytes_of p ++ concat ps) in
    elim (Option-cases (cut (bytes_of p)).1) [
      | inl open_line ↦
          let same = (cut-append-none [] (bytes_of p) open_line).0 in
          let on =
            read_loop-ReadsOn limit (seen ++ bytes_of p) g.0 g.1 ps
              (subst (λ t. Holds limit (seen ++ t) g.0 g.1) same holds)
              ((cut-append-none (bytes_of p) seen plain).1.1 ∙ open_line) in
          subst
            (λ o. ReadsOn limit whole (by_newline limit g.0 g.1 ps o (read_loop limit g.0 g.1 ps)))
            (sym open_line)
            (subst (λ t. ReadsOn limit t (read_loop limit g.0 g.1 ps))
              (append_assoc seen (bytes_of p) (concat ps)) on)
      | inr (r, at) ↦
          subst
            (λ o. ReadsOn limit whole (by_newline limit g.0 g.1 ps o (read_loop limit g.0 g.1 ps)))
            (sym at) (line_end-ReadsOn limit seen g.0 g.1 p ps r holds plain at)
    ]

-- However the input is cut into pieces, the reader gives the first line of the whole input and
-- leaves what follows its newline: a line longer than the limit, or not UTF-8, is an error of its
-- own, and the next read starts at the next line; at the end of the input the last line needs no
-- newline, and an empty input has none.
pub read_request_line-first_line :
    (limit : ℕ) (ps : List Piece)
    → ((read_request_line limit ps).0 ≡ first_line limit (concat ps))
      × (concat (read_request_line limit ps).1 ≡ after (cut (concat ps)).1)
unfolding read_request_line
read_request_line-first_line limit ps =
    unfold ReadsOn Holds cut in read_loop-ReadsOn limit [] [] false ps (refl, omega arith) refl
