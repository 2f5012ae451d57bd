-- ===== src/Frames/Header.antt =====
-- src/simplecc/lsp/transport.rs: a header line is read the same however the input is cut.
use simplecc.Base.{
  append_nil, append_assoc, ltb→ge, ℕ, ◌+◌, ◌≤◌, ◌<◌, ◌≡◌, refl, sym, subst, ap, ap₂, ◌∙◌, inl, inr,
  Bool-cases, Option-cases, Option, none, some, List, [], ◌∷◌, ◌++◌, length, length-append, ltb,
  arith,
}
use simplecc.Frames.{with_newline, line_end, header_loop, read_limited_header_line}
use simplecc.Lines.{Bytes, Piece, bytes_of, concat, cut, unread}
use simplecc.Lines.Pieces.{after, cut-append-none, cut-append-some, concat-unread}

-- The first line of an input with its newline.
abbrev pub through : Bytes → Bytes
through whole = with_newline (cut whole)

-- What a read of the whole input is.
abbrev pub ReadsHeader : ℕ → Bytes → Option Bytes × List Piece → Type 0
ReadsHeader limit whole (line, left) =
    (length (through whole) ≤ limit
      → (line ≡ some (through whole)) × (concat left ≡ after (cut whole).1))
    × (limit < length (through whole) → line ≡ none)

with_newline-append :
    (seen c : Bytes) (o : Option Bytes) → with_newline (seen ++ c, o) ≡ seen ++ with_newline (c, o)
with_newline-append seen c none = refl
with_newline-append seen c (some r) = append_assoc seen c (10 ∷ [])

-- A line goes on after a beginning without a newline.
pub through-append :
    (seen q : Bytes) → (cut seen).1 ≡ none → through (seen ++ q) ≡ seen ++ through q
through-append seen q plain =
    let (e, (x, y)) = cut-append-none q seen plain in
    ap with_newline (ap₂ (λ a b. (a, b)) x y) ∙ with_newline-append seen (cut q).0 (cut q).1

through-first : (p q r : Bytes) → (cut p).1 ≡ some r → through (p ++ q) ≡ through p
through-first p q r at =
    let (x, y) = cut-append-some q p r at in
    ap with_newline (ap₂ (λ a b. (a, b)) x y) ∙ ap (λ o. with_newline ((cut p).0, o)) (sym at)

through-open : (p : Bytes) → (cut p).1 ≡ none → through p ≡ p
through-open p plain = ap with_newline (ap₂ (λ a b. (a, b)) (cut-append-none [] p plain).0 plain)

through-longer : (p q : Bytes) → length (through p) ≤ length (through (p ++ q))
through-longer p q = elim (Option-cases (cut p).1) [
  | inl plain ↦
      let e = ap length (through-append p q plain) ∙ length-append p (through q) in
      let f = ap length (through-open p plain) in omega (arith, e, f)
  | inr (r, at) ↦ let e = ap length (through-first p q r at) in omega (arith, e)
]

-- The piece with the newline ends the line.
line_end-ReadsHeader :
    (limit : ℕ) (seen : Bytes) (p : Piece) (ps : List Piece) (r : Bytes)
    → (cut seen).1 ≡ none
    → (cut (bytes_of p)).1 ≡ some r
    → length seen + length (through (bytes_of p)) ≤ limit
    → ReadsHeader limit
        (seen ++ (bytes_of p ++ concat ps))
        (some (seen ++ through (bytes_of p)), unread r ps)
line_end-ReadsHeader limit seen p ps r plain at fits =
    let rest = bytes_of p ++ concat ps in
    let whole =
      through-append seen rest plain
      ∙ ap (λ t. seen ++ t) (through-first (bytes_of p) (concat ps) r at) in
    let behind =
      (cut-append-none rest seen plain).1.1 ∙ (cut-append-some (concat ps) (bytes_of p) r at).1 in
    let size = ap length whole ∙ length-append seen (through (bytes_of p)) in
    (
      λ h. (ap some (sym whole), concat-unread r ps ∙ sym (ap after behind)),
      λ h. absurd (omega (arith, h, size, fits)),
    )

too_long-ReadsHeader :
    (limit : ℕ) (seen : Bytes) (p : Piece) (ps : List Piece)
    → (cut seen).1 ≡ none
    → limit < length seen + length (through (bytes_of p))
    → ReadsHeader limit (seen ++ (bytes_of p ++ concat ps)) (none, p ∷ ps)
too_long-ReadsHeader limit seen p ps plain far =
    let rest = bytes_of p ++ concat ps in
    let size = ap length (through-append seen rest plain) ∙ length-append seen (through rest) in
    let more = through-longer (bytes_of p) (concat ps) in
    (λ h. absurd (omega (arith, h, size, more, far)), λ h. refl)

header_loop-ReadsHeader :
    (limit : ℕ) (seen : Bytes) (ps : List Piece)
    → (cut seen).1 ≡ none
    → length seen ≤ limit
    → ReadsHeader limit (seen ++ concat ps) (header_loop limit seen ps)
unfolding header_loop
header_loop-ReadsHeader limit seen [] plain fits =
    let whole = through-open seen plain in
    let size = ap length whole in
    subst (λ t. ReadsHeader limit t (some seen, [])) (sym (append_nil seen))
      (λ h. (ap some (sym whole), sym (ap after plain)), λ h. absurd (omega (arith, h, size, fits)))
header_loop-ReadsHeader limit seen (p ∷ ps) plain fits =
    let taken = through (bytes_of p) in
    let whole = seen ++ (bytes_of p ++ concat ps) in
    let later = header_loop limit (seen ++ taken) ps in
    elim (Bool-cases (ltb limit (length seen + length taken))) [
      | inl far ↦ rw far (too_long-ReadsHeader limit seen p ps plain (ground (arith, far)))
      | inr near ↦ rw near (elim (Option-cases (cut (bytes_of p)).1) [
        | inl open_line ↦
            let same = through-open (bytes_of p) open_line in
            let on =
              header_loop-ReadsHeader limit (seen ++ bytes_of p) ps
                ((cut-append-none (bytes_of p) seen plain).1.1 ∙ open_line)
                (omega (
                  arith,
                  ltb→ge limit (length seen + length taken) near,
                  ap length same,
                  length-append seen (bytes_of p),
                )) in
            subst (λ o. ReadsHeader limit whole (line_end (seen ++ taken) ps o later))
              (sym open_line)
              (subst (λ t. ReadsHeader limit whole (header_loop limit (seen ++ t) ps)) (sym same)
                (subst (λ t. ReadsHeader limit t (header_loop limit (seen ++ bytes_of p) ps))
                  (append_assoc seen (bytes_of p) (concat ps)) on))
        | inr (r, at) ↦
            subst (λ o. ReadsHeader limit whole (line_end (seen ++ taken) ps o later)) (sym at)
              (line_end-ReadsHeader limit seen p ps r plain at (ground (arith, near)))
      ])
    ]

-- However the input is cut into pieces, a header line of at most the limit, its newline included, is
-- read whole and what follows it is left, and a longer one is an error, also when its newline never
-- comes; at the end of the input the line is what is left.
pub read_header-ReadsHeader :
    (limit : ℕ) (ps : List Piece)
    → ReadsHeader limit (concat ps) (read_limited_header_line limit ps)
unfolding read_limited_header_line cut
read_header-ReadsHeader limit ps = header_loop-ReadsHeader limit [] ps refl (omega arith)
