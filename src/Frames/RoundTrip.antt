-- ===== src/Frames/RoundTrip.antt =====
-- src/simplecc/lsp/transport.rs: what `send` writes, read_loop reads, however the bytes come.
use simplecc.Base.{
  ℕ, zero, suc, ◌+◌, ◌≤◌, ◌<◌, ◌≡◌, refl, sym, ap, ◌∙◌, true, false, none, some, List, [], ◌∷◌,
  ◌++◌, length, drop, Result, ok, arith, append_assoc, append_nil, length-append,
}
use simplecc.Lines.{Bytes, Piece, concat, unread}
use simplecc.Lines.Pieces.{concat-unread}
use simplecc.Frames.{read_limited_header_line, header_loop}
use simplecc.Frames.Stream.{
  max_header_bytes, max_content_length, frame, read_headers, cons_byte, read_exact, closed,
  read_body, read_loop, read_stream, by_headers, take_body, deliver, LspTransport, send,
  end_of_stream,
}
use simplecc.Frames.Framed.{read-headers}

abbrev first_byte : Bytes → ℕ
first_byte [] = 0
first_byte (b ∷ bs) = b

-- `read_exact`, where the bytes are there.
read_exact-here :
    (body rest : Bytes) (ps : List Piece)
    → concat ps ≡ body ++ rest
    → (left : List Piece) × (read_exact (length body) ps ≡ some (body, left)) × (concat left ≡ rest)
unfolding read_exact
read_exact-here [] rest ps whole = (ps, refl, whole)
read_exact-here (b ∷ body) rest [] whole = absurd (ground (arith, ap length whole))
read_exact-here (b ∷ body) rest ((c, cs) ∷ ps) whole =
    let same : c ≡ b = ap first_byte whole in
    let (left, read, later) =
      read_exact-here body rest (unread cs ps) (concat-unread cs ps ∙ ap (drop 1) whole) in
    (left, ap (cons_byte c) read ∙ ap (λ x. some (x ∷ body, left)) same, later)

-- The messages that a client sends over an open transport.
unfoldable pub send_all : {V : Type 0} → (V → Bytes) → List V → LspTransport → LspTransport
unfolding send
send_all to_string [] t = t
send_all to_string (m ∷ ms) t = send_all to_string ms (send to_string none m t).1

abbrev pub frames : {V : Type 0} → (V → Bytes) → List V → Bytes
frames to_string [] = []
frames to_string (m ∷ ms) = frame (to_string m) ++ frames to_string ms

abbrev pub AllFit : {V : Type 0} → (V → Bytes) → List V → Type 0
AllFit to_string [] = Unit
AllFit to_string (m ∷ ms) = (length (to_string m) ≤ max_content_length) × AllFit to_string ms

one_send :
    {V : Type 0} (to_string : V → Bytes) (m : V) (t : LspTransport)
    → t.terminated ≡ false
    → t.writer ≡ true
    → (send to_string none m t).1 ≡ record t { written = t.written ++ frame (to_string m) }
unfolding send
one_send to_string m t running open_pipe = simp (running, open_pipe)

sent_bytes :
    {V : Type 0} (to_string : V → Bytes) (ms : List V) (t : LspTransport)
    → t.terminated ≡ false
    → t.writer ≡ true
    → (send_all to_string ms t).written ≡ t.written ++ frames to_string ms
unfolding send_all send
sent_bytes to_string [] t running open_pipe = sym (append_nil t.written)
sent_bytes to_string (m ∷ ms) t running open_pipe =
    let next = record t { written = t.written ++ frame (to_string m) } in
    ap (λ u. (send_all to_string ms u).written) (one_send to_string m t running open_pipe)
    ∙ sent_bytes to_string ms next running open_pipe
    ∙ append_assoc t.written (frame (to_string m)) (frames to_string ms)

-- At the end of the bytes there is no header.
read-end :
    (ps : List Piece)
    → concat ps ≡ []
    → read_headers (max_header_bytes + 1) 0 none ps ≡ (end_of_stream, [])
unfolding read_headers read_limited_header_line header_loop
read-end [] whole = refl
read-end ((b, bs) ∷ ps) whole = absurd (ground (arith, ap length whole))

read-frames :
    {V : Type 0} (to_string : V → Bytes) (from_slice : Bytes → Result V)
    → ((m : V) → from_slice (to_string m) ≡ ok m)
    → (ms : List V) (fuel k : ℕ) (ps : List Piece) → AllFit to_string ms
    → length ms < fuel
    → concat ps ≡ frames to_string ms
    → read_loop from_slice (λ i. true) fuel k ps ≡ (ms, closed)
unfolding read_loop
read-frames to_string from_slice reads ms zero k ps fit enough whole =
    absurd (omega (arith, enough))
read-frames to_string from_slice reads [] (suc fuel) k ps fit enough whole =
    ap
      (λ h.
        by_headers from_slice true h (λ left. read_loop from_slice (λ i. true) fuel (k + 1) left))
      (read-end ps whole)
read-frames to_string from_slice reads (m ∷ ms) (suc fuel) k ps (small, fit) enough whole =
    let next = λ (l : List Piece). read_loop from_slice (λ i. true) fuel (k + 1) l in
    let (left, head, body) = read-headers (to_string m) (frames to_string ms) ps small whole in
    let (left', taken, later) = read_exact-here (to_string m) (frames to_string ms) left body in
    ap (λ h. by_headers from_slice true h next) head
    ∙ ap (λ b. read_body from_slice true b next) taken
    ∙ ap (λ r. take_body true r (next left')) (reads m)
    ∙ ap (deliver m true) (
        read-frames to_string from_slice reads ms fuel (k + 1) left' fit (omega (arith, enough))
          later)

-- A message takes a byte.
length-frames :
    {V : Type 0} (to_string : V → Bytes) (ms : List V) → length ms ≤ length (frames to_string ms)
unfolding frame
length-frames to_string [] = omega arith
length-frames to_string (m ∷ ms) =
    omega
      (arith, length-append (frame (to_string m)) (frames to_string ms), length-frames to_string ms)

-- Whatever a client sends over an open transport on which nothing was sent yet, read_loop at the other
-- end delivers these messages, in their order, and ends at the end of the stream, however the
-- bytes are cut into pieces; where serde_json reads back what it prints, a body is within the
-- limit of its length, and the receiver takes every message.
pub read_stream-sent :
    {V : Type 0} (to_string : V → Bytes) (from_slice : Bytes → Result V)
    → ((m : V) → from_slice (to_string m) ≡ ok m)
    → (ms : List V) (t : LspTransport) (ps : List Piece) → AllFit to_string ms
    → t.terminated ≡ false
    → t.writer ≡ true
    → t.written ≡ []
    → concat ps ≡ (send_all to_string ms t).written
    → read_stream from_slice (λ i. true) ps ≡ (ms, closed)
read_stream-sent to_string from_slice reads ms t ps fit running open_pipe unused same =
    let whole : concat ps ≡ frames to_string ms =
      same
      ∙ sent_bytes to_string ms t running open_pipe
      ∙ ap (λ w. w ++ frames to_string ms) unused in
    read-frames to_string from_slice reads ms (length (concat ps) + 1) 0 ps fit
      (omega (arith, ap length whole, length-frames to_string ms)) whole
