-- ===== src/Events/Prefix.antt =====
-- src/simplecc/registry.rs: what reaches the editor of what is sent to it.
use simplecc.Base.{
  ℕ, zero, suc, ◌+◌, ◌≡◌, refl, ap, ◌∙◌, sym, subst, Bool, true, false, ◌||◌, Option, none, some,
  List, [], ◌∷◌, ◌++◌, length, keep, get_elem?, length-keep-append, if◌then◌else◌, append_nil,
  append_assoc, ltb, arith,
}
use simplecc.Events.{
  EventTx, begin_send, taken_send, missed_send, aborted_send, try_send, mark_stalled, remove_at,
  stop_waiting, ended, push,
}
use simplecc.Events.Acts.{
  Act, begun, accepted, missed, aborted, trying, stalling, act, acts, begin-stalled, begin-open,
  try_send-stalled, try_send-open, mark-fields, get-none, get-some,
}

or_false : (b : Bool) → b || false ≡ b
or_false b = ground arith

or_true : (b : Bool) → b || true ≡ true
or_true b = ground arith

module _ {ℓ} {A : Type ℓ} where
  abbrev pub one : Option A → List A
  one none = []
  one (some line) = line ∷ []

  -- The line that an act offers, and the line that it leaves out.
  abbrev pub line_of : Act A → List A
  line_of (begun line) = line ∷ []
  line_of (accepted i) = []
  line_of (missed i) = []
  line_of (aborted i) = []
  line_of (trying taken line) = line ∷ []
  line_of stalling = []

  abbrev pub left_out_by : Bool → Act A → List A → List A
  left_out_by late (begun line) waiting = []
  left_out_by late (accepted i) waiting = []
  left_out_by late (missed i) waiting = one (get_elem? waiting i)
  left_out_by late (aborted i) waiting = one (get_elem? waiting i)
  left_out_by late (trying true line) waiting = []
  left_out_by late (trying false line) waiting = if late then [] else line ∷ []
  left_out_by late stalling waiting = []

  -- A send that waits misses its deadline, or the stall is marked.
  abbrev pub is_stall : Act A → List A → Bool
  is_stall (begun line) waiting = false
  is_stall (accepted i) waiting = false
  is_stall (missed i) waiting = ltb i (length waiting)
  is_stall (aborted i) waiting = false
  is_stall (trying taken line) waiting = false
  is_stall stalling waiting = true

  -- What is offered before the first stall, and what of it is left out, where `late` says that there
  -- was one.
  unfoldable pub offered : Bool → List (Act A) → EventTx A → List A
  offered late [] tx = []
  offered late (a ∷ later) tx =
      (if late then [] else line_of a) ++ offered (late || is_stall a tx.waiting) later (act a tx)

  unfoldable pub left_out : Bool → List (Act A) → EventTx A → List A
  left_out late [] tx = []
  left_out late (a ∷ later) tx =
      left_out_by late a tx.waiting ++ left_out (late || is_stall a tx.waiting) later (act a tx)

  abbrev pub count : (A → Bool) → List A → ℕ
  count p xs = length (keep p xs)

  count-remove :
      (p : A → Bool) (i : ℕ) (xs : List A)
      → count p xs ≡ count p (one (get_elem? xs i)) + count p (remove_at i xs)
  count-remove p i [] = refl
  count-remove p zero (x ∷ xs) = ground arith
  count-remove p (suc i) (x ∷ xs) = ground (arith, count-remove p i xs)

  -- What one act does.
  abbrev Accounts : Bool → Act A → EventTx A → EventTx A → Type ℓ
  Accounts late a tx next =
      (next.stalled ≡ (late || is_stall a tx.waiting))
      × ((more : List A) × ((next.sent ≡ tx.sent ++ more)
            × ((p : A → Bool)
                → count p more + count p next.waiting + count p (left_out_by late a tx.waiting)
                  ≡ count p tx.waiting + count p (if late then [] else line_of a))))

  ended-Accounts :
      (late : Bool) (a : Act A) (tx : EventTx A) (f : A → EventTx A) (o : Option A)
      → (o ≡ none → Accounts late a tx tx)
      → ((line : A) → o ≡ some line → Accounts late a tx (f line))
      → Accounts late a tx (ended o f tx)
  ended-Accounts late a tx f none nobody somebody = nobody refl
  ended-Accounts late a tx f (some line) nobody somebody = somebody line refl

  -- Nothing is sent, and nothing else may have moved.
  still :
      (late : Bool) (a : Act A) (tx next : EventTx A)
      → next.stalled ≡ (late || is_stall a tx.waiting)
      → next.sent ≡ tx.sent
      → ((p : A → Bool)
          → count p next.waiting + count p (left_out_by late a tx.waiting)
            ≡ count p tx.waiting + count p (if late then [] else line_of a))
      → Accounts late a tx next
  still late a tx next set same counts =
      (set, ([], (same ∙ sym (append_nil tx.sent), λ p. omega (arith, counts p))))

  act-Accounts :
      (late : Bool) (a : Act A) (tx : EventTx A) → tx.stalled ≡ late → Accounts late a tx (act a tx)
  unfolding act begin_send taken_send missed_send aborted_send try_send
  act-Accounts false (begun line) tx h =
      let next = record tx { waiting = tx.waiting ++ (line ∷ []) } in
      subst (Accounts false (begun line) tx) (sym (begin-open line tx h)) (
        still false (begun line) tx next h refl
          (λ p. omega (arith, length-keep-append p tx.waiting (line ∷ []))))
  act-Accounts true (begun line) tx h =
      subst (Accounts true (begun line) tx) (sym (begin-stalled line tx h))
        (still true (begun line) tx tx h refl (λ p. omega arith))
  act-Accounts late (accepted i) tx h =
      ended-Accounts late (accepted i) tx (λ line. push line (stop_waiting i tx)) _
        (λ e. still late (accepted i) tx tx (h ∙ sym (or_false late)) refl (λ p. ground arith))
        (λ line e. (
          h ∙ sym (or_false late),
          (
            line ∷ [],
            (refl, λ p. ground (arith, count-remove p i tx.waiting, ap (λ o. count p (one o)) e)),
          ),
        ))
  act-Accounts late (missed i) tx h =
      ended-Accounts late (missed i) tx (λ line. mark_stalled (stop_waiting i tx)) _
        (λ e.
          still late (missed i) tx tx (rw (get-none i tx.waiting e) (h ∙ sym (or_false late))) refl
            (λ p. ground (arith, ap (λ o. count p (one o)) e)))
        (λ line e.
          let (set, same, waits) = mark-fields (stop_waiting i tx) in
          still late (missed i) tx (mark_stalled (stop_waiting i tx))
            (rw (get-some i tx.waiting line e) (set ∙ sym (or_true late))) same
            (λ p. rw waits (ground (arith, count-remove p i tx.waiting))))
  act-Accounts late (aborted i) tx h =
      ended-Accounts late (aborted i) tx (λ line. stop_waiting i tx) _
        (λ e.
          still late (aborted i) tx tx (h ∙ sym (or_false late)) refl
            (λ p. ground (arith, ap (λ o. count p (one o)) e)))
        (λ line e.
          still late (aborted i) tx (stop_waiting i tx) (h ∙ sym (or_false late)) refl
            (λ p. ground (arith, count-remove p i tx.waiting)))
  act-Accounts true (trying taken line) tx h =
      subst (Accounts true (trying taken line) tx) (sym (try_send-stalled taken line tx h)) (
        still true (trying taken line) tx tx h refl (λ p.
          elim taken
            as (λ b.
              count p tx.waiting + count p (left_out_by true (trying b line) tx.waiting)
              ≡ count p tx.waiting + 0) [ true ↦ refl | false ↦ refl ]))
  act-Accounts false (trying true line) tx h =
      subst (Accounts false (trying true line) tx) (sym (try_send-open true line tx h))
        (h, (line ∷ [], (refl, λ p. omega arith)))
  act-Accounts false (trying false line) tx h =
      subst (Accounts false (trying false line) tx) (sym (try_send-open false line tx h))
        (still false (trying false line) tx tx h refl (λ p. omega arith))
  act-Accounts late stalling tx h =
      let (set, same, waits) = mark-fields tx in
      still late stalling tx (mark_stalled tx) (set ∙ sym (or_true late)) same
        (λ p. rw waits (ground arith))

  -- What the queue has taken stays, in its order, and what it takes next comes after it: lines that
  -- waited already, or that were offered before the first stall, be it a send that missed its
  -- deadline or a stall that is marked. Each such line is taken, waits still, or is left out, once
  -- for each time that it was offered; it is left out where a try is not taken at once, and where a
  -- send misses its deadline or its task is aborted. So a line that waits when a stall comes may
  -- still be taken, but none that is offered after the stall.
  pub acts-sent :
      (late : Bool) (xs : List (Act A)) (tx : EventTx A)
      → tx.stalled ≡ late
      → (more : List A) × (((acts xs tx).sent ≡ tx.sent ++ more)
          × ((p : A → Bool)
              → count p more + count p (acts xs tx).waiting + count p (left_out late xs tx)
                ≡ count p tx.waiting + count p (offered late xs tx)))
  unfolding acts offered left_out
  acts-sent late [] tx h = ([], (sym (append_nil tx.sent), λ p. omega arith))
  acts-sent late (a ∷ later) tx h =
      let next = act a tx in
      let (set, (m, (here, counts))) = act-Accounts late a tx h in
      let (ms, (there, rest)) = acts-sent (late || is_stall a tx.waiting) later next set in
      (
        m ++ ms,
        (
          there ∙ (ap (λ xs. xs ++ ms) here ∙ append_assoc tx.sent m ms),
          λ p. omega (
            arith,
            counts p,
            rest p,
            length-keep-append p m ms,
            length-keep-append p (if late then [] else line_of a)
                (offered (late || is_stall a tx.waiting) later next),
            length-keep-append p (left_out_by late a tx.waiting)
                (left_out (late || is_stall a tx.waiting) later next),
          ),
        ),
      )
