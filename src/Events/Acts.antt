-- ===== src/Events/Acts.antt =====
-- src/simplecc/registry.rs: the acts of those who send to the editor, as steps on EventTx.
use simplecc.Base.{
  ℕ, zero, suc, ◌≡◌, refl, ap, ◌∙◌, Bool, Bool-cases, inl, inr, true, false, none, some, List, [],
  ◌∷◌, ◌++◌, length, get_elem?, if◌then◌else◌, ltb, arith,
}
use simplecc.Events.{
  EventTx, begin_send, taken_send, missed_send, aborted_send, try_send, mark_stalled, push,
}

-- What the producers do: a send begins; the line of one that waits is taken, or it misses its
-- deadline, or its task is aborted; a line is taken at once or not at all; and a stall that the
-- daemon marks by itself.
pub data Act {ℓ} (A : Type ℓ) : Type ℓ where
  begun : A → Act A
  accepted missed aborted : ℕ → Act A
  trying : (taken : Bool) → A → Act A
  stalling : Act A

module _ {ℓ} {A : Type ℓ} where
  unfoldable pub act : Act A → EventTx A → EventTx A
  unfolding begin_send taken_send missed_send aborted_send try_send mark_stalled
  act (begun line) tx = begin_send line tx
  act (accepted i) tx = taken_send i tx
  act (missed i) tx = missed_send i tx
  act (aborted i) tx = aborted_send i tx
  act (trying taken line) tx = (try_send taken line tx).0
  act stalling tx = mark_stalled tx

  unfoldable pub acts : List (Act A) → EventTx A → EventTx A
  unfolding act
  acts [] tx = tx
  acts (a ∷ later) tx = acts later (act a tx)

  pub begin-stalled : (line : A) (tx : EventTx A) → tx.stalled ≡ true → begin_send line tx ≡ tx
  unfolding begin_send
  begin-stalled line tx h = rw h refl

  pub begin-open :
      (line : A) (tx : EventTx A)
      → tx.stalled ≡ false
      → begin_send line tx ≡ record tx { waiting = tx.waiting ++ (line ∷ []) }
  unfolding begin_send
  begin-open line tx h = rw h refl

  pub try_send-stalled :
      (taken : Bool) (line : A) (tx : EventTx A)
      → tx.stalled ≡ true
      → (try_send taken line tx).0 ≡ tx
  unfolding try_send
  try_send-stalled taken line tx h = rw h refl

  pub try_send-open :
      (taken : Bool) (line : A) (tx : EventTx A)
      → tx.stalled ≡ false
      → (try_send taken line tx).0 ≡ (if taken then push line tx else tx)
  unfolding try_send
  try_send-open true line tx h = rw h refl
  try_send-open false line tx h = rw h refl

  pub mark-stalled : (tx : EventTx A) → tx.stalled ≡ true → mark_stalled tx ≡ tx
  unfolding mark_stalled
  mark-stalled tx h = rw h refl

  mark-open :
      (tx : EventTx A)
      → tx.stalled ≡ false
      → mark_stalled tx ≡ record tx { stalled = true; permit = true }
  unfolding mark_stalled
  mark-open tx h = rw h refl

  pub mark-fields :
      (tx : EventTx A)
      → ((mark_stalled tx).stalled ≡ true)
        × ((mark_stalled tx).sent ≡ tx.sent)
        × ((mark_stalled tx).waiting ≡ tx.waiting)
  mark-fields tx = elim (Bool-cases tx.stalled) [
    | inl set ↦
        let e = mark-stalled tx set in
        (ap (λ t. t.stalled) e ∙ set, ap (λ t. t.sent) e, ap (λ t. t.waiting) e)
    | inr clear ↦
        let e = mark-open tx clear in
        (ap (λ t. t.stalled) e, ap (λ t. t.sent) e, ap (λ t. t.waiting) e)
  ]

  pub get-none : (i : ℕ) (xs : List A) → get_elem? xs i ≡ none → ltb i (length xs) ≡ false
  get-none i [] h = ground arith
  get-none zero (x ∷ xs) h = absurd (cc h)
  get-none (suc i) (x ∷ xs) h = ground (arith, get-none i xs h)

  pub get-some :
      (i : ℕ) (xs : List A) (line : A) → get_elem? xs i ≡ some line → ltb i (length xs) ≡ true
  get-some i [] line h = absurd (cc h)
  get-some zero (x ∷ xs) line h = ground arith
  get-some (suc i) (x ∷ xs) line h = ground (arith, get-some i xs line h)
