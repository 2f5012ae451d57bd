-- ===== src/Events/Wakeup.antt =====
-- src/simplecc/registry.rs: wait_stalled, which the reader of requests waits on, against the producers.
-- tokio's Notify stores one wake-up, and a wait takes it.
use simplecc.Base.{
  ◌≡◌, refl, sym, ◌∙◌, Option, none, some, subst, Bool, true, false, List, [], ◌∷◌, if◌then◌else◌,
  arith, Bool-cases, inl, inr,
}
use simplecc.Events.{
  EventTx, new, begin_send, taken_send, missed_send, aborted_send, try_send, mark_stalled,
  stop_waiting, ended,
}
use simplecc.Events.Acts.{Act, begun, accepted, missed, aborted, trying, stalling, act}

-- Where `wait_stalled` is: before the future is made, before the bit is read, at the await, or done.
pub data Waiter : Type 0 where
  fresh registered awaiting returned : Waiter

-- A wait is dropped where the loop of `serve` goes on with a line.
pub data Turn {ℓ} (A : Type ℓ) : Type ℓ where
  produce : Act A → Turn A
  wait drop_wait : Turn A

module _ {ℓ} {A : Type ℓ} where
  abbrev pub wait_step : EventTx A × Waiter → EventTx A × Waiter
  wait_step (tx, fresh) = (tx, registered)
  wait_step (tx, registered) = (tx, if tx.stalled then returned else awaiting)
  wait_step (tx, awaiting) =
      if tx.permit then (record tx { permit = false }, fresh) else (tx, awaiting)
  wait_step (tx, returned) = (tx, returned)

  unfoldable pub turn : Turn A → EventTx A × Waiter → EventTx A × Waiter
  unfolding act
  turn (produce a) (tx, p) = (act a tx, p)
  turn wait s = wait_step s
  turn drop_wait (tx, p) = (tx, fresh)

  unfoldable pub turns : List (Turn A) → EventTx A × Waiter → EventTx A × Waiter
  unfolding turn
  turns [] s = s
  turns (t ∷ ts) s = turns ts (turn t s)

  -- At the await a set bit has its wake-up stored, and a wait is done only with the bit set.
  abbrev Awake : EventTx A × Waiter → Type 0
  Awake (tx, fresh) = Unit
  Awake (tx, registered) = Unit
  Awake (tx, awaiting) = tx.stalled ≡ true → tx.permit ≡ true
  Awake (tx, returned) = tx.stalled ≡ true

  -- A set bit stays, with its wake-up; a bit that is set stores one.
  abbrev Marks : EventTx A → EventTx A → Type 0
  Marks tx next =
      (tx.stalled ≡ true → (next.stalled ≡ true) × (next.permit ≡ tx.permit))
      × (tx.stalled ≡ false → next.stalled ≡ true → next.permit ≡ true)

  ended-Marks :
      (o : Option A) (f : A → EventTx A) (tx : EventTx A)
      → ((line : A) → Marks tx (f line))
      → Marks tx (ended o f tx)
  ended-Marks none f tx marks = (λ h. (h, refl), λ h k. absurd (cc (h, k)))
  ended-Marks (some line) f tx marks = marks line

  act-Marks : (a : Act A) (tx : EventTx A) → Marks tx (act a tx)
  unfolding act begin_send taken_send missed_send aborted_send try_send mark_stalled
  act-Marks (begun line) tx =
      (λ h. (ground (arith, h), ground (arith, h)), λ h k. ground (arith, h, k))
  act-Marks (accepted i) tx =
      ended-Marks _ _ tx (λ line. (λ h. (h, refl), λ h k. absurd (cc (h, k))))
  act-Marks (missed i) tx =
      ended-Marks _ (λ line. mark_stalled (stop_waiting i tx)) tx
        (λ line. (λ h. (ground (arith, h), ground (arith, h)), λ h k. ground (arith, h, k)))
  act-Marks (aborted i) tx =
      ended-Marks _ _ tx (λ line. (λ h. (h, refl), λ h k. absurd (cc (h, k))))
  act-Marks (trying true line) tx =
      (λ h. (ground (arith, h), ground (arith, h)), λ h k. ground (arith, h, k))
  act-Marks (trying false line) tx =
      (λ h. (ground (arith, h), ground (arith, h)), λ h k. ground (arith, h, k))
  act-Marks stalling tx = (λ h. (ground (arith, h), ground (arith, h)), λ h k. ground (arith, h, k))

  act-Awake : (a : Act A) (tx : EventTx A) (p : Waiter) → Awake (tx, p) → Awake (act a tx, p)
  act-Awake a tx fresh h = tt
  act-Awake a tx registered h = tt
  act-Awake a tx awaiting h = elim (Bool-cases tx.stalled) [
    | inl set ↦ λ k. ((act-Marks a tx).0 set).1 ∙ h set
    | inr clear ↦ (act-Marks a tx).1 clear
  ]
  act-Awake a tx returned h = ((act-Marks a tx).0 h).0

  turn-Awake : (t : Turn A) (tx : EventTx A) (p : Waiter) → Awake (tx, p) → Awake (turn t (tx, p))
  unfolding turn
  turn-Awake (produce a) tx p h = act-Awake a tx p h
  turn-Awake drop_wait tx p h = tt
  turn-Awake wait tx fresh h = tt
  turn-Awake wait tx registered h = elim (Bool-cases tx.stalled) [
    | inl set ↦ subst (λ b. Awake (tx, if b then returned else awaiting)) (sym set) set
    | inr clear ↦
        subst (λ b. Awake (tx, if b then returned else awaiting)) (sym clear)
          (λ k. absurd (ground (arith, clear, k)))
  ]
  turn-Awake wait tx awaiting h =
      let woken =
        λ (b : Bool). Awake (if b then (record tx { permit = false }, fresh) else (tx, awaiting)) in
      elim (Bool-cases tx.permit) [
        | inl stored ↦ subst woken (sym stored) tt
        | inr none_left ↦ subst woken (sym none_left) h
      ]
  turn-Awake wait tx returned h = h

  turns-Awake : (ts : List (Turn A)) (s : EventTx A × Waiter) → Awake s → Awake (turns ts s)
  unfolding turns
  turns-Awake [] s h = h
  turns-Awake (t ∷ ts) (tx, p) h = turns-Awake ts (turn t (tx, p)) (turn-Awake t tx p h)

  Awake-returns :
      (tx : EventTx A) (p : Waiter)
      → Awake (tx, p)
      → tx.stalled ≡ true
      → (wait_step (wait_step (wait_step (tx, p)))).1 ≡ returned
  Awake-returns tx fresh h set = rw set refl
  Awake-returns tx registered h set = rw set refl
  Awake-returns tx awaiting h set = rw (h set, set) refl
  Awake-returns tx returned h set = refl

  -- Whatever the producers and the reader have done, in whatever order, once a send has missed its
  -- deadline or a stall is marked the wait for it is over after three of its own steps: the wake-up
  -- is never lost.
  pub wait_stalled-returns :
      (ts : List (Turn A))
      → (turns ts (new, fresh)).0.stalled ≡ true
      → (wait_step (wait_step (wait_step (turns ts (new, fresh))))).1 ≡ returned
  wait_stalled-returns ts set =
      let s = turns ts (new, fresh) in Awake-returns s.0 s.1 (turns-Awake ts (new, fresh) tt) set
