-- ===== src/Events.antt =====
-- src/simplecc/registry.rs: EventTx, the ordered path of the daemon's events to the editor. Whether
-- and when the bounded queue takes a line is what a send meets. The two writes of mark_stalled, of
-- the bit and of the wake-up, are one step here.
pub mod Acts
pub mod Prefix
pub mod Wakeup
pub mod Tests
use simplecc.Base.{
  ℕ, zero, suc, Bool, true, false, Option, none, some, List, [], ◌∷◌, ◌++◌, get_elem?,
  if◌then◌else◌,
}

-- `sent` is what the queue has taken, in its order, and `waiting` are the lines of the sends that
-- are at their await; `permit` says that a wake-up is stored.
pub record EventTx {ℓ} (A : Type ℓ) : Type ℓ where
  pub stalled : Bool
  pub permit : Bool
  pub waiting : List A
  pub sent : List A

module _ {ℓ} {A : Type ℓ} where
  abbrev pub new : EventTx A
  new = record { stalled = false; permit = false; waiting = []; sent = [] }

  -- The first to set the bit stores a wake-up.
  unfoldable pub mark_stalled : EventTx A → EventTx A
  mark_stalled tx = if tx.stalled then tx else record tx { stalled = true; permit = true }

  abbrev pub push : A → EventTx A → EventTx A
  push line tx = record tx { sent = tx.sent ++ (line ∷ []) }

  -- A send up to its await.
  unfoldable pub begin_send : A → EventTx A → EventTx A
  begin_send line tx = if tx.stalled then tx else record tx { waiting = tx.waiting ++ (line ∷ []) }

  abbrev pub remove_at : ℕ → List A → List A
  remove_at i [] = []
  remove_at zero (x ∷ xs) = xs
  remove_at (suc i) (x ∷ xs) = x ∷ remove_at i xs

  abbrev pub stop_waiting : ℕ → EventTx A → EventTx A
  stop_waiting i tx = record tx { waiting = remove_at i tx.waiting }

  abbrev pub ended : Option A → (A → EventTx A) → EventTx A → EventTx A
  ended none f tx = tx
  ended (some line) f tx = f line

  -- The queue takes a line that waits, whatever has become of the bit since its send began.
  unfoldable pub taken_send : ℕ → EventTx A → EventTx A
  taken_send i tx = ended (get_elem? tx.waiting i) (λ line. push line (stop_waiting i tx)) tx

  -- A send misses its deadline.
  unfoldable pub missed_send : ℕ → EventTx A → EventTx A
  unfolding mark_stalled
  missed_send i tx = ended (get_elem? tx.waiting i) (λ line. mark_stalled (stop_waiting i tx)) tx

  -- Its task is aborted.
  unfoldable pub aborted_send : ℕ → EventTx A → EventTx A
  aborted_send i tx = ended (get_elem? tx.waiting i) (λ line. stop_waiting i tx) tx

  -- A send during whose await no other producer acts. The result says whether the line was taken.
  unfoldable pub send : Bool → A → EventTx A → EventTx A × Bool
  unfolding mark_stalled
  send taken line tx =
      if tx.stalled
      then (tx, false)
      else if taken
      then (push line tx, true)
      else (mark_stalled tx, false)

  unfoldable pub try_send : Bool → A → EventTx A → EventTx A × Bool
  try_send taken line tx =
      if tx.stalled then (tx, false) else if taken then (push line tx, true) else (tx, false)
