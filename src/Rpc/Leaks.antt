-- ===== src/Rpc/Leaks.antt =====
-- src/simplecc/lsp/client.rs: which senders and keys the calls own, an invariant of the steps on the state.
use simplecc.Base.{
  ℕ, ◌≤◌, ◌≡◌, ◌⊎◌, refl, String, Bool, true, false, ◌&&◌, Option, none, some, arith, ◌==◌, nat_key,
  string_key,
}
use simplecc.Rpc.{
  Response, open_channel, closed, answered, Outcome, registered, waiting, dropped, done, Task,
  Client, init, remove_pending, mark_dead, cancel_pending_request, clear_latest_request, end_task,
}
use simplecc.Rpc.Step.{do_register, deliver, abandon}
use simplecc.Rpc.Wire.{Points}

abbrev pub running : Option Task → Bool
running none = false
running (some t) = elim t.phase [
  | registered ↦ true
  | waiting ↦ true
  | dropped ↦ false
  | done o ↦ false
]

abbrev pub is_waiting : Option Task → Bool
is_waiting none = false
is_waiting (some t) = elim t.phase [
  | registered ↦ false
  | waiting ↦ true
  | dropped ↦ false
  | done o ↦ false
]

-- A call that has not come to its end, although it may have been dropped.
abbrev pub unfinished : Option Task → Bool
unfinished none = false
unfinished (some t) = elim t.phase [
  | registered ↦ true
  | waiting ↦ true
  | dropped ↦ true
  | done o ↦ false
]

-- A call that has submitted, and then waits or was dropped.
abbrev pub left_waiting : Option Task → Bool
left_waiting none = false
left_waiting (some t) = elim t.phase [
  | registered ↦ false
  | waiting ↦ true
  | dropped ↦ true
  | done o ↦ false
]

-- A call that has not come to its end, on an open channel: no response has come, and no other call
-- has dropped its sender.
abbrev pub parked : Option Task → Bool
parked none = false
parked (some t) =
    unfinished (some t)
    && (elim t.channel [ open_channel ↦ true | closed ↦ false | answered r ↦ false ])

abbrev pub has_key : Option (String × ℕ) → String → Bool
has_key none k = false
has_key (some (k', seq)) k = k' == k

abbrev pub keyed_by : Option Task → String → Bool
keyed_by none k = false
keyed_by (some t) k = has_key t.key k

-- A call whose request has not been submitted.
abbrev pub is_registered : Option Task → Bool
is_registered none = false
is_registered (some t) = elim t.phase [
  | registered ↦ true
  | waiting ↦ false
  | dropped ↦ false
  | done o ↦ false
]

-- `i` is a call that submits, whose key need not be waiting yet.
pub record LeakInv (exempt : ℕ → Bool) (s : Client) : Type 0 where
  pub fresh : (j : ℕ) → s.next_id ≤ j → (s.tasks j ≡ none) × (s.pending j ≡ false)
  pub owned : (j : ℕ) → s.pending j ≡ true → parked (s.tasks j) ≡ true
  pub dead : (j : ℕ) → s.alive ≡ false → s.pending j ≡ true → is_waiting (s.tasks j) ≡ false
  pub served : (j : ℕ) → parked (s.tasks j) ≡ true → s.pending j ≡ true
  pub held :
      (k : String) (j : ℕ)
      → Points (s.latest k) j
      → (keyed_by (s.tasks j) k ≡ true) × ((left_waiting (s.tasks j) ≡ true) ⊎ (exempt j ≡ true))

abbrev pub nobody : ℕ → Bool
nobody j = false

pub LeakInv-init : LeakInv nobody init
LeakInv-init = record {
  fresh = λ j h. (refl, refl);
  owned = λ j h. cc;
  dead = λ j h p. cc;
  served = λ j h. cc;
  held = λ k j h. absurd h;
}

pub do_register-LeakInv :
    (s : Client) (key : Option (String × ℕ)) (late : Bool)
    → LeakInv nobody s
    → LeakInv nobody (do_register key late s)
unfolding do_register
do_register-LeakInv s key late v = record {
  fresh = λ j h. ground (arith, v.fresh j);
  owned = λ j h. ground (arith, v.owned j);
  dead = λ j h p. ground (arith, v.dead j);
  served = λ j h. ground (arith, v.served j);
  held = λ k j h. ground (arith, v.held k j, v.fresh s.next_id);
}

module _ (exempt : ℕ → Bool) (s : Client) (i : ℕ) (v : LeakInv exempt s) where
  pub mark_dead-LeakInv : LeakInv exempt (mark_dead s)
  unfolding mark_dead
  mark_dead-LeakInv = record {
    fresh = λ j h. ground (arith, v.fresh j);
    owned = λ j h. cc;
    dead = λ j h p. cc;
    served = λ j h. ground (arith, v.served j);
    held = λ k j h. ground (arith, v.held k j);
  }

  pub deliver-LeakInv : (r : Response) → LeakInv exempt (deliver i r s)
  unfolding deliver
  deliver-LeakInv r = record {
    fresh = λ j h. ground (arith, v.fresh j);
    owned = λ j h. ground (arith, v.owned j);
    dead = λ j h p. ground (arith, v.dead j);
    served = λ j h. ground (arith, v.served j);
    held = λ k j h. ground (arith, v.held k j);
  }

  pub cancel-LeakInv : (accepts : Bool) → LeakInv exempt (cancel_pending_request accepts i s)
  unfolding cancel_pending_request mark_dead
  cancel-LeakInv accepts = record {
    fresh = λ j h. ground (arith, v.fresh j);
    owned = λ j h. ground (arith, v.owned j);
    dead = λ j h p. ground (arith, v.dead j);
    served = λ j h. ground (arith, v.served j);
    held = λ k j h. ground (arith, v.held k j);
  }

  pub remove_pending-LeakInv : LeakInv exempt (remove_pending i s)
  unfolding remove_pending
  remove_pending-LeakInv = record {
    fresh = λ j h. ground (arith, v.fresh j);
    owned = λ j h. ground (arith, v.owned j);
    dead = λ j h p. ground (arith, v.dead j);
    served = λ j h. ground (arith, v.served j);
    held = λ k j h. ground (arith, v.held k j);
  }

  pub abandon-LeakInv :
      (u : Task) → s.tasks i ≡ some u → running (some u) ≡ true → LeakInv exempt (abandon i s)
  unfolding abandon
  abandon-LeakInv u at runs = record {
    fresh = λ j h. ground (arith, v.fresh j);
    owned = λ j h. ground (arith, v.owned j, at, runs);
    dead = λ j h p. ground (arith, v.dead j);
    served = λ j h. ground (arith, v.served j, at, runs);
    held = λ k j h. ground (arith, v.held k j, at, runs);
  }

  pub clear_latest-LeakInv : (k : String) → LeakInv exempt (clear_latest_request k i s).0
  unfolding clear_latest_request
  clear_latest-LeakInv k = record {
    fresh = λ j h. ground (arith, v.fresh j);
    owned = λ j h. ground (arith, v.owned j);
    dead = λ j h p. ground (arith, v.dead j);
    served = λ j h. ground (arith, v.served j);
    held = λ k' j h. ground (arith, v.held k' j);
  }

  -- A call may end once its sender is gone and no key points at it.
  pub end_task-LeakInv :
      (o : Outcome)
      → s.pending i ≡ false
      → ((k : String) → ¬ Points (s.latest k) i)
      → LeakInv exempt (end_task i o s)
  unfolding end_task
  end_task-LeakInv o gone free = record {
    fresh = λ j h. ground (arith, v.fresh j);
    owned = λ j h. ground (arith, v.owned j);
    dead = λ j h p. ground (arith, v.dead j);
    served = λ j h. ground (arith, v.served j);
    held = λ k j h. ground (arith, v.held k j, free k);
  }
