-- ===== src/Rpc/Latest.antt =====
-- src/simplecc/lsp/client.rs: of the calls with one key, only the newest brings a result.
use simplecc.Base.{
  ap, sym, subst, nat_same_iff, Bool-cases, inl, inr, ℕ, ◌≡◌, String, Bool, true, false, ◌&&◌,
  Option, none, some, List, arith, ◌==◌, nat_key, string_key, eq_iff,
}
use simplecc.Rpc.{
  Response, Channel, open_channel, closed, answered, superseded, errored, resolved, Outcome,
  registered, waiting, dropped, done, Task, request, Client, update_key, remove_pending, mark_dead,
  send_message, cancel_pending_request, clear_latest_request, end_task,
}
use simplecc.Rpc.Leaks.{has_key, LeakInv, nobody, keyed_by}
use simplecc.Rpc.Phases.{if_registered-keeps, if_waiting-keeps, run-keeps}
use simplecc.Rpc.Settled.{step-LeakInv}
use simplecc.Rpc.Step.{
  Event, register, submit, respond, disconnect, finish, time_out, drop_call, refuse, abandon,
  refuse_call, if_waiting, step, run, do_register, submit_call, submit_latest, wait_or_fail,
  cancel_previous, drop_failed, deliver, finish_call, conclude, time_out_call, newer_than,
  outcome_of,
}
use simplecc.Rpc.Wire.{Points}

-- A call with key `k` that was submitted, and that has not been given a result.
abbrev pub barren : Option Task → String → Bool
barren none k = false
barren (some t) k = keyed_by (some t) k && (elim t.phase [
  | registered ↦ false
  | waiting ↦ true
  | dropped ↦ true
  | done o ↦ elim o [ superseded ↦ true | errored ↦ true | resolved v ↦ false ]
])

-- The call has lost its key and has no result.
abbrev pub Lost : String → ℕ → Client → Type 0
Lost k i s = (barren (s.tasks i) k ≡ true) × (¬ Points (s.latest k) i)

module _ (k : String) (i : ℕ) where
  register-Lost :
      (key : Option (String × ℕ)) (late : Bool) (s : Client)
      → LeakInv nobody s
      → Lost k i s
      → Lost k i (do_register key late s)
  unfolding do_register
  register-Lost key late s v (b, l) = ground (arith, v.fresh i)

  respond-Lost : (j : ℕ) (s : Client) → (r : Response) → Lost k i s → Lost k i (deliver j r s)
  unfolding deliver
  respond-Lost j s r (b, l) = ground arith

  disconnect-Lost : (s : Client) → Lost k i s → Lost k i (mark_dead s)
  unfolding mark_dead
  disconnect-Lost s (b, l) = ground arith

  drop-Lost :
      (j : ℕ) (s : Client) → Lost k i s → (a : Bool) → Lost k i (cancel_pending_request a j s)
  unfolding cancel_pending_request mark_dead
  drop-Lost j s (b, l) a = ground arith

  drop_sender-Lost : (j : ℕ) (s : Client) → Lost k i s → Lost k i (remove_pending j s)
  unfolding remove_pending
  drop_sender-Lost j s (b, l) = ground arith

  conclude-Lost :
      (j : ℕ) (s : Client)
      → (j == i) ≡ false
      → Lost k i s
      → (key : Option (String × ℕ)) (o : Outcome) → Lost k i (conclude key j o s)
  unfolding conclude end_task clear_latest_request
  conclude-Lost j s other (b, l) none o = ground arith
  conclude-Lost j s other (b, l) (some (k', seq)) o = ground arith

  module _ (j : ℕ) (s : Client) (other : (j == i) ≡ false) (w : Lost k i s) where
    send-Lost : (accepts : Bool) → Lost k i (wait_or_fail j (send_message accepts (request j) s))
    unfolding wait_or_fail send_message
    send-Lost accepts = let (b, l) = w in ground arith

    send_keyed-Lost :
        (k' : String) (accepts : Bool)
        → Lost k i (wait_or_fail j (drop_failed k' j (send_message accepts (request j) s)))
    unfolding wait_or_fail send_message drop_failed
    send_keyed-Lost k' accepts = let (b, l) = w in ground arith

    finish_other-Lost : (c : Channel) (key : Option (String × ℕ)) → Lost k i (finish_call c key j s)
    unfolding finish_call
    finish_other-Lost open_channel key = w
    finish_other-Lost (answered r) key = conclude-Lost j s other w key (outcome_of r)
    finish_other-Lost closed key =
        conclude-Lost j (remove_pending j s) other (drop_sender-Lost j s w) key errored

    supersede-Lost : Lost k i (end_task j superseded (remove_pending j s))
    unfolding remove_pending end_task
    supersede-Lost = let (b, l) = w in ground arith

    pub hold-Lost :
        (k' : String) (seq : ℕ)
        → Lost k i (record s { latest = update_key s.latest k' (some (seq, j)) })
    hold-Lost k' seq = let (b, l) = w in ground arith

    time_out-Lost : (key : Option (String × ℕ)) (a : Bool) → Lost k i (time_out_call key j a s)
    unfolding time_out_call cancel_pending_request mark_dead end_task clear_latest_request
    time_out-Lost none a = let (b, l) = w in ground arith
    time_out-Lost (some (k', seq)) a = let (b, l) = w in ground arith

  pub previous-Lost :
      (j : ℕ) (s : Client)
      → (j == i) ≡ false
      → Lost k i s
      → (k' : String) (a accepts : Bool) (previous : Option (ℕ × ℕ))
      → Lost k i (
          wait_or_fail j
            (drop_failed k' j (send_message accepts (request j) (cancel_previous a previous s))))
  unfolding cancel_previous
  previous-Lost j s other w k' a accepts none = send_keyed-Lost j s other w k' accepts
  previous-Lost j s other w k' a accepts (some (n, p)) =
      send_keyed-Lost j (cancel_pending_request a p s) other (drop-Lost p s w a) k' accepts

  submit-Lost :
      (j : ℕ) (s : Client)
      → (j == i) ≡ false
      → Lost k i s
      → (key : Option (String × ℕ)) (a accepts : Bool) → Lost k i (submit_call key j a accepts s)
  unfolding submit_call submit_latest
  submit-Lost j s other w none a accepts = send-Lost j s other w accepts
  submit-Lost j s other w (some (k', seq)) a accepts =
      elim (Bool-cases (newer_than (s.latest k') seq)) [
        | inl stale ↦ rw stale (supersede-Lost j s other w)
        | inr newest ↦ rw newest (
            previous-Lost j (record s { latest = update_key s.latest k' (some (seq, j)) }) other
              (hold-Lost j s other w k' seq) k' a accepts (s.latest k'))
      ]

  -- The call itself goes on: its key is not its own any more.
  conclude_self-Lost :
      (seq : ℕ) (o : Outcome) (s : Client) → Lost k i s → Lost k i (conclude (some (k, seq)) i o s)
  unfolding conclude end_task clear_latest_request
  conclude_self-Lost seq o s (b, l) = ground arith

  finish_self-Lost :
      (c : Channel) (seq : ℕ) (s : Client)
      → Lost k i s
      → Lost k i (finish_call c (some (k, seq)) i s)
  unfolding finish_call
  finish_self-Lost open_channel seq s w = w
  finish_self-Lost (answered r) seq s w = conclude_self-Lost seq (outcome_of r) s w
  finish_self-Lost closed seq s w =
      conclude_self-Lost seq errored (remove_pending i s) (drop_sender-Lost i s w)

  time_out_self-Lost :
      (key : Option (String × ℕ)) (a : Bool) (s : Client)
      → Lost k i s
      → Lost k i (time_out_call key i a s)
  unfolding time_out_call cancel_pending_request mark_dead end_task clear_latest_request
  time_out_self-Lost none a s (b, l) = ground arith
  time_out_self-Lost (some (k', seq)) a s (b, l) = ground arith

  -- The key of the call.
  key-some : (key : Option (String × ℕ)) → has_key key k ≡ true → (seq : ℕ) × (key ≡ some (k, seq))
  key-some none h = absurd cc
  key-some (some (k', seq)) h = (seq, ap (λ x. some (x, seq)) ((eq_iff k' k).0 h))

  finish-Lost :
      (j : ℕ) (s : Client)
      → Lost k i s
      → (u : Task) → s.tasks j ≡ some u
      → Lost k i (finish_call u.channel u.key j s)
  finish-Lost j s w u at = elim (Bool-cases (j == i)) [
    | inl mine ↦
        let same = (nat_same_iff j i).0 mine in
        let (seq, is) = key-some u.key (let (b, l) = w in ground (arith, at, same)) in
        subst (λ x. Lost k i (finish_call u.channel u.key x s)) (sym same)
          (subst (λ x. Lost k i (finish_call u.channel x i s)) (sym is)
            (finish_self-Lost u.channel seq s w))
    | inr other ↦ finish_other-Lost j s other w u.channel u.key
  ]

  time_out_any-Lost :
      (j : ℕ) (s : Client)
      → Lost k i s
      → (key : Option (String × ℕ)) (a : Bool) → Lost k i (time_out_call key j a s)
  time_out_any-Lost j s w key a = elim (Bool-cases (j == i)) [
    | inl mine ↦
        subst (λ x. Lost k i (time_out_call key x a s)) (sym ((nat_same_iff j i).0 mine))
          (time_out_self-Lost key a s w)
    | inr other ↦ time_out-Lost j s other w key a
  ]

  abandon-Lost :
      (j : ℕ) (s : Client) (u : Task) → s.tasks j ≡ some u → Lost k i s → Lost k i (abandon j s)
  unfolding abandon
  abandon-Lost j s u at (b, l) = ground (arith, nat_same_iff j i)

  refuse-Lost :
      (j : ℕ) (s : Client)
      → (j == i) ≡ false
      → Lost k i s
      → (key : Option (String × ℕ)) → Lost k i (refuse_call key j s)
  unfolding refuse_call remove_pending end_task
  refuse-Lost j s other (b, l) none = ground arith
  refuse-Lost j s other w (some key) = w

  registered_other :
      (j : ℕ) (s : Client)
      → Lost k i s
      → (u : Task) → s.tasks j ≡ some u
      → u.phase ≡ registered
      → (j == i) ≡ false
  registered_other j s (b, l) u at is = elim (Bool-cases (j == i)) [
    | inl mine ↦ absurd (ground (arith, at, is, mine))
    | inr other ↦ other
  ]

  one-Lost : (s : Client) (e : Event) → LeakInv nobody s → Lost k i s → Lost k i (step s e)
  unfolding step
  one-Lost s (register key late) v w = register-Lost key late s v w
  one-Lost s (submit j a accepts) v w =
      if_registered-keeps (Lost k i) (s.tasks j) (λ key. submit_call key j a accepts s) s
        (λ u at is. submit-Lost j s (registered_other j s w u at is) w u.key a accepts) w
  one-Lost s (respond j r) v w = respond-Lost j s r w
  one-Lost s disconnect v w = disconnect-Lost s w
  one-Lost s (finish j) v w =
      if_waiting-keeps (Lost k i) (s.tasks j) (λ c key. finish_call c key j s) s
        (λ u at is. finish-Lost j s w u at) w
  one-Lost s (time_out j a) v w =
      if_waiting-keeps (Lost k i) (s.tasks j) (λ c key. time_out_call key j a s) s
        (λ u at is. time_out_any-Lost j s w u.key a) w
  one-Lost s (drop_call j) v w =
      if_registered-keeps (Lost k i) (s.tasks j) (λ key. abandon j s)
        (if_waiting (s.tasks j) (λ c key. abandon j s) s) (λ u at is. abandon-Lost j s u at w)
        (if_waiting-keeps (Lost k i) (s.tasks j) (λ c key. abandon j s) s
          (λ u at is. abandon-Lost j s u at w) w)
  one-Lost s (refuse j) v w =
      if_registered-keeps (Lost k i) (s.tasks j) (λ key. refuse_call key j s) s
        (λ u at is. refuse-Lost j s (registered_other j s w u at is) w u.key) w

  pub run-Lost :
      (s : Client) (es : List Event) → LeakInv nobody s → Lost k i s → Lost k i (run s es)
  run-Lost s es v w =
      (run-keeps (λ t. LeakInv nobody t × Lost k i t)
        (λ t e both. (step-LeakInv t e both.0, one-Lost t e both.0 both.1)) s es (v, w)).1
