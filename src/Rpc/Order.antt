-- ===== src/Rpc/Order.antt =====
-- What src/simplecc/lsp/client.rs writes: no request twice, no cancellation twice, and none before its
-- request.
use simplecc.Base.{
  ℕ, ◌≡◌, ◌≢◌, inl, inr, refl, sym, subst, ◌∙◌, Bool-cases, eq_refl, String, Bool, true, false,
  Option, none, some, List, arith, nat_key, string_key, if◌then◌else◌, eq_iff,
}
use simplecc.Rpc.{
  Channel, Outcome, request, Client, init, update_key, superseded, errored, open_channel, closed,
  answered, remove_pending, send_message, cancel_pending_request, clear_latest_request, end_task,
}
use simplecc.Rpc.Phases.{if_registered-keeps, if_waiting-keeps, run-keeps}
use simplecc.Rpc.Step.{
  Event, register, submit, respond, disconnect, finish, time_out, drop_call, refuse, abandon,
  refuse_call, if_waiting, step, run, submit_call, submit_latest, wait_or_fail, cancel_previous,
  drop_failed, finish_call, conclude, time_out_call, newer_than, outcome_of,
}
use simplecc.Rpc.Wire.{
  requested, unsent, IsOrdered, Points, WireInv, nobody, only, WireInv-init, do_register-WireInv,
  mark_dead-WireInv, deliver-WireInv, abandon-WireInv, remove_pending-WireInv, end_task-WireInv,
  clear_latest-WireInv, cancel-WireInv, send_plain-WireInv, send_keyed-WireInv, unsent-cancel,
  known-cancel, latest-cancel,
}

module _ (s : Client) (i : ℕ) (new : unsent (s.tasks i) ≡ true) (known : s.tasks i ≢ none) where
  -- The request of a call that holds its key is written after the cancellation of the previous one.
  replace_previous-WireInv :
      (k : String) (seq : ℕ) (a accepts : Bool) (previous : Option (ℕ × ℕ))
      → WireInv (only k i) s
      → Points (s.latest k) i
      → ((j : ℕ) → Points previous j → requested s.wire j ≡ true)
      → WireInv nobody (
          wait_or_fail i
            (drop_failed k i (send_message accepts (request i) (cancel_previous a previous s))))
  unfolding cancel_previous
  replace_previous-WireInv k seq a accepts none v mine old =
      send_keyed-WireInv s i new known k accepts v mine
  replace_previous-WireInv k seq a accepts (some (n, j)) v mine old =
      send_keyed-WireInv (cancel_pending_request a j s) i (unsent-cancel a j i s ∙ new)
        (λ e. known (known-cancel a j i s e)) k accepts
        (cancel-WireInv (only k i) s j v a (old j refl))
        (subst (λ f. Points (f k) i) (sym (latest-cancel a j s)) mine)

module _ (s : Client) (i : ℕ) (new : unsent (s.tasks i) ≡ true) (known : s.tasks i ≢ none) where
  hold_key-WireInv :
      (k : String) (seq : ℕ)
      → WireInv nobody s
      → WireInv (only k i) (record s { latest = update_key s.latest k (some (seq, i)) })
  hold_key-WireInv k seq v = record {
    ordered = v.ordered;
    fresh = v.fresh;
    quiet = v.quiet;
    live = v.live;
    paired = v.paired;
    asked = v.asked;
    keyed = λ k' j h e. ground (arith, v.keyed k' j, eq_iff k k');
  }

  submit_latest-WireInv :
      (k : String) (seq : ℕ) (a accepts : Bool)
      → WireInv nobody s
      → WireInv nobody (submit_latest k seq i a accepts s)
  unfolding submit_latest
  submit_latest-WireInv k seq a accepts v = elim (Bool-cases (newer_than (s.latest k) seq)) [
    | inl stale ↦ rw stale (
        end_task-WireInv nobody (remove_pending i s) i (remove_pending-WireInv nobody s i v)
          superseded)
    | inr newest ↦ rw newest (
        replace_previous-WireInv (record s { latest = update_key s.latest k (some (seq, i)) }) i new
          known k seq a accepts (s.latest k) (hold_key-WireInv k seq v) (rw (eq_refl k) refl)
          (λ j h. v.keyed k j h refl))
  ]

conclude-WireInv :
    (key : Option (String × ℕ)) (i : ℕ) (o : Outcome) (s : Client)
    → WireInv nobody s
    → WireInv nobody (conclude key i o s)
unfolding conclude
conclude-WireInv none i o s v = end_task-WireInv nobody s i v o
conclude-WireInv (some (k, seq)) i o s v =
    let cleared = clear_latest-WireInv nobody s i v k in
    let (s', mine) = clear_latest_request k i s in
    elim mine as (λ b. WireInv nobody (if b then end_task i o s' else end_task i superseded s')) [
      | true ↦ end_task-WireInv nobody s' i cleared o
      | false ↦ end_task-WireInv nobody s' i cleared superseded
    ]

finish_call-WireInv :
    (c : Channel) (key : Option (String × ℕ)) (i : ℕ) (s : Client)
    → WireInv nobody s
    → WireInv nobody (finish_call c key i s)
unfolding finish_call
finish_call-WireInv open_channel key i s v = v
finish_call-WireInv (answered r) key i s v = conclude-WireInv key i (outcome_of r) s v
finish_call-WireInv closed key i s v =
    conclude-WireInv key i errored (remove_pending i s) (remove_pending-WireInv nobody s i v)

time_out_call-WireInv :
    (key : Option (String × ℕ)) (i : ℕ) (a : Bool) (s : Client)
    → requested s.wire i ≡ true
    → WireInv nobody s
    → WireInv nobody (time_out_call key i a s)
unfolding time_out_call
time_out_call-WireInv none i a s sent v =
    end_task-WireInv nobody (cancel_pending_request a i s) i (cancel-WireInv nobody s i v a sent)
      errored
time_out_call-WireInv (some (k, seq)) i a s sent v =
    let s' = cancel_pending_request a i s in
    end_task-WireInv nobody (clear_latest_request k i s').0 i
      (clear_latest-WireInv nobody s' i (cancel-WireInv nobody s i v a sent) k) errored

submit_call-WireInv :
    (key : Option (String × ℕ)) (i : ℕ) (a accepts : Bool) (s : Client)
    → unsent (s.tasks i) ≡ true
    → s.tasks i ≢ none
    → WireInv nobody s
    → WireInv nobody (submit_call key i a accepts s)
unfolding submit_call
submit_call-WireInv none i a accepts s new known v = send_plain-WireInv s i new known accepts v
submit_call-WireInv (some (k, seq)) i a accepts s new known v =
    submit_latest-WireInv s i new known k seq a accepts v

refuse_call-WireInv :
    (key : Option (String × ℕ)) (i : ℕ) (s : Client)
    → WireInv nobody s
    → WireInv nobody (refuse_call key i s)
unfolding refuse_call
refuse_call-WireInv none i s v =
    end_task-WireInv nobody (remove_pending i s) i (remove_pending-WireInv nobody s i v) errored
refuse_call-WireInv (some key) i s v = v

step-WireInv : (s : Client) (e : Event) → WireInv nobody s → WireInv nobody (step s e)
unfolding step
step-WireInv s (register key late) v = do_register-WireInv s key late v
step-WireInv s (submit i a accepts) v =
    if_registered-keeps (WireInv nobody) (s.tasks i) (λ key. submit_call key i a accepts s) s
      (λ u at is.
        submit_call-WireInv u.key i a accepts s (ground (arith, at, is)) (ground (arith, at)) v)
      v
step-WireInv s (respond i r) v = deliver-WireInv nobody s i v r
step-WireInv s disconnect v = mark_dead-WireInv nobody s 0 v
step-WireInv s (finish i) v =
    if_waiting-keeps (WireInv nobody) (s.tasks i) (λ c key. finish_call c key i s) s
      (λ u at is. finish_call-WireInv u.channel u.key i s v) v
step-WireInv s (time_out i a) v =
    if_waiting-keeps (WireInv nobody) (s.tasks i) (λ c key. time_out_call key i a s) s
      (λ u at is. time_out_call-WireInv u.key i a s (v.asked i (ground (arith, at, is))) v) v
step-WireInv s (drop_call i) v =
    if_registered-keeps (WireInv nobody) (s.tasks i) (λ key. abandon i s)
      (if_waiting (s.tasks i) (λ c key. abandon i s) s) (λ u at is. abandon-WireInv nobody s i v)
      (if_waiting-keeps (WireInv nobody) (s.tasks i) (λ c key. abandon i s) s
        (λ u at is. abandon-WireInv nobody s i v) v)
step-WireInv s (refuse i) v =
    if_registered-keeps (WireInv nobody) (s.tasks i) (λ key. refuse_call key i s) s
      (λ u at is. refuse_call-WireInv u.key i s v) v

-- In every interleaving of calls, responses, disconnections, failed writes, timeouts, refused
-- executions, and calls that are dropped before they take the lock or while they wait, the server
-- reads each request at most once, each cancellation at most once, and a cancellation only after
-- the request that it cancels.
pub run-IsOrdered : (es : List Event) → IsOrdered (run init es).wire
run-IsOrdered es = (run-keeps (WireInv nobody) step-WireInv init es WireInv-init).ordered
