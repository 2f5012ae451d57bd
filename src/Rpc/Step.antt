-- ===== src/Rpc/Step.antt =====
-- src/simplecc/lsp/client.rs: the steps of `request_with_timeout_inner` and of the dispatcher.
use simplecc.Base.{
  ℕ, ◌+◌, String, Bool, true, false, not, ◌&&◌, Option, none, some, List, [], ◌∷◌, ltb, nat_key,
  string_key, if◌then◌else◌,
}
use simplecc.Rpc.{
  Response, result, error, Channel, open_channel, closed, answered, Outcome, superseded, errored,
  resolved, registered, waiting, dropped, done, Task, request, Client, update, update_key,
  set_phase, remove_pending, mark_dead, send_message, cancel_pending_request, clear_latest_request,
  end_task,
}

pub data Event : Type 0 where
  -- A call begins, with its `latest_key`; `late` when the server went away after the call had
  -- looked at `is_alive` and before it put its sender into `pending`.
  register : Option (String × ℕ) → Bool → Event
  -- It takes the lock and writes; the transport may take the cancellation and the request.
  submit : ℕ → Bool → Bool → Event
  -- The dispatcher reads a response, or the end of the stream.
  respond : ℕ → Response → Event
  disconnect : Event
  -- The call goes on when its channel is ready, or when its time is over.
  finish : ℕ → Event
  time_out : ℕ → Bool → Event
  -- Its future is dropped, before it takes the lock or while it waits.
  drop_call : ℕ → Event
  -- `send_execution_message` refuses its identity before it writes.
  refuse : ℕ → Event

unfoldable pub do_register : Option (String × ℕ) → Bool → Client → Client
do_register key late s = if not s.alive && not late then s else record s {
  next_id = s.next_id + 1;
  pending = update s.pending s.next_id true;
  tasks =
      update s.tasks s.next_id
        (some (record { key = key; phase = registered; channel = open_channel }));
}

unfoldable pub wait_or_fail : ℕ → Client × Bool → Client
unfolding remove_pending end_task
wait_or_fail i (s, true) = record s { tasks = update s.tasks i (set_phase waiting (s.tasks i)) }
wait_or_fail i (s, false) = end_task i errored (remove_pending i s)

-- A request issued later by the editor holds the key.
abbrev pub newer_than : Option (ℕ × ℕ) → ℕ → Bool
newer_than none seq = false
newer_than (some (held, j)) seq = ltb seq held

unfoldable pub cancel_previous : Bool → Option (ℕ × ℕ) → Client → Client
cancel_previous accepts none s = s
cancel_previous accepts (some (seq, j)) s = cancel_pending_request accepts j s

-- After a failed write the key is given up.
unfoldable pub drop_failed : String → ℕ → Client × Bool → Client × Bool
unfolding clear_latest_request
drop_failed k i (s, true) = (s, true)
drop_failed k i (s, false) = ((clear_latest_request k i s).0, false)

unfoldable pub submit_latest : String → ℕ → ℕ → Bool → Bool → Client → Client
submit_latest k seq i accepts_cancel accepts s =
    if newer_than (s.latest k) seq
    then end_task i superseded (remove_pending i s)
    else (let s' = record s { latest = update_key s.latest k (some (seq, i)) } in
        let s'' = cancel_previous accepts_cancel (s.latest k) s' in
        wait_or_fail i (drop_failed k i (send_message accepts (request i) s'')))

unfoldable pub submit_call : Option (String × ℕ) → ℕ → Bool → Bool → Client → Client
unfolding submit_latest
submit_call none i accepts_cancel accepts s = wait_or_fail i (send_message accepts (request i) s)
submit_call (some (k, seq)) i accepts_cancel accepts s =
    submit_latest k seq i accepts_cancel accepts s

abbrev pub answer : Response → Option Task → Option Task
answer r none = none
answer r (some t) = some (record t { channel = answered r })

-- The head of the dispatcher's loop, for a response with this id.
unfoldable pub deliver : ℕ → Response → Client → Client
deliver i r s =
    if s.pending i
    then record s {
      pending = update s.pending i false;
      tasks = update s.tasks i (answer r (s.tasks i));
    }
    else s

abbrev pub outcome_of : Response → Outcome
outcome_of (result v) = resolved v
outcome_of (error e) = errored

-- `clear_latest_request` for a call with a key decides whether it was superseded.
unfoldable pub conclude : Option (String × ℕ) → ℕ → Outcome → Client → Client
unfolding clear_latest_request end_task
conclude none i o s = end_task i o s
conclude (some (k, seq)) i o s =
    let (s', mine) = clear_latest_request k i s in
    if mine then end_task i o s' else end_task i superseded s'

unfoldable pub finish_call : Channel → Option (String × ℕ) → ℕ → Client → Client
unfolding conclude remove_pending
finish_call open_channel key i s = s
finish_call (answered r) key i s = conclude key i (outcome_of r) s
finish_call closed key i s = conclude key i errored (remove_pending i s)

abbrev pub forget : Option (String × ℕ) → ℕ → Client → Client
forget none i s = s
forget (some (k, seq)) i s = (clear_latest_request k i s).0

unfoldable pub time_out_call : Option (String × ℕ) → ℕ → Bool → Client → Client
unfolding cancel_pending_request end_task clear_latest_request
time_out_call key i accepts s =
    end_task i errored (forget key i (cancel_pending_request accepts i s))

-- A call runs on only from the phase that it is in.
abbrev pub if_registered : Option Task → (Option (String × ℕ) → Client) → Client → Client
if_registered none f s = s
if_registered (some t) f s = elim t.phase [
  | registered ↦ f t.key
  | waiting ↦ s
  | dropped ↦ s
  | done o ↦ s
]

abbrev pub if_waiting : Option Task → (Channel → Option (String × ℕ) → Client) → Client → Client
if_waiting none f s = s
if_waiting (some t) f s = elim t.phase [
  | registered ↦ s
  | waiting ↦ f t.channel t.key
  | dropped ↦ s
  | done o ↦ s
]

-- A call that is dropped leaves its sender and its key where they are.
unfoldable pub abandon : ℕ → Client → Client
abandon i s = record s { tasks = update s.tasks i (set_phase dropped (s.tasks i)) }

-- Only a call without a key has an identity.
unfoldable pub refuse_call : Option (String × ℕ) → ℕ → Client → Client
unfolding remove_pending end_task
refuse_call none i s = end_task i errored (remove_pending i s)
refuse_call (some key) i s = s

unfoldable pub step : Client → Event → Client
step s (register key late) = do_register key late s
step s (submit i accepts_cancel accepts) =
    if_registered (s.tasks i) (λ key. submit_call key i accepts_cancel accepts s) s
step s (respond i r) = deliver i r s
step s disconnect = mark_dead s
step s (finish i) = if_waiting (s.tasks i) (λ c key. finish_call c key i s) s
step s (time_out i accepts) = if_waiting (s.tasks i) (λ c key. time_out_call key i accepts s) s
step s (drop_call i) =
    if_registered (s.tasks i) (λ key. abandon i s) (if_waiting (s.tasks i) (λ c key. abandon i s) s)
step s (refuse i) = if_registered (s.tasks i) (λ key. refuse_call key i s) s

-- Oldest event first.
abbrev pub run : Client → List Event → Client
run s [] = s
run s (e ∷ es) = run (step s e) es
