-- ===== src/Rpc/Settled.antt =====
-- src/simplecc/lsp/client.rs leaves nothing behind: senders and keys belong to calls that still run, and a dead
-- client keeps no call waiting.
use simplecc.Base.{
  ◌↔◌, ℕ, ◌≡◌, ◌≢◌, inl, inr, refl, Bool-cases, String, true, false, Option, none, some, List,
  arith, nat_key, string_key,
}
use simplecc.Rpc.{
  Channel, open_channel, closed, answered, Outcome, errored, Task, Client, init, remove_pending,
  clear_latest_request, end_task,
}
use simplecc.Rpc.Phases.{Phase-cases, if_registered-keeps, if_waiting-keeps, run-keeps}
use simplecc.Rpc.Step.{
  Event, register, submit, respond, disconnect, finish, time_out, drop_call, refuse, abandon,
  refuse_call, step, run, submit_call, finish_call, conclude, time_out_call, outcome_of, if_waiting,
}
use simplecc.Rpc.Wire.{Points}
use simplecc.Rpc.Leaks.{
  running, parked, is_waiting, keyed_by, nobody, LeakInv, LeakInv-init, do_register-LeakInv,
  mark_dead-LeakInv, deliver-LeakInv, abandon-LeakInv, left_waiting,
}
use simplecc.Rpc.Ends.{KeyIs, finish_call-LeakInv, time_out_call-LeakInv, refuse_call-LeakInv}
use simplecc.Rpc.Submits.{submit_call-LeakInv}

task-KeyIs : {t : Option Task} (u : Task) → t ≡ some u → KeyIs u.key t
task-KeyIs u at k = ground (arith, at)

-- The channel of a call that waits is ready once its sender is gone.
ready_gone :
    (s : Client) (i : ℕ)
    → LeakInv nobody s
    → (u : Task) → s.tasks i ≡ some u
    → u.channel ≢ open_channel
    → s.pending i ≡ false
ready_gone s i v u at d = elim (Bool-cases (s.pending i)) [
  | inl held ↦ absurd (ground (arith, at, d, v.owned i held))
  | inr gone ↦ gone
]

pub step-LeakInv : (s : Client) (e : Event) → LeakInv nobody s → LeakInv nobody (step s e)
unfolding step
step-LeakInv s (register key late) v = do_register-LeakInv s key late v
step-LeakInv s (submit i a accepts) v =
    if_registered-keeps (LeakInv nobody) (s.tasks i) (λ key. submit_call key i a accepts s) s
      (λ u at is.
        submit_call-LeakInv u.key i a accepts s (ground (arith, at, is)) (task-KeyIs u at) v)
      v
step-LeakInv s (respond i r) v = deliver-LeakInv nobody s i v r
step-LeakInv s disconnect v = mark_dead-LeakInv nobody s 0 v
step-LeakInv s (finish i) v =
    if_waiting-keeps (LeakInv nobody) (s.tasks i) (λ c key. finish_call c key i s) s
      (λ u at is.
        finish_call-LeakInv u.channel u.key i s v (ready_gone s i v u at) (task-KeyIs u at))
      v
step-LeakInv s (time_out i a) v =
    if_waiting-keeps (LeakInv nobody) (s.tasks i) (λ c key. time_out_call key i a s) s
      (λ u at is. time_out_call-LeakInv u.key i a s v (task-KeyIs u at)) v
step-LeakInv s (drop_call i) v =
    if_registered-keeps (LeakInv nobody) (s.tasks i) (λ key. abandon i s)
      (if_waiting (s.tasks i) (λ c key. abandon i s) s)
      (λ u at is. abandon-LeakInv nobody s i v u at (ground (arith, is)))
      (if_waiting-keeps (LeakInv nobody) (s.tasks i) (λ c key. abandon i s) s
        (λ u at is. abandon-LeakInv nobody s i v u at (ground (arith, is))) v)
step-LeakInv s (refuse i) v =
    if_registered-keeps (LeakInv nobody) (s.tasks i) (λ key. refuse_call key i s) s
      (λ u at is. refuse_call-LeakInv u.key i s v (task-KeyIs u at)) v

pub run-LeakInv : (es : List Event) → LeakInv nobody (run init es)
run-LeakInv es = run-keeps (LeakInv nobody) step-LeakInv init es LeakInv-init

-- In every state that events reach: a sender is kept exactly for the calls that run, or were dropped
-- before they came to their end, and whose channel is open, no response and no replacement having
-- come. None is left behind by a call that returned; a call that was dropped leaves its own.
pub pending_iff :
    (es : List Event) (i : ℕ)
    → ((run init es).pending i ≡ true) ↔ (parked ((run init es).tasks i) ≡ true)
pending_iff es i = ((run-LeakInv es).owned i, (run-LeakInv es).served i)

-- In every state that events reach, the call that a key points at was made with this key, and is one
-- that waits, or that was dropped and never came to its end.
pub latest-waits :
    (es : List Event) (k : String) (i : ℕ)
    → Points ((run init es).latest k) i
    → (keyed_by ((run init es).tasks i) k ≡ true) × (left_waiting ((run init es).tasks i) ≡ true)
latest-waits es k i p =
    let (mine, state) = (run-LeakInv es).held k i p in
    (mine, elim state [ inl w ↦ w | inr bad ↦ absurd cc ])

if_waiting-ends :
    (t : Option Task) (f : Channel → Option (String × ℕ) → Client) (s : Client) (i : ℕ)
    → parked t ≡ false
    → is_waiting t ≡ true
    → ((c : Channel) (key : Option (String × ℕ))
        → c ≢ open_channel
        → running ((f c key).tasks i) ≡ false)
    → running ((if_waiting t f s).tasks i) ≡ false
if_waiting-ends none f s i p w ends = absurd cc
if_waiting-ends (some t) f s i p w ends = elim (Phase-cases t.phase) [
  | inl is ↦ absurd (ground (arith, is))
  | inr (inl is) ↦ rw is (ends t.channel t.key (λ e. ground (arith, is, e)))
  | inr (inr (inl is)) ↦ absurd (ground (arith, is))
  | inr (inr (inr (o, is))) ↦ absurd (ground (arith, is))
]

conclude-ends :
    (key : Option (String × ℕ)) (i : ℕ) (o : Outcome) (s : Client)
    → running ((conclude key i o s).tasks i) ≡ false
unfolding conclude end_task clear_latest_request
conclude-ends none i o s = ground arith
conclude-ends (some (k, seq)) i o s = ground arith

finish_call-ends :
    (c : Channel) (key : Option (String × ℕ)) (i : ℕ) (s : Client)
    → c ≢ open_channel
    → running ((finish_call c key i s).tasks i) ≡ false
unfolding finish_call
finish_call-ends open_channel key i s d = absurd (d refl)
finish_call-ends (answered r) key i s d = conclude-ends key i (outcome_of r) s
finish_call-ends closed key i s d = conclude-ends key i errored (remove_pending i s)

finish-ends :
    (s : Client) (i : ℕ)
    → parked (s.tasks i) ≡ false
    → is_waiting (s.tasks i) ≡ true
    → running ((step s (finish i)).tasks i) ≡ false
unfolding step
finish-ends s i p w =
    if_waiting-ends (s.tasks i) (λ c key. finish_call c key i s) s i p w
      (λ c key. finish_call-ends c key i s)

-- Once the server is gone, no call is stuck: in every state that events reach in which the client
-- is not alive, each call that waits ends as soon as it goes on.
pub dead-finish :
    (es : List Event) (i : ℕ)
    → (run init es).alive ≡ false
    → is_waiting ((run init es).tasks i) ≡ true
    → running ((step (run init es) (finish i)).tasks i) ≡ false
dead-finish es i dead w =
    let v = run-LeakInv es in
    finish-ends (run init es) i (ground (arith, w, v.dead i, v.served i)) w
