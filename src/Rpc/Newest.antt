-- ===== src/Rpc/Newest.antt =====
-- src/simplecc/lsp/client.rs: a newer call with the same key replaces the one before it.
use simplecc.Base.{
  ℕ, ◌≡◌, ◌≢◌, inl, inr, Bool-cases, refl, sym, subst, String, Bool, true, false, Option, none,
  some, List, [], ◌∷◌, ◌++◌, arith, ◌==◌, nat_key, string_key, if◌then◌else◌, eq_refl,
}
use simplecc.Json.{Json}
use simplecc.Rpc.{
  send_message, cancel_pending_request, resolved, registered, done, Task, Sent, request, cancel,
  Client, init, update_key, remove_pending, end_task,
}
use simplecc.Rpc.Latest.{Lost, barren, previous-Lost, run-Lost}
use simplecc.Rpc.Leaks.{keyed_by, left_waiting}
use simplecc.Rpc.Settled.{run-LeakInv, step-LeakInv, latest-waits}
use simplecc.Rpc.Step.{
  wait_or_fail, drop_failed, cancel_previous, Event, submit, step, run, submit_call, submit_latest,
  newer_than,
}
use simplecc.Rpc.Wire.{Points, phase_of}

-- A call that goes on to submit itself.
submit-step :
    (s : Client) (j : ℕ) (u : Task) (key : Option (String × ℕ)) (a accepts : Bool)
    → s.tasks j ≡ some u
    → u.key ≡ key
    → u.phase ≡ registered
    → step s (submit j a accepts) ≡ submit_call key j a accepts s
unfolding step
submit-step s j u key a accepts at is new = rw (at, new, is) refl

barren_not_resolved :
    (t : Option Task) (k : String) (v : Json)
    → barren t k ≡ true
    → phase_of t ≢ some (done (resolved v))
barren_not_resolved t k v b e = ground (arith, b, e)

-- The call that is replaced waits or was dropped, the other one has yet to submit.
replaced_other :
    (s : Client) (i j : ℕ) (u : Task)
    → left_waiting (s.tasks i) ≡ true
    → s.tasks j ≡ some u
    → u.phase ≡ registered
    → (j == i) ≡ false
replaced_other s i j u w at new = elim (Bool-cases (j == i)) [
  | inl same ↦ absurd (ground (arith, same, at, new))
  | inr other ↦ other
]

waits-barren :
    (t : Option Task) (k : String) → keyed_by t k ≡ true → left_waiting t ≡ true → barren t k ≡ true
waits-barren none k mine w = absurd cc
waits-barren (some t) k mine w = ground arith

hold-starts :
    (s : Client) (i j : ℕ) (k : String) (seq : ℕ)
    → (j == i) ≡ false
    → barren (s.tasks i) k ≡ true
    → Lost k i (record s { latest = update_key s.latest k (some (seq, j)) })
hold-starts s i j k seq other b = ground (arith, eq_refl k)

submit_call-Lost :
    (s : Client) (i j : ℕ) (k : String) (seq : ℕ) (a accepts : Bool)
    → (j == i) ≡ false
    → barren (s.tasks i) k ≡ true
    → newer_than (s.latest k) seq ≡ false
    → Lost k i (submit_call (some (k, seq)) j a accepts s)
unfolding submit_call submit_latest
submit_call-Lost s i j k seq a accepts other b newest = rw newest (
    previous-Lost k i j (record s { latest = update_key s.latest k (some (seq, j)) }) other
      (hold-starts s i j k seq other b) k a accepts (s.latest k))

-- The cancellations that a new call of a key owes to the one before it.
abbrev pub cancels : Client → Option (ℕ × ℕ) → List Sent
cancels s none = []
cancels s (some (seq, i)) = if s.pending i then cancel i ∷ [] else []

submit_newest-writes :
    (s : Client) (j : ℕ) (k : String) (seq : ℕ) (previous : Option (ℕ × ℕ))
    → s.alive ≡ true
    → (wait_or_fail j (
        drop_failed k j (
          send_message true (request j) (
            cancel_previous true previous
              (record s { latest = update_key s.latest k (some (seq, j)) }))))).wire
      ≡ request j ∷ (cancels s previous ++ s.wire)
unfolding wait_or_fail drop_failed send_message cancel_previous cancel_pending_request
    remove_pending
submit_newest-writes s j k seq none live = ground arith
submit_newest-writes s j k seq (some (n, i)) live = ground arith

submit_call-writes :
    (s : Client) (j : ℕ) (k : String) (seq : ℕ)
    → s.alive ≡ true
    → (submit_call (some (k, seq)) j true true s).wire ≡ (
        if newer_than (s.latest k) seq
        then s.wire
        else request j ∷ (cancels s (s.latest k) ++ s.wire))
unfolding submit_call submit_latest
submit_call-writes s j k seq live = elim (Bool-cases (newer_than (s.latest k) seq)) [
  | inl stale ↦ rw stale (unfold end_task remove_pending in refl)
  | inr newest ↦ rw newest (submit_newest-writes s j k seq (s.latest k) live)
]

-- A call that holds key `k` is replaced by a registered call with the same key and a sequence
-- number that is not smaller: once that call submits, whatever the transport does with its writes
-- and whatever happens then, the replaced call is never given a result, not even by a response
-- that comes first.
pub newest_wins :
    (es es' : List Event) (i j : ℕ) (k : String) (seq : ℕ) (u : Task) (a accepts : Bool)
    → Points ((run init es).latest k) i
    → (run init es).tasks j ≡ some u
    → u.key ≡ some (k, seq)
    → u.phase ≡ registered
    → newer_than ((run init es).latest k) seq ≡ false
    → (v : Json)
    → phase_of ((run (step (run init es) (submit j a accepts)) es').tasks i)
      ≢ some (done (resolved v))
newest_wins es es' i j k seq u a accepts p at is new newest v =
    let s = run init es in
    let (mine, w) = latest-waits es k i p in
    let lost = subst (Lost k i) (sym (submit-step s j u (some (k, seq)) a accepts at is new)) (
      submit_call-Lost s i j k seq a accepts (replaced_other s i j u w at new)
        (waits-barren (s.tasks i) k mine w) newest) in
    let end =
      run-Lost k i (step s (submit j a accepts)) es'
        (step-LeakInv s (submit j a accepts) (run-LeakInv es)) lost in
    barren_not_resolved ((run (step s (submit j a accepts)) es').tasks i) k v (end.0)

-- What a registered call with a key writes when the server takes its writes: nothing if a call that
-- the editor made later holds the key, and else the cancellation of the call that holds the key, if
-- the sender for its response is still kept, and then its own request.
pub submit-writes :
    (s : Client) (j : ℕ) (k : String) (seq : ℕ) (u : Task)
    → s.tasks j ≡ some u
    → u.key ≡ some (k, seq)
    → u.phase ≡ registered
    → s.alive ≡ true
    → (step s (submit j true true)).wire ≡ (
        if newer_than (s.latest k) seq
        then s.wire
        else request j ∷ (cancels s (s.latest k) ++ s.wire))
submit-writes s j k seq u at is new live =
    subst
      (λ t. t.wire ≡ (
        if newer_than (s.latest k) seq
        then s.wire
        else request j ∷ (cancels s (s.latest k) ++ s.wire)))
      (sym (submit-step s j u (some (k, seq)) true true at is new))
      (submit_call-writes s j k seq live)
