-- ===== src/Rpc/Tests.antt =====
-- Two calls of src/simplecc/lsp/client.rs with one key, followed through the steps.
use simplecc.Base.{◌≡◌, ◌≢◌, refl, true, false, some, List, [], ◌∷◌, ◌++◌, if◌then◌else◌}
use simplecc.Json.{null}
use simplecc.Rpc.{
  send_message, cancel_pending_request, mark_dead, result, resolved, superseded, registered, done,
  open_channel, Task, request, cancel, init,
}
use simplecc.Rpc.Leaks.{parked, keyed_by, is_waiting, left_waiting, running}
use simplecc.Rpc.Newest.{newest_wins, submit-writes, cancels}
use simplecc.Rpc.Settled.{pending_iff, latest-waits, dead-finish}
use simplecc.Rpc.Step.{
  do_register, submit_call, wait_or_fail, drop_failed, cancel_previous, deliver, finish_call, Event,
  register, submit, respond, disconnect, finish, drop_call, abandon, step, run, newer_than,
}
use simplecc.Rpc.Order.{run-IsOrdered}
use simplecc.Rpc.Wire.{IsOrdered, Points, phase_of}

-- A hover, and a second one that has not been written.
abbrev two_hovers : List Event
two_hovers =
    register (some ("hover", 1)) false
    ∷ submit 1 true true
    ∷ register (some ("hover", 2)) false
    ∷ []

abbrev second_call : Task
second_call = record { key = some ("hover", 2); phase = registered; channel = open_channel }

-- The response to the first hover comes, it goes on, and then the server goes away.
abbrev late_answer : List Event
late_answer = respond 1 (result null) ∷ finish 1 ∷ disconnect ∷ finish 2 ∷ []

two_hovers_wire :
    (run init (two_hovers ++ (submit 2 true true ∷ late_answer))).wire
    ≡ request 2 ∷ cancel 1 ∷ request 1 ∷ []
unfolding step do_register submit_call wait_or_fail drop_failed send_message cancel_previous
    cancel_pending_request deliver finish_call mark_dead
two_hovers_wire = refl

first_superseded :
    phase_of ((run init (two_hovers ++ (submit 2 true true ∷ late_answer))).tasks 1)
    ≡ some (done superseded)
unfolding step do_register submit_call wait_or_fail drop_failed send_message cancel_previous
    cancel_pending_request deliver finish_call mark_dead
first_superseded = refl

first-Points : Points ((run init two_hovers).latest "hover") 1
unfolding step do_register submit_call wait_or_fail drop_failed send_message cancel_previous
    cancel_pending_request deliver finish_call mark_dead
first-Points = refl

second_registered : (run init two_hovers).tasks 2 ≡ some second_call
unfolding step do_register submit_call wait_or_fail drop_failed send_message cancel_previous
    cancel_pending_request deliver finish_call mark_dead
second_registered = refl

second_newer : newer_than ((run init two_hovers).latest "hover") 2 ≡ false
unfolding step do_register submit_call wait_or_fail drop_failed send_message cancel_previous
    cancel_pending_request deliver finish_call mark_dead
second_newer = refl

two_hovers_alive : (run init two_hovers).alive ≡ true
unfolding step do_register submit_call wait_or_fail drop_failed send_message cancel_previous
    cancel_pending_request deliver finish_call mark_dead
two_hovers_alive = refl

newest_wins_example :
    phase_of ((run (step (run init two_hovers) (submit 2 true true)) late_answer).tasks 1)
    ≢ some (done (resolved null))
newest_wins_example =
    newest_wins two_hovers late_answer 1 2 "hover" 2 second_call true true first-Points
      second_registered refl refl second_newer null

submit-writes_example : (step (run init two_hovers) (submit 2 true true)).wire ≡ (
    if newer_than ((run init two_hovers).latest "hover") 2
    then (run init two_hovers).wire
    else request 2
      ∷ (cancels (run init two_hovers) ((run init two_hovers).latest "hover")
          ++ (run init two_hovers).wire))
submit-writes_example =
    submit-writes (run init two_hovers) 2 "hover" 2 second_call second_registered refl refl
      two_hovers_alive

run-IsOrdered_example : IsOrdered (run init (two_hovers ++ (submit 2 true true ∷ late_answer))).wire
run-IsOrdered_example = run-IsOrdered (two_hovers ++ (submit 2 true true ∷ late_answer))

-- The first hover is dropped while it waits: its key and its sender stay.
abbrev hover_dropped : List Event
hover_dropped = two_hovers ++ (drop_call 1 ∷ [])

dropped-Points : Points ((run init hover_dropped).latest "hover") 1
unfolding step do_register submit_call wait_or_fail drop_failed send_message cancel_previous
    cancel_pending_request deliver finish_call mark_dead abandon
dropped-Points = refl

sender_stays : (run init hover_dropped).pending 1 ≡ true
unfolding step do_register submit_call wait_or_fail drop_failed send_message cancel_previous
    cancel_pending_request deliver finish_call mark_dead abandon
sender_stays = refl

latest-waits_example :
    (keyed_by ((run init hover_dropped).tasks 1) "hover" ≡ true)
    × (left_waiting ((run init hover_dropped).tasks 1) ≡ true)
latest-waits_example = latest-waits hover_dropped "hover" 1 dropped-Points

pending_iff_example :
    ((run init hover_dropped).pending 1 ≡ true → parked ((run init hover_dropped).tasks 1) ≡ true)
    × (parked ((run init hover_dropped).tasks 1) ≡ true → (run init hover_dropped).pending 1 ≡ true)
pending_iff_example = pending_iff hover_dropped 1

abbrev server_gone : List Event
server_gone = two_hovers ++ (disconnect ∷ [])

server_gone_dead : (run init server_gone).alive ≡ false
unfolding step do_register submit_call wait_or_fail drop_failed send_message cancel_previous
    cancel_pending_request deliver finish_call mark_dead
server_gone_dead = refl

first_waits : is_waiting ((run init server_gone).tasks 1) ≡ true
unfolding step do_register submit_call wait_or_fail drop_failed send_message cancel_previous
    cancel_pending_request deliver finish_call mark_dead
first_waits = refl

dead-finish_example : running ((step (run init server_gone) (finish 1)).tasks 1) ≡ false
dead-finish_example = dead-finish server_gone 1 server_gone_dead first_waits
