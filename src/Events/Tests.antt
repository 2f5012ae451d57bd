-- ===== src/Events/Tests.antt =====
-- A queue of src/simplecc/registry.rs that stops taking lines.
use simplecc.Base.{ℕ, ◌+◌, ◌≡◌, refl, Bool, true, false, List, [], ◌∷◌, ◌++◌}
use simplecc.Events.{new, begin_send, taken_send, missed_send, try_send, mark_stalled}
use simplecc.Events.Acts.{Act, begun, accepted, missed, trying, act, acts}
use simplecc.Events.Prefix.{offered, left_out, count, acts-sent}
use simplecc.Events.Wakeup.{
  Turn, produce, wait, turn, turns, fresh, returned, wait_step, wait_stalled-returns,
}

-- A line of progress is left out. The sends of the lines 3 and 4 wait when the queue is full; that
-- of 4 misses its deadline, 5 is not sent, and 3 is taken all the same.
abbrev six : List (Act ℕ)
six =
    begun 1 ∷ accepted 0 ∷ trying false 2 ∷ begun 3 ∷ begun 4 ∷ missed 1 ∷ begun 5 ∷ accepted 0 ∷ []

acts-sent_example :
    (more : List ℕ) × (((acts six new).sent ≡ [] ++ more)
      × ((p : ℕ → Bool)
          → count p more + count p (acts six new).waiting + count p (left_out false six new)
            ≡ count p [] + count p (offered false six new)))
acts-sent_example = acts-sent false six new refl

two_sent : (acts six new).sent ≡ 1 ∷ 3 ∷ []
unfolding acts act begin_send taken_send missed_send try_send mark_stalled
two_sent = refl

-- The stall comes between the look at the bit and the await.
abbrev late : List (Turn ℕ)
late = produce (begun 1) ∷ wait ∷ wait ∷ produce (missed 0) ∷ []

late_stalled : (turns late (new, fresh)).0.stalled ≡ true
unfolding turns turn act begin_send missed_send mark_stalled
late_stalled = refl

wait_stalled-returns_example :
    (wait_step (wait_step (wait_step (turns late (new, fresh))))).1 ≡ returned
wait_stalled-returns_example = wait_stalled-returns late late_stalled
