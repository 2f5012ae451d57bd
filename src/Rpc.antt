-- ===== src/Rpc.antt =====
-- src/simplecc/lsp/client.rs: requests to the language server (`request_with_timeout_inner`, its helpers, and the
-- dispatcher's part in them), as steps on the state that the tasks of one client share. A step is
-- what runs under one lock: a task registers, submits under the lock of `latest_requests`, and
-- finishes, times out or is dropped; the dispatcher delivers a response or meets the end of the stream.
-- Request ids do not wrap. Maps are functions.
pub mod Step
pub mod Phases
pub mod Wire
pub mod Order
pub mod Latest
pub mod Newest
pub mod Leaks
pub mod Ends
pub mod Submits
pub mod Settled
mod Tests
use simplecc.Base.{
  ℕ, suc, ◌+◌, String, ◌≡◌, Bool, true, false, not, ◌&&◌, ◌||◌, Option, none, some, List, [], ◌∷◌,
  ltb, ◌==◌, nat_key, string_key, if◌then◌else◌,
}
use simplecc.Json.{Json}

-- A JSON-RPC response.
pub data Response : Type 0 where
  result : Json → Response
  error : Json → Response

-- The receiving half of a request's channel.
pub data Channel : Type 0 where
  open_channel closed : Channel
  answered : Response → Channel

-- `Ok(None)`, `Err(…)`, `Ok(Some(…))`.
pub data Outcome : Type 0 where
  superseded errored : Outcome
  resolved : Json → Outcome

pub data Phase : Type 0 where
  -- `dropped` is a call whose future was dropped before it came to an end.
  registered waiting dropped : Phase
  done : Outcome → Phase

-- A call of `request_with_timeout_inner`; `key` is its `latest_key`.
pub record Task : Type 0 where
  pub key : Option (String × ℕ)
  pub phase : Phase
  pub channel : Channel

pub data Sent : Type 0 where
  request : ℕ → Sent
  cancel : ℕ → Sent

pub record Client : Type 0 where
  pub next_id : ℕ
  pub pending : ℕ → Bool
  pub latest : String → Option (ℕ × ℕ)
  pub alive : Bool
  pub tasks : ℕ → Option Task
  -- What was written to the server, newest first.
  pub wire : List Sent

abbrev pub init : Client
init = record {
  next_id = 1;
  pending = λ _. false;
  latest = λ _. none;
  alive = true;
  tasks = λ _. none;
  wire = [];
}

abbrev pub update {ℓ} : {A : Type ℓ} → (ℕ → A) → ℕ → A → ℕ → A
update f i a j = if i == j then a else f j

abbrev pub update_key {ℓ} : {A : Type ℓ} → (String → A) → String → A → String → A
update_key f k a j = if k == j then a else f j

-- Dropping a sender closes its channel, unless a response is in it.
abbrev pub close : Option Task → Option Task
close none = none
close (some t) = some (record t {
  channel = elim t.channel [ open_channel ↦ closed | closed ↦ closed | answered r ↦ answered r ];
})

abbrev pub set_phase : Phase → Option Task → Option Task
set_phase p none = none
set_phase p (some t) = some (record t { phase = p })

-- `pending.remove(&id)`, the sender being dropped.
unfoldable pub remove_pending : ℕ → Client → Client
remove_pending i s = record s {
  pending = update s.pending i false;
  tasks = if s.pending i then update s.tasks i (close (s.tasks i)) else s.tasks;
}

unfoldable pub mark_dead : Client → Client
mark_dead s = record s {
  alive = false;
  pending = λ _. false;
  tasks = λ j. if s.pending j then close (s.tasks j) else s.tasks j;
}

-- `send_message`; `accepts` is whether the transport takes the write.
unfoldable pub send_message : Bool → Sent → Client → Client × Bool
unfolding mark_dead
send_message accepts m s =
    if not s.alive
    then (s, false)
    else if accepts
    then (record s { wire = m ∷ s.wire }, true)
    else (mark_dead s, false)

unfoldable pub cancel_pending_request : Bool → ℕ → Client → Client
unfolding remove_pending send_message
cancel_pending_request accepts i s =
    if s.pending i then (send_message accepts (cancel i) (remove_pending i s)).0 else s

-- Whether the entry of a key still points at `i`.
abbrev pub points_at : Option (ℕ × ℕ) → ℕ → Bool
points_at none i = false
points_at (some (seq, j)) i = j == i

-- `clear_latest_request`: the new state, and whether the key still pointed at `i`.
unfoldable pub clear_latest_request : String → ℕ → Client → Client × Bool
clear_latest_request k i s =
    if points_at (s.latest k) i
    then (record s { latest = update_key s.latest k none }, true)
    else (s, false)

unfoldable pub end_task : ℕ → Outcome → Client → Client
end_task i o s = record s { tasks = update s.tasks i (set_phase (done o) (s.tasks i)) }
