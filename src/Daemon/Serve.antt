-- ===== src/Daemon/Serve.antt =====
-- src/simplecc/simplecc_daemon.rs: the loop of `serve` and its tasks, in turns. A turn reads a line or
-- lets one task go on to its next await. A request is known by its place in the input.
use simplecc.Base.{
  ℕ, ◌+◌, String, Bool, true, false, not, ◌&&◌, ◌||◌, Option, none, some, List, [], ◌∷◌, Result, ok,
  err, ◌==◌, nat_key, string_key, if◌then◌else◌,
}
use Prim.Native.String.{◌++◌ as append_text}
use simplecc.Events.{EventTx, new, send, mark_stalled}
use simplecc.Daemon.Request.{Request, preserves_document_order, is_lifecycle_barrier, is_install}
use simplecc.Daemon.Handler.{Event, error_event, Handler, stop, perform}
use simplecc.Daemon.Handle.{Readers, handle_request}
use simplecc.Daemon.Shared.{Shared, Outside, Effect, exec}

-- Where a handler runs: in the loop itself, or in one of the two sets of tasks.
pub data Place : Type 0 where
  in_order request_task install_task : Place

-- A request that was read, and what its handler has left to do. An aborted handler is dropped.
pub data Slot : Type 0 where
  absent : Slot
  running : Place → Request → Handler → Slot
  finished aborted : Place → Request → Slot

-- What a handler sends and does, and an error for a line that is no request.
pub data Entry : Type 0 where
  offered : ℕ → Event → Entry
  seen : ℕ → Effect → Entry
  refused : Event → Entry

-- `inline` is the request that the loop itself handles; the log is newest first.
pub record Daemon : Type 0 where
  pub shared : Shared
  pub out : EventTx Event
  pub next : ℕ
  pub inline : Option ℕ
  pub slots : ℕ → Slot
  pub reading : Bool
  pub log : List Entry

abbrev pub started : Daemon
started = record {
  shared = record { registry = none; watcher = none; uri_ft = [] };
  out = new;
  next = 0;
  inline = none;
  slots = λ n. absent;
  reading = true;
  log = [];
}

abbrev pub set_slot : ℕ → Slot → (ℕ → Slot) → ℕ → Slot
set_slot n slot slots m = if n == m then slot else slots m

-- `request_tasks.abort_all`.
abbrev pub abort_task : Slot → Slot
abort_task (running request_task req h) = aborted request_task req
abort_task slot = slot

abbrev pub abort_install : Slot → Slot
abort_install (running install_task req h) = aborted install_task req
abort_install slot = slot

-- Where a request is handled; `serve` asks for a barrier first.
unfoldable pub place_of : Request → Place
unfolding is_lifecycle_barrier preserves_document_order is_install
place_of req =
    if is_lifecycle_barrier req || preserves_document_order req
    then in_order
    else if is_install req
    then install_task
    else request_task

abbrev pub inline_of : Place → ℕ → Option ℕ
inline_of in_order n = some n
inline_of request_task n = none
inline_of install_task n = none

abbrev pub clear_for : Bool → (ℕ → Slot) → ℕ → Slot
clear_for true slots m = abort_task (slots m)
clear_for false slots m = slots m

-- A request goes to its place; a barrier first ends all tasks but the installs.
unfoldable pub accept : Readers → Request → Daemon → Daemon
unfolding place_of is_lifecycle_barrier
accept r req d = record d {
  next = d.next + 1;
  inline = inline_of (place_of req) d.next;
  slots =
      set_slot d.next (running (place_of req) req (handle_request r req))
        (clear_for (is_lifecycle_barrier req) d.slots);
}

-- What `read_request_line` gives.
pub data Line : Type 0 where
  eof : Line
  unreadable : String → Line
  line : String → Line

-- An error with the id 0, for what is no request.
abbrev pub refuse : Bool → String → Daemon → Daemon
refuse taken message d = record d {
  out = (send taken (error_event 0 message) d.out).0;
  log = refused (error_event 0 message) ∷ d.log;
}

abbrev pub take_parsed : Readers → Bool → Result Request → Daemon → Daemon
take_parsed r taken (ok req) d = accept r req d
take_parsed r taken (err e) d = refuse taken (append_text "invalid request: " e) d

abbrev pub take_line : Readers → (String → Result Request) → Bool → Line → Daemon → Daemon
take_line r from_str taken eof d = record d { reading = false }
take_line r from_str taken (unreadable message) d = refuse taken message d
take_line r from_str taken (line String.[]) d = d
take_line r from_str taken (line (String.◌∷◌ c s)) d =
    take_parsed r taken (from_str (String.◌∷◌ c s)) d

abbrev pub is_idle : Option ℕ → Bool
is_idle none = true
is_idle (some n) = false

-- The head of the loop: the next line is read when nothing is handled in it.
unfoldable pub read_line : Readers → (String → Result Request) → Bool → Line → Daemon → Daemon
unfolding accept send
read_line r from_str taken l d =
    if not (d.reading && is_idle d.inline)
    then d
    else if d.out.stalled
    then record d { reading = false }
    else take_line r from_str taken l d

abbrev pub log_all : ℕ → List Effect → List Entry → List Entry
log_all n [] log = log
log_all n (e ∷ es) log = log_all n es (seen n e ∷ log)

-- A handler goes on to its next await.
unfoldable pub go_on : Outside → Bool → ℕ → Place → Request → Handler → Daemon → Daemon
unfolding exec send
go_on w taken n p req stop d = record d {
  inline = elim p [ in_order ↦ none | request_task ↦ d.inline | install_task ↦ d.inline ];
  slots = set_slot n (finished p req) d.slots;
}
go_on w taken n p req (Handler.send e h) d = record d {
  out = (send taken e d.out).0;
  slots = set_slot n (running p req h) d.slots;
  log = offered n e ∷ d.log;
}
go_on w taken n p req (perform o k) d =
    let done = exec w d.shared o in
    record d {
      shared = done.1.0;
      slots = set_slot n (running p req (k done.0)) d.slots;
      log = log_all n done.1.1 d.log;
    }

abbrev pub run_slot : Outside → Bool → ℕ → Slot → Daemon → Daemon
run_slot w taken n (running p req h) d = go_on w taken n p req h d
run_slot w taken n slot d = d

-- The handler in the loop is dropped when the wait for a stall is over first.
abbrev pub drop_slot : Slot → Slot
drop_slot (running p req h) = aborted p req
drop_slot slot = slot

abbrev pub drop_inline : Option ℕ → (ℕ → Slot) → ℕ → Slot
drop_inline none slots = slots
drop_inline (some n) slots = set_slot n (drop_slot (slots n)) slots

-- `abandon` is the end of the loop on a stall; the sets of tasks are aborted after the loop, at the
-- deadline of the shutdown.
pub data Turn : Type 0 where
  read : (taken : Bool) → Line → Turn
  run : Outside → (taken : Bool) → ℕ → Turn
  stall abandon abort_tasks abort_installs : Turn

unfoldable pub turn : Readers → (String → Result Request) → Turn → Daemon → Daemon
unfolding read_line go_on mark_stalled
turn r from_str (read taken l) d = read_line r from_str taken l d
turn r from_str (run w taken n) d = run_slot w taken n (d.slots n) d
turn r from_str stall d = record d { out = mark_stalled d.out }
turn r from_str abandon d =
    if d.out.stalled
    then record d { reading = false; inline = none; slots = drop_inline d.inline d.slots }
    else d
turn r from_str abort_tasks d =
    if d.reading then d else record d { slots = λ m. abort_task (d.slots m) }
turn r from_str abort_installs d =
    if d.reading then d else record d { slots = λ m. abort_install (d.slots m) }

unfoldable pub turns : Readers → (String → Result Request) → List Turn → Daemon → Daemon
unfolding turn
turns r from_str [] d = d
turns r from_str (t ∷ ts) d = turns r from_str ts (turn r from_str t d)
