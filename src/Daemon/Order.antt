-- ===== src/Daemon/Order.antt =====
-- src/simplecc/simplecc_daemon.rs: the order in which requests act. A document's notifications act in
-- the order of the input, and no task outlives a barrier.
use simplecc.Base.{
  ℕ, suc, ◌+◌, ◌<◌, ◌≡◌, refl, sym, String, Bool, true, false, not, ◌&&◌, Option, none, some, List,
  [], ◌∷◌, Result, ok, err, nat_key, if◌then◌else◌, arith,
}
use simplecc.Daemon.Request.{Request, is_lifecycle_barrier}
use simplecc.Events.{EventTx}
use simplecc.Daemon.Handler.{Event}
use simplecc.Daemon.Handle.{Readers, handle_request}
use simplecc.Daemon.Kept.{accept_fresh, clear_for-absent}
use simplecc.Daemon.Due.{set-All}
use simplecc.Daemon.Serve.{
  in_order, request_task, Slot, absent, running, finished, aborted, Daemon, started, clear_for,
  place_of, accept, Line, eof, unreadable, line, refuse, take_parsed, take_line, is_idle, read_line,
  drop_slot, drop_inline, Turn, read, run, stall, abandon, abort_tasks, abort_installs, turn, turns,
}
use simplecc.Daemon.Acts.{
  Until, placed, is_barrier, active, Orderly, Like-same, drop-Like, task-Like, install-Like,
  set-Like,
}
use simplecc.Daemon.Goes.{change-Orderly, none_else, run-Orderly}
use simplecc.Daemon.Accepts.{
  Below-mono, accept_cleared, accept_barred, accept_ordered, accept_alone,
}

accept-Orderly :
    (r : Readers) (req : Request) (d : Daemon)
    → d.inline ≡ none
    → Orderly d
    → Orderly (accept r req d)
unfolding accept
accept-Orderly r req d idle o =
    let h = handle_request r req in
    let p = place_of req in
    record {
      below = Below-mono d.next (d.next + 1) d.log (omega arith) o.below;
      fresh = λ m late.
          accept_fresh d.next m (running p req h) (clear_for (is_lifecycle_barrier req) d.slots)
            late
            (clear_for-absent (is_lifecycle_barrier req) d.slots m
              (o.fresh m (omega (arith, late))));
      alone = accept_alone req h p d o idle;
      cleared = accept_cleared req h p d o idle;
      ordered = accept_ordered req h p d o idle;
      barred = accept_barred req h p d o idle;
    }

-- A line that is no request is answered, and nothing else changes.
refuse-Orderly :
    (taken : Bool) (message : String) (d : Daemon) → Orderly d → Orderly (refuse taken message d)
refuse-Orderly taken message d o = record {
  below = o.below;
  fresh = o.fresh;
  alone = o.alone;
  cleared = o.cleared;
  ordered = o.ordered;
  barred = o.barred;
}

parsed-Orderly :
    (r : Readers) (taken : Bool) (req : Result Request) (d : Daemon)
    → d.inline ≡ none
    → Orderly d
    → Orderly (take_parsed r taken req d)
parsed-Orderly r taken (ok req) d idle o = accept-Orderly r req d idle o
parsed-Orderly r taken (err e) d idle o = refuse-Orderly taken _ d o

keep-Orderly :
    (d : Daemon) (out : EventTx Event) (reading : Bool)
    → Orderly d
    → Orderly (record d { out = out; reading = reading })
keep-Orderly d out reading o =
    change-Orderly d out reading d.inline d.slots o (λ m. Like-same (d.slots m)) (λ m at is. refl)

line-Orderly :
    (r : Readers) (from_str : String → Result Request) (taken : Bool) (l : Line) (d : Daemon)
    → d.inline ≡ none
    → Orderly d
    → Orderly (take_line r from_str taken l d)
line-Orderly r from_str taken eof d idle o = keep-Orderly d d.out false o
line-Orderly r from_str taken (unreadable message) d idle o = refuse-Orderly taken message d o
line-Orderly r from_str taken (line String.[]) d idle o = o
line-Orderly r from_str taken (line (String.◌∷◌ c s)) d idle o =
    parsed-Orderly r taken (from_str (String.◌∷◌ c s)) d idle o

if-Orderly :
    (b : Bool) (d e : Daemon)
    → (b ≡ true → Orderly d)
    → (b ≡ false → Orderly e)
    → Orderly (if b then d else e)
if-Orderly true d e first second = first refl
if-Orderly false d e first second = second refl

idle_none : (o : Option ℕ) → is_idle o ≡ true → o ≡ none
idle_none none h = refl
idle_none (some n) h = absurd (ground (arith, h))

drop_stops : (s : Slot) → active (drop_slot s) ≡ false
drop_stops absent = refl
drop_stops (running p req h) = refl
drop_stops (finished p req) = refl
drop_stops (aborted p req) = refl

drop-Orderly :
    (o : Option ℕ) (d : Daemon)
    → d.inline ≡ o
    → Orderly d
    → Orderly (record d { reading = false; inline = none; slots = drop_inline o d.slots })
drop-Orderly none d at o =
    change-Orderly d d.out false none d.slots o (λ m. Like-same (d.slots m)) (λ m place is. sym at)
drop-Orderly (some n) d at o =
    change-Orderly d d.out false none _ o
      (set-Like n (drop_slot (d.slots n)) d.slots (drop-Like (d.slots n)))
      (set-All (λ m s. placed s ≡ some in_order → active s ≡ true → none ≡ d.inline) n
        (drop_slot (d.slots n)) d.slots
        (λ place is. absurd (ground (arith, is, drop_stops (d.slots n))))
        (λ m other place is. absurd (none_else d n m o at other place is)))

turn-Orderly :
    (r : Readers) (from_str : String → Result Request) (t : Turn) (d : Daemon)
    → Orderly d
    → Orderly (turn r from_str t d)
unfolding turn read_line
turn-Orderly r from_str (read taken l) d o =
    if-Orderly (not (d.reading && is_idle d.inline)) d _ (λ _. o)
      (λ open_loop.
        if-Orderly d.out.stalled _ _ (λ _. keep-Orderly d d.out false o)
          (λ _.
            line-Orderly r from_str taken l d (idle_none d.inline (ground (arith, open_loop))) o))
turn-Orderly r from_str (run w taken n) d o = run-Orderly w taken n (d.slots n) d refl o
turn-Orderly r from_str stall d o = keep-Orderly d _ d.reading o
turn-Orderly r from_str abandon d o =
    if-Orderly d.out.stalled _ d (λ _. drop-Orderly d.inline d refl o) (λ _. o)
turn-Orderly r from_str abort_tasks d o =
    if-Orderly d.reading d _ (λ _. o)
      (λ _.
        change-Orderly d d.out d.reading d.inline _ o (λ m. task-Like (d.slots m))
          (λ m at is. refl))
turn-Orderly r from_str abort_installs d o =
    if-Orderly d.reading d _ (λ _. o)
      (λ _.
        change-Orderly d d.out d.reading d.inline _ o (λ m. install-Like (d.slots m))
          (λ m at is. refl))

turns-Orderly :
    (r : Readers) (from_str : String → Result Request) (ts : List Turn) (d : Daemon)
    → Orderly d
    → Orderly (turns r from_str ts d)
unfolding turns
turns-Orderly r from_str [] d o = o
turns-Orderly r from_str (t ∷ ts) d o =
    turns-Orderly r from_str ts (turn r from_str t d) (turn-Orderly r from_str t d o)

started-Orderly : Orderly started
started-Orderly = record {
  below = tt;
  fresh = λ n late. refl;
  alone = λ n at is. absurd (ground (arith, at));
  cleared = λ b m bar before at. absurd (ground (arith, at));
  ordered = λ n at. tt;
  barred = λ b m bar before at. tt;
}

-- Whatever the turns are: when a request that is handled in the loop sends an event or calls a
-- client, no request that came after it has done anything yet.
pub turns-InOrder :
    (r : Readers) (from_str : String → Result Request) (ts : List Turn) (n : ℕ)
    → placed ((turns r from_str ts started).slots n) ≡ some in_order
    → Until (suc n) n (turns r from_str ts started).log
turns-InOrder r from_str ts n at =
    (turns-Orderly r from_str ts started started-Orderly).ordered n at

-- Whatever the turns are: once an `initialize` or a `shutdown` or any later request has done
-- anything, a task of an earlier request, an install apart, does nothing more.
pub turns-Barred :
    (r : Readers) (from_str : String → Result Request) (ts : List Turn) (b m : ℕ)
    → is_barrier ((turns r from_str ts started).slots b) ≡ true
    → m < b
    → placed ((turns r from_str ts started).slots m) ≡ some request_task
    → Until b m (turns r from_str ts started).log
turns-Barred r from_str ts b m bar before at =
    (turns-Orderly r from_str ts started started-Orderly).barred b m bar before at
