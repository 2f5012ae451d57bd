-- ===== src/Daemon/Settled.antt =====
-- src/simplecc/simplecc_daemon.rs: the replies of a whole run of the daemon, whatever its tasks do in
-- between.
use simplecc.Base.{ℕ, suc, zero, ◌≤◌, ◌≡◌, refl, String, List, Result, nat_key, arith}
use simplecc.Daemon.Request.{Request, request_id}
use simplecc.Daemon.Answered.{Kind, never, always, unless_newer}
use simplecc.Daemon.Handle.{Readers}
use simplecc.Daemon.Paths.{reply_kind}
use simplecc.Daemon.Serve.{Slot, absent, running, finished, aborted, Entry, started, Turn, turns}
use simplecc.Daemon.Due.{replies, WithId, AtMost, AtEnd, Fair, Due-AtMost}
use simplecc.Daemon.Kept.{turns-Settled, started-Settled}

-- What is known of the replies of the `n`th request, by what has become of it.
abbrev pub IsSettled : Kind → ℕ → Type 0
IsSettled never c = c ≡ 0
IsSettled always c = c ≡ 1
IsSettled unless_newer c = c ≤ 1

abbrev pub Replied : ℕ → List Entry → Slot → Type 0
Replied n log absent = replies n log ≡ 0
Replied n log (running p req h) = (replies n log ≤ 1) × WithId n (request_id req) log
Replied n log (finished p req) =
    IsSettled (reply_kind req) (replies n log) × WithId n (request_id req) log
Replied n log (aborted p req) = (replies n log ≤ 1) × WithId n (request_id req) log

at_most : (kind : Kind) (c : ℕ) → AtMost kind c → c ≤ 1
at_most kind zero h = omega arith
at_most kind (suc zero) h = omega arith
at_most kind (suc (suc c)) h = absurd h

at_end : (kind : Kind) (c : ℕ) → AtEnd kind c → IsSettled kind c
at_end never zero h = refl
at_end never (suc zero) h = absurd h
at_end never (suc (suc c)) h = absurd h
at_end always zero h = absurd h
at_end always (suc zero) h = refl
at_end always (suc (suc c)) h = absurd h
at_end unless_newer zero h = omega arith
at_end unless_newer (suc zero) h = omega arith
at_end unless_newer (suc (suc c)) h = absurd h

Fair-Replied : (n : ℕ) (log : List Entry) (s : Slot) → Fair n log s → Replied n log s
Fair-Replied n log absent fair = fair.0
Fair-Replied n log (running p req h) fair =
    (at_most (reply_kind req) (replies n log) (Due-AtMost _ _ (replies n log) h fair.0), fair.1)
Fair-Replied n log (finished p req) fair = (at_end (reply_kind req) (replies n log) fair.0, fair.1)
Fair-Replied n log (aborted p req) fair = (at_most (reply_kind req) (replies n log) fair.0, fair.1)

-- Whatever lines come and in whatever order the tasks go on, are aborted or stall: a request sends
-- at most one event, with its own id. Once its handler has finished it has sent exactly one, but for
-- the notifications, which send none, and for the requests that a newer one may supersede or whose
-- report may not have changed, which send one or none.
pub turns-Replied :
    (r : Readers) (from_str : String → Result Request) (ts : List Turn) (n : ℕ)
    → Replied n (turns r from_str ts started).log ((turns r from_str ts started).slots n)
turns-Replied r from_str ts n =
    let settled = turns-Settled r from_str ts started started-Settled in
    let d = turns r from_str ts started in Fair-Replied n d.log (d.slots n) (settled.fair n)
