-- ===== src/Daemon/Kept.antt =====
-- src/simplecc/simplecc_daemon.rs: every turn keeps what the handlers owe.
use simplecc.Base.{
  eq_refl, ℕ, ◌+◌, ◌≤◌, ◌<◌, ltb, ltb→ge, ◌≡◌, ◌≢◌, refl, sym, ap, ◌∙◌, subst, String, Bool, true,
  false, not, ◌&&◌, inl, inr, Bool-cases, Option, none, some, List, [], ◌∷◌, Result, ok, err, ◌==◌,
  nat_key, nat_same_iff, if◌then◌else◌, arith,
}
use simplecc.Daemon.Request.{Request, request_id, is_lifecycle_barrier}
use simplecc.Daemon.Handler.{Handler, stop, perform}
use simplecc.Daemon.Handle.{Readers, handle_request}
use simplecc.Daemon.Paths.{reply_kind}
use simplecc.Daemon.Replies.{handle_request-Answered}
use simplecc.Daemon.Shared.{Outside, exec}
use simplecc.Daemon.Serve.{
  Place, Slot, absent, running, finished, aborted, Entry, offered, Daemon, started, set_slot,
  abort_task, abort_install, clear_for, place_of, accept, Line, eof, unreadable, line, refuse,
  take_parsed, take_line, is_idle, read_line, log_all, go_on, run_slot, drop_slot, drop_inline,
  Turn, read, run, stall, abandon, abort_tasks, abort_installs, turn, turns,
}
use simplecc.Daemon.Due.{
  replies, Due, Fair, Settled, Due-end, Due-perform, abort-Fair, abort_task-Fair,
  abort_install-Fair, clear_for-Fair, set-All, FairAt-map, set-fresh, running_absent, log_all-Fair,
  other-Fair, send-Fair,
}

go_on-Settled :
    (w : Outside) (taken : Bool) (n : ℕ) (p : Place) (req : Request) (h : Handler) (d : Daemon)
    → n < d.next
    → Fair n d.log (running p req h)
    → Settled d
    → Settled (go_on w taken n p req h d)
unfolding go_on
go_on-Settled w taken n p req stop d early (due, ids) settled = record {
  fair =
      set-All (λ m s. Fair m d.log s) n (finished p req) d.slots
        (Due-end (reply_kind req) (request_id req) (replies n d.log) due, ids)
        (λ m other. settled.fair m);
  fresh = set-fresh n (finished p req) d early settled.fresh;
}
go_on-Settled w taken n p req (Handler.send e h) d early fair settled = record {
  fair =
      set-All (λ m s. Fair m (offered n e ∷ d.log) s) n (running p req h) d.slots
        (send-Fair n p req e h d.log fair)
        (λ m other. other-Fair m n e d.log (d.slots m) other (settled.fair m));
  fresh = set-fresh n (running p req h) d early settled.fresh;
}
go_on-Settled w taken n p req (perform o k) d early (due, ids) settled =
    let done = exec w d.shared o in
    let log = log_all n done.1.1 d.log in
    record {
      fair =
          set-All (λ m s. Fair m log s) n (running p req (k done.0)) d.slots
            (log_all-Fair n n done.1.1 d.log (running p req (k done.0))
              (Due-perform (reply_kind req) (request_id req) (replies n d.log) o k done.0 due, ids))
            (λ m other. log_all-Fair m n done.1.1 d.log (d.slots m) (settled.fair m));
      fresh = set-fresh n (running p req (k done.0)) d early settled.fresh;
    }

-- A slot that is in use belongs to a request that was read.
in_use : (d : Daemon) (n : ℕ) → Settled d → d.slots n ≢ absent → n < d.next
in_use d n settled used = elim (Bool-cases (ltb n d.next)) [
  | inl early ↦ ground (arith, early)
  | inr late ↦ absurd (used (settled.fresh n (ltb→ge n d.next late)))
]

run-Settled :
    (w : Outside) (taken : Bool) (n : ℕ) (s : Slot) (d : Daemon)
    → d.slots n ≡ s
    → Settled d
    → Settled (run_slot w taken n s d)
run-Settled w taken n absent d at settled = settled
run-Settled w taken n (running p req h) d at settled =
    go_on-Settled w taken n p req h d
      (in_use d n settled (λ e. running_absent p req h (sym at ∙ e)))
      (subst (λ s. Fair n d.log s) at (settled.fair n)) settled
run-Settled w taken n (finished p req) d at settled = settled
run-Settled w taken n (aborted p req) d at settled = settled

pub clear_for-absent :
    (b : Bool) (slots : ℕ → Slot) (m : ℕ) → slots m ≡ absent → clear_for b slots m ≡ absent
clear_for-absent true slots m at = ap abort_task at
clear_for-absent false slots m at = at

pub accept_fresh :
    (n m : ℕ) (s : Slot) (slots : ℕ → Slot)
    → n + 1 ≤ m
    → slots m ≡ absent
    → set_slot n s slots m ≡ absent
accept_fresh n m s slots late at = ground (arith, late, at, nat_same_iff n m)

drop_fresh :
    (n m : ℕ) (slots : ℕ → Slot)
    → slots m ≡ absent
    → set_slot n (drop_slot (slots n)) slots m ≡ absent
drop_fresh n m slots at = elim (Bool-cases (n == m)) [
  | inl same ↦
      subst (λ i. set_slot i (drop_slot (slots i)) slots m ≡ absent)
        (sym ((nat_same_iff n m).0 same))
        (subst (λ b. (if b then drop_slot (slots m) else slots m) ≡ absent) (sym (eq_refl m))
          (ap drop_slot at))
  | inr other ↦ subst (λ b. (if b then drop_slot (slots n) else slots m) ≡ absent) (sym other) at
]

accept-Settled : (r : Readers) (req : Request) (d : Daemon) → Settled d → Settled (accept r req d)
unfolding accept
accept-Settled r req d settled =
    let barrier = is_lifecycle_barrier req in
    let before =
      subst (λ s. Fair d.next d.log s) (settled.fresh d.next (omega arith)) (settled.fair d.next) in
    record {
      fair =
          set-All (λ m s. Fair m d.log s) d.next (running (place_of req) req (handle_request r req))
            (clear_for barrier d.slots)
            (
              subst (λ c. Due (reply_kind req) (request_id req) c (handle_request r req))
                  (sym before.0) (handle_request-Answered r req),
              before.1 (request_id req),
            )
            (λ m other. clear_for-Fair barrier m d.log d.slots (settled.fair m));
      fresh = λ m late.
          accept_fresh d.next m (running (place_of req) req (handle_request r req))
            (clear_for barrier d.slots) late
            (clear_for-absent barrier d.slots m (settled.fresh m (omega (arith, late))));
    }

refuse-Settled :
    (taken : Bool) (message : String) (d : Daemon) → Settled d → Settled (refuse taken message d)
refuse-Settled taken message d settled = record {
  fair = λ n. FairAt-map (replies n d.log) _ _ (d.slots n) (λ id w. w) (settled.fair n);
  fresh = settled.fresh;
}

-- The loop, its wait and its sender leave the slots and the log alone.
same-Settled :
    (d e : Daemon) → d.log ≡ e.log → d.slots ≡ e.slots → d.next ≡ e.next → Settled d → Settled e
same-Settled d e log slots next settled = record {
  fair = λ n.
      subst (λ l. Fair n l (e.slots n)) log
        (subst (λ f. Fair n d.log (f n)) slots (settled.fair n));
  fresh = λ n late.
      subst (λ f. f n ≡ absent) slots (settled.fresh n (subst (λ k. k ≤ n) (sym next) late));
}

parsed-Settled :
    (r : Readers) (taken : Bool) (req : Result Request) (d : Daemon)
    → Settled d
    → Settled (take_parsed r taken req d)
parsed-Settled r taken (ok req) d settled = accept-Settled r req d settled
parsed-Settled r taken (err e) d settled = refuse-Settled taken _ d settled

line-Settled :
    (r : Readers) (from_str : String → Result Request) (taken : Bool) (l : Line) (d : Daemon)
    → Settled d
    → Settled (take_line r from_str taken l d)
line-Settled r from_str taken eof d settled = same-Settled d _ refl refl refl settled
line-Settled r from_str taken (unreadable message) d settled =
    refuse-Settled taken message d settled
line-Settled r from_str taken (line String.[]) d settled = settled
line-Settled r from_str taken (line (String.◌∷◌ c s)) d settled =
    parsed-Settled r taken (from_str (String.◌∷◌ c s)) d settled

if-Settled : (b : Bool) (d e : Daemon) → Settled d → Settled e → Settled (if b then d else e)
if-Settled true d e first second = first
if-Settled false d e first second = second

drop-Settled :
    (o : Option ℕ) (d : Daemon)
    → Settled d
    → Settled (record d { reading = false; inline = none; slots = drop_inline o d.slots })
drop-Settled none d settled = same-Settled d _ refl refl refl settled
drop-Settled (some n) d settled = record {
  fair =
      set-All (λ m s. Fair m d.log s) n (drop_slot (d.slots n)) d.slots
        (abort-Fair n d.log (d.slots n) (settled.fair n)) (λ m other. settled.fair m);
  fresh = λ m late. drop_fresh n m d.slots (settled.fresh m late);
}

map-Settled :
    (f : Slot → Slot) (d : Daemon)
    → ((n : ℕ) (log : List Entry) (s : Slot) → Fair n log s → Fair n log (f s))
    → f absent ≡ absent
    → Settled d
    → Settled (record d { slots = λ m. f (d.slots m) })
map-Settled f d keeps still settled = record {
  fair = λ n. keeps n d.log (d.slots n) (settled.fair n);
  fresh = λ n late. ap f (settled.fresh n late) ∙ still;
}

turn-Settled :
    (r : Readers) (from_str : String → Result Request) (t : Turn) (d : Daemon)
    → Settled d
    → Settled (turn r from_str t d)
unfolding turn read_line
turn-Settled r from_str (read taken l) d settled =
    if-Settled (not (d.reading && is_idle d.inline)) d _ settled (
      if-Settled d.out.stalled _ _ (same-Settled d _ refl refl refl settled)
        (line-Settled r from_str taken l d settled))
turn-Settled r from_str (run w taken n) d settled = run-Settled w taken n (d.slots n) d refl settled
turn-Settled r from_str stall d settled = same-Settled d _ refl refl refl settled
turn-Settled r from_str abandon d settled =
    if-Settled d.out.stalled _ d (drop-Settled d.inline d settled) settled
turn-Settled r from_str abort_tasks d settled =
    if-Settled d.reading d _ settled (map-Settled abort_task d abort_task-Fair refl settled)
turn-Settled r from_str abort_installs d settled =
    if-Settled d.reading d _ settled (map-Settled abort_install d abort_install-Fair refl settled)

pub turns-Settled :
    (r : Readers) (from_str : String → Result Request) (ts : List Turn) (d : Daemon)
    → Settled d
    → Settled (turns r from_str ts d)
unfolding turns
turns-Settled r from_str [] d settled = settled
turns-Settled r from_str (t ∷ ts) d settled =
    turns-Settled r from_str ts (turn r from_str t d) (turn-Settled r from_str t d settled)

pub started-Settled : Settled started
started-Settled = record { fair = λ n. (refl, λ id. tt); fresh = λ n late. refl }
