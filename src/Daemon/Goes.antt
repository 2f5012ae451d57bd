-- ===== src/Daemon/Goes.antt =====
-- src/simplecc/simplecc_daemon.rs: the order of requests as handlers go on and end.
use simplecc.Base.{
  ℕ, suc, ◌≡◌, ◌≢◌, refl, sym, ap, ◌∙◌, subst, Bool, true, false, Option, none, some, List, nat_key,
  arith,
}
use simplecc.Daemon.Request.{Request, is_lifecycle_barrier}
use simplecc.Events.{EventTx}
use simplecc.Daemon.Handler.{Event, Handler, stop, perform}
use simplecc.Daemon.Shared.{Shared, Outside, exec}
use simplecc.Daemon.Due.{set-All}
use simplecc.Daemon.Serve.{
  Place, in_order, request_task, install_task, Slot, absent, running, finished, aborted, Entry,
  Daemon, set_slot, abort_task, clear_for, go_on, run_slot,
}
use simplecc.Daemon.Acts.{
  Below, placed, is_barrier, active, Orderly, Like, Like-same, task-Like, set-Like, Adds, Adds-none,
  Adds-offer, Adds-seen, active_early, still_inactive,
}

go-Orderly :
    (n : ℕ) (d : Daemon) (out : EventTx Event) (shared : Shared) (reading : Bool)
    (inline : Option ℕ) (slots : ℕ → Slot) (log : List Entry)
    → Orderly d
    → active (d.slots n) ≡ true
    → Adds n d.log log
    → ((m : ℕ) → Like (d.slots m) (slots m))
    → ((m : ℕ) → placed (slots m) ≡ some in_order → active (slots m) ≡ true → inline ≡ d.inline)
    → Orderly (record {
      shared = shared;
      out = out;
      next = d.next;
      inline = inline;
      slots = slots;
      reading = reading;
      log = log;
    })
go-Orderly n d out shared reading inline slots log o runs adds like same = record {
  below = adds.keeps_below d.next (active_early d n o runs) o.below;
  fresh = λ m late. (like m).used (o.fresh m late);
  alone = λ m at is.
      let old = o.alone m (sym ((like m).same_place) ∙ at) ((like m).active_before is) in
      (same m at is ∙ old.0, old.1);
  cleared = λ b m bar before at.
      still_inactive (d.slots m) (slots m) (like m)
        (o.cleared b m (sym ((like b).same_barrier) ∙ bar) before (sym ((like m).same_place) ∙ at));
  ordered = λ m at.
      let at' = sym ((like m).same_place) ∙ at in
      adds.keeps_until (suc m) m (omega arith)
        (λ e.
          subst (λ k. Below k d.log)
            (let old = o.alone m at' (subst (λ k. active (d.slots k) ≡ true) e runs) in old.1)
            o.below)
        (o.ordered m at');
  barred = λ b m bar before at.
      let bar' = sym ((like b).same_barrier) ∙ bar in
      let at' = sym ((like m).same_place) ∙ at in
      adds.keeps_until b m before
        (λ e. absurd (
          ground
            (arith, o.cleared b m bar' before at', subst (λ k. active (d.slots k) ≡ true) e runs)))
        (o.barred b m bar' before at');
}

pub change-Orderly :
    (d : Daemon) (out : EventTx Event) (reading : Bool) (inline : Option ℕ) (slots : ℕ → Slot)
    → Orderly d
    → ((m : ℕ) → Like (d.slots m) (slots m))
    → ((m : ℕ) → placed (slots m) ≡ some in_order → active (slots m) ≡ true → inline ≡ d.inline)
    → Orderly (record d { out = out; inline = inline; slots = slots; reading = reading })
change-Orderly d out reading inline slots o like same = record {
  below = o.below;
  fresh = λ m late. (like m).used (o.fresh m late);
  alone = λ m at is.
      let old = o.alone m (sym ((like m).same_place) ∙ at) ((like m).active_before is) in
      (same m at is ∙ old.0, old.1);
  cleared = λ b m bar before at.
      still_inactive (d.slots m) (slots m) (like m)
        (o.cleared b m (sym ((like b).same_barrier) ∙ bar) before (sym ((like m).same_place) ∙ at));
  ordered = λ m at. o.ordered m (sym ((like m).same_place) ∙ at);
  barred = λ b m bar before at.
      o.barred b m (sym ((like b).same_barrier) ∙ bar) before (sym ((like m).same_place) ∙ at);
}

-- No other request is handled in the loop.
pub none_else :
    (d : Daemon) (n m : ℕ)
    → Orderly d
    → d.inline ≡ some n
    → n ≢ m
    → placed (d.slots m) ≡ some in_order
    → active (d.slots m) ≡ true
    → ⊥
none_else d n m o at other place is =
    let old = (o.alone m place is).0 in absurd (ground (arith, at, old, other))

-- What the loop handles when a handler has ended.
abbrev left_inline : Place → Option ℕ → Option ℕ
left_inline p inline = elim p [ in_order ↦ none | request_task ↦ inline | install_task ↦ inline ]

-- A handler that has ended was the one in the loop, or the loop's is still there.
left_alone :
    (n : ℕ) (p : Place) (req : Request) (h : Handler) (d : Daemon)
    → d.slots n ≡ running p req h
    → Orderly d
    → (m : ℕ) → placed (set_slot n (finished p req) d.slots m) ≡ some in_order
    → active (set_slot n (finished p req) d.slots m) ≡ true
    → left_inline p d.inline ≡ d.inline
left_alone n in_order req h d at o =
    set-All (λ m s. placed s ≡ some in_order → active s ≡ true → none ≡ d.inline) n
      (finished in_order req) d.slots (λ place is. absurd (ground (arith, is)))
      (λ m other place is.
        absurd (none_else d n m o ((o.alone n (ap placed at) (ap active at)).0) other place is))
left_alone n request_task req h d at o = λ m place is. refl
left_alone n install_task req h d at o = λ m place is. refl

go-Like :
    (n : ℕ) (p : Place) (req : Request) (h : Handler) (d : Daemon) (s : Slot)
    → d.slots n ≡ running p req h
    → placed s ≡ some p
    → is_barrier s ≡ is_lifecycle_barrier req
    → Like (d.slots n) s
go-Like n p req h d s at place barrier =
    subst (λ t. Like t s) (sym at)
      (record {
        same_place = place;
        same_barrier = barrier;
        active_before = λ is. refl;
        used = λ e. absurd (ground (arith, ap active e));
      })

go_on-Orderly :
    (w : Outside) (taken : Bool) (n : ℕ) (p : Place) (req : Request) (h : Handler) (d : Daemon)
    → d.slots n ≡ running p req h
    → Orderly d
    → Orderly (go_on w taken n p req h d)
unfolding go_on
go_on-Orderly w taken n p req stop d at o =
    go-Orderly n d d.out d.shared d.reading _ _ d.log o (ap active at) (Adds-none n d.log)
      (set-Like n (finished p req) d.slots (go-Like n p req stop d (finished p req) at refl refl))
      (left_alone n p req stop d at o)
go_on-Orderly w taken n p req (Handler.send e h) d at o =
    go-Orderly n d _ d.shared d.reading d.inline _ _ o (ap active at) (Adds-offer n e d.log)
      (set-Like n (running p req h) d.slots (go-Like n p req _ d (running p req h) at refl refl))
      (λ m place is. refl)
go_on-Orderly w taken n p req (perform a k) d at o =
    let done = exec w d.shared a in
    go-Orderly n d d.out _ d.reading d.inline _ _ o (ap active at) (Adds-seen n done.1.1 d.log)
      (set-Like n (running p req (k done.0)) d.slots
        (go-Like n p req _ d (running p req (k done.0)) at refl refl))
      (λ m place is. refl)

pub run-Orderly :
    (w : Outside) (taken : Bool) (n : ℕ) (s : Slot) (d : Daemon)
    → d.slots n ≡ s
    → Orderly d
    → Orderly (run_slot w taken n s d)
run-Orderly w taken n absent d at o = o
run-Orderly w taken n (running p req h) d at o = go_on-Orderly w taken n p req h d at o
run-Orderly w taken n (finished p req) d at o = o
run-Orderly w taken n (aborted p req) d at o = o

cleared_slot :
    (s : Slot) → placed (abort_task s) ≡ some request_task → active (abort_task s) ≡ false
cleared_slot absent at = refl
cleared_slot (running in_order req h) at = absurd (ground (arith, at))
cleared_slot (running request_task req h) at = refl
cleared_slot (running install_task req h) at = absurd (ground (arith, at))
cleared_slot (finished p req) at = refl
cleared_slot (aborted p req) at = refl

pub clear-Like : (b : Bool) (slots : ℕ → Slot) (m : ℕ) → Like (slots m) (clear_for b slots m)
clear-Like true slots m = task-Like (slots m)
clear-Like false slots m = Like-same (slots m)

-- After a barrier no task of a request runs.
pub cleared_all :
    (slots : ℕ → Slot) (m : ℕ)
    → placed (clear_for true slots m) ≡ some request_task
    → active (clear_for true slots m) ≡ false
cleared_all slots m = cleared_slot (slots m)
