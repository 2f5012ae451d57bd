-- ===== src/Daemon/Acts.antt =====
-- src/simplecc/simplecc_daemon.rs: what requests have done before one another, by the log.
use simplecc.Base.{
  ℕ, suc, ◌≤◌, ◌<◌, ltb, ltb→ge, ◌≡◌, refl, sym, ap, subst, Bool, true, false, inl, inr, Bool-cases,
  Option, none, some, List, [], ◌∷◌, nat_key, arith,
}
use simplecc.Daemon.Request.{is_lifecycle_barrier}
use simplecc.Daemon.Handler.{Event}
use simplecc.Daemon.Shared.{Effect}
use simplecc.Daemon.Due.{set-All}
use simplecc.Daemon.Serve.{
  Place, in_order, request_task, install_task, Slot, absent, running, finished, aborted, Entry,
  offered, seen, refused, Daemon, set_slot, abort_task, abort_install, log_all, drop_slot,
}

-- What has been done is of requests before `b`.
abbrev pub Below : ℕ → List Entry → Type 0
Below b [] = Unit
Below b (offered k e ∷ log) = (k < b) × Below b log
Below b (seen k e ∷ log) = (k < b) × Below b log
Below b (refused e ∷ log) = Below b log

-- Whenever `m` does something, nothing of `b` or of a later request has been done before.
abbrev pub Until : ℕ → ℕ → List Entry → Type 0
Until b m [] = Unit
Until b m (offered k e ∷ log) = (k ≡ m → Below b log) × Until b m log
Until b m (seen k e ∷ log) = (k ≡ m → Below b log) × Until b m log
Until b m (refused e ∷ log) = Until b m log

abbrev pub placed : Slot → Option Place
placed absent = none
placed (running p req h) = some p
placed (finished p req) = some p
placed (aborted p req) = some p

abbrev pub is_barrier : Slot → Bool
is_barrier absent = false
is_barrier (running p req h) = is_lifecycle_barrier req
is_barrier (finished p req) = is_lifecycle_barrier req
is_barrier (aborted p req) = is_lifecycle_barrier req

abbrev pub active : Slot → Bool
active absent = false
active (running p req h) = true
active (finished p req) = false
active (aborted p req) = false

pub record Orderly (d : Daemon) : Type 0 where
  pub below : Below d.next d.log
  pub fresh : (n : ℕ) → d.next ≤ n → d.slots n ≡ absent
  pub alone :
      (n : ℕ)
      → placed (d.slots n) ≡ some in_order
      → active (d.slots n) ≡ true
      → (d.inline ≡ some n) × (d.next ≡ suc n)
  pub cleared :
      (b m : ℕ)
      → is_barrier (d.slots b) ≡ true
      → m < b
      → placed (d.slots m) ≡ some request_task
      → active (d.slots m) ≡ false
  pub ordered : (n : ℕ) → placed (d.slots n) ≡ some in_order → Until (suc n) n d.log
  pub barred :
      (b m : ℕ)
      → is_barrier (d.slots b) ≡ true
      → m < b
      → placed (d.slots m) ≡ some request_task
      → Until b m d.log

-- A slot that goes on, or ends.
pub record Like (s s' : Slot) : Type 0 where
  pub same_place : placed s' ≡ placed s
  pub same_barrier : is_barrier s' ≡ is_barrier s
  pub active_before : active s' ≡ true → active s ≡ true
  pub used : s ≡ absent → s' ≡ absent

pub Like-same : (s : Slot) → Like s s
Like-same s = record {
  same_place = refl;
  same_barrier = refl;
  active_before = λ h. h;
  used = λ e. e;
}

pub drop-Like : (s : Slot) → Like s (drop_slot s)
drop-Like absent = Like-same absent
drop-Like (running p req h) = record {
  same_place = refl;
  same_barrier = refl;
  active_before = λ h. refl;
  used = λ e. absurd (ground (arith, ap active e));
}
drop-Like (finished p req) = Like-same (finished p req)
drop-Like (aborted p req) = Like-same (aborted p req)

pub task-Like : (s : Slot) → Like s (abort_task s)
task-Like absent = Like-same absent
task-Like (running in_order req h) = Like-same (running in_order req h)
task-Like (running request_task req h) = drop-Like (running request_task req h)
task-Like (running install_task req h) = Like-same (running install_task req h)
task-Like (finished p req) = Like-same (finished p req)
task-Like (aborted p req) = Like-same (aborted p req)

pub install-Like : (s : Slot) → Like s (abort_install s)
install-Like absent = Like-same absent
install-Like (running in_order req h) = Like-same (running in_order req h)
install-Like (running request_task req h) = Like-same (running request_task req h)
install-Like (running install_task req h) = drop-Like (running install_task req h)
install-Like (finished p req) = Like-same (finished p req)
install-Like (aborted p req) = Like-same (aborted p req)

pub set-Like :
    (n : ℕ) (s : Slot) (slots : ℕ → Slot)
    → Like (slots n) s
    → (m : ℕ) → Like (slots m) (set_slot n s slots m)
set-Like n s slots like =
    set-All (λ m t. Like (slots m) t) n s slots like (λ m other. Like-same (slots m))

-- What `n` adds to the log.
pub record Adds (n : ℕ) (log log' : List Entry) : Type 0 where
  pub keeps_below : (b : ℕ) → n < b → Below b log → Below b log'
  pub keeps_until : (b m : ℕ) → m < b → (n ≡ m → Below b log) → Until b m log → Until b m log'

pub Adds-none : (n : ℕ) (log : List Entry) → Adds n log log
Adds-none n log = record { keeps_below = λ b h w. w; keeps_until = λ b m h w u. u }

pub Adds-offer : (n : ℕ) (e : Event) (log : List Entry) → Adds n log (offered n e ∷ log)
Adds-offer n e log = record { keeps_below = λ b h w. (h, w); keeps_until = λ b m h w u. (w, u) }

pub Adds-seen : (n : ℕ) (es : List Effect) (log : List Entry) → Adds n log (log_all n es log)
Adds-seen n [] log = Adds-none n log
Adds-seen n (e ∷ es) log =
    let later = Adds-seen n es (seen n e ∷ log) in
    record {
      keeps_below = λ b h w. later.keeps_below b h (h, w);
      keeps_until = λ b m h w u.
          later.keeps_until b m h (λ same. (subst (λ k. k < b) (sym same) h, w same)) (w, u);
    }

pub active_early : (d : Daemon) (n : ℕ) → Orderly d → active (d.slots n) ≡ true → n < d.next
active_early d n o runs = elim (Bool-cases (ltb n d.next)) [
  | inl early ↦ ground (arith, early)
  | inr late ↦ absurd (ground (arith, runs, ap active (o.fresh n (ltb→ge n d.next late))))
]

pub still_inactive : (s s' : Slot) → Like s s' → active s ≡ false → active s' ≡ false
still_inactive s s' like h = elim (Bool-cases (active s')) [
  | inl is ↦ absurd (ground (arith, h, like.active_before is))
  | inr not_active ↦ not_active
]

-- A turn of `n`, which is running, or a change of slots.
