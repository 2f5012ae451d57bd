-- ===== src/Daemon/Accepts.antt =====
-- src/simplecc/simplecc_daemon.rs: the order of requests as one more is read.
use simplecc.Base.{
  ℕ, suc, ◌+◌, ◌≤◌, ◌<◌, ltb, ltb→ge, ◌≡◌, refl, sym, ap, ◌∙◌, subst, Bool, true, false, inl, inr,
  Bool-cases, none, some, List, [], ◌∷◌, nat_key, arith,
}
use simplecc.Daemon.Request.{Request, is_lifecycle_barrier}
use simplecc.Daemon.Handler.{Handler}
use simplecc.Daemon.Due.{set-All}
use simplecc.Daemon.Serve.{
  Place, in_order, request_task, install_task, Slot, running, Entry, offered, seen, refused, Daemon,
  set_slot, clear_for, inline_of,
}
use simplecc.Daemon.Acts.{Below, Until, placed, is_barrier, active, Orderly, still_inactive}
use simplecc.Daemon.Goes.{clear-Like, cleared_all}

pub Below-mono : (b c : ℕ) (log : List Entry) → b ≤ c → Below b log → Below c log
Below-mono b c [] h w = tt
Below-mono b c (offered k e ∷ log) h (x, w) = (omega (arith, x, h), Below-mono b c log h w)
Below-mono b c (seen k e ∷ log) h (x, w) = (omega (arith, x, h), Below-mono b c log h w)
Below-mono b c (refused e ∷ log) h w = Below-mono b c log h w

-- Nothing of `m` or of `b` has been done yet.
idle-Until : (b c m : ℕ) (log : List Entry) → c ≤ m → Below c log → Until b m log
idle-Until b c m [] h w = tt
idle-Until b c m (offered k e ∷ log) h (x, w) =
    (λ same. absurd (omega (arith, same, x, h)), idle-Until b c m log h w)
idle-Until b c m (seen k e ∷ log) h (x, w) =
    (λ same. absurd (omega (arith, same, x, h)), idle-Until b c m log h w)
idle-Until b c m (refused e ∷ log) h w = idle-Until b c m log h w

Below-Until : (b m : ℕ) (log : List Entry) → Below b log → Until b m log
Below-Until b m [] w = tt
Below-Until b m (offered k e ∷ log) (x, w) = (λ same. w, Below-Until b m log w)
Below-Until b m (seen k e ∷ log) (x, w) = (λ same. w, Below-Until b m log w)
Below-Until b m (refused e ∷ log) w = Below-Until b m log w

module _ (req : Request) (h : Handler) (p : Place) (d : Daemon) (o : Orderly d)
    (idle : d.inline ≡ none) where
  abbrev barrier : Bool
  barrier = is_lifecycle_barrier req

  abbrev before_it : ℕ → Slot
  before_it = clear_for barrier d.slots

  -- A slot that was in use, with what it was.
  was_placed : (m : ℕ) (q : Place) → placed (before_it m) ≡ some q → placed (d.slots m) ≡ some q
  was_placed m q at = sym ((clear-Like barrier d.slots m).same_place) ∙ at

  was_barrier : (m : ℕ) → is_barrier (before_it m) ≡ true → is_barrier (d.slots m) ≡ true
  was_barrier m at = sym ((clear-Like barrier d.slots m).same_barrier) ∙ at

  barrier_early : (b : ℕ) → is_barrier (before_it b) ≡ true → b < d.next
  barrier_early b at = elim (Bool-cases (ltb b d.next)) [
    | inl early ↦ ground (arith, early)
    | inr late ↦
        absurd (ground (arith, was_barrier b at, ap is_barrier (o.fresh b (ltb→ge b d.next late))))
  ]

  not_alone : (m : ℕ) → placed (before_it m) ≡ some in_order → active (before_it m) ≡ true → ⊥
  not_alone m at is =
      let old =
        o.alone m (was_placed m in_order at) ((clear-Like barrier d.slots m).active_before is) in
      absurd (ground (arith, idle, old.0))

  abbrev after_it : ℕ → Slot
  after_it = set_slot d.next (running p req h) before_it

  pub accept_cleared :
      (b m : ℕ)
      → is_barrier (after_it b) ≡ true
      → m < b
      → placed (after_it m) ≡ some request_task
      → active (after_it m) ≡ false
  accept_cleared b m =
      set-All
        (λ b sb.
          is_barrier sb ≡ true
          → m < b
          → placed (after_it m) ≡ some request_task
          → active (after_it m) ≡ false)
        d.next (running p req h) before_it
        (λ bar.
          set-All (λ m sm. m < d.next → placed sm ≡ some request_task → active sm ≡ false) d.next
            (running p req h) before_it (λ x at. absurd (omega (arith, x)))
            (λ m other x at.
              subst
                (λ t.
                  placed (clear_for t d.slots m) ≡ some request_task
                  → active (clear_for t d.slots m) ≡ false)
                (sym bar) (cleared_all d.slots m) at)
            m)
        (λ b other bar.
          set-All (λ m sm. m < b → placed sm ≡ some request_task → active sm ≡ false) d.next
            (running p req h) before_it (λ x at. absurd (omega (arith, x, barrier_early b bar)))
            (λ m other x at.
              still_inactive (d.slots m) (before_it m) (clear-Like barrier d.slots m)
                (o.cleared b m (was_barrier b bar) x (was_placed m request_task at)))
            m)
        b

  pub accept_barred :
      (b m : ℕ)
      → is_barrier (after_it b) ≡ true
      → m < b
      → placed (after_it m) ≡ some request_task
      → Until b m d.log
  accept_barred b m =
      set-All
        (λ b sb.
          is_barrier sb ≡ true → m < b → placed (after_it m) ≡ some request_task → Until b m d.log)
        d.next (running p req h) before_it (λ bar x at. Below-Until d.next m d.log o.below)
        (λ b other bar.
          set-All (λ m sm. m < b → placed sm ≡ some request_task → Until b m d.log) d.next
            (running p req h) before_it (λ x at. absurd (omega (arith, x, barrier_early b bar)))
            (λ m other x at. o.barred b m (was_barrier b bar) x (was_placed m request_task at)) m)
        b

  pub accept_ordered : (n : ℕ) → placed (after_it n) ≡ some in_order → Until (suc n) n d.log
  accept_ordered =
      set-All (λ n s. placed s ≡ some in_order → Until (suc n) n d.log) d.next (running p req h)
        before_it (λ at. idle-Until (suc d.next) d.next d.next d.log (omega arith) o.below)
        (λ n other at. o.ordered n (was_placed n in_order at))

  inline_at : (q : Place) → some q ≡ some in_order → inline_of q d.next ≡ some d.next
  inline_at in_order at = refl
  inline_at request_task at = absurd (ground (arith, at))
  inline_at install_task at = absurd (ground (arith, at))

  pub accept_alone :
      (n : ℕ)
      → placed (after_it n) ≡ some in_order
      → active (after_it n) ≡ true
      → (inline_of p d.next ≡ some n) × (d.next + 1 ≡ suc n)
  accept_alone =
      set-All
        (λ n s.
          placed s ≡ some in_order
          → active s ≡ true
          → (inline_of p d.next ≡ some n) × (d.next + 1 ≡ suc n))
        d.next (running p req h) before_it (λ at is. (inline_at p at, omega arith))
        (λ n other at is. absurd (not_alone n at is))
