-- ===== src/Daemon/Due.antt =====
-- src/simplecc/simplecc_daemon.rs: what the handler of a request still owes, by what it has sent.
use simplecc.Base.{
  ℕ, suc, zero, ◌≤◌, ◌<◌, ◌≡◌, ◌≢◌, refl, sym, ap, subst, Bool, true, false, inl, inr, Bool-cases,
  List, [], ◌∷◌, ◌==◌, nat_key, nat_same_iff, if◌then◌else◌, arith,
}
use simplecc.Daemon.Request.{Request, request_id}
use simplecc.Daemon.Handler.{Op, Answer, Event, Handler, stop, perform}
use simplecc.Daemon.Answered.{Kind, Silent, MayEnd, MaySend, Answered}
use simplecc.Daemon.Paths.{reply_kind}
use simplecc.Daemon.Shared.{Effect}
use simplecc.Daemon.Serve.{
  Place, in_order, request_task, install_task, Slot, absent, running, finished, aborted, Entry,
  offered, seen, refused, Daemon, set_slot, abort_task, abort_install, clear_for, log_all,
  drop_slot,
}

-- How many events a request has sent, and that each has the id.
abbrev pub replies : ℕ → List Entry → ℕ
replies n [] = 0
replies n (offered m e ∷ log) = if m == n then suc (replies n log) else replies n log
replies n (seen m e ∷ log) = replies n log
replies n (refused e ∷ log) = replies n log

abbrev pub WithId : ℕ → ℕ → List Entry → Type 0
WithId n id [] = Unit
WithId n id (offered m e ∷ log) = (m ≡ n → e.id ≡ id) × WithId n id log
WithId n id (seen m e ∷ log) = WithId n id log
WithId n id (refused e ∷ log) = WithId n id log

-- What a handler owes after so many events.
abbrev pub Due : Kind → ℕ → ℕ → Handler → Type 0
Due kind id zero h = Answered kind id h
Due kind id (suc zero) h = MaySend kind × Silent h
Due kind id (suc (suc c)) h = ⊥

abbrev pub AtMost : Kind → ℕ → Type 0
AtMost kind zero = Unit
AtMost kind (suc zero) = MaySend kind
AtMost kind (suc (suc c)) = ⊥

abbrev pub AtEnd : Kind → ℕ → Type 0
AtEnd kind zero = MayEnd kind
AtEnd kind (suc zero) = MaySend kind
AtEnd kind (suc (suc c)) = ⊥

-- A slot whose request has sent `c` events, all of them as `W` says for the id.
abbrev FairAt : ℕ → (ℕ → Type 0) → Slot → Type 0
FairAt c W absent = (c ≡ 0) × ((id : ℕ) → W id)
FairAt c W (running p req h) = Due (reply_kind req) (request_id req) c h × W (request_id req)
FairAt c W (finished p req) = AtEnd (reply_kind req) c × W (request_id req)
FairAt c W (aborted p req) = AtMost (reply_kind req) c × W (request_id req)

abbrev pub Fair : ℕ → List Entry → Slot → Type 0
Fair n log s = FairAt (replies n log) (λ id. WithId n id log) s

pub record Settled (d : Daemon) : Type 0 where
  pub fair : (n : ℕ) → Fair n d.log (d.slots n)
  pub fresh : (n : ℕ) → d.next ≤ n → d.slots n ≡ absent

pub Due-AtMost : (kind : Kind) (id c : ℕ) (h : Handler) → Due kind id c h → AtMost kind c
Due-AtMost kind id zero h due = tt
Due-AtMost kind id (suc zero) h due = due.0
Due-AtMost kind id (suc (suc c)) h due = due

pub Due-end : (kind : Kind) (id c : ℕ) → Due kind id c stop → AtEnd kind c
Due-end kind id zero due = due
Due-end kind id (suc zero) due = due.0
Due-end kind id (suc (suc c)) due = due

Due-send :
    (kind : Kind) (id c : ℕ) (e : Event) (h : Handler)
    → Due kind id c (Handler.send e h)
    → Due kind id (suc c) h × (e.id ≡ id)
Due-send kind id zero e h (may, same, rest) = ((may, rest), same)
Due-send kind id (suc zero) e h due = absurd due.1
Due-send kind id (suc (suc c)) e h due = absurd due

pub Due-perform :
    (kind : Kind) (id c : ℕ) (o : Op) (k : Answer o → Handler) (a : Answer o)
    → Due kind id c (perform o k)
    → Due kind id c (k a)
Due-perform kind id zero o k a due = due a
Due-perform kind id (suc zero) o k a due = (due.0, due.1 a)
Due-perform kind id (suc (suc c)) o k a due = due

pub abort-Fair : (n : ℕ) (log : List Entry) (s : Slot) → Fair n log s → Fair n log (drop_slot s)
abort-Fair n log absent fair = fair
abort-Fair n log (running p req h) fair =
    (Due-AtMost (reply_kind req) (request_id req) (replies n log) h fair.0, fair.1)
abort-Fair n log (finished p req) fair = fair
abort-Fair n log (aborted p req) fair = fair

pub abort_task-Fair :
    (n : ℕ) (log : List Entry) (s : Slot) → Fair n log s → Fair n log (abort_task s)
abort_task-Fair n log absent fair = fair
abort_task-Fair n log (running in_order req h) fair = fair
abort_task-Fair n log (running request_task req h) fair =
    abort-Fair n log (running request_task req h) fair
abort_task-Fair n log (running install_task req h) fair = fair
abort_task-Fair n log (finished p req) fair = fair
abort_task-Fair n log (aborted p req) fair = fair

pub abort_install-Fair :
    (n : ℕ) (log : List Entry) (s : Slot) → Fair n log s → Fair n log (abort_install s)
abort_install-Fair n log absent fair = fair
abort_install-Fair n log (running in_order req h) fair = fair
abort_install-Fair n log (running install_task req h) fair =
    abort-Fair n log (running install_task req h) fair
abort_install-Fair n log (running request_task req h) fair = fair
abort_install-Fair n log (finished p req) fair = fair
abort_install-Fair n log (aborted p req) fair = fair

pub clear_for-Fair :
    (b : Bool) (n : ℕ) (log : List Entry) (slots : ℕ → Slot)
    → Fair n log (slots n)
    → Fair n log (clear_for b slots n)
clear_for-Fair true n log slots fair = abort_task-Fair n log (slots n) fair
clear_for-Fair false n log slots fair = fair

-- A slot that is set, and the others.
pub set-All :
    (P : ℕ → Slot → Type 0) (n : ℕ) (s : Slot) (slots : ℕ → Slot)
    → P n s
    → ((m : ℕ) → n ≢ m → P m (slots m))
    → (m : ℕ) → P m (set_slot n s slots m)
set-All P n s slots here others m = elim (Bool-cases (n == m)) [
  | inl same ↦
      let e = (nat_same_iff n m).0 same in
      subst (λ b. P m (if b then s else slots m)) (sym same) (subst (λ i. P i s) e here)
  | inr other ↦
      subst (λ b. P m (if b then s else slots m)) (sym other)
        (others m (λ e. absurd (ground (arith, other, e, nat_same_iff n m))))
]

pub FairAt-map :
    (c : ℕ) (W V : ℕ → Type 0) (s : Slot) → ((id : ℕ) → W id → V id) → FairAt c W s → FairAt c V s
FairAt-map c W V absent f fair = (fair.0, λ id. f id (fair.1 id))
FairAt-map c W V (running p req h) f fair = (fair.0, f (request_id req) fair.1)
FairAt-map c W V (finished p req) f fair = (fair.0, f (request_id req) fair.1)
FairAt-map c W V (aborted p req) f fair = (fair.0, f (request_id req) fair.1)

pub set-fresh :
    (n : ℕ) (s : Slot) (d : Daemon)
    → n < d.next
    → ((m : ℕ) → d.next ≤ m → d.slots m ≡ absent)
    → (m : ℕ) → d.next ≤ m
    → set_slot n s d.slots m ≡ absent
set-fresh n s d early fresh m late = ground (arith, early, late, fresh m late, nat_same_iff n m)

abbrev is_absent : Slot → Bool
is_absent absent = true
is_absent (running p req h) = false
is_absent (finished p req) = false
is_absent (aborted p req) = false

pub running_absent : (p : Place) (req : Request) (h : Handler) → running p req h ≢ absent
running_absent p req h e = absurd (ground (arith, ap is_absent e))

-- What is seen of an operation is no reply.
log_all-replies :
    (m n : ℕ) (es : List Effect) (log : List Entry) → replies m (log_all n es log) ≡ replies m log
log_all-replies m n [] log = refl
log_all-replies m n (e ∷ es) log = log_all-replies m n es (seen n e ∷ log)

log_all-WithId :
    (m n id : ℕ) (es : List Effect) (log : List Entry)
    → WithId m id log
    → WithId m id (log_all n es log)
log_all-WithId m n id [] log w = w
log_all-WithId m n id (e ∷ es) log w = log_all-WithId m n id es (seen n e ∷ log) w

pub log_all-Fair :
    (m n : ℕ) (es : List Effect) (log : List Entry) (s : Slot)
    → Fair m log s
    → Fair m (log_all n es log) s
log_all-Fair m n es log s fair =
    subst (λ c. FairAt c (λ id. WithId m id (log_all n es log)) s)
      (sym (log_all-replies m n es log))
      (FairAt-map (replies m log) _ _ s (λ id. log_all-WithId m n id es log) fair)

-- An event of another request changes nothing.
pub other-Fair :
    (m n : ℕ) (e : Event) (log : List Entry) (s : Slot)
    → n ≢ m
    → Fair m log s
    → Fair m (offered n e ∷ log) s
other-Fair m n e log s other fair =
    subst (λ c. FairAt c (λ id. WithId m id (offered n e ∷ log)) s)
      (ground (arith, other, nat_same_iff n m))
      (FairAt-map (replies m log) _ _ s (λ id w. (λ same. absurd (other same), w)) fair)

pub send-Fair :
    (n : ℕ) (p : Place) (req : Request) (e : Event) (h : Handler) (log : List Entry)
    → Fair n log (running p req (Handler.send e h))
    → Fair n (offered n e ∷ log) (running p req h)
send-Fair n p req e h log (due, w) =
    let (due', same) = Due-send (reply_kind req) (request_id req) (replies n log) e h due in
    (
      subst (λ c. Due (reply_kind req) (request_id req) c h) {x = suc (replies n log)}
          (ground (arith, nat_same_iff n n)) due',
      (λ _. same, w),
    )
