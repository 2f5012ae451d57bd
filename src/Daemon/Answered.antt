-- ===== src/Daemon/Answered.antt =====
-- src/simplecc/simplecc_daemon.rs: what it is for a handler to answer its request, on every path.
use simplecc.Base.{ℕ, ◌≡◌, refl, String, Option, none, some, List, [], ◌∷◌, Result, ok, err}
use simplecc.Daemon.Handler.{
  Call, Answer, perform, send, stop, Handler, ok_or_error, ok_or_skip, client_or_error,
  primary_client_or_error, for_each,
}

-- Whether a request has an answer: never, always, or unless a newer request took over or nothing has
-- changed.
pub data Kind : Type 0 where
  never always unless_newer : Kind

-- Nothing is sent on any path.
abbrev pub Silent : Handler → Type 0
Silent stop = Unit
Silent (send e h) = ⊥
Silent (perform o k) = (a : Answer o) → Silent (k a)

abbrev pub MayEnd : Kind → Type 0
MayEnd never = Unit
MayEnd always = ⊥
MayEnd unless_newer = Unit

abbrev pub MaySend : Kind → Type 0
MaySend never = ⊥
MaySend always = Unit
MaySend unless_newer = Unit

-- On every path one event is sent, with the request's id; none is where there may be no answer.
abbrev pub Answered : Kind → ℕ → Handler → Type 0
Answered kind id stop = MayEnd kind
Answered kind id (send e h) = MaySend kind × (e.id ≡ id) × Silent h
Answered kind id (perform o k) = (a : Answer o) → Answered kind id (k a)

pub for_each-Answered :
    (kind : Kind) (id : ℕ) (cs : List ℕ) (c : Call) (h : Handler)
    → Answered kind id h
    → Answered kind id (for_each cs c h)
unfolding for_each
for_each-Answered kind id [] c h answered = answered
for_each-Answered kind id (x ∷ xs) c h answered = λ a. for_each-Answered kind id xs c h answered

pub ok_or_error-Answered {ℓ} :
    {A : Type ℓ} (kind : Kind) (id : ℕ)
    → MaySend kind
    → (r : Result A) (k : A → Handler) → ((a : A) → Answered kind id (k a))
    → Answered kind id (ok_or_error id r k)
ok_or_error-Answered kind id may (ok a) k each = each a
ok_or_error-Answered kind id may (err e) k each = (may, refl, tt)

pub ok_or_skip-Answered {ℓ} :
    {A : Type ℓ} (id : ℕ) (r : Result (Option A)) (k : A → Handler)
    → ((a : A) → Answered unless_newer id (k a))
    → Answered unless_newer id (ok_or_skip id r k)
ok_or_skip-Answered id (ok none) k each = tt
ok_or_skip-Answered id (ok (some a)) k each = each a
ok_or_skip-Answered id (err e) k each = (tt, refl, tt)

client_or_error-Answered :
    (kind : Kind) (id : ℕ) (l : String) (k : ℕ → Handler)
    → MaySend kind
    → ((c : ℕ) → Answered kind id (k c))
    → (found : Option ℕ) → Answered kind id (client_or_error id l found k)
client_or_error-Answered kind id l k may each none = (may, refl, tt)
client_or_error-Answered kind id l k may each (some c) = each c

pub with_client-Answered :
    (kind : Kind) (id : ℕ) (l : String) (k : ℕ → Handler)
    → MaySend kind
    → ((c : ℕ) → Answered kind id (k c))
    → Answered kind id (primary_client_or_error id l k)
unfolding primary_client_or_error
with_client-Answered kind id l k may each = client_or_error-Answered kind id l k may each

-- A request that makes one call of its client, and always answers.
pub asks_client :
    (id : ℕ) (l : String) (k : ℕ → Handler)
    → ((c : ℕ) → Answered always id (k c))
    → Answered always id (primary_client_or_error id l k)
asks_client id l k each = with_client-Answered always id l k tt each

pub asks_newest :
    (id : ℕ) (l : String) (k : ℕ → Handler)
    → ((c : ℕ) → Answered unless_newer id (k c))
    → Answered unless_newer id (primary_client_or_error id l k)
asks_newest id l k each = with_client-Answered unless_newer id l k tt each
