-- ===== src/Rpc/Wire.antt =====
-- src/simplecc/lsp/client.rs: what is on the wire, an invariant of the steps on the state.
use simplecc.Base.{
  ℕ, ◌≤◌, ◌≡◌, ◌≢◌, refl, String, Bool, true, false, ◌&&◌, ◌||◌, Option, none, some, List, [], ◌∷◌,
  arith, ◌==◌, nat_key, string_key, eq_iff,
}
use simplecc.Rpc.{
  Response, Outcome, Phase, registered, waiting, dropped, done, Task, Sent, request, cancel, Client,
  init, remove_pending, mark_dead, send_message, cancel_pending_request, clear_latest_request,
  end_task,
}
use simplecc.Rpc.Step.{do_register, wait_or_fail, drop_failed, deliver, abandon}

abbrev pub requested : List Sent → ℕ → Bool
requested [] j = false
requested (request i ∷ w) j = i == j || requested w j
requested (cancel i ∷ w) j = requested w j

abbrev pub cancelled : List Sent → ℕ → Bool
cancelled [] j = false
cancelled (request i ∷ w) j = cancelled w j
cancelled (cancel i ∷ w) j = i == j || cancelled w j

-- Newest first: a request is new, and a cancellation is the first after its request.
abbrev pub IsOrdered : List Sent → Type 0
IsOrdered [] = Unit {0}
IsOrdered (request i ∷ w) = (requested w i ≡ false) × (cancelled w i ≡ false) × IsOrdered w
IsOrdered (cancel i ∷ w) = (requested w i ≡ true) × (cancelled w i ≡ false) × IsOrdered w

abbrev pub phase_of : Option Task → Option Phase
phase_of none = none
phase_of (some t) = some t.phase

-- A call that has not been made, or not been submitted.
abbrev pub unsent : Option Task → Bool
unsent none = true
unsent (some t) = elim t.phase [
  | registered ↦ true
  | waiting ↦ false
  | dropped ↦ false
  | done o ↦ false
]

abbrev pub Points : Option (ℕ × ℕ) → ℕ → Type 0
Points none j = ⊥
Points (some (seq, i)) j = i ≡ j

-- The ids that are on the wire, as the shared state knows them. While a call submits, the key that
-- it holds is exempt.
pub record WireInv (exempt : String → ℕ → Bool) (s : Client) : Type 0 where
  pub ordered : IsOrdered s.wire
  pub fresh :
      (j : ℕ)
      → s.next_id ≤ j
      → (s.tasks j ≡ none) × (s.pending j ≡ false) × (requested s.wire j ≡ false)
  pub quiet : (j : ℕ) → requested s.wire j ≡ true → unsent (s.tasks j) ≡ false
  pub live : (j : ℕ) → s.pending j ≡ true → cancelled s.wire j ≡ false
  pub paired : (j : ℕ) → cancelled s.wire j ≡ true → requested s.wire j ≡ true
  pub asked : (j : ℕ) → phase_of (s.tasks j) ≡ some waiting → requested s.wire j ≡ true
  pub keyed :
      (k : String) (j : ℕ) → Points (s.latest k) j → exempt k j ≡ false → requested s.wire j ≡ true

abbrev pub nobody : String → ℕ → Bool
nobody k j = false

pub WireInv-init : WireInv nobody init
WireInv-init = record {
  ordered = tt;
  fresh = λ j h. (refl, refl, refl);
  quiet = λ j h. cc;
  live = λ j h. refl;
  paired = λ j h. cc;
  asked = λ j h. cc;
  keyed = λ k j h e. absurd h;
}

pub do_register-WireInv :
    (s : Client) (key : Option (String × ℕ)) (late : Bool)
    → WireInv nobody s
    → WireInv nobody (do_register key late s)
unfolding do_register
do_register-WireInv s key late v = record {
  ordered = ground (arith, v.ordered);
  fresh = λ j h. ground (arith, v.fresh j);
  quiet = λ j h. ground (arith, v.quiet j, v.fresh s.next_id);
  live = λ j h. ground (arith, v.live j, v.fresh s.next_id, v.paired s.next_id);
  paired = λ j h. ground (arith, v.paired j);
  asked = λ j h. ground (arith, v.asked j);
  keyed = λ k j h e. ground (arith, v.keyed k j);
}

module _ (exempt : String → ℕ → Bool) (s : Client) (i : ℕ) (v : WireInv exempt s) where
  pub remove_pending-WireInv : WireInv exempt (remove_pending i s)
  unfolding remove_pending
  remove_pending-WireInv = record {
    ordered = v.ordered;
    fresh = λ j h. ground (arith, v.fresh j);
    quiet = λ j h. ground (arith, v.quiet j);
    live = λ j h. ground (arith, v.live j);
    paired = v.paired;
    asked = λ j h. ground (arith, v.asked j);
    keyed = v.keyed;
  }

  pub mark_dead-WireInv : WireInv exempt (mark_dead s)
  unfolding mark_dead
  mark_dead-WireInv = record {
    ordered = v.ordered;
    fresh = λ j h. ground (arith, v.fresh j);
    quiet = λ j h. ground (arith, v.quiet j);
    live = λ j h. cc;
    paired = v.paired;
    asked = λ j h. ground (arith, v.asked j);
    keyed = v.keyed;
  }

  pub deliver-WireInv : (r : Response) → WireInv exempt (deliver i r s)
  unfolding deliver
  deliver-WireInv r = record {
    ordered = ground (arith, v.ordered);
    fresh = λ j h. ground (arith, v.fresh j);
    quiet = λ j h. ground (arith, v.quiet j);
    live = λ j h. ground (arith, v.live j);
    paired = λ j h. ground (arith, v.paired j);
    asked = λ j h. ground (arith, v.asked j);
    keyed = λ k j h e. ground (arith, v.keyed k j);
  }

  pub end_task-WireInv : (o : Outcome) → WireInv exempt (end_task i o s)
  unfolding end_task
  end_task-WireInv o = record {
    ordered = v.ordered;
    fresh = λ j h. ground (arith, v.fresh j);
    quiet = λ j h. ground (arith, v.quiet j);
    live = v.live;
    paired = v.paired;
    asked = λ j h. ground (arith, v.asked j);
    keyed = v.keyed;
  }

  pub abandon-WireInv : WireInv exempt (abandon i s)
  unfolding abandon
  abandon-WireInv = record {
    ordered = v.ordered;
    fresh = λ j h. ground (arith, v.fresh j);
    quiet = λ j h. ground (arith, v.quiet j);
    live = v.live;
    paired = v.paired;
    asked = λ j h. ground (arith, v.asked j);
    keyed = v.keyed;
  }

  pub clear_latest-WireInv : (k : String) → WireInv exempt (clear_latest_request k i s).0
  unfolding clear_latest_request
  clear_latest-WireInv k = record {
    ordered = ground (arith, v.ordered);
    fresh = λ j h. ground (arith, v.fresh j);
    quiet = λ j h. ground (arith, v.quiet j);
    live = λ j h. ground (arith, v.live j);
    paired = λ j h. ground (arith, v.paired j);
    asked = λ j h. ground (arith, v.asked j);
    keyed = λ k' j h e. ground (arith, v.keyed k' j);
  }

  pub cancel-WireInv :
      (accepts : Bool)
      → requested s.wire i ≡ true
      → WireInv exempt (cancel_pending_request accepts i s)
  unfolding cancel_pending_request mark_dead
  cancel-WireInv accepts sent = record {
    ordered = ground (arith, v.ordered, v.live i);
    fresh = λ j h. ground (arith, v.fresh j);
    quiet = λ j h. ground (arith, v.quiet j);
    live = λ j h. ground (arith, v.live j);
    paired = λ j h. ground (arith, v.paired j);
    asked = λ j h. ground (arith, v.asked j);
    keyed = λ k j h e. ground (arith, v.keyed k j);
  }

-- The exemption of a call that holds a key before its request is written.
abbrev pub only : String → ℕ → String → ℕ → Bool
only k i k' j = k == k' && i == j

module _ (s : Client) (i : ℕ) (new : unsent (s.tasks i) ≡ true) (known : s.tasks i ≢ none) where
  pub send_plain-WireInv :
      (accepts : Bool)
      → WireInv nobody s
      → WireInv nobody (wait_or_fail i (send_message accepts (request i) s))
  unfolding wait_or_fail send_message
  send_plain-WireInv accepts v = record {
    ordered = ground (arith, v.ordered, v.quiet i, v.paired i);
    fresh = λ j h. ground (arith, v.fresh j);
    quiet = λ j h. ground (arith, v.quiet j);
    live = λ j h. ground (arith, v.live j);
    paired = λ j h. ground (arith, v.paired j);
    asked = λ j h. ground (arith, v.asked j);
    keyed = λ k j h e. ground (arith, v.keyed k j);
  }

  pub send_keyed-WireInv :
      (k : String) (accepts : Bool)
      → WireInv (only k i) s
      → Points (s.latest k) i
      → WireInv nobody (wait_or_fail i (drop_failed k i (send_message accepts (request i) s)))
  unfolding wait_or_fail send_message drop_failed
  send_keyed-WireInv k accepts v mine = record {
    ordered = ground (arith, v.ordered, v.quiet i, v.paired i);
    fresh = λ j h. ground (arith, v.fresh j);
    quiet = λ j h. ground (arith, v.quiet j);
    live = λ j h. ground (arith, v.live j);
    paired = λ j h. ground (arith, v.paired j);
    asked = λ j h. ground (arith, v.asked j);
    keyed = λ k' j h e. ground (arith, v.keyed k' j, eq_iff k k');
  }

pub unsent-cancel :
    (a : Bool) (i j : ℕ) (s : Client)
    → unsent ((cancel_pending_request a i s).tasks j) ≡ unsent (s.tasks j)
unfolding cancel_pending_request
unsent-cancel a i j s = ground arith

pub known-cancel :
    (a : Bool) (i j : ℕ) (s : Client)
    → (cancel_pending_request a i s).tasks j ≡ none
    → s.tasks j ≡ none
unfolding cancel_pending_request
known-cancel a i j s h = ground arith

pub latest-cancel :
    (a : Bool) (i : ℕ) (s : Client) → (cancel_pending_request a i s).latest ≡ s.latest
unfolding cancel_pending_request
latest-cancel a i s = ground arith
