-- ===== src/Rpc/Ends.antt =====
-- src/simplecc/lsp/client.rs: a call that ends leaves no sender and no key behind.
use simplecc.Base.{
  ℕ, ◌≡◌, ◌≢◌, String, Bool, true, false, Option, none, some, arith, nat_key, string_key,
  if◌then◌else◌, eq_iff,
}
use simplecc.Rpc.{
  Channel, open_channel, closed, answered, Outcome, superseded, errored, Task, Client,
  remove_pending, mark_dead, cancel_pending_request, clear_latest_request, end_task,
}
use simplecc.Rpc.Step.{finish_call, conclude, time_out_call, outcome_of, refuse_call}
use simplecc.Rpc.Wire.{Points}
use simplecc.Rpc.Leaks.{
  has_key, keyed_by, nobody, LeakInv, cancel-LeakInv, remove_pending-LeakInv, clear_latest-LeakInv,
  end_task-LeakInv,
}

-- The key of a call, and of no other key.
abbrev pub KeyIs : Option (String × ℕ) → Option Task → Type 0
KeyIs key t = (k : String) → keyed_by t k ≡ has_key key k

module _ (s : Client) (i : ℕ) (v : LeakInv nobody s) where
  pub clear_frees :
      (k : String) (seq : ℕ)
      → KeyIs (some (k, seq)) (s.tasks i)
      → (k' : String) → ¬ Points ((clear_latest_request k i s).0.latest k') i
  unfolding clear_latest_request
  clear_frees k seq is k' p = ground (arith, v.held k' i, is k', eq_iff k k')

  pub keyless_free : KeyIs none (s.tasks i) → (k : String) → ¬ Points (s.latest k) i
  keyless_free is k p = ground (arith, v.held k i, is k)

pub pending-clear :
    (k : String) (i : ℕ) (s : Client) → (clear_latest_request k i s).0.pending ≡ s.pending
unfolding clear_latest_request
pending-clear k i s = ground arith

pub conclude-LeakInv :
    (key : Option (String × ℕ)) (i : ℕ) (o : Outcome) (s : Client)
    → LeakInv nobody s
    → s.pending i ≡ false
    → KeyIs key (s.tasks i)
    → LeakInv nobody (conclude key i o s)
unfolding conclude
conclude-LeakInv none i o s v gone is = end_task-LeakInv nobody s i v o gone (keyless_free s i v is)
conclude-LeakInv (some (k, seq)) i o s v gone is =
    let cleared = clear_latest-LeakInv nobody s i v k in
    let free = clear_frees s i v k seq is in
    let gone' : (clear_latest_request k i s).0.pending i ≡ false = cc (gone, pending-clear k i s) in
    let (s', mine) = clear_latest_request k i s in
    elim mine as (λ b. LeakInv nobody (if b then end_task i o s' else end_task i superseded s')) [
      | true ↦ end_task-LeakInv nobody s' i cleared o gone' free
      | false ↦ end_task-LeakInv nobody s' i cleared superseded gone' free
    ]

pub cancel-state :
    (a : Bool) (i : ℕ) (s : Client) (key : Option (String × ℕ))
    → KeyIs key (s.tasks i)
    → ((cancel_pending_request a i s).pending i ≡ false)
      × KeyIs key ((cancel_pending_request a i s).tasks i)
unfolding cancel_pending_request mark_dead
cancel-state a i s key is = (ground arith, λ k. ground (arith, is k))

pub remove-state :
    (i : ℕ) (s : Client) (key : Option (String × ℕ))
    → KeyIs key (s.tasks i)
    → ((remove_pending i s).pending i ≡ false) × KeyIs key ((remove_pending i s).tasks i)
unfolding remove_pending
remove-state i s key is = (ground arith, λ k. ground (arith, is k))

pub finish_call-LeakInv :
    (c : Channel) (key : Option (String × ℕ)) (i : ℕ) (s : Client)
    → LeakInv nobody s
    → ((c ≢ open_channel) → s.pending i ≡ false)
    → KeyIs key (s.tasks i)
    → LeakInv nobody (finish_call c key i s)
unfolding finish_call
finish_call-LeakInv open_channel key i s v gone is = v
finish_call-LeakInv (answered r) key i s v gone is =
    conclude-LeakInv key i (outcome_of r) s v (gone (λ e. cc)) is
finish_call-LeakInv closed key i s v gone is =
    let (gone', is') = remove-state i s key is in
    conclude-LeakInv key i errored (remove_pending i s) (remove_pending-LeakInv nobody s i v) gone'
      is'

pub time_out_call-LeakInv :
    (key : Option (String × ℕ)) (i : ℕ) (a : Bool) (s : Client)
    → LeakInv nobody s
    → KeyIs key (s.tasks i)
    → LeakInv nobody (time_out_call key i a s)
unfolding time_out_call
time_out_call-LeakInv none i a s v is =
    let s' = cancel_pending_request a i s in
    let v' = cancel-LeakInv nobody s i v a in
    let (gone, is') = cancel-state a i s none is in
    end_task-LeakInv nobody s' i v' errored gone (keyless_free s' i v' is')
time_out_call-LeakInv (some (k, seq)) i a s v is =
    let s' = cancel_pending_request a i s in
    let v' = cancel-LeakInv nobody s i v a in
    let (gone, is') = cancel-state a i s (some (k, seq)) is in
    end_task-LeakInv nobody (clear_latest_request k i s').0 i
      (clear_latest-LeakInv nobody s' i v' k) errored (cc (gone, pending-clear k i s'))
      (clear_frees s' i v' k seq is')

pub refuse_call-LeakInv :
    (key : Option (String × ℕ)) (i : ℕ) (s : Client)
    → LeakInv nobody s
    → KeyIs key (s.tasks i)
    → LeakInv nobody (refuse_call key i s)
unfolding refuse_call remove_pending
refuse_call-LeakInv (some key) i s v is = v
refuse_call-LeakInv none i s v is =
    let (gone, is') = remove-state i s none is in
    let v' = remove_pending-LeakInv nobody s i v in
    end_task-LeakInv nobody (remove_pending i s) i v' errored gone
      (keyless_free (remove_pending i s) i v' is')
