-- ===== src/Rpc/Submits.antt =====
-- src/simplecc/lsp/client.rs: a call that submits keeps the account of senders and keys.
use simplecc.Base.{
  ℕ, ◌≡◌, inl, inr, refl, sym, subst, ◌∙◌, Bool-cases, eq_refl, String, Bool, true, Option, none,
  some, arith, ◌==◌, nat_key, string_key, eq_iff,
}
use simplecc.Rpc.{
  superseded, request, Client, update_key, remove_pending, mark_dead, send_message,
  cancel_pending_request,
}
use simplecc.Rpc.Step.{
  submit_call, submit_latest, wait_or_fail, cancel_previous, drop_failed, newer_than,
}
use simplecc.Rpc.Wire.{Points, latest-cancel}
use simplecc.Rpc.Leaks.{
  is_registered, nobody, LeakInv, cancel-LeakInv, remove_pending-LeakInv, end_task-LeakInv,
}
use simplecc.Rpc.Ends.{KeyIs, remove-state}

abbrev pub only : ℕ → ℕ → Bool
only i j = i == j

module _ (s : Client) (i : ℕ) (new : is_registered (s.tasks i) ≡ true) where
  pub send_plain-LeakInv :
      (accepts : Bool)
      → LeakInv nobody s
      → LeakInv nobody (wait_or_fail i (send_message accepts (request i) s))
  unfolding wait_or_fail send_message
  send_plain-LeakInv accepts v = record {
    fresh = λ j h. ground (arith, v.fresh j);
    owned = λ j h. ground (arith, v.owned j);
    dead = λ j h p. ground (arith, v.dead j);
    served = λ j h. ground (arith, v.served j);
    held = λ k j h. ground (arith, v.held k j);
  }

  pub send_keyed-LeakInv :
      (k : String) (seq : ℕ) (accepts : Bool)
      → LeakInv (only i) s
      → Points (s.latest k) i
      → KeyIs (some (k, seq)) (s.tasks i)
      → LeakInv nobody (wait_or_fail i (drop_failed k i (send_message accepts (request i) s)))
  unfolding wait_or_fail send_message drop_failed
  send_keyed-LeakInv k seq accepts v mine is = record {
    fresh = λ j h. ground (arith, v.fresh j);
    owned = λ j h. ground (arith, v.owned j);
    dead = λ j h p. ground (arith, v.dead j);
    served = λ j h. ground (arith, v.served j);
    held = λ k' j h. ground (arith, v.held k' j, is k', eq_iff k k');
  }

  pub hold_key-LeakInv :
      (k : String) (seq : ℕ)
      → LeakInv nobody s
      → KeyIs (some (k, seq)) (s.tasks i)
      → LeakInv (only i) (record s { latest = update_key s.latest k (some (seq, i)) })
  hold_key-LeakInv k seq v is = record {
    fresh = v.fresh;
    owned = v.owned;
    dead = v.dead;
    served = v.served;
    held = λ k' j h. ground (arith, v.held k' j, is k', eq_iff k k');
  }

  pub stale_free : LeakInv nobody s → (k : String) → ¬ Points (s.latest k) i
  stale_free v k p = ground (arith, v.held k i)

pub registered-cancel :
    (a : Bool) (i j : ℕ) (s : Client)
    → is_registered ((cancel_pending_request a i s).tasks j) ≡ is_registered (s.tasks j)
unfolding cancel_pending_request mark_dead
registered-cancel a i j s = ground arith

pub key-cancel :
    (a : Bool) (i j : ℕ) (s : Client) (key : Option (String × ℕ))
    → KeyIs key (s.tasks j)
    → KeyIs key ((cancel_pending_request a i s).tasks j)
unfolding cancel_pending_request mark_dead
key-cancel a i j s key is k = ground (arith, is k)

pub replace_previous-LeakInv :
    (s : Client) (i : ℕ)
    → is_registered (s.tasks i) ≡ true
    → (k : String) (seq : ℕ) (a accepts : Bool) (previous : Option (ℕ × ℕ)) → LeakInv (only i) s
    → Points (s.latest k) i
    → KeyIs (some (k, seq)) (s.tasks i)
    → LeakInv nobody (
        wait_or_fail i
          (drop_failed k i (send_message accepts (request i) (cancel_previous a previous s))))
unfolding cancel_previous
replace_previous-LeakInv s i new k seq a accepts none v mine is =
    send_keyed-LeakInv s i new k seq accepts v mine is
replace_previous-LeakInv s i new k seq a accepts (some (n, j)) v mine is =
    send_keyed-LeakInv (cancel_pending_request a j s) i (registered-cancel a j i s ∙ new) k seq
      accepts (cancel-LeakInv (only i) s j v a)
      (subst (λ f. Points (f k) i) (sym (latest-cancel a j s)) mine)
      (key-cancel a j i s (some (k, seq)) is)

pub latest-remove : (i : ℕ) (s : Client) → (remove_pending i s).latest ≡ s.latest
unfolding remove_pending
latest-remove i s = refl

pub submit_call-LeakInv :
    (key : Option (String × ℕ)) (i : ℕ) (a accepts : Bool) (s : Client)
    → is_registered (s.tasks i) ≡ true
    → KeyIs key (s.tasks i)
    → LeakInv nobody s
    → LeakInv nobody (submit_call key i a accepts s)
unfolding submit_call remove_pending
submit_call-LeakInv none i a accepts s new is v = send_plain-LeakInv s i new accepts v
submit_call-LeakInv (some (k, seq)) i a accepts s new is v =
    unfold submit_latest in
    elim (Bool-cases (newer_than (s.latest k) seq)) [
      | inl stale ↦
          let (gone, is') = remove-state i s (some (k, seq)) is in
          rw stale (
            end_task-LeakInv nobody (remove_pending i s) i (remove_pending-LeakInv nobody s i v)
              superseded gone (stale_free s i new v))
      | inr newest ↦ rw newest (
          replace_previous-LeakInv (record s { latest = update_key s.latest k (some (seq, i)) }) i
            new k seq a accepts (s.latest k) (hold_key-LeakInv s i new k seq v is)
            (rw (eq_refl k) refl) is)
    ]
