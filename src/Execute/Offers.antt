-- ===== src/Execute/Offers.antt =====
-- src/simplecc/lsp/client.rs: what the replies of `code_lens` and `code_action` offer can be looked up again.
use simplecc.Base.{
  ℕ, zero, suc, ◌+◌, String, ◌≡◌, ◌↔◌, ◌≢◌, inl, inr, refl, sym, ap, ◌∙◌, Bool, true, false, Option,
  Bool-cases, none, some, List, [], ◌∷◌, arith, get_elem?,
}
use simplecc.Cache.{IdentityCache, found, begin, matches, replace, item}
use simplecc.Cache.History.{Event, advance}
use simplecc.Execute.Lens.{CodeLens}
use simplecc.Execute.Action.{Action}
use simplecc.Execute.Requests.{
  CodeLensItem, CodeActionItem, Answer, superseded, failed, items, Offer, skipped, errored, offered,
  lens_item, action_item, enumerate, fill, lens_reply, action_reply, code_lens, code_action,
}

get_elem?-enumerate :
    {A B : Type 0} (f : ℕ → A → B) (i j : ℕ) (xs : List A) (y : B)
    → (get_elem? (enumerate f i xs) j ≡ some y)
      ↔ ((x : A) × (get_elem? xs j ≡ some x) × (y ≡ f (i + j) x))
unfolding enumerate
get_elem?-enumerate f i j [] y = (λ e. cc, λ p. cc (p.1))
get_elem?-enumerate f i zero (x ∷ xs) y =
    let at : f (i + 0) x ≡ f i x = ap (λ k. f k x) (let e : i + 0 ≡ i = omega arith in e) in
    (λ e. (x, refl, cc), λ p. cc (p.1, p.2))
get_elem?-enumerate f i (suc j) (x ∷ xs) y =
    let later = get_elem?-enumerate f (suc i) j xs y in
    let shift : suc i + j ≡ i + suc j = omega arith in
    (
      λ e. let p = later.0 e in (p.0, p.1, p.2 ∙ ap (λ k. f k p.0) shift),
      λ p. later.1 (p.0, p.1, p.2 ∙ ap (λ k. f k p.0) (sym shift)),
    )

-- Every item of the offer, and no other, looks up under its place in the list to what it was made
-- from.
abbrev pub Offers : {A B : Type 0} → (ℕ → A → B) → IdentityCache A → ℕ → String → List B → Type 0
Offers {A} {B} f c g u ys =
    (j : ℕ) (y : B) → (get_elem? ys j ≡ some y) ↔ ((x : A) × (item c g u j ≡ found x) × (y ≡ f j x))

module _ {A B : Type 0} (f : ℕ → A → B) (late : Offer B) (c : IdentityCache A) (g : ℕ) (u : String)
    (xs : List A) where
  item-fill :
      (j : ℕ) (x : A)
      → matches c g u ≡ true
      → (item (fill f late c g u xs).0 g u j ≡ found x) ↔ (get_elem? xs j ≡ some x)
  unfolding fill replace item
  item-fill j x m = (λ e. ground arith, λ e. ground arith)

  fill-offered :
      (ys : List B)
      → late ≢ offered ys
      → (fill f late c g u xs).1 ≡ offered ys
      → (matches c g u ≡ true) × (ys ≡ enumerate f 0 xs)
  unfolding fill replace
  fill-offered ys d e = elim (Bool-cases (matches c g u)) [
    | inl m ↦ (m, ground arith)
    | inr gone ↦ absurd (d (ground arith))
  ]

  fill-Offers :
      (ys : List B)
      → late ≢ offered ys
      → (fill f late c g u xs).1 ≡ offered ys
      → (matches c g u ≡ true) × Offers f (fill f late c g u xs).0 g u ys
  fill-Offers ys d e =
      let (m, same) = fill-offered ys d e in
      (
        m,
        λ j y. rw same (
          λ h.
              let p = (get_elem?-enumerate f 0 j xs y).0 h in
              (
                p.0,
                (item-fill j p.0 m).1 p.1,
                p.2 ∙ ap (λ k. f k p.0) (let z : 0 + j ≡ j = omega arith in z),
              ),
          λ p. (get_elem?-enumerate f 0 j xs y).1 (
            p.0,
            (item-fill j p.0 m).0 p.1,
            p.2 ∙ ap (λ k. f k p.0) (let z : j ≡ 0 + j = omega arith in z),
          ),
        ),
      )

lens_reply-Offers :
    (fresh : Bool) (begun now : IdentityCache CodeLens) (g : ℕ) (u : String)
    (answer : Answer CodeLens) (ys : List CodeLensItem)
    → (lens_reply fresh begun now g u answer).1 ≡ offered ys
    → (fresh ≡ true)
      × (matches now g u ≡ true)
      × Offers lens_item (lens_reply fresh begun now g u answer).0 g u ys
unfolding lens_reply
lens_reply-Offers false begun now g u answer ys e = absurd (ground arith)
lens_reply-Offers true begun now g u superseded ys e = absurd (ground arith)
lens_reply-Offers true begun now g u failed ys e = absurd (ground arith)
lens_reply-Offers true begun now g u (items xs) ys e =
    let (m, offers) = fill-Offers lens_item skipped now g u xs ys (λ h. cc) e in (refl, m, offers)

action_reply-Offers :
    (fresh : Bool) (begun now : IdentityCache Action) (g : ℕ) (u : String)
    (answer : Option (List Action)) (ys : List CodeActionItem)
    → (action_reply fresh begun now g u answer).1 ≡ offered ys
    → (fresh ≡ true)
      × (matches now g u ≡ true)
      × Offers action_item (action_reply fresh begun now g u answer).0 g u ys
unfolding action_reply
action_reply-Offers false begun now g u answer ys e = absurd (ground arith)
action_reply-Offers true begun now g u none ys e = absurd (ground arith)
action_reply-Offers true begun now g u (some xs) ys e =
    let (m, offers) = fill-Offers action_item errored now g u xs ys (λ h. cc) e in (refl, m, offers)

-- A code lens reply that is offered to the editor answers a request above the watermark, its
-- identity still holds when the reply arrives, and an index looks up to a lens exactly if the
-- offer has an item made from that lens and index at that place.
pub code_lens-Offers :
    (c : IdentityCache CodeLens) (g : ℕ) (u : String) (waiting : List (Event CodeLens))
    (answer : Answer CodeLens) (ys : List CodeLensItem)
    → (code_lens c g u waiting answer).1 ≡ offered ys
    → ((begin c g u).1 ≡ true)
      × (matches (advance (begin c g u).0 waiting) g u ≡ true)
      × Offers lens_item (code_lens c g u waiting answer).0 g u ys
unfolding code_lens
code_lens-Offers c g u waiting answer ys e =
    let (c', fresh) = begin c g u in lens_reply-Offers fresh c' (advance c' waiting) g u answer ys e

-- The same of the code actions that are offered.
pub code_action-Offers :
    (c : IdentityCache Action) (g : ℕ) (u : String) (waiting : List (Event Action))
    (answer : Option (List Action)) (ys : List CodeActionItem)
    → (code_action c g u waiting answer).1 ≡ offered ys
    → ((begin c g u).1 ≡ true)
      × (matches (advance (begin c g u).0 waiting) g u ≡ true)
      × Offers action_item (code_action c g u waiting answer).0 g u ys
unfolding code_action
code_action-Offers c g u waiting answer ys e =
    let (c', fresh) = begin c g u in
    action_reply-Offers fresh c' (advance c' waiting) g u answer ys e
