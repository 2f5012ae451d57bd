-- ===== src/Base/Sort.antt =====
-- Rust's stable `sort_by`, by insertion, for an order that is a Boolean test.
use Prim.Native.Nat.{ℕ, zero, suc}
use mathlib.Core.Path.{◌≡◌, refl, ap, ◌∙◌, subst}
use mathlib.Core.Logic.{◌⊎◌, inl, inr}
use mathlib.Core.Bool.{Bool, true, false}
use mathlib.Core.List.{List, [], ◌∷◌}
use native.Mathlib.Omega.{arith}
use simplecc.Base.Lists.{length, take, drop, keep}
use simplecc.Base.Member.{Has, Each}
use simplecc.Base.Tests.{if◌then◌else◌, Bool-cases}

module _ {A : Type 0} (le : A → A → Bool) where
  unfoldable pub insert_by : A → List A → List A
  insert_by x [] = x ∷ []
  insert_by x (y ∷ ys) = let later = insert_by x ys in if le x y then x ∷ y ∷ ys else y ∷ later

  unfoldable pub sort_by : List A → List A
  sort_by [] = []
  sort_by (x ∷ xs) = insert_by x (sort_by xs)

  -- An entry goes before each of a list.
  abbrev pub Leads : A → List A → Type 0
  Leads x [] = Unit
  Leads x (y ∷ ys) = (le x y ≡ true) × Leads x ys

  abbrev pub Before : List A → List A → Type 0
  Before [] ys = Unit
  Before (x ∷ xs) ys = Leads x ys × Before xs ys

  abbrev pub Sorted : List A → Type 0
  Sorted [] = Unit
  Sorted (x ∷ xs) = Leads x xs × Sorted xs

  Leads-drop : (n : ℕ) (x : A) (xs : List A) → Leads x xs → Leads x (drop n xs)
  Leads-drop zero x xs l = l
  Leads-drop (suc n) x [] l = l
  Leads-drop (suc n) x (y ∷ ys) (h, l) = Leads-drop n x ys l

  Before-take : (n : ℕ) (xs : List A) → Sorted xs → Before (take n xs) (drop n xs)
  Before-take zero xs s = tt
  Before-take (suc n) [] s = tt
  Before-take (suc n) (x ∷ xs) (l, s) = (Leads-drop n x xs l, Before-take n xs s)

  keep-insert :
      (p : A → Bool) (x : A) (xs : List A)
      → length (keep p (insert_by x xs)) ≡ length (keep p (x ∷ xs))
  unfolding insert_by
  keep-insert p x [] = refl
  keep-insert p x (y ∷ ys) = ground (arith, keep-insert p x ys)

  length-insert : (x : A) (xs : List A) → length (insert_by x xs) ≡ suc (length xs)
  unfolding insert_by
  length-insert x [] = refl
  length-insert x (y ∷ ys) = ground (arith, length-insert x ys)

  pub length-sort : (xs : List A) → length (sort_by xs) ≡ length xs
  unfolding sort_by
  length-sort [] = refl
  length-sort (x ∷ xs) = length-insert x (sort_by xs) ∙ ap suc (length-sort xs)

  -- An entry of a list is one of the list with `x` put in.
  Has-insert : (e x : A) (xs : List A) → (x ≡ e) ⊎ Has e xs → Has e (insert_by x xs)
  unfolding insert_by
  Has-insert e x [] h = h
  Has-insert e x (y ∷ ys) h = elim (Bool-cases (le x y)) [
    | inl first ↦ rw (first, insert_by) h
    | inr later ↦
        rw (later, insert_by)
          (elim h [
            | inl here ↦ inr (Has-insert e x ys (inl here))
            | inr (inl here) ↦ inl here
            | inr (inr there) ↦ inr (Has-insert e x ys (inr there))
          ])
  ]

  insert-Has : (e x : A) (xs : List A) → Has e (insert_by x xs) → (x ≡ e) ⊎ Has e xs
  unfolding insert_by
  insert-Has e x [] h = h
  insert-Has e x (y ∷ ys) h = elim (Bool-cases (le x y)) [
    | inl first ↦ subst (λ b. Has e (if b then x ∷ y ∷ ys else y ∷ insert_by x ys)) first h
    | inr later ↦ elim (subst (λ b. Has e (if b then x ∷ y ∷ ys else y ∷ insert_by x ys)) later h) [
      | inl here ↦ inr (inl here)
      | inr there ↦ elim (insert-Has e x ys there) [ inl here ↦ inl here | inr w ↦ inr (inr w) ]
    ]
  ]

  pub Has-sort : (e : A) (xs : List A) → Has e xs → Has e (sort_by xs)
  unfolding sort_by
  Has-sort e [] h = absurd h
  Has-sort e (x ∷ xs) h =
      Has-insert e x (sort_by xs) (elim h [ inl here ↦ inl here | inr w ↦ inr (Has-sort e xs w) ])

  pub sort-Has : (e : A) (xs : List A) → Has e (sort_by xs) → Has e xs
  unfolding sort_by
  sort-Has e [] h = absurd h
  sort-Has e (x ∷ xs) h = elim (insert-Has e x (sort_by xs) h) [
    | inl here ↦ inl here
    | inr w ↦ inr (sort-Has e xs w)
  ]

  Each-insert : (P : A → Type 0) (x : A) (xs : List A) → P x → Each P xs → Each P (insert_by x xs)
  unfolding insert_by
  Each-insert P x [] p h = (p, tt)
  Each-insert P x (y ∷ ys) p (q, h) = elim (Bool-cases (le x y)) [
    | inl first ↦ rw (first, insert_by) (p, (q, h))
    | inr later ↦ rw (later, insert_by) (q, Each-insert P x ys p h)
  ]

  pub Each-sort : (P : A → Type 0) (xs : List A) → Each P xs → Each P (sort_by xs)
  unfolding sort_by
  Each-sort P [] h = tt
  Each-sort P (x ∷ xs) (p, h) = Each-insert P x (sort_by xs) p (Each-sort P xs h)

  pub Leads-Has : (x y : A) (xs : List A) → Leads x xs → Has y xs → le x y ≡ true
  Leads-Has x y [] l h = absurd h
  Leads-Has x y (z ∷ zs) (k, l) (inl here) = subst (λ t. le x t ≡ true) here k
  Leads-Has x y (z ∷ zs) (k, l) (inr there) = Leads-Has x y zs l there

  -- Nothing is lost or made up.
  pub keep-sort : (p : A → Bool) (xs : List A) → length (keep p (sort_by xs)) ≡ length (keep p xs)
  unfolding sort_by
  keep-sort p [] = refl
  keep-sort p (x ∷ xs) = ground (arith, keep-insert p x (sort_by xs), keep-sort p xs)

  -- Where each entry that passes a test may stand before each other one, those that pass it keep
  -- their order: the sort is stable.
  module _ (p : A → Bool) (even : (x y : A) → p x ≡ true → p y ≡ true → le x y ≡ true) where
    insert_stable : (x : A) (xs : List A) → keep p (insert_by x xs) ≡ keep p (x ∷ xs)
    unfolding insert_by
    insert_stable x [] = refl
    insert_stable x (y ∷ ys) = ground (arith, insert_stable x ys, even x y)

    pub sort_stable : (xs : List A) → keep p (sort_by xs) ≡ keep p xs
    unfolding sort_by
    sort_stable [] = refl
    sort_stable (x ∷ xs) = ground (arith, insert_stable x (sort_by xs), sort_stable xs)

  module _ (total : (x y : A) → le x y ≡ false → le y x ≡ true)
      (trans : (x y z : A) → le x y ≡ true → le y z ≡ true → le x z ≡ true) where
    Leads-trans : (x y : A) (ys : List A) → le x y ≡ true → Leads y ys → Leads x ys
    Leads-trans x y [] h l = tt
    Leads-trans x y (z ∷ zs) h (k, l) = (trans x y z h k, Leads-trans x y zs h l)

    Leads-insert : (x y : A) (ys : List A) → le x y ≡ true → Leads x ys → Leads x (insert_by y ys)
    unfolding insert_by
    Leads-insert x y [] h l = (h, tt)
    Leads-insert x y (z ∷ zs) h (k, l) = elim (Bool-cases (le y z)) [
      | inl first ↦ rw (first, insert_by) (h, (k, l))
      | inr later ↦ rw (later, insert_by) (k, Leads-insert x y zs h l)
    ]

    Sorted-insert : (x : A) (xs : List A) → Sorted xs → Sorted (insert_by x xs)
    unfolding insert_by
    Sorted-insert x [] s = (tt, tt)
    Sorted-insert x (y ∷ ys) (l, s) = elim (Bool-cases (le x y)) [
      | inl first ↦ rw (first, insert_by) ((first, Leads-trans x y ys first l), (l, s))
      | inr later ↦
          rw (later, insert_by) (Leads-insert y x ys (total x y later) l, Sorted-insert x ys s)
    ]

    pub Sorted-sort : (xs : List A) → Sorted (sort_by xs)
    unfolding sort_by
    Sorted-sort [] = tt
    Sorted-sort (x ∷ xs) = Sorted-insert x (sort_by xs) (Sorted-sort xs)

    -- What a cut after a sort keeps goes before what it drops.
    pub take-Before : (n : ℕ) (xs : List A) → Before (take n (sort_by xs)) (drop n (sort_by xs))
    take-Before n xs = Before-take n (sort_by xs) (Sorted-sort xs)
