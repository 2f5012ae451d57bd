-- ===== src/Base/Member.antt =====
-- The entries of a list, with the place where they stand kept.
use mathlib.Core.Path.{◌≡◌, subst}
use mathlib.Core.Logic.{◌⊎◌, inl, inr}
use mathlib.Core.Bool.{Bool, true, false}
use mathlib.Core.List.{List, [], ◌∷◌, ◌++◌}
use native.Mathlib.Omega.{arith}
use simplecc.Base.Lists.{keep}
use simplecc.Base.Tests.{if◌then◌else◌, Bool-cases}

module _ {A : Type 0} where
  abbrev pub Has : A → List A → Type 0
  Has e [] = ⊥
  Has e (x ∷ xs) = (x ≡ e) ⊎ Has e xs

  abbrev pub Each : (A → Type 0) → List A → Type 0
  Each P [] = Unit
  Each P (x ∷ xs) = P x × Each P xs

  pub Each-add : (P : A → Type 0) (xs : List A) (x : A) → Each P xs → P x → Each P (xs ++ (x ∷ []))
  Each-add P [] x h p = (p, tt)
  Each-add P (y ∷ ys) x (q, h) p = (q, Each-add P ys x h p)

  pub Has-add : (e x : A) (xs : List A) → Has e xs → Has e (xs ++ (x ∷ []))
  Has-add e x [] h = absurd h
  Has-add e x (y ∷ ys) (inl here) = inl here
  Has-add e x (y ∷ ys) (inr there) = inr (Has-add e x ys there)

  pub Has-last : (e x : A) (xs : List A) → x ≡ e → Has e (xs ++ (x ∷ []))
  Has-last e x [] h = inl h
  Has-last e x (y ∷ ys) h = inr (Has-last e x ys h)

  pub keep-Has : (p : A → Bool) (y : A) (xs : List A) → Has y xs → p y ≡ true → Has y (keep p xs)
  keep-Has p y [] a h = absurd a
  keep-Has p y (x ∷ xs) a h = elim (Bool-cases (p x)) [
    | inl kept ↦ rw kept (elim a [ inl e ↦ inl e | inr w ↦ inr (keep-Has p y xs w h) ])
    | inr dropped ↦ rw dropped (elim a [
      | inl e ↦ absurd (ground (arith, subst (λ t. p t ≡ false) e dropped, h))
      | inr w ↦ keep-Has p y xs w h
    ])
  ]

  pub Has-keep : (p : A → Bool) (y : A) (xs : List A) → Has y (keep p xs) → Has y xs × (p y ≡ true)
  Has-keep p y [] a = absurd a
  Has-keep p y (x ∷ xs) a = elim (Bool-cases (p x)) [
    | inl kept ↦ elim (subst (λ b. Has y (if b then x ∷ keep p xs else keep p xs)) kept a) [
      | inl e ↦ (inl e, subst (λ t. p t ≡ true) e kept)
      | inr w ↦ let (m, q) = Has-keep p y xs w in (inr m, q)
    ]
    | inr dropped ↦
        let (m, q) =
          Has-keep p y xs (subst (λ b. Has y (if b then x ∷ keep p xs else keep p xs)) dropped a) in
        (inr m, q)
  ]
