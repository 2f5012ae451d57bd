-- ===== src/Base/Assoc.antt =====
-- Rust's `HashMap` as an association list: a write replaces in place or goes to the end. The
-- order of the entries stands for the order in which the program happens to iterate.
use simplecc.Base.Tests.{Key, ◌==◌, if◌then◌else◌, Bool-cases, eq_refl}
use simplecc.Base.Lists.{length}
use Prim.Native.Nat.{◌+◌, ◌≤◌}
use mathlib.Core.Path.{◌≡◌, refl, subst}
use mathlib.Core.Logic.{◌≢◌, ◌⊎◌, inl, inr}
use mathlib.Core.List.{List, [], ◌∷◌}
use mathlib.Core.Option.{Option, none, some}
use native.Mathlib.Omega.{arith}

abbrev pub Map {ℓ κ} : Type ℓ → Type κ → Type (ℓ ⊔ κ)
Map K V = List (K × V)

module _ {ℓ κ} {K : Type ℓ} {V : Type κ} ⦃key : Key K⦄ where
  unfoldable pub remove : K → Map K V → Map K V
  remove x [] = []
  remove x ((y, w) ∷ rest) = let rest' = remove x rest in if y == x then rest' else (y, w) ∷ rest'

  unfoldable pub insert : K → V → Map K V → Map K V
  insert x v [] = (x, v) ∷ []
  insert x v ((y, w) ∷ rest) =
      let rest' = insert x v rest in if y == x then (x, v) ∷ rest else (y, w) ∷ rest'

  unfoldable pub lookup : K → Map K V → Option V
  lookup x [] = none
  lookup x ((y, w) ∷ rest) = let found = lookup x rest in if y == x then some w else found

  pub lookup-remove :
      (x y : K) (m : Map K V) → lookup y (remove x m) ≡ (if x == y then none else lookup y m)
  unfolding lookup remove
  lookup-remove x y [] = ground arith
  lookup-remove x y ((z, w) ∷ rest) =
      ground (arith, key.same_iff z x, key.same_iff z y, key.same_iff x y, lookup-remove x y rest)

  pub lookup-insert :
      (x y : K) (v : V) (m : Map K V)
      → lookup y (insert x v m) ≡ (if x == y then some v else lookup y m)
  unfolding lookup insert
  lookup-insert x y v [] = refl
  lookup-insert x y v ((z, w) ∷ rest) =
      ground (arith, lookup-insert x y v rest, key.same_iff z x, key.same_iff z y, key.same_iff x y)

  pub length-insert : (k : K) (v : V) (m : Map K V) → length (insert k v m) ≤ length m + 1
  unfolding insert
  length-insert k v [] = omega arith
  length-insert k v ((j, w) ∷ m) = ground (arith, length-insert k v m)

pub lookup-empty {ℓ κ} :
    {K : Type ℓ} {V : Type κ} ⦃key : Key K⦄ (k : K) → lookup {V = V} k [] ≡ none
unfolding lookup
lookup-empty k = refl

-- No key twice, as in a `HashMap`.
module _ {ℓ κ} {K : Type ℓ} {V : Type κ} ⦃key : Key K⦄ where
  abbrev pub Absent : K → Map K V → Type ℓ
  Absent k [] = Unit
  Absent k ((j, v) ∷ m) = (j ≢ k) × Absent k m

  abbrev pub Distinct : Map K V → Type ℓ
  Distinct [] = Unit
  Distinct ((k, v) ∷ m) = Absent k m × Distinct m

  pub Absent-insert : (k j : K) (v : V) (m : Map K V) → k ≢ j → Absent j m → Absent j (insert k v m)
  unfolding insert
  Absent-insert k j v [] d a = (d, tt)
  Absent-insert k j v ((i, w) ∷ m) d (a, as') = elim (Bool-cases (i == k)) [
    | inl hit ↦ rw (hit, insert) (d, as')
    | inr miss ↦ rw (miss, insert) (a, Absent-insert k j v m d as')
  ]

  pub Distinct-insert : (k : K) (v : V) (m : Map K V) → Distinct m → Distinct (insert k v m)
  unfolding insert
  Distinct-insert k v [] d = (tt, tt)
  Distinct-insert k v ((i, w) ∷ m) (a, d) = elim (Bool-cases (i == k)) [
    | inl hit ↦ rw (hit, insert) (subst (λ x. Absent x m) ((key.same_iff i k).0 hit) a, d)
    | inr miss ↦
        rw (miss, insert)
          (
            Absent-insert k i v m (λ p. ground (arith, (key.same_iff i k))) a,
            Distinct-insert k v m d,
          )
  ]

  pub Absent-remove : (k j : K) (m : Map K V) → Absent j m → Absent j (remove k m)
  unfolding remove
  Absent-remove k j [] a = tt
  Absent-remove k j ((i, w) ∷ m) (a, as') = elim (Bool-cases (i == k)) [
    | inl hit ↦ rw (hit, remove) (Absent-remove k j m as')
    | inr miss ↦ rw (miss, remove) (a, Absent-remove k j m as')
  ]

  pub Distinct-remove : (k : K) (m : Map K V) → Distinct m → Distinct (remove k m)
  unfolding remove
  Distinct-remove k [] d = tt
  Distinct-remove k ((i, w) ∷ m) (a, d) = elim (Bool-cases (i == k)) [
    | inl hit ↦ rw (hit, remove) (Distinct-remove k m d)
    | inr miss ↦ rw (miss, remove) (Absent-remove k i m a, Distinct-remove k m d)
  ]

  pub lookup-Absent : (k : K) (m : Map K V) → Absent k m → lookup k m ≡ none
  unfolding lookup
  lookup-Absent k [] a = refl
  lookup-Absent k ((i, w) ∷ m) (a, as') = ground (arith, key.same_iff i k, lookup-Absent k m as')

  pub length-remove-le : (k : K) (m : Map K V) → length (remove k m) ≤ length m
  unfolding remove
  length-remove-le k [] = omega arith
  length-remove-le k ((i, w) ∷ m) = ground (arith, length-remove-le k m)

  pub length-remove-lt :
      (k : K) (v : V) (m : Map K V) → lookup k m ≡ some v → length (remove k m) + 1 ≤ length m
  unfolding remove lookup
  length-remove-lt k v [] h = absurd (ground arith)
  length-remove-lt k v ((i, w) ∷ m) h = ground (arith, length-remove-le k m, length-remove-lt k v m)

  pub lookup-later :
      (i k : K) (w : V) {v : V} (m : Map K V)
      → Absent i m
      → lookup k m ≡ some v
      → lookup k ((i, w) ∷ m) ≡ some v
  unfolding lookup
  lookup-later i k w m a h = ground (arith, key.same_iff i k, lookup-Absent i m a)

  pub lookup-first : (k : K) (v : V) (m : Map K V) → lookup k ((k, v) ∷ m) ≡ some v
  unfolding lookup
  lookup-first k v m = rw ((key.same_iff k k).1 refl)

  pub lookup-cons :
      (i k : K) (w v : V) (m : Map K V)
      → lookup k ((i, w) ∷ m) ≡ some v
      → ((i ≡ k) × (w ≡ v)) ⊎ (lookup k m ≡ some v)
  unfolding lookup
  lookup-cons i k w v m h = elim (Bool-cases (i == k)) [
    | inl hit ↦ inl ((key.same_iff i k).0 hit, ground (arith, hit))
    | inr miss ↦ inr (ground (arith, miss))
  ]

  pub length-insert_present :
      (k : K) (v w : V) (m : Map K V) → lookup k m ≡ some w → length (insert k v m) ≡ length m
  unfolding insert lookup
  length-insert_present k v w [] h = absurd (ground arith)
  length-insert_present k v w ((i, x) ∷ m) h = ground (arith, length-insert_present k v w m)

  pub lookup-insert_self : (k : K) (v : V) (m : Map K V) → lookup k (insert k v m) ≡ some v
  lookup-insert_self k v m = rw (lookup-insert, eq_refl k)

  pub lookup-insert_ne :
      (k j : K) (v : V) (m : Map K V) → k ≢ j → lookup j (insert k v m) ≡ lookup j m
  lookup-insert_ne k j v m d = ground (arith, lookup-insert k j v m, key.same_iff k j)

  pub lookup-remove_self : (k : K) (m : Map K V) → lookup k (remove k m) ≡ none
  lookup-remove_self k m = rw (lookup-remove, eq_refl k)

  pub lookup-remove_ne : (k j : K) (m : Map K V) → k ≢ j → lookup j (remove k m) ≡ lookup j m
  lookup-remove_ne k j m d = ground (arith, lookup-remove k j m, key.same_iff k j)
