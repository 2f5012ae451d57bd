-- ===== src/Completion/Newest.antt =====
-- src/simplecc/lsp/client.rs: an index is resolved only in the newest answer.
use simplecc.Base.{
  ℕ, ◌≤◌, ◌≡◌, refl, ◌⊎◌, inl, inr, Bool-cases, subst, ap, sym, Option, none, some, List, [], ◌∷◌,
  get_elem?, leb, nat_key, arith,
}
use simplecc.Completion.{
  Item, CompletionCache, empty_cache, keep_answer, found, find_item, found_at,
}

-- The cache after answers, oldest first, each with the generation of its request.
abbrev pub answers : CompletionCache → List (ℕ × List Item) → CompletionCache
answers cache [] = cache
answers cache ((g, items) ∷ rest) = answers (keep_answer g items cache) rest

abbrev pub IsAnswer : ℕ → List Item → List (ℕ × List Item) → Type 0
IsAnswer g items [] = ⊥
IsAnswer g items ((h, other) ∷ rest) = ((h ≡ g) × (other ≡ items)) ⊎ IsAnswer g items rest

abbrev pub NoneNewer : ℕ → List (ℕ × List Item) → Type 0
NoneNewer g [] = Unit
NoneNewer g ((h, other) ∷ rest) = (h ≤ g) × NoneNewer g rest

-- The cache holds the newest of the answers, unless it is as it was.
abbrev Stands : CompletionCache → List (ℕ × List Item) → CompletionCache → Type 0
Stands c as' d =
    (c.generation ≤ d.generation)
    × (NoneNewer d.generation as' × ((d ≡ c) ⊎ IsAnswer d.generation d.items as'))

answers-newest : (c : CompletionCache) (as' : List (ℕ × List Item)) → Stands c as' (answers c as')
unfolding keep_answer
answers-newest c [] = (omega arith, (tt, inl refl))
answers-newest c ((g, items) ∷ rest) = elim (Bool-cases (leb c.generation g)) [
  | inl newer ↦
      let c' : CompletionCache = record { generation = g; items = items } in
      let e : keep_answer g items c ≡ c' = rw (newer, keep_answer) refl in
      let (le, (none_newer, source)) = answers-newest c' rest in
      subst (λ d. Stands c ((g, items) ∷ rest) (answers d rest)) (sym e)
        (
          ground (arith, le, newer),
          (
            (le, none_newer),
            elim source [
              | inl same ↦
                  inr (inl (sym (ap (λ d. d.generation) same), sym (ap (λ d. d.items) same)))
              | inr later ↦ inr (inr later)
            ],
          ),
        )
  | inr older_answer ↦
      let e : keep_answer g items c ≡ c = rw (older_answer, keep_answer) refl in
      let (le, (none_newer, source)) = answers-newest c rest in
      subst (λ d. Stands c ((g, items) ∷ rest) (answers d rest)) (sym e)
        (
          le,
          (
            (ground (arith, le, older_answer), none_newer),
            elim source [ inl same ↦ inl same | inr later ↦ inr (inr later) ],
          ),
        )
]

found_at-some : (o : Option Item) (item : Item) → found_at o ≡ found item → o ≡ some item
found_at-some none item h = absurd cc
found_at-some (some x) item h = ground (arith, h)

-- An item that is found for a generation and an index is the item at that index of an answer to the
-- request of this generation, and no answer to a later request has come.
pub find_item-newest :
    (as' : List (ℕ × List Item)) (generation index : ℕ) (item : Item)
    → find_item generation index (answers empty_cache as') ≡ found item
    → (items : List Item) × (IsAnswer generation items as'
        × (NoneNewer generation as' × (get_elem? items index ≡ some item)))
unfolding find_item
find_item-newest as' generation index item h =
    let cache = answers empty_cache as' in
    let (le, (none_newer, source)) = answers-newest empty_cache as' in
    let same : cache.generation ≡ generation = ground (arith, h) in
    let at : get_elem? cache.items index ≡ some item =
      found_at-some (get_elem? cache.items index) item (ground (arith, h)) in
    elim source [
      | inl kept ↦ absurd (ground (arith, at, ap (λ d. get_elem? d.items index) kept))
      | inr answer ↦ (
        cache.items,
        (
          subst (λ g. IsAnswer g cache.items as') same answer,
          (subst (λ g. NoneNewer g as') same none_newer, at),
        ),
      )
    ]
