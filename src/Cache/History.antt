-- ===== src/Cache/History.antt =====
-- What a history of requests, replies and invalidations leaves executable, told from the history
-- alone, and the proof that the cache of src/simplecc/lsp/client.rs agrees with it.
use simplecc.Base.{
  ℕ, String, ◌<◌, ◌≤◌, ◌≡◌, ◌≢◌, ◌↔◌, ◌⊎◌, inl, inr, ◌∙◌, true, some, List, [], ◌∷◌, arith,
  string_key, nat_key, get_elem?, eq_iff,
}
use simplecc.Cache.{
  IdentityCache, found, init, begin, matches, replace, invalidate, invalidate_uri, item,
}

pub data Event (A : Type 0) : Type 0 where
  requested : ℕ → String → Event A
  replied : ℕ → String → List A → Event A
  document_edge : String → Event A
  refreshed : Event A

module _ {A : Type 0} where
  unfoldable pub step : IdentityCache A → Event A → IdentityCache A
  unfolding begin replace invalidate invalidate_uri
  step c (requested g u) = (begin c g u).0
  step c (replied g u xs) = (replace c g u xs).0
  step c (document_edge u) = invalidate_uri c u
  step c refreshed = invalidate c

  -- Newest event first.
  abbrev pub advance : IdentityCache A → List (Event A) → IdentityCache A
  advance c [] = c
  advance c (e ∷ h) = step (advance c h) e

  abbrev pub after : List (Event A) → IdentityCache A
  after = advance init

  -- Every request for a document in the history is older than `g`.
  abbrev pub Newest : ℕ → List (Event A) → Type 0
  Newest g [] = 0 < g
  Newest g (requested k u ∷ h) = ((u ≡ "") ⊎ (k < g)) × Newest g h
  Newest g (replied _ _ _ ∷ h) = Newest g h
  Newest g (document_edge _ ∷ h) = Newest g h
  Newest g (refreshed ∷ h) = Newest g h

  -- An event that leaves the offer of reply (g, u) alone.
  abbrev pub Spares : ℕ → String → Event A → Type 0
  Spares g u (requested k v) = (v ≡ "") ⊎ (k ≤ g)
  Spares g u (replied k v _) = (k ≢ g) ⊎ (v ≢ u)
  Spares g u (document_edge v) = v ≢ u
  Spares g u refreshed = ⊥

  -- The identity (g, u) is open, and its items are `xs`.
  pub data Open (g : ℕ) (u : String) : List (Event A) → List A → Type 0 where
    opened : {h : List (Event A)} → Newest g h → u ≢ "" → Open g u (requested g u ∷ h) []
    answered :
        {h : List (Event A)} {xs : List A} (ys : List A)
        → Open g u h xs
        → Open g u (replied g u ys ∷ h) ys
    spared :
        {h : List (Event A)} {xs : List A} (e : Event A)
        → Spares g u e
        → Open g u h xs
        → Open g u (e ∷ h) xs

  Newest-lt : (g : ℕ) (h : List (Event A)) → Newest g h → (after h).generation < g
  unfolding step begin replace invalidate invalidate_uri
  Newest-lt g [] n = n
  Newest-lt g (requested k u ∷ h) n = ground (arith, Newest-lt g h n.1, eq_iff u "")
  Newest-lt g (replied k u xs ∷ h) n = ground (arith, Newest-lt g h n)
  Newest-lt g (document_edge u ∷ h) n = ground (arith, Newest-lt g h n)
  Newest-lt g (refreshed ∷ h) n = ground (arith, Newest-lt g h n)

  lt-Newest : (g : ℕ) (h : List (Event A)) → (after h).generation < g → Newest g h
  unfolding step begin replace invalidate invalidate_uri
  lt-Newest g [] n = n
  lt-Newest g (requested k u ∷ h) n = (ground (arith, eq_iff u ""), lt-Newest g h (ground arith))
  lt-Newest g (replied k u xs ∷ h) n = lt-Newest g h (ground arith)
  lt-Newest g (document_edge u ∷ h) n = lt-Newest g h (ground arith)
  lt-Newest g (refreshed ∷ h) n = lt-Newest g h n

  -- The cache holds exactly the open identity.
  abbrev pub Holds : IdentityCache A → ℕ → String → List A → Type 0
  Holds c g u xs = (matches c g u ≡ true) × (c.items ≡ xs)

  step-Spares :
      (c : IdentityCache A) (g : ℕ) (u : String) (e : Event A)
      → Spares g u e
      → matches c g u ≡ true
      → (matches (step c e) g u ≡ true) × ((step c e).items ≡ c.items)
  unfolding matches step begin replace invalidate invalidate_uri
  step-Spares c g u (requested k v) s m = ground (arith, eq_iff v "")
  step-Spares c g u (replied k v xs) s m = ground (arith, eq_iff c.uri u, eq_iff c.uri v)
  step-Spares c g u (document_edge v) s m = ground (arith, eq_iff c.uri u, eq_iff c.uri v)
  step-Spares c g u refreshed s m = absurd s

  Open-Holds :
      {g : ℕ} {u : String} {h : List (Event A)} {xs : List A}
      → Open g u h xs
      → Holds (after h) g u xs
  unfolding matches step begin replace
  Open-Holds {g} {u} (opened {h = h} n d) = ground (arith, Newest-lt g h n, eq_iff u "", eq_iff u u)
  Open-Holds (answered {h = h} ys o) = let ih = Open-Holds o in ground (arith, ih.0)
  Open-Holds {g} {u} (spared {h = h} e s o) =
      let ih = Open-Holds o in
      let kept = step-Spares (after h) g u e s ih.0 in (kept.0, kept.1 ∙ ih.1)

  requested-inv :
      (c : IdentityCache A) (g : ℕ) (u : String) (k : ℕ) (v : String)
      → matches (step c (requested k v)) g u ≡ true
      → (((v ≡ "") ⊎ (k ≤ g)) × (matches c g u ≡ true) × ((step c (requested k v)).items ≡ c.items))
        ⊎ ((k ≡ g)
            × (v ≡ u)
            × (c.generation < g)
            × (u ≢ "")
            × ((step c (requested k v)).items ≡ []))
  unfolding step matches begin
  requested-inv c g u k v m = ground (arith, eq_iff v "", eq_iff u "", eq_iff v u)

  replied-inv :
      (c : IdentityCache A) (g : ℕ) (u : String) (k : ℕ) (v : String) (ys : List A)
      → matches (step c (replied k v ys)) g u ≡ true
      → (matches c g u ≡ true)
        × ((((k ≢ g) ⊎ (v ≢ u)) × ((step c (replied k v ys)).items ≡ c.items))
            ⊎ ((k ≡ g) × (v ≡ u) × ((step c (replied k v ys)).items ≡ ys)))
  unfolding step matches replace
  replied-inv c g u k v ys m = ground (arith, eq_iff c.uri u, eq_iff c.uri v)

  edge-inv :
      (c : IdentityCache A) (g : ℕ) (u v : String)
      → matches (step c (document_edge v)) g u ≡ true
      → (v ≢ u) × (matches c g u ≡ true) × ((step c (document_edge v)).items ≡ c.items)
  unfolding step matches invalidate_uri invalidate
  edge-inv c g u v m = ground (arith, eq_iff c.uri u, eq_iff c.uri v, eq_iff u "", eq_iff "" u)

  Holds-Open :
      (g : ℕ) (u : String) (h : List (Event A))
      → matches (after h) g u ≡ true
      → Open g u h (after h).items
  Holds-Open g u [] m = unfold matches in ground (arith, eq_iff "" u, eq_iff u "")
  Holds-Open g u (requested k v ∷ h) m = elim (requested-inv (after h) g u k v m) [
    | inl (s, held, same) ↦ rw same (spared (requested k v) s (Holds-Open g u h held))
    | inr (ek, ev, older, d, none_left) ↦
        rw none_left (rw (ek, ev) (opened (lt-Newest g h older) d))
  ]
  Holds-Open g u (replied k v ys ∷ h) m =
      let (held, which) = replied-inv (after h) g u k v ys m in
      elim which [
        | inl (s, same) ↦ rw same (spared (replied k v ys) s (Holds-Open g u h held))
        | inr (ek, ev, now) ↦ rw now (rw (ek, ev) (answered ys (Holds-Open g u h held)))
      ]
  Holds-Open g u (document_edge v ∷ h) m =
      let (d, held, same) = edge-inv (after h) g u v m in
      rw same (spared (document_edge v) d (Holds-Open g u h held))
  Holds-Open g u (refreshed ∷ h) m =
      absurd (unfold matches step invalidate in ground (arith, eq_iff "" u, eq_iff u ""))

  item-inv :
      (c : IdentityCache A) (g : ℕ) (u : String) (i : ℕ) (x : A)
      → item c g u i ≡ found x
      → (matches c g u ≡ true) × (get_elem? c.items i ≡ some x)
  unfolding item
  item-inv c g u i x e = ground arith

  item_of :
      (c : IdentityCache A) (g : ℕ) (u : String) (i : ℕ) (x : A)
      → matches c g u ≡ true
      → get_elem? c.items i ≡ some x
      → item c g u i ≡ found x
  unfolding item
  item_of c g u i x m e = ground arith

  -- An index can be executed exactly if the history left its identity open, with an item there.
  pub item-iff-Open :
      (h : List (Event A)) (g : ℕ) (u : String) (i : ℕ) (x : A)
      → (item (after h) g u i ≡ found x)
        ↔ ((xs : List A) × Open g u h xs × (get_elem? xs i ≡ some x))
  item-iff-Open h g u i x = (
    λ e. let (m, at) = item-inv (after h) g u i x e in ((after h).items, Holds-Open g u h m, at),
    λ p. let held = Open-Holds p.1 in item_of (after h) g u i x held.0 (rw held.1 p.2),
  )
