-- ===== src/SemTok/Store.antt =====
-- src/simplecc/lsp/client.rs: what a store into the bounded cache keeps.
use simplecc.Base.{
  ℕ, ◌≤◌, ◌<◌, String, ◌≡◌, ◌≢◌, ◌⊎◌, inl, inr, refl, sym, subst, Option, none, some, List, [], ◌∷◌,
  arith, length, ◌==◌, string_key, eq_iff, eq_refl, ◌∙◌, Bool-cases,
}
use simplecc.Base.Assoc.{
  lookup, insert, remove, lookup-insert, length-insert, Distinct, Distinct-insert, Distinct-remove,
  lookup-first, length-insert_present, lookup-insert_self, lookup-insert_ne, lookup-remove_self,
  lookup-remove_ne,
}
use simplecc.SemTok.{Token}
use simplecc.SemTok.Bounded.{
  semtok_cache_limit, Entry, Cache, store_semtok_cache, IsOldest, length-store, evict_one,
}

abbrev pub new_entry : ℕ → Option String → List Token → Entry
new_entry now id tokens = record { result_id = id; tokens = tokens; last_used = now }

abbrev pub Older : ℕ → Cache → Type 0
Older now m = (j : String) (e : Entry) → lookup j m ≡ some e → e.last_used < now

-- The new entry is not the one that goes.
newest_stays :
    (now : ℕ) (uri : String) (x : Entry) (m : Cache)
    → x.last_used ≡ now
    → Older now m
    → length m ≤ semtok_cache_limit
    → semtok_cache_limit < length (insert uri x m)
    → ¬ IsOldest uri (insert uri x m)
newest_stays now uri x [] time older small big o = unfold insert in absurd (omega arith)
newest_stays now uri x ((i, w) ∷ m) time older small big (e, at, least) =
    let before = lookup-first i w m in
    elim (Bool-cases (uri == i)) [
      | inl hit ↦
          let same = (eq_iff uri i).0 hit in
          let present = subst (λ j. lookup j ((i, w) ∷ m) ≡ some w) (sym same) before in
          absurd (omega (arith, length-insert_present uri x w ((i, w) ∷ m) present))
      | inr miss ↦
          let kept : lookup i (insert uri x ((i, w) ∷ m)) ≡ some w =
            rw (lookup-insert, miss) before in
          let is : some x ≡ some e = sym (rw (lookup-insert, eq_refl uri)) ∙ at in
          absurd (ground (arith, is, least i w kept, older i w before))
    ]

-- What happens to another document's entry: it stays, or it is dropped and every entry of a
-- third document was used no earlier.
abbrev pub KeptOrOldest : String → String → Cache → Cache → Type 0
KeptOrOldest uri j m m' =
    (lookup j m' ≡ lookup j m)
    ⊎ ((e : Entry) × (lookup j m ≡ some e)
        × (lookup j m' ≡ none)
        × ((i : String) (x : Entry) → i ≢ uri → lookup i m ≡ some x → e.last_used ≤ x.last_used))

dropped-KeptOrOldest :
    (uri : String) (x : Entry) (m : Cache) (k j : String)
    → IsOldest k (insert uri x m)
    → j ≢ uri
    → KeptOrOldest uri j m (remove k (insert uri x m))
dropped-KeptOrOldest uri x m k j (e, at, least) ne = elim (Bool-cases (k == j)) [
  | inl hit ↦
      let same = (eq_iff k j).0 hit in
      inr (
        e,
        sym (lookup-insert_ne uri j x m (λ p. ne (sym p)))
            ∙ subst (λ i. lookup i (insert uri x m) ≡ some e) same at,
        subst (λ i. lookup j (remove i (insert uri x m)) ≡ none) (sym same)
            (lookup-remove_self j _),
        λ i y other h. least i y (lookup-insert_ne uri i x m (λ p. other (sym p)) ∙ h),
      )
  | inr miss ↦ inl (
      lookup-remove_ne k j _ (λ p. ground (arith, eq_iff k j))
      ∙ lookup-insert_ne uri j x m (λ p. ne (sym p)))
]

-- A store into a cache within its limit, later than every use in it, keeps it within the limit and
-- without a double key, holds the new entry, and drops at most one other, a least recently used.
pub store_lru :
    (now : ℕ) (uri : String) (id : Option String) (tokens : List Token) (m : Cache)
    → Distinct m
    → length m ≤ semtok_cache_limit
    → Older now m
    → let m' = store_semtok_cache now uri id tokens m in
      (length m' ≤ semtok_cache_limit)
      × Distinct m'
      × (lookup uri m' ≡ some (new_entry now id tokens))
      × ((j : String) → j ≢ uri → KeptOrOldest uri j m m')
store_lru now uri id tokens m d small older =
    let x = new_entry now id tokens in
    let m' = insert uri x m in
    let d' = Distinct-insert uri x m d in
    let bound = length-store now uri id tokens m d in
    unfold store_semtok_cache in
    elim (evict_one (length m') m' d' (omega arith) (omega (arith, length-insert uri x m))) [
      | inl (same, fits) ↦ rw same (
        fits,
        d',
        lookup-insert_self uri x m,
        λ j ne. inl (lookup-insert_ne uri j x m (λ p. ne (sym p))),
      )
      | inr (k, gone, old, big) ↦
          let other : k ≢ uri =
            λ p. newest_stays now uri x m refl older small big (subst (λ i. IsOldest i m') p old) in
          (
            bound,
            subst Distinct (sym gone) (Distinct-remove k m' d'),
            subst (λ c. lookup uri c ≡ some x) (sym gone)
                (lookup-remove_ne k uri m' other ∙ lookup-insert_self uri x m),
            λ j ne.
                subst (KeptOrOldest uri j m) (sym gone) (dropped-KeptOrOldest uri x m k j old ne),
          )
    ]
