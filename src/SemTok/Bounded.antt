-- ===== src/SemTok/Bounded.antt =====
-- src/simplecc/lsp/client.rs: `store_semtok_cache`, the bounded cache of the last tokens of each document,
-- and which entry goes. `Instant::now()` is an argument; the cache is a map without a double key.
use simplecc.Base.{
  ℕ, zero, suc, ◌+◌, ◌≤◌, ◌<◌, String, ◌≡◌, ◌⊎◌, inl, inr, refl, sym, subst, Option, none, some,
  List, [], ◌∷◌, arith, length, ltb, string_key, if◌then◌else◌, Bool-cases,
}
use simplecc.Base.Assoc.{
  Map, lookup, insert, remove, Distinct, Distinct-insert, Distinct-remove, Absent, lookup-later,
  lookup-first, lookup-cons, length-remove-lt,
}
use simplecc.SemTok.{Token}

abbrev pub semtok_cache_limit : ℕ
semtok_cache_limit = 64

-- `SemanticTokenCache`.
pub record Entry : Type 0 where
  pub result_id : Option String
  pub tokens : List Token
  pub last_used : ℕ

abbrev pub Cache : Type 0
Cache = Map String Entry

-- `min_by_key`: the first of the least recently used, after a candidate.
unfoldable pub oldest_from : String → ℕ → Cache → String × ℕ
oldest_from k t [] = (k, t)
oldest_from k t ((j, e) ∷ m) =
    oldest_from (if ltb e.last_used t then j else k) (if ltb e.last_used t then e.last_used else t)
      m

unfoldable pub oldest : Cache → Option String
oldest [] = none
oldest ((k, e) ∷ m) = some (oldest_from k e.last_used m).0

abbrev pub without : Option String → Cache → Cache
without none m = m
without (some k) m = remove k m

-- The `while` loop: a round for each entry is enough.
unfoldable pub evict : ℕ → Cache → Cache
evict zero m = m
evict (suc fuel) m =
    let rest = evict fuel (without (oldest m) m) in
    if ltb semtok_cache_limit (length m) then rest else m

unfoldable pub store_semtok_cache : ℕ → String → Option String → List Token → Cache → Cache
store_semtok_cache now uri id tokens m =
    let m' = insert uri (record { result_id = id; tokens = tokens; last_used = now }) m in
    evict (length m') m'

oldest_from-least :
    (k : String) (t : ℕ) (m : Cache)
    → ((oldest_from k t m).1 ≤ t)
      × ((j : String) (e : Entry) → lookup j m ≡ some e → (oldest_from k t m).1 ≤ e.last_used)
unfolding oldest_from lookup
oldest_from-least k t [] = (omega arith, λ j e h. cc)
oldest_from-least k t ((i, w) ∷ m) =
    let (a, b) =
      oldest_from-least (if ltb w.last_used t then i else k)
        (if ltb w.last_used t then w.last_used else t) m in
    (ground arith, λ j e h. ground (arith, b j e))

-- The result is the candidate, or is found with its time.
abbrev Candidate : String → ℕ → Cache → String × ℕ → Type 0
Candidate k t m r =
    ((r.0 ≡ k) × (r.1 ≡ t)) ⊎ ((e : Entry) × (lookup r.0 m ≡ some e) × (e.last_used ≡ r.1))

-- A result over the rest of the map is a result over the map with the entry (i, w) before it.
Candidate-same :
    (k : String) (t : ℕ) (i : String) (w : Entry) (m : Cache) (r : String × ℕ)
    → Absent i m
    → Candidate k t m r
    → Candidate k t ((i, w) ∷ m) r
Candidate-same k t i w m r a (inl same) = inl same
Candidate-same k t i w m r a (inr (e, at, time)) = inr (e, lookup-later i r.0 w m a at, time)

Candidate-moved :
    (k : String) (t : ℕ) (i : String) (w : Entry) (m : Cache) (r : String × ℕ)
    → Absent i m
    → Candidate i w.last_used m r
    → (e : Entry) × (lookup r.0 ((i, w) ∷ m) ≡ some e) × (e.last_used ≡ r.1)
Candidate-moved k t i w m r a (inl (key, time)) =
    (w, subst (λ j. lookup j ((i, w) ∷ m) ≡ some w) (sym key) (lookup-first i w m), sym time)
Candidate-moved k t i w m r a (inr (e, at, time)) = (e, lookup-later i r.0 w m a at, time)

oldest_from-Candidate :
    (k : String) (t : ℕ) (m : Cache) → Distinct m → Candidate k t m (oldest_from k t m)
unfolding oldest_from
oldest_from-Candidate k t [] d = inl (refl, refl)
oldest_from-Candidate k t ((i, w) ∷ m) (a, d) = elim (Bool-cases (ltb w.last_used t)) [
  | inl older ↦
      rw (older, oldest_from)
        (inr (Candidate-moved k t i w m _ a (oldest_from-Candidate i w.last_used m d)))
  | inr newer ↦
      rw (newer, oldest_from) (Candidate-same k t i w m _ a (oldest_from-Candidate k t m d))
]

-- An entry that is in the cache, and none was used before it.
abbrev pub IsOldest : String → Cache → Type 0
IsOldest k m =
    (e : Entry) × (lookup k m ≡ some e)
    × ((j : String) (x : Entry) → lookup j m ≡ some x → e.last_used ≤ x.last_used)

oldest-IsOldest :
    (m : Cache) → Distinct m → 0 < length m → (k : String) × (oldest m ≡ some k) × IsOldest k m
unfolding oldest
oldest-IsOldest [] d h = absurd (omega arith)
oldest-IsOldest ((i, w) ∷ m) (a, d) h =
    let r = oldest_from i w.last_used m in
    let (e, at, time) =
      Candidate-moved i w.last_used i w m r a (oldest_from-Candidate i w.last_used m d) in
    let (first, others) = oldest_from-least i w.last_used m in
    (
      r.0,
      refl,
      (
        e,
        at,
        λ j x h. elim (lookup-cons i j w x m h) [
          | inl (key, same) ↦ rw (time, ← same) first
          | inr later ↦ rw time (others j x later)
        ],
      ),
    )

evict-bound :
    (fuel : ℕ) (m : Cache)
    → Distinct m
    → length m ≤ fuel
    → length (evict fuel m) ≤ semtok_cache_limit
unfolding evict
evict-bound zero m d h = omega arith
evict-bound (suc fuel) m d h = elim (Bool-cases (ltb semtok_cache_limit (length m))) [
  | inl over ↦
      let (k, is, (e, at, least)) = oldest-IsOldest m d (ground arith) in
      rw (over, is)
        (evict-bound fuel (remove k m) (Distinct-remove k m d)
          (omega (arith, length-remove-lt k e m at)))
  | inr fits ↦ rw fits (ground arith)
]

-- The cache never holds more than its limit of documents after a store.
pub length-store :
    (now : ℕ) (uri : String) (id : Option String) (tokens : List Token) (m : Cache)
    → Distinct m
    → length (store_semtok_cache now uri id tokens m) ≤ semtok_cache_limit
unfolding store_semtok_cache
length-store now uri id tokens m d = evict-bound _ _ (Distinct-insert uri _ m d) (omega arith)

evict_small : (fuel : ℕ) (m : Cache) → length m ≤ semtok_cache_limit → evict fuel m ≡ m
unfolding evict
evict_small zero m h = refl
evict_small (suc fuel) m h = ground arith

-- One entry too many: the least recently used goes.
pub evict_one :
    (fuel : ℕ) (m : Cache)
    → Distinct m
    → length m ≤ fuel
    → length m ≤ semtok_cache_limit + 1
    → ((evict fuel m ≡ m) × (length m ≤ semtok_cache_limit))
      ⊎ ((k : String) × (evict fuel m ≡ remove k m)
          × IsOldest k m
          × (semtok_cache_limit < length m))
unfolding evict
evict_one zero m d enough h = inl (refl, omega arith)
evict_one (suc fuel) m d enough h = elim (Bool-cases (ltb semtok_cache_limit (length m))) [
  | inl over ↦
      let (k, is, (e, at, least)) = oldest-IsOldest m d (ground arith) in
      inr (
        k,
        rw (over, is) (evict_small fuel (remove k m) (omega (arith, length-remove-lt k e m at))),
        (e, at, least),
        ground arith,
      )
  | inr fits ↦ inl (rw fits, ground arith)
]
