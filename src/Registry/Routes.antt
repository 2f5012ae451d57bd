-- ===== src/Registry/Routes.antt =====
-- src/simplecc/registry.rs: a filetype is routed to a client that runs.
use simplecc.Base.{
  ℕ, ◌≡◌, refl, sym, subst, ◌⊎◌, inl, inr, Bool-cases, Option-cases, String, Bool, true, false, not,
  Option, none, some, List, [], ◌∷◌, ◌==◌, string_key, if◌then◌else◌, arith,
}
use simplecc.Base.Assoc.{Map, insert, lookup, lookup-insert_self}
use simplecc.Config.{ServerConfig, first_of, server_for_filetype, contains}
use simplecc.Registry.{
  not_found, Registry, World, answer, failed, has_key, live_clients, live_names, prune_routes,
  prune_dead_clients, is_nil, or_nil, route, mapped, start_client, launch, start_server,
  ensure_found, ensure_server, client_for_filetype, primary_server_name, Ran, command_found,
  julia_missing,
}

live-alive :
    (alive : ℕ → Bool) (n : String) (c : ℕ) (m : Map String ℕ)
    → lookup n (live_clients alive m) ≡ some c
    → alive c ≡ true
unfolding live_clients lookup
live-alive alive n c [] h = absurd cc
live-alive alive n c ((k, d) ∷ m) h = ground (arith, live-alive alive n c m)

first-live :
    (live : Map String ℕ) (names : List String)
    → (is_nil (live_names live names) ≡ true)
      ⊎ ((n : String) × (first_of (live_names live names) ≡ some n) × (has_key n live ≡ true))
unfolding live_names
first-live live [] = inl refl
first-live live (n ∷ ns) = elim (Bool-cases (has_key n live)) [
  | inl kept ↦ inr (n, rw kept refl, kept)
  | inr dropped ↦ rw (dropped, live_names) (first-live live ns)
]

first-nil : (names : List String) (n : String) → first_of names ≡ some n → is_nil names ≡ false
first-nil [] n h = absurd cc
first-nil (x ∷ xs) n h = refl

-- A filetype that is routed is routed to a live name.
prune-first :
    (live : Map String ℕ) (f : String) (m : Map String (List String))
    → (lookup f (prune_routes live m) ≡ none)
      ⊎ ((n : String) × (first_of (or_nil (lookup f (prune_routes live m))) ≡ some n)
          × (has_key n live ≡ true))
unfolding prune_routes lookup
prune-first live f [] = inl refl
prune-first live f ((g, names) ∷ rest) = elim (first-live live names) [
  | inl gone ↦ rw (gone, prune_routes, lookup) (prune-first live f rest)
  | inr (n, first, key) ↦
      rw (first-nil (live_names live names) n first, prune_routes, lookup)
        (elim (Bool-cases (g == f)) [
          | inl here ↦ rw here (inr (n, first, key))
          | inr there ↦ rw there (prune-first live f rest)
        ])
]

has_key-some :
    (n : String) (m : Map String ℕ) → has_key n m ≡ true → (c : ℕ) × (lookup n m ≡ some c)
has_key-some n m h = elim (Option-cases (lookup n m)) [
  | inl gone ↦ absurd (ground (arith, gone, h))
  | inr found ↦ found
]

-- The filetype is routed to this client of this name, and to no other name.
abbrev pub RoutedTo : (ℕ → Bool) → String → String → ℕ → Registry → Type 0
RoutedTo alive f n c r =
    (lookup n r.clients ≡ some c)
    × (client_for_filetype alive f r ≡ some c)
    × (primary_server_name alive f r ≡ some n)

routed :
    (alive : ℕ → Bool) (f n : String) (c : ℕ) (r : Registry)
    → first_of (or_nil (lookup f r.ft_map)) ≡ some n
    → lookup n r.clients ≡ some c
    → alive c ≡ true
    → RoutedTo alive f n c r
unfolding client_for_filetype primary_server_name
routed alive f n c r first at live =
    (at, ground (arith, first, at, live), ground (arith, first, at, live))

route-first :
    (f n : String) (r : Registry)
    → lookup f r.ft_map ≡ none
    → first_of (or_nil (lookup f (route f n r).ft_map)) ≡ some n
unfolding route contains
route-first f n r fresh = rw (fresh, lookup-insert_self) refl

clients-route : (f n : String) (r : Registry) → (route f n r).clients ≡ r.clients
unfolding route
clients-route f n r = refl

-- What the start of a server for an unrouted filetype leads to.
abbrev Serves : (ℕ → Bool) → String → Ran → Type 0
Serves alive f (r, (a, events)) =
    (n : String) → a ≡ answer (some n) → (c : ℕ) × (RoutedTo alive f n c r × (alive c ≡ true))

pub if-Ran :
    (P : Ran → Type 0) (b : Bool) (x y : Ran)
    → (b ≡ true → P x)
    → (b ≡ false → P y)
    → P (if b then x else y)
if-Ran P true x y h k = h refl
if-Ran P false x y h k = k refl

module _ (w : World) (f : String) (r : Registry)
    (starts : (c : ℕ) → w.started ≡ some c → w.alive c ≡ true)
    (live : (n : String) (c : ℕ) → lookup n r.clients ≡ some c → w.alive c ≡ true)
    (fresh : lookup f r.ft_map ≡ none) where
  start_client-Serves :
      (o : Option ℕ) (name : String)
      → ((c : ℕ) → o ≡ some c → w.alive c ≡ true)
      → Serves w.alive f (start_client o f name r)
  unfolding start_client route
  start_client-Serves none name up n e = absurd cc
  start_client-Serves (some c) name up n e =
      let same : name ≡ n = ground (arith, e) in
      let r' = record r { clients = insert name c r.clients } in
      (
        c,
        (
          subst (λ x. RoutedTo w.alive f x c (route f name r')) same
              (routed w.alive f name c (route f name r') (route-first f name r' fresh)
                (lookup-insert_self name c r.clients) (up c refl)),
          up c refl,
        ),
      )

  launch-Serves : (name : String) → Serves w.alive f (launch w f name r)
  unfolding launch
  launch-Serves name =
      if-Ran (Serves w.alive f) (not w.launchable) (r, (failed, []))
        (if not w.event_taken then (r, (answer none, [])) else start_client w.started f name r)
        (λ e n h. absurd cc)
        (λ e.
          if-Ran (Serves w.alive f) (not w.event_taken) (r, (answer none, []))
            (start_client w.started f name r) (λ e n h. absurd cc)
            (λ e. start_client-Serves w.started name starts))

  missing-Serves : (name : String) → Serves w.alive f (r, (answer none, not_found name ∷ []))
  missing-Serves name n h = absurd cc

  known-Serves :
      (name : String)
      → has_key name r.clients ≡ true
      → Serves w.alive f (route f name r, (answer (some name), []))
  known-Serves name key n e =
      let same : name ≡ n = ground (arith, e) in
      let (c, at) = has_key-some name r.clients key in
      (
        c,
        (
          subst (λ x. RoutedTo w.alive f x c (route f name r)) same
              (routed w.alive f name c (route f name r) (route-first f name r fresh)
                (unfold route in at) (live name c at)),
          live name c at,
        ),
      )

  start_server-Serves : (name : String) → Serves w.alive f (start_server w f name r)
  unfolding start_server
  start_server-Serves name =
      let missing : Ran = (r, (answer none, not_found name ∷ [])) in
      let found = if julia_missing w name r then missing else launch w f name r in
      if-Ran (Serves w.alive f) (has_key name r.clients) (route f name r, (answer (some name), []))
        (if not (command_found w r) then missing else found) (known-Serves name)
        (λ e.
          if-Ran (Serves w.alive f) (not (command_found w r)) missing found
            (λ e. missing-Serves name)
            (λ e.
              if-Ran (Serves w.alive f) (julia_missing w name r) missing (launch w f name r)
                (λ e. missing-Serves name) (λ e. launch-Serves name)))

  search-Serves :
      (s : Option (String × ServerConfig)) → Serves w.alive f (ensure_found w f r none s)
  search-Serves none n e = absurd cc
  search-Serves (some x) n e = start_server-Serves x.0 n e

module _ (w : World) (f : String) (r : Registry)
    (starts : (c : ℕ) → w.started ≡ some c → w.alive c ≡ true) where
  mapped-Serves :
      (name : String)
      → first_of (or_nil (lookup f r.ft_map)) ≡ some name
      → has_key name r.clients ≡ true
      → ((n : String) (c : ℕ) → lookup n r.clients ≡ some c → w.alive c ≡ true)
      → Serves w.alive f (r, (answer (some name), []))
  mapped-Serves name first key live n e =
      let same : name ≡ n = ground (arith, e) in
      let (c, at) = has_key-some name r.clients key in
      (
        c,
        (
          subst (λ x. RoutedTo w.alive f x c r) same
              (routed w.alive f name c r first at (live name c at)),
          live name c at,
        ),
      )

  -- A registry without dead clients, in which a filetype that is routed has a name that runs.
  pruned-Serves :
      (s : Option (String × ServerConfig))
      → ((n : String) (c : ℕ) → lookup n r.clients ≡ some c → w.alive c ≡ true)
      → (lookup f r.ft_map ≡ none)
        ⊎ ((n : String) × (first_of (or_nil (lookup f r.ft_map)) ≡ some n)
            × (has_key n r.clients ≡ true))
      → Serves w.alive f (ensure_found w f r (mapped f r) s)
  pruned-Serves s live (inr (n, first, key)) =
      let at : mapped f r ≡ some n = ground (arith, first, key) in
      subst (λ m. Serves w.alive f (ensure_found w f r m s)) (sym at)
        (mapped-Serves n first key live)
  pruned-Serves s live (inl fresh) =
      let at : mapped f r ≡ none = ground (arith, fresh) in
      subst (λ m. Serves w.alive f (ensure_found w f r m s)) (sym at)
        (search-Serves w f r starts live fresh s)

-- A call for a filetype that answers with a server has the filetype routed to this server, by a
-- client that is alive: requests for the filetype reach it, and its name is the primary one. It is
-- assumed that a client that has just started is alive.
pub ensure_server-routes :
    (w : World) (f : String) (r : Registry)
    → ((c : ℕ) → w.started ≡ some c → w.alive c ≡ true)
    → (n : String) → (ensure_server w f r).1.0 ≡ answer (some n)
    → (c : ℕ) × (RoutedTo w.alive f n c (ensure_server w f r).0 × (w.alive c ≡ true))
unfolding ensure_server
ensure_server-routes w f r starts =
    let p = prune_dead_clients w.alive r in
    pruned-Serves w f p starts (server_for_filetype f p.config)
      (unfold prune_dead_clients in λ n c at. live-alive w.alive n c r.clients at)
      (unfold prune_dead_clients in prune-first (live_clients w.alive r.clients) f r.ft_map)
