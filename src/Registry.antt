-- ===== src/Registry.antt =====
-- src/simplecc/registry.rs: the servers that run, and which of them a filetype is routed to. A client
-- is its number; whether it is alive is asked of the world, which the clients share.
pub mod Routes
pub mod Keeps
pub mod Reload
mod Tests
use simplecc.Base.{
  ℕ, String, Bool, true, false, not, ◌&&◌, Option, none, some, List, [], ◌∷◌, ◌++◌, keep, map,
  length, ◌==◌, string_key, if◌then◌else◌,
}
use simplecc.Base.Assoc.{Map, insert, lookup}
use simplecc.Config.{ServerConfig, Config, contains, first_of, server_for_filetype}

pub data Status : Type 0 where
  not_found starting running errored : String → Status

pub record Registry : Type 0 where
  pub config : Config
  pub clients : Map String ℕ
  pub ft_map : Map String (List String)
  pub remote : Bool

-- What a call meets outside: which clients are alive, the command that is found, Julia's package,
-- whether the editor takes the first event, the directory's URI and the command line, and the client
-- that starts.
pub record World : Type 0 where
  pub alive : ℕ → Bool
  pub resolved : Option String
  pub julia_installed : Bool
  pub event_taken : Bool
  pub launchable : Bool
  pub started : Option ℕ

abbrev pub live_entry : (ℕ → Bool) → String × ℕ → Bool
live_entry alive (n, c) = alive c

abbrev pub has_key : String → Map String ℕ → Bool
has_key n m = elim (lookup n m) [ none ↦ false | some c ↦ true ]

-- `clients.retain`.
unfoldable pub live_clients : (ℕ → Bool) → Map String ℕ → Map String ℕ
live_clients alive m = keep (live_entry alive) m

unfoldable pub live_names : Map String ℕ → List String → List String
live_names live names = keep (λ n. has_key n live) names

abbrev pub is_nil : List String → Bool
is_nil [] = true
is_nil (x ∷ xs) = false

-- `ft_map.retain`.
unfoldable pub prune_routes : Map String ℕ → Map String (List String) → Map String (List String)
unfolding live_names
prune_routes live [] = []
prune_routes live ((f, names) ∷ rest) =
    let rest' = prune_routes live rest in
    if is_nil (live_names live names) then rest' else (f, live_names live names) ∷ rest'

unfoldable pub prune_dead_clients : (ℕ → Bool) → Registry → Registry
unfolding live_clients prune_routes
prune_dead_clients alive r = record r {
  clients = live_clients alive r.clients;
  ft_map = prune_routes (live_clients alive r.clients) r.ft_map;
}

abbrev pub or_nil : Option (List String) → List String
or_nil none = []
or_nil (some names) = names

-- `entry(filetype).or_default()` and the push of a name that is not in it.
unfoldable pub route : String → String → Registry → Registry
route filetype name r =
    let names = or_nil (lookup filetype r.ft_map) in
    record r {
      ft_map =
          insert filetype (if contains name names then names else names ++ (name ∷ [])) r.ft_map;
    }

-- The mapped name that runs.
abbrev pub mapped : String → Registry → Option String
mapped filetype r = elim (first_of (or_nil (lookup filetype r.ft_map))) [
  | none ↦ none
  | some name ↦ if has_key name r.clients then some name else none
]

-- What a call leaves: the registry, its result, and the events it sends. `failed` is an error.
pub data Answer : Type 0 where
  answer : Option String → Answer
  failed : Answer

abbrev pub Ran : Type 0
Ran = Registry × (Answer × List Status)

-- The start itself, after "starting" was sent.
unfoldable pub start_client : Option ℕ → String → String → Registry → Ran
unfolding route
start_client none filetype name r = (r, (answer none, starting name ∷ errored name ∷ []))
start_client (some c) filetype name r = (
  route filetype name (record r { clients = insert name c r.clients }),
  (answer (some name), starting name ∷ running name ∷ []),
)

unfoldable pub launch : World → String → String → Registry → Ran
unfolding start_client
launch w filetype name r =
    if not w.launchable
    then (r, (failed, []))
    else if not w.event_taken
    then (r, (answer none, []))
    else start_client w.started filetype name r

abbrev pub command_found : World → Registry → Bool
command_found w r = if r.remote then true else (elim w.resolved [ none ↦ false | some c ↦ true ])

abbrev pub julia_missing : World → String → Registry → Bool
julia_missing w name r = not r.remote && (name == "julia-lsp" && not w.julia_installed)

unfoldable pub start_server : World → String → String → Registry → Ran
unfolding route launch
start_server w filetype name r =
    if has_key name r.clients
    then (route filetype name r, (answer (some name), []))
    else if not (command_found w r)
    then (r, (answer none, not_found name ∷ []))
    else if julia_missing w name r
    then (r, (answer none, not_found name ∷ []))
    else launch w filetype name r

-- By the name that is mapped and runs, and by the server of the configuration.
abbrev pub ensure_found :
    World → String → Registry → Option String → Option (String × ServerConfig) → Ran
ensure_found w filetype r (some name) s = (r, (answer (some name), []))
ensure_found w filetype r none none = (r, (answer none, []))
ensure_found w filetype r none (some s) = start_server w filetype s.0 r

unfoldable pub ensure_server : World → String → Registry → Ran
unfolding start_server prune_dead_clients
ensure_server w filetype r =
    let r' = prune_dead_clients w.alive r in
    ensure_found w filetype r' (mapped filetype r') (server_for_filetype filetype r'.config)

-- A client that is alive.
abbrev pub if_alive : (ℕ → Bool) → Option ℕ → Option ℕ
if_alive alive none = none
if_alive alive (some c) = if alive c then some c else none

unfoldable pub client_by_name : (ℕ → Bool) → String → Registry → Option ℕ
client_by_name alive name r = if_alive alive (lookup name r.clients)

unfoldable pub client_for_filetype : (ℕ → Bool) → String → Registry → Option ℕ
client_for_filetype alive filetype r = elim (first_of (or_nil (lookup filetype r.ft_map))) [
  | none ↦ none
  | some name ↦ if_alive alive (lookup name r.clients)
]

unfoldable pub primary_server_name : (ℕ → Bool) → String → Registry → Option String
primary_server_name alive filetype r = elim (first_of (or_nil (lookup filetype r.ft_map))) [
  | none ↦ none
  | some name ↦ (elim (if_alive alive (lookup name r.clients)) [ none ↦ none | some c ↦ some name ])
]

abbrev cons_some : Option ℕ → List ℕ → List ℕ
cons_some none cs = cs
cons_some (some c) cs = c ∷ cs

unfoldable pub live_of : (ℕ → Bool) → Map String ℕ → List String → List ℕ
live_of alive clients [] = []
live_of alive clients (n ∷ ns) =
    cons_some (if_alive alive (lookup n clients)) (live_of alive clients ns)

unfoldable pub clients_for_filetype : (ℕ → Bool) → String → Registry → List ℕ
clients_for_filetype alive filetype r = live_of alive r.clients (or_nil (lookup filetype r.ft_map))

unfoldable pub active_clients : (ℕ → Bool) → Registry → List ℕ
active_clients alive r = map (λ e. e.1) (keep (live_entry alive) r.clients)

abbrev pub shutdown_all : Registry → Registry
shutdown_all r = record r { clients = [] }
