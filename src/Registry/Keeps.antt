-- ===== src/Registry/Keeps.antt =====
-- src/simplecc/registry.rs: what a call for a server leaves of the clients that run.
use simplecc.Base.{
  ℕ, ◌≡◌, ◌≢◌, refl, String, false, not, Option, none, some, List, [], ◌∷◌, string_key,
  if◌then◌else◌, arith,
}
use simplecc.Base.Assoc.{lookup, lookup-insert_ne}
use simplecc.Config.{ServerConfig, server_for_filetype}
use simplecc.Registry.{
  Status, not_found, Registry, World, Answer, answer, failed, has_key, prune_dead_clients, route,
  mapped, start_client, launch, start_server, ensure_found, ensure_server, Ran, command_found,
  julia_missing,
}
use simplecc.Registry.Routes.{if-Ran}

abbrev pub KeepsClients : Registry → Registry → Type 0
KeepsClients r r' =
    (n : String) (c : ℕ) → lookup n r.clients ≡ some c → lookup n r'.clients ≡ some c

-- Clients are kept, and without a server in the answer nothing is changed.
abbrev pub Keeps : Registry → Ran → Type 0
Keeps r (r', (a, events)) = KeepsClients r r' × (((n : String) → a ≢ answer (some n)) → r' ≡ r)

same-Keeps : (r : Registry) (a : Answer) (e : List Status) → Keeps r (r, (a, e))
same-Keeps r a e = (λ n c at. at, λ h. refl)

route-Keeps : (r : Registry) (f name : String) → Keeps r (route f name r, (answer (some name), []))
unfolding route
route-Keeps r f name = (λ n c at. at, λ h. absurd (h name refl))

start_client-Keeps :
    (o : Option ℕ) (r : Registry) (f name : String)
    → has_key name r.clients ≡ false
    → Keeps r (start_client o f name r)
unfolding start_client route
start_client-Keeps none r f name new = (λ n c at. at, λ h. refl)
start_client-Keeps (some d) r f name new = (
  λ n c at.
      let other : name ≢ n = λ e. absurd (ground (arith, new, e, at)) in
      ground (arith, lookup-insert_ne name n d r.clients other, at),
  λ h. absurd (h name refl),
)

launch-Keeps :
    (w : World) (r : Registry) (f name : String)
    → has_key name r.clients ≡ false
    → Keeps r (launch w f name r)
unfolding launch
launch-Keeps w r f name new =
    let start = start_client w.started f name r in
    if-Ran (Keeps r) (not w.launchable) (r, (failed, []))
      (if not w.event_taken then (r, (answer none, [])) else start) (λ e. same-Keeps r failed [])
      (λ e.
        if-Ran (Keeps r) (not w.event_taken) (r, (answer none, [])) start
          (λ e. same-Keeps r (answer none) []) (λ e. start_client-Keeps w.started r f name new))

start_server-Keeps :
    (w : World) (r : Registry) (f name : String) → Keeps r (start_server w f name r)
unfolding start_server
start_server-Keeps w r f name =
    let missing : Ran = (r, (answer none, not_found name ∷ [])) in
    let found = if julia_missing w name r then missing else launch w f name r in
    let same = same-Keeps r (answer none) (not_found name ∷ []) in
    if-Ran (Keeps r) (has_key name r.clients) (route f name r, (answer (some name), []))
      (if not (command_found w r) then missing else found) (λ e. route-Keeps r f name)
      (λ new.
        if-Ran (Keeps r) (not (command_found w r)) missing found (λ e. same)
          (λ e.
            if-Ran (Keeps r) (julia_missing w name r) missing (launch w f name r) (λ e. same)
              (λ e. launch-Keeps w r f name new)))

ensure_found-Keeps :
    (w : World) (r : Registry) (f : String) (m : Option String) (s : Option (String × ServerConfig))
    → Keeps r (ensure_found w f r m s)
ensure_found-Keeps w r f (some name) s = same-Keeps r (answer (some name)) []
ensure_found-Keeps w r f none none = same-Keeps r (answer none) []
ensure_found-Keeps w r f none (some s) = start_server-Keeps w r f s.0

-- A call for a filetype never replaces a client that is alive, and unless it answers with a server
-- it does no more than drop the clients that are dead and their routes.
pub ensure_server-Keeps :
    (w : World) (f : String) (r : Registry)
    → Keeps (prune_dead_clients w.alive r) (ensure_server w f r)
unfolding ensure_server
ensure_server-Keeps w f r =
    let p = prune_dead_clients w.alive r in
    ensure_found-Keeps w p f (mapped f p) (server_for_filetype f p.config)
