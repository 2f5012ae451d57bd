-- ===== src/Registry/Tests.antt =====
-- A filetype of src/simplecc/registry.rs whose server has died: another one starts.
use simplecc.Base.{arith, ℕ, ◌≡◌, refl, true, false, none, some, [], ◌∷◌, ◌==◌, nat_key}
use simplecc.Base.Assoc.{lookup}
use simplecc.Base.Sort.{sort_by, insert_by}
use simplecc.Config.{
  ServerConfig, pos, server_for_filetype, servers_for_filetype, sort_ranked, contains,
}
use simplecc.Registry.{
  Registry, World, answer, prune_dead_clients, ensure_server, live_clients, prune_routes,
  live_names, start_server, start_client, launch,
}
use simplecc.Registry.Routes.{RoutedTo, ensure_server-routes}

abbrev clangd : ServerConfig
clangd = record {
  command = "clangd";
  args = [];
  filetypes = "c" ∷ [];
  root_patterns = [];
  initialization_options = none;
  settings = none;
  priority = pos 0;
}

-- Client 1 has died.
abbrev one_dead : Registry
one_dead = record {
  config = ("clangd", clangd) ∷ [];
  clients = ("clangd", 1) ∷ [];
  ft_map = ("c", "clangd" ∷ []) ∷ [];
  remote = false;
}

abbrev world : World
world = record {
  alive = λ c. c == 2;
  resolved = some "/usr/bin/clangd";
  julia_installed = false;
  event_taken = true;
  launchable = true;
  started = some 2;
}

two_alive : (c : ℕ) → some 2 ≡ some c → (c == 2) ≡ true
two_alive c e = ground (arith, e)

restarted : (ensure_server world "c" one_dead).1.0 ≡ answer (some "clangd")
unfolding ensure_server prune_dead_clients live_clients prune_routes live_names start_server
    start_client launch server_for_filetype servers_for_filetype sort_ranked sort_by insert_by
    contains lookup
restarted = refl

ensure_server-routes_example :
    (c : ℕ) × (RoutedTo world.alive "c" "clangd" c (ensure_server world "c" one_dead).0
      × ((c == 2) ≡ true))
ensure_server-routes_example = ensure_server-routes world "c" one_dead two_alive "clangd" restarted
