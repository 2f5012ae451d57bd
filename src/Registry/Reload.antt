-- ===== src/Registry/Reload.antt =====
-- src/simplecc/registry.rs: a new configuration for the servers that run.
use simplecc.Base.{
  ℕ, String, Bool, Option, none, some, List, [], ◌∷◌, length, Result, ok, err, string_key,
}
use simplecc.Base.Assoc.{Map, lookup}
use simplecc.Json.{Json}
use simplecc.Config.{ServerConfig, Config}
use simplecc.Config.Effective.{effective_settings}
use simplecc.Registry.{Registry, prune_dead_clients}

-- What a reload meets outside: the clients that are alive, the configuration that is read, by the
-- given text or from the file, and whether a client takes its settings.
pub record Reload : Type 0 where
  pub alive : ℕ → Bool
  pub parsed : String → Result Config
  pub selected : Option String → Result Config
  pub notified : ℕ → Result (Unit {0})

abbrev pub settings_of : String → Option ServerConfig → Option Json
settings_of name none = none
settings_of name (some server) = effective_settings name server

-- `updates`: each client with its settings.
unfoldable pub updates_of : Config → Map String ℕ → List (ℕ × Option Json)
unfolding effective_settings
updates_of config [] = []
updates_of config ((name, c) ∷ rest) =
    (c, settings_of name (lookup name config)) ∷ updates_of config rest

-- The settings go out in turn, until one is not taken.
abbrev pub notify_next :
    Result (Unit {0})
    → ℕ × Option Json
    → Result (Unit {0}) × List (ℕ × Option Json)
    → Result (Unit {0}) × List (ℕ × Option Json)
notify_next (ok done) u (result, sent) = (result, u ∷ sent)
notify_next (err e) u later = (err e, u ∷ [])

unfoldable pub notify_all :
    (ℕ → Result (Unit {0})) → List (ℕ × Option Json) → Result (Unit {0}) × List (ℕ × Option Json)
notify_all notified [] = (ok tt, [])
notify_all notified (u ∷ us) = notify_next (notified u.0) u (notify_all notified us)

abbrev pub counted : ℕ → Result (Unit {0}) → Result ℕ
counted n (ok done) = ok n
counted n (err e) = err e

abbrev pub read_configuration : Reload → Option String → Option String → Result Config
read_configuration w config_path none = w.selected config_path
read_configuration w config_path (some content) = w.parsed content

-- What a reload leaves: the registry, its result, and the settings that were sent.
abbrev pub Reloaded : Type 0
Reloaded = Registry × (Result ℕ × List (ℕ × Option Json))

unfoldable pub reload_with : Reload → Registry → Result Config → Reloaded
unfolding updates_of notify_all
reload_with w r (err e) = (r, (err e, []))
reload_with w r (ok config) =
    let updates = updates_of config r.clients in
    let (result, sent) = notify_all w.notified updates in
    (record r { config = config }, (counted (length updates) result, sent))

unfoldable pub reload_configuration : Reload → Option String → Option String → Registry → Reloaded
unfolding reload_with prune_dead_clients
reload_configuration w config_path remote_config r =
    reload_with w (prune_dead_clients w.alive r) (read_configuration w config_path remote_config)
