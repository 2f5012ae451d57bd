-- ===== src/Daemon/Shared.antt =====
-- src/simplecc/simplecc_daemon.rs: what the tasks of the daemon share, and what an operation does
-- with it.
use simplecc.Base.{
  ℕ, String, Bool, Option, none, some, List, [], ◌∷◌, map, Result, err, string_key, if◌then◌else◌,
}
use simplecc.Base.Assoc.{Map, insert, lookup, remove}
use simplecc.Config.{Config}
use simplecc.Json.{Json}
use simplecc.Registry.{
  Registry, World, Status, answer, Ran, ensure_server, client_for_filetype, clients_for_filetype,
  primary_server_name, active_clients, client_by_name,
}
use simplecc.Registry.Reload.{Reload, Reloaded, reload_configuration}
use simplecc.Daemon.Handler.{Call, Reply, Op, Answer}

-- A watcher: its root, and the Julia environments that it watches.
pub record Watching : Type 0 where
  pub root : String
  pub julia : List String

pub record Shared : Type 0 where
  pub registry : Option Registry
  pub watcher : Option Watching
  pub uri_ft : Map String String

-- What an operation meets outside: the registry's world, with the clients that are alive, what a
-- client answers, the configuration that is read, whether a watcher starts and takes an environment,
-- and the installer.
pub record Outside : Type 0 where
  pub world : World
  pub replies : ℕ → (c : Call) → Reply c
  pub loads : Result Config
  pub reload : Reload
  pub watcher_starts : Bool
  pub watches : Bool
  pub installs : Result String
  pub installable : Json

-- What is seen of an operation: a call of a client, an event of the registry, and settings that are
-- sent.
pub data Effect : Type 0 where
  called : ℕ → Call → Effect
  status : Status → Effect
  configured : ℕ × Option Json → Effect

-- The answer, the state that is left, and what is seen.
abbrev pub Done : Op → Type 0
Done o = Answer o × (Shared × List Effect)

-- A value of the registry, or of none.
abbrev pub of_registry {ℓ} : {A : Type ℓ} → Option Registry → A → (Registry → A) → A
of_registry none a f = a
of_registry (some r) a f = f r

abbrev pub opened_clients : (ℕ → Bool) → String → Ran → List ℕ
opened_clients alive language_id (r, (answer (some name), sent)) =
    clients_for_filetype alive language_id r
opened_clients alive language_id (r, (_, sent)) = []

abbrev pub opened : Outside → String → Shared → Ran → List ℕ × (Shared × List Effect)
opened w language_id s ran = (
  opened_clients w.world.alive language_id ran,
  (record s { registry = some ran.0 }, map status ran.1.1),
)

abbrev pub reloaded : Shared → Reloaded → Result ℕ × (Shared × List Effect)
reloaded s (r, (result, sent)) = (result, (record s { registry = some r }, map configured sent))

abbrev pub watch_also : Bool → String → Option Watching → Option Watching
watch_also takes path none = none
watch_also takes path (some w) =
    if takes then some (record w { julia = path ∷ w.julia }) else some w

-- What an operation does.
unfoldable pub exec : Outside → Shared → (o : Op) → Done o
unfolding ensure_server client_for_filetype clients_for_filetype
exec w s (Op.primary_client ft) =
    (of_registry s.registry none (client_for_filetype w.world.alive ft), (s, []))
exec w s (Op.primary_server_name ft) =
    (of_registry s.registry none (primary_server_name w.world.alive ft), (s, []))
exec w s (Op.filetype_clients ft) =
    (of_registry s.registry [] (clients_for_filetype w.world.alive ft), (s, []))
exec w s Op.active_clients = (of_registry s.registry [] (active_clients w.world.alive), (s, []))
exec w s (Op.client_by_name name) =
    (of_registry s.registry none (client_by_name w.world.alive name), (s, []))
exec w s (Op.open_server ft) =
    of_registry s.registry ([], (s, [])) (λ r. opened w ft s (ensure_server w.world ft r))
exec w s (Op.filetype_of uri) = (lookup uri s.uri_ft, (s, []))
exec w s (Op.untrack uri) = (lookup uri s.uri_ft, (record s { uri_ft = remove uri s.uri_ft }, []))
exec w s (Op.track uri ft) = (tt, (record s { uri_ft = insert uri ft s.uri_ft }, []))
exec w s Op.clear_tracked = (tt, (record s { uri_ft = [] }, []))
exec w s (Op.load_configuration root path content) = (w.loads, (s, []))
exec w s (Op.reload_configuration path content) =
    of_registry s.registry (err "SimpleCC is not initialized", (s, []))
      (λ r. reloaded s (reload_configuration w.reload path content r))
exec w s Op.take_registry =
    (of_registry s.registry [] (λ r. map (λ e. e.1) r.clients), (record s { registry = none }, []))
exec w s Op.stop_watcher = (tt, (record s { watcher = none }, []))
exec w s (Op.put_registry config remote) = (
  tt,
  (
    record s {
      registry = some (record { config = config; clients = []; ft_map = []; remote = remote });
    },
    [],
  ),
)
exec w s (Op.start_watcher root) = (
  tt,
  (
    record s {
      watcher = if w.watcher_starts then some (record { root = root; julia = [] }) else s.watcher;
    },
    [],
  ),
)
exec w s (Op.watch_julia_environment path) =
    (tt, (record s { watcher = watch_also w.watches path s.watcher }, []))
exec w s (Op.install server) = (w.installs, (s, []))
exec w s Op.list_installable = (w.installable, (s, []))
exec w s (Op.call c m) = (w.replies c m, (s, called c m ∷ []))
