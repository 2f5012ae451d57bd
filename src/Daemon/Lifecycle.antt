-- ===== src/Daemon/Lifecycle.antt =====
-- src/simplecc/simplecc_daemon.rs, handle_request: start and end of a workspace, its configuration,
-- Julia's environment, and the installer.
use Prim.Native.String.{◌++◌ as append_text}
use simplecc.Base.{
  Result, ok, err, ℕ, String, Bool, true, false, not, Option, none, some, ◌==◌, string_key,
  if◌then◌else◌,
}
use simplecc.Config.{Config}
use simplecc.Config.Merge.{apply_python_environment}
use simplecc.Json.{boolean, number, natural, string, object, end, field}
use simplecc.Daemon.Handler.{
  Call, Handler, perform, stop_watcher, take_registry, clear_tracked, put_registry, start_watcher,
  load_configuration, reload_configuration, watch_julia_environment, install, list_installable,
  primary_client, call, for_each, reply, error_reply, ok_or_error,
}

-- The watcher goes, and each client of the registry is shut down.
abbrev pub close_workspace : Handler → Handler
close_workspace k = perform stop_watcher (λ _.
    perform take_registry
      (λ clients. for_each clients Call.shutdown (perform clear_tracked (λ _. k))))

abbrev pub initialized : ℕ → Handler
initialized id = reply "initialized" id (
    field "capabilities"
      (object (
        field "code_action_identity" (boolean true)
          (field "save_pipeline" (boolean true) (field "file_rename" (boolean true) end))))
      end)

-- A watcher, where the workspace is not remote.
abbrev pub watch_workspace : Bool → String → Handler → Handler
watch_workspace true root k = k
watch_workspace false root k = perform (start_watcher root) (λ _. k)

abbrev pub loaded : ℕ → String → Bool → String → String → Result Config → Handler
loaded id root remote python_path lsp_path (err e) =
    error_reply id (append_text "failed to load SimpleCC configuration: " e)
loaded id root remote python_path lsp_path (ok config) = close_workspace (
    perform (put_registry (apply_python_environment python_path lsp_path config) remote)
      (λ _. watch_workspace remote root (initialized id)))

unfoldable pub handle_initialize :
    ℕ → String → Option String → Bool → Option String → String → String → Handler
handle_initialize id root config_path remote remote_config python_path lsp_path =
    perform (load_configuration root config_path remote_config)
      (λ result. loaded id root remote python_path lsp_path result)

unfoldable pub handle_shutdown : ℕ → Handler
handle_shutdown id = close_workspace (reply "shutdown" id end)

abbrev pub activate : ℕ → String → Option ℕ → Handler
activate id env_path none = error_reply id "Julia language server is not running"
activate id env_path (some c) =
    perform (call c (Call.julia_activate_environment env_path)) (λ result.
      ok_or_error id result (λ _.
        perform (watch_julia_environment env_path)
          (λ _. reply "juliaEnvironment" id (field "path" (string env_path) end))))

unfoldable pub handle_julia_activate_environment : ℕ → String → String → Handler
handle_julia_activate_environment id language_id env_path =
    if not (language_id == "julia")
    then error_reply id "Julia environment activation requires a Julia buffer"
    else perform (primary_client language_id) (λ found. activate id env_path found)

abbrev pub refreshed : ℕ → Bool → Handler
refreshed id true = reply "juliaRefreshed" id end
refreshed id false = error_reply id "Active server is not Julia LanguageServer"

abbrev pub refresh : ℕ → Option ℕ → Handler
refresh id none = error_reply id "Julia language server is not running"
refresh id (some c) =
    perform (call c Call.refresh_julia_language_server)
      (λ result. ok_or_error id result (λ done. refreshed id done))

unfoldable pub handle_julia_refresh_language_server : ℕ → String → Handler
handle_julia_refresh_language_server id language_id =
    if not (language_id == "julia")
    then error_reply id "Julia language server refresh requires a Julia buffer"
    else perform (primary_client language_id) (λ found. refresh id found)

unfoldable pub handle_reload_configuration : ℕ → Option String → Option String → Handler
handle_reload_configuration id config_path remote_config =
    perform (reload_configuration config_path remote_config) (λ result.
      ok_or_error id result (λ servers.
        reply "configurationReloaded" id (field "servers" (number (natural servers)) end)))

abbrev pub install_result : ℕ → String → Result String → Handler
install_result id server (ok path) =
    reply "installResult" id (
      field "server" (string server)
        (field "status" (string "ok") (field "path" (string path) end)))
install_result id server (err message) = reply "installResult" id (
    field "server" (string server)
      (field "status" (string "error") (field "message" (string message) end)))

unfoldable pub handle_install_request : ℕ → String → Handler
handle_install_request id server =
    perform (install server) (λ result. install_result id server result)

unfoldable pub handle_list_installable : ℕ → Handler
handle_list_installable id =
    perform list_installable
      (λ servers. reply "installableServers" id (field "servers" servers end))
