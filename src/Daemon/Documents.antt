-- ===== src/Daemon/Documents.antt =====
-- src/simplecc/simplecc_daemon.rs, handle_request: the notifications of documents, and the answers of
-- the editor to servers.
use simplecc.Base.{ℕ, String, Option, none, some, List, [], ◌∷◌, map}
use simplecc.Config.{ℤ}
use simplecc.Json.{Json}
use simplecc.Daemon.Request.{WatchedFileChange}
use simplecc.Daemon.Handler.{
  Call, Handler, stop, perform, track, untrack, filetype_of, open_server, filetype_clients,
  active_clients, client_by_name, call, for_each,
}

unfoldable pub handle_did_open : String → String → ℤ → String → Handler
handle_did_open uri language_id version text = perform (track uri language_id) (λ _.
    perform (open_server language_id)
      (λ clients. for_each clients (Call.did_open uri language_id version text) stop))

-- A call of each client of the document's filetype, if the document is open.
abbrev pub for_filetype : Option String → Call → Handler → Handler
for_filetype none c k = k
for_filetype (some ft) c k = perform (filetype_clients ft) (λ clients. for_each clients c k)

unfoldable pub handle_did_change : String → ℤ → Option String → Option (List Json) → Handler
handle_did_change uri version text changes =
    perform (filetype_of uri)
      (λ ft. for_filetype ft (Call.did_change uri version text changes) stop)

unfoldable pub handle_did_save : String → Option String → Handler
handle_did_save uri text = perform (filetype_of uri) (λ ft.
    for_filetype ft (Call.did_save uri text) (
      perform active_clients (λ clients. for_each clients (Call.did_change_watched_file uri) stop)))

unfoldable pub handle_did_change_watched_files : List WatchedFileChange → Handler
handle_did_change_watched_files [] = stop
handle_did_change_watched_files (c ∷ cs) = perform active_clients (λ clients.
    for_each clients
      (Call.did_change_watched_files (map (λ change. (change.uri, change.change_type)) (c ∷ cs)))
      stop)

unfoldable pub handle_did_close : String → Handler
handle_did_close uri = perform (untrack uri) (λ ft. for_filetype ft (Call.did_close uri) stop)

abbrev pub respond : Option ℕ → Json → Json → Handler
respond none request_id result = stop
respond (some c) request_id result =
    perform (call c (Call.respond_to_server request_id result)) (λ _. stop)

unfoldable pub handle_server_response : String → Json → Json → Handler
handle_server_response server request_id result =
    perform (client_by_name server) (λ client. respond client request_id result)
