-- ===== src/Daemon/Tests.antt =====
-- Short runs of src/simplecc/simplecc_daemon.rs.
use simplecc.Base.{
  ℕ, ◌≡◌, refl, String, true, false, none, some, List, [], ◌∷◌, ◌++◌, ap, Result, ok, err, ◌==◌,
  nat_key, string_key, if◌then◌else◌, arith,
}
use simplecc.Base.Assoc.{lookup}
use simplecc.Json.{null}
use simplecc.Config.{pos}
use simplecc.Registry.{World, clients_for_filetype, live_of, active_clients}
use simplecc.Events.{send}
use simplecc.Daemon.Request.{Request, is_lifecycle_barrier, preserves_document_order, is_install}
use simplecc.Daemon.Handler.{Call, Reply, Op, Answer, for_each, primary_client_or_error}
use simplecc.Daemon.Lifecycle.{handle_shutdown}
use simplecc.Daemon.Lookups.{handle_hover}
use simplecc.Daemon.Documents.{
  handle_did_open, handle_did_change, handle_did_close, handle_did_save,
}
use simplecc.Daemon.FileRename.{identity_of, handle_file_rename}
use simplecc.Daemon.Due.{replies}
use simplecc.Daemon.Settled.{Replied, turns-Replied}
use simplecc.Daemon.Acts.{Until, placed, is_barrier}
use simplecc.Daemon.Order.{turns-InOrder, turns-Barred}
use simplecc.Daemon.Calls.{calls_of, to_each, document_clients, documents_reach}
use simplecc.Daemon.Renames.{AllPermitted, file_rename-AllPermitted}
use simplecc.Daemon.Handle.{Readers, handle_request}
use simplecc.Daemon.Shared.{Shared, Outside, exec}
use simplecc.Daemon.Serve.{
  Turn, Line, in_order, request_task, finished, started, place_of, accept, read_line, go_on, turn,
  turns,
}

-- A client that answers nothing but its registration for renamings.
abbrev mute : ℕ → (c : Call) → Reply c
mute c (Call.matches_file_rename old directory will) = true
mute c _ = err "closed"

abbrev world : World
world = record {
  alive = λ c. true;
  resolved = none;
  julia_installed = false;
  event_taken = true;
  launchable = false;
  started = none;
}

abbrev outside : Outside
outside = record {
  world = world;
  replies = mute;
  loads = err "none";
  reload = record {
    alive = λ c. true;
    parsed = λ s. err "none";
    selected = λ o. err "none";
    notified = λ c. ok tt;
  };
  watcher_starts = false;
  watches = false;
  installs = err "none";
  installable = null;
}

abbrev readers : Readers
readers = record { address = λ c. "7f"; call_item = λ j. ok j; type_item = λ j. ok j }

abbrev from_str : String → Result Request
from_str s =
    if s == "shutdown"
    then ok (Request.shutdown 5)
    else if s == "hover"
    then ok (Request.hover 6 "file:///a.c" "c" 1 2)
    else err "unknown"

abbrev own : ℕ → Turn
own n = Turn.run outside true n

-- A hover is read, and then a shutdown, which ends it.
abbrev two_requests : List Turn
two_requests =
    Turn.read true (Line.line "hover")
    ∷ own 0
    ∷ Turn.read true (Line.line "shutdown")
    ∷ own 0
    ∷ own 1
    ∷ own 1
    ∷ own 1
    ∷ own 1
    ∷ own 1
    ∷ []

turns-Replied_example :
    Replied 1
      (turns readers from_str two_requests started).log
      ((turns readers from_str two_requests started).slots 1)
turns-Replied_example = turns-Replied readers from_str two_requests 1

shut_down :
    (turns readers from_str two_requests started).slots 1 ≡ finished in_order (Request.shutdown 5)
unfolding turns turn read_line accept place_of is_lifecycle_barrier preserves_document_order
    is_install go_on handle_request handle_shutdown for_each exec send handle_hover
    primary_client_or_error
shut_down = refl

one_reply : replies 1 (turns readers from_str two_requests started).log ≡ 1
unfolding turns turn read_line accept place_of is_lifecycle_barrier preserves_document_order
    is_install go_on handle_request handle_shutdown for_each exec send handle_hover
    primary_client_or_error
one_reply = refl

shutdown_placed : placed ((turns readers from_str two_requests started).slots 1) ≡ some in_order
shutdown_placed = ap placed shut_down

hover_placed : placed ((turns readers from_str two_requests started).slots 0) ≡ some request_task
unfolding turns turn read_line accept place_of is_lifecycle_barrier preserves_document_order
    is_install go_on handle_request handle_shutdown for_each exec send handle_hover
    primary_client_or_error
hover_placed = refl

shutdown_bars : is_barrier ((turns readers from_str two_requests started).slots 1) ≡ true
unfolding is_lifecycle_barrier
shutdown_bars = ap is_barrier shut_down

turns-InOrder_example : Until 2 1 (turns readers from_str two_requests started).log
turns-InOrder_example = turns-InOrder readers from_str two_requests 1 shutdown_placed

turns-Barred_example : Until 1 0 (turns readers from_str two_requests started).log
turns-Barred_example =
    turns-Barred readers from_str two_requests 1 0 shutdown_bars (omega arith) hover_placed

-- Two clients run, one of them for C.
abbrev shared : Shared
shared = record {
  registry = some (record {
    config = [];
    clients = ("clangd", 3) ∷ ("rust-analyzer", 4) ∷ [];
    ft_map = ("c", "clangd" ∷ []) ∷ [];
    remote = false;
  });
  watcher = none;
  uri_ft = ("file:///a.c", "c") ∷ [];
}

abbrev answers : (o : Op) → Answer o
answers o = (exec outside shared o).0

documents_reach_example :
    (calls_of answers (handle_did_open "file:///a.c" "c" (pos 1) "int x;")
      ≡ to_each (answers (Op.open_server "c")) (Call.did_open "file:///a.c" "c" (pos 1) "int x;"))
    × (calls_of answers (handle_did_change "file:///a.c" (pos 1) none none)
        ≡ to_each
            (document_clients answers (answers (Op.filetype_of "file:///a.c")))
            (Call.did_change "file:///a.c" (pos 1) none none))
    × (calls_of answers (handle_did_close "file:///a.c")
        ≡ to_each
            (document_clients answers (answers (Op.untrack "file:///a.c")))
            (Call.did_close "file:///a.c"))
    × (calls_of answers (handle_did_save "file:///a.c" none)
        ≡ to_each
            (document_clients answers (answers (Op.filetype_of "file:///a.c")))
            (Call.did_save "file:///a.c" none)
          ++ to_each (answers Op.active_clients) (Call.did_change_watched_file "file:///a.c"))
documents_reach_example = documents_reach answers "file:///a.c" "c" (pos 1) "int x;" none none

saved :
    calls_of answers (handle_did_save "file:///a.c" none)
    ≡ (3, Call.did_save "file:///a.c" none)
      ∷ (3, Call.did_change_watched_file "file:///a.c")
      ∷ (4, Call.did_change_watched_file "file:///a.c")
      ∷ []
unfolding handle_did_save for_each exec lookup clients_for_filetype live_of active_clients
saved = refl

file_rename-AllPermitted_example :
    AllPermitted answers
      (record { id = 9; old = "a.c"; new = "b.c"; directory = false; phase = "prepare" })
      ""
      (identity_of (λ c. "7f") (answers Op.active_clients))
      (calls_of answers (handle_file_rename (λ c. "7f") 9 "a.c" "b.c" false "prepare" ""))
file_rename-AllPermitted_example =
    file_rename-AllPermitted answers (λ c. "7f") 9 "a.c" "b.c" false "prepare" ""
