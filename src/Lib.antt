-- ===== src/Lib.antt =====
-- SimpleCC's daemon: a language-server client that a Vim plugin starts and talks to by lines of
-- JSON.
--
-- The daemon (src/simplecc/simplecc_daemon.rs) reads a request per line. Its registry
-- (src/simplecc/registry.rs) starts a server for a filetype, as the configuration
-- (src/simplecc/config.rs) says, and routes requests to it. A client (src/simplecc/lsp/client.rs)
-- keeps what is pending at one server, and caches of completions, of code lenses, of code actions
-- and of semantic tokens. src/simplecc/lsp/types.rs turns a server's answers into what the editor
-- reads, and src/simplecc/workspace_watcher.rs reports changes of files.
--
-- Base: shared names; Base/Assoc is a hash map as an association list, Base/Sort a stable sort.
-- Json: serde_json's values.
--
-- Daemon (src/simplecc/simplecc_daemon.rs): Request is the enum of the requests and the classes
-- that serve tells apart. A handler (Daemon/Handler) is the tree of what handle_request does between
-- two awaits: it sends an event, or performs an operation and goes on with its answer; the handlers
-- are in Daemon/Documents, Lifecycle, Lookups, Hierarchies, Whole, Edits and FileRename, and
-- Daemon/Handle has the match over the requests. Daemon/Shared is what the tasks share and what an
-- operation does with it; what a client answers and what else is outside is the record Outside, a
-- new one at each turn. A handler is finite, so that the model says nothing of whether it ends. Daemon/Serve is the loop of serve with its tasks: a turn reads a line or
-- lets one handler go on to its next await, and a list of turns is an interleaving. Each call of a
-- client is one operation there; what happens inside of it is in Rpc, Execute, Completion and
-- SemTok.
--
-- Events (src/simplecc/registry.rs, EventTx): the path of the events to the editor. In Events/Acts
-- a send has two steps, with its await between them, and what the queue does with the lines that
-- wait is the order of the steps; Daemon/Serve takes a send in one turn, and whether
-- the queue takes its line in time is an argument there. Events/Wakeup has wait_stalled in steps against tokio's
-- Notify, which stores one wake-up.
--
-- Lines (src/simplecc/simplecc_daemon.rs, read_request_line): the state is the bytes kept and
-- whether the line is too long, the input the pieces that the reader hands over; the loop is
-- recursion on them.
--
-- Frames (src/simplecc/lsp/transport.rs): read_limited_header_line, a header line read from pieces
-- in the same way; Frames/Text has what Rust's str does with the line, and Frames/Stream has send and
-- read_loop. The value of a message is any type, with its printer and reader as parameters.
--
-- Config (src/simplecc/config.rs): servers_for_filetype and its order, validate,
-- merge_json_value, apply_python_environment, the effective settings. A configuration is the map of
-- its servers. What a merge leaves at a path of keys is in Config/Overrides.
--
-- Registry (src/simplecc/registry.rs): Registry is the struct, ensure_server and the look-ups are
-- its methods; Registry/Reload is reload_configuration. What a call meets outside (which clients are alive, what a search for a command
-- finds, which client starts) is the record World, which a theorem ranges over; a client is a
-- number.
--
-- Rpc (src/simplecc/lsp/client.rs, request_with_timeout_inner, its helpers and the dispatcher):
-- Client is the state that the tasks of one client share, and Rpc.Step.step is what a task or the
-- dispatcher does in one go: a call registers, submits, finishes or times out, is refused its
-- execution, or is dropped by its task; a response comes; the stream ends. A list of events is an
-- interleaving. A call may be dropped before it takes the lock of latest_requests and while it waits
-- for its response; that it is dropped while it writes under the lock is left out. A submission is one step, as the code
-- holds the lock of latest_requests through it; what other tasks do between its writes is put
-- before or after it.
--
-- Cache (src/simplecc/lsp/client.rs, CodeLensCache and CodeActionCache, one code over two kinds
-- of item): the identity caches, and in Cache/History what a history of requests, replies and
-- invalidations leaves. Execute (src/simplecc/lsp/client.rs, code_lens, code_action,
-- execute_code_lens, execute_code_action): an await is a list of the cache events that happen
-- meanwhile, and the guards are those of the code.
--
-- Completion (src/simplecc/lsp/client.rs, completion and completion_resolve): the trigger context
-- that is sent, the cache of the last answer, and what a resolved item keeps of the item that was
-- sent.
--
-- SemTok (src/simplecc/lsp/client.rs): apply_semantic_token_edits in SemTok/Edits, and what it does
-- in SemTok/Delta; decode_raw_tokens in SemTok/Decode, and the encoding of the protocol in
-- SemTok/Encode; the bounded cache in SemTok/Bounded, the full and delta
-- requests in SemTok/Flow.
--
-- Edit (src/simplecc/lsp/types.rs, from_lsp_workspace_edit): both views of a workspace edit.
--
-- Diagnostics (src/simplecc/lsp/types.rs, parse_context_diagnostics, and what is published of a
-- diagnostic in src/simplecc/lsp/client.rs): numbers as texts in Diagnostics/Integers, what comes
-- back of a published diagnostic in Diagnostics/Returned.
--
-- Signature (src/simplecc/lsp/types.rs, from_lsp_signature_help and signature_label_slice): what
-- the editor is shown of a signature help; what a slice is in Signature/Slices, the ranges of the
-- parameters in Signature/Ranges, the order of the overloads in Signature/Shown.
--
-- Installer (src/simplecc/installer.rs): the names of hidden siblings in Installer and
-- Installer/Names; promote_installation_sync, recover_stale_install_siblings and do_install in
-- Installer/Promote, as trees of the calls that Installer/Disk makes in one directory, where each
-- call may fail and the process may die after any of them; the archives in Installer/Archive. A
-- stat tells whether there is an entry, and a renaming never replaces one, as for a directory that
-- is not empty. A build, which is a download or a command with the search for the binary, is one
-- call whose outcome is given.
--
-- Watch (src/simplecc/workspace_watcher.rs, merge_event): the merge of a batch of events by path;
-- Watch/Recent (src/simplecc/lsp/client.rs, did_change_watched_files): which of the changes a
-- server is sent, by the times of what it was sent before.
--
-- Bounds: lines and characters are natural numbers, since nothing here lets them wrap, but where
-- a server's deltas are added up in SemTok/Decode. Request ids and sequence numbers do not wrap.
-- The fuel of the loop of store_semtok_cache is a round for each entry, that of read_loop a message
-- for each byte and a header line for each byte of the limit of headers; all of it is enough.
--
-- Not modelled: processes and pipes, the deadlines of the daemon's shutdown, its command line,
-- the installer's downloads and child processes, the requests that only rename fields of JSON,
-- the Vim side. serde_json, lsp_types, tokio, notify and globset are not under this repository:
-- their types appear as data, their results as parameters or as what an event says.
pub mod Base
pub mod Cache
pub mod Completion
pub mod Config
pub mod Daemon
pub mod Diagnostics
pub mod Edit
pub mod Events
pub mod Execute
pub mod Frames
pub mod Installer
pub mod Json
pub mod Lines
pub mod Registry
pub mod Rpc
pub mod SemTok
pub mod Signature
pub mod Watch
