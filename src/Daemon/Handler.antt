-- ===== src/Daemon/Handler.antt =====
-- src/simplecc/simplecc_daemon.rs: a handler as the tree of what it does between two awaits. An
-- operation reads or writes the shared state, or calls a method of a client; the tree goes on with
-- its answer. Other tasks run between the operations.
use simplecc.Base.{Result, ok, err, ℕ, String, Bool, Option, none, some, List, [], ◌∷◌, string_key}
use Prim.Native.String.{◌++◌ as append_text}
use simplecc.Config.{ℤ, Config}
use simplecc.Json.{Json, string, Items, Fields, end, field}

-- A line for the editor: its "type", its "id" and its other fields.
pub record Event : Type 0 where
  pub kind : String
  pub id : ℕ
  pub fields : Fields

-- An item of a call or type hierarchy; `raw` is the item itself.
pub record HierarchyItem : Type 0 where
  pub name : String
  pub kind : ℕ
  pub uri : String
  pub line : ℕ
  pub character : ℕ
  pub detail : Option String
  pub raw : Json

-- The methods of a client that a handler calls.
pub data Call : Type 0 where
  julia_activate_environment : (env_path : String) → Call
  refresh_julia_language_server : Call
  did_open : (uri language_id : String) → (version : ℤ) → (text : String) → Call
  did_change :
      (uri : String)
      → (version : ℤ) → (text : Option String) → (changes : Option (List Json)) → Call
  did_save : (uri : String) → (text : Option String) → Call
  did_close : (uri : String) → Call
  did_change_watched_file : (uri : String) → Call
  did_change_watched_files : (changes : List (String × ℕ)) → Call
  shutdown : Call
  respond_to_server : (request_id result : Json) → Call
  completion :
      (id : ℕ)
      → (uri : String) → (line character max_items trigger_kind : ℕ)
      → (trigger_character : Option String) → (sort_items : Bool) → Call
  hover : (id : ℕ) → (uri : String) → (line character : ℕ) → Call
  definition references : (uri : String) → (line character : ℕ) → Call
  workspace_symbol_locations : (symbol : String) → Call
  code_action :
      (id : ℕ)
      → (uri : String) → (line character end_line end_character : ℕ) → (diagnostics : Json) → Call
  organize_imports : (uri : String) → Call
  execute_code_action execute_code_lens : (generation : ℕ) → (uri : String) → (index : ℕ) → Call
  formatting : (uri : String) → (tab_size : ℕ) → (insert_spaces : Bool) → Call
  range_formatting :
      (uri : String)
      → (line character end_line end_character tab_size : ℕ) → (insert_spaces : Bool) → Call
  matches_file_rename : (old : String) → (directory will : Bool) → Call
  will_rename_files did_rename_files : (old new : String) → Call
  prepare_rename : (uri : String) → (line character : ℕ) → Call
  rename : (uri : String) → (line character : ℕ) → (new_name : String) → Call
  signature_help : (id : ℕ) → (uri : String) → (line character : ℕ) → Call
  implementation type_definition : (uri : String) → (line character : ℕ) → Call
  document_symbol : (uri : String) → Call
  workspace_symbol : (id : ℕ) → (query : String) → Call
  document_highlight : (id : ℕ) → (uri : String) → (line character : ℕ) → Call
  inlay_hints : (id : ℕ) → (uri : String) → (start_line end_line : ℕ) → Call
  call_hierarchy_prepare type_hierarchy_prepare : (uri : String) → (line character : ℕ) → Call
  call_hierarchy_incoming call_hierarchy_outgoing : (item : Json) → Call
  type_hierarchy_supertypes type_hierarchy_subtypes : (item : Json) → Call
  selection_range : (uri : String) → (positions : List (ℕ × ℕ)) → Call
  semantic_tokens_full semantic_tokens_full_delta : (uri : String) → Call
  semantic_tokens_range :
      (uri : String) → (start_line start_character end_line end_character : ℕ) → Call
  code_lens : (id : ℕ) → (uri : String) → Call
  folding_range : (uri : String) → Call
  linked_editing_range : (uri : String) → (line character : ℕ) → Call
  completion_resolve : (generation index : ℕ) → Call
  pull_diagnostics : (uri : String) → Call

-- What a call answers: what the code only prints as JSON is its JSON.
abbrev pub Reply : Call → Type 0
Reply (matches_file_rename _ _ _) = Bool
Reply refresh_julia_language_server = Result Bool
Reply (completion _ _ _ _ _ _ _ _) = Result (Option (ℕ × Items))
Reply (hover _ _ _ _) = Result (Option (Option String))
Reply (definition _ _ _) = Result Items
Reply (references _ _ _) = Result Items
Reply (workspace_symbol_locations _) = Result Items
Reply (code_action _ _ _ _ _ _ _) = Result Items
Reply (organize_imports _) = Result Json
Reply (execute_code_action _ _ _) = Result (Option Json)
Reply (execute_code_lens _ _ _) = Result (Option Json)
Reply (formatting _ _ _) = Result Items
Reply (range_formatting _ _ _ _ _ _ _) = Result Items
Reply (will_rename_files _ _) = Result (Option Json)
Reply (prepare_rename _ _ _) = Result (Option Json)
Reply (rename _ _ _ _) = Result (Option Json)
Reply (signature_help _ _ _ _) = Result (Option Items)
Reply (implementation _ _ _) = Result Items
Reply (type_definition _ _ _) = Result Items
Reply (document_symbol _) = Result Items
Reply (workspace_symbol _ _) = Result (Option Items)
Reply (document_highlight _ _ _ _) = Result (Option Items)
Reply (inlay_hints _ _ _ _) = Result (Option Items)
Reply (call_hierarchy_prepare _ _ _) = Result (List HierarchyItem)
Reply (type_hierarchy_prepare _ _ _) = Result (List HierarchyItem)
Reply (call_hierarchy_incoming _) = Result Items
Reply (call_hierarchy_outgoing _) = Result Items
Reply (type_hierarchy_supertypes _) = Result Items
Reply (type_hierarchy_subtypes _) = Result Items
Reply (selection_range _ _) = Result Items
Reply (semantic_tokens_full _) = Result Items
Reply (semantic_tokens_full_delta _) = Result Items
Reply (semantic_tokens_range _ _ _ _ _) = Result Items
Reply (code_lens _ _) = Result (Option Items)
Reply (folding_range _) = Result Items
Reply (linked_editing_range _ _ _) = Result (Option Json)
Reply (completion_resolve _ _) = Result Json
Reply (pull_diagnostics _) = Result (Option Items)
Reply _ = Result Unit

-- The operations on what the tasks share. `open_server` is the block of `didOpen` under the write
-- lock, and `take_registry` hands over the clients that are shut down.
pub data Op : Type 0 where
  primary_client primary_server_name filetype_clients : (language_id : String) → Op
  active_clients : Op
  client_by_name : (server : String) → Op
  open_server : (language_id : String) → Op
  filetype_of untrack : (uri : String) → Op
  track : (uri language_id : String) → Op
  clear_tracked : Op
  load_configuration : (root : String) → (config_path remote_config : Option String) → Op
  reload_configuration : (config_path remote_config : Option String) → Op
  take_registry stop_watcher : Op
  put_registry : (config : Config) → (remote : Bool) → Op
  start_watcher : (root : String) → Op
  watch_julia_environment : (env_path : String) → Op
  install : (server : String) → Op
  list_installable : Op
  call : (client : ℕ) → Call → Op

abbrev pub Answer : Op → Type 0
Answer (primary_client _) = Option ℕ
Answer (primary_server_name _) = Option String
Answer (filetype_clients _) = List ℕ
Answer active_clients = List ℕ
Answer (client_by_name _) = Option ℕ
Answer (open_server _) = List ℕ
Answer (filetype_of _) = Option String
Answer (untrack _) = Option String
Answer (load_configuration _ _ _) = Result Config
Answer (reload_configuration _ _) = Result ℕ
Answer take_registry = List ℕ
Answer (install _) = Result String
Answer list_installable = Json
Answer (call _ c) = Reply c
Answer _ = Unit

pub data Handler : Type 0 where
  stop : Handler
  send : Event → Handler → Handler
  perform : (o : Op) → (Answer o → Handler) → Handler

abbrev pub reply : String → ℕ → Fields → Handler
reply kind id fields = send (record { kind = kind; id = id; fields = fields }) stop

abbrev pub error_event : ℕ → String → Event
error_event id message = record {
  kind = "error";
  id = id;
  fields = field "message" (string message) end;
}

abbrev pub error_reply : ℕ → String → Handler
error_reply id message = send (error_event id message) stop

-- What a handler does with `Ok`; `Err` is an error event.
abbrev pub ok_or_error {ℓ} : {A : Type ℓ} → ℕ → Result A → (A → Handler) → Handler
ok_or_error id (ok a) k = k a
ok_or_error id (err message) k = error_reply id message

-- A request whose `None` says that a newer one took over, or that nothing has changed.
abbrev pub ok_or_skip {ℓ} : {A : Type ℓ} → ℕ → Result (Option A) → (A → Handler) → Handler
ok_or_skip id (ok none) k = stop
ok_or_skip id (ok (some a)) k = k a
ok_or_skip id (err message) k = error_reply id message

abbrev pub client_or_error : ℕ → String → Option ℕ → (ℕ → Handler) → Handler
client_or_error id language_id none k =
    error_reply id (append_text "no active language server for filetype: " language_id)
client_or_error id language_id (some c) k = k c

-- `if let Some(client) = primary_client_or_error(…)`.
unfoldable pub primary_client_or_error : ℕ → String → (ℕ → Handler) → Handler
primary_client_or_error id language_id k =
    perform (primary_client language_id) (λ found. client_or_error id language_id found k)

-- A call of each client in turn, its result ignored.
unfoldable pub for_each : List ℕ → Call → Handler → Handler
for_each [] c k = k
for_each (x ∷ xs) c k = perform (call x c) (λ _. for_each xs c k)
