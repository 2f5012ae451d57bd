-- ===== src/Daemon/Request.antt =====
-- src/simplecc/simplecc_daemon.rs: the requests of the editor, and the classes that `serve` tells
-- apart. Of a remote workspace only whether there is one is kept.
use simplecc.Base.{ℕ, String, Bool, true, false, Option, List}
use simplecc.Config.{ℤ}
use simplecc.Json.{Json}

pub record WatchedFileChange : Type 0 where
  pub uri : String
  pub change_type : ℕ

pub data Request : Type 0 where
  initialize :
      (id : ℕ)
      → (root : String) → (config_path : Option String) → (remote : Bool)
      → (remote_config : Option String) → (python_path python_lsp_path : String) → Request
  shutdown : (id : ℕ) → Request
  julia_activate_environment : (id : ℕ) → (language_id env_path : String) → Request
  julia_refresh_language_server : (id : ℕ) → (language_id : String) → Request
  reload_configuration : (id : ℕ) → (config_path remote_config : Option String) → Request
  did_change_watched_files : (id : ℕ) → (changes : List WatchedFileChange) → Request
  did_open : (id : ℕ) → (uri language_id : String) → (version : ℤ) → (text : String) → Request
  did_change :
      (id : ℕ)
      → (uri : String) → (version : ℤ) → (text : Option String) → (changes : Option (List Json))
      → Request
  did_save : (id : ℕ) → (uri : String) → (text : Option String) → Request
  did_close : (id : ℕ) → (uri : String) → Request
  completion :
      (id : ℕ)
      → (uri language_id : String) → (line character : ℕ) → (max_items : ℕ) → (trigger_kind : ℕ)
      → (trigger_character : String) → (sort_items : Bool) → Request
  hover : (id : ℕ) → (uri language_id : String) → (line character : ℕ) → Request
  definition :
      (id : ℕ) → (uri language_id : String) → (line character : ℕ) → (symbol : String) → Request
  references : (id : ℕ) → (uri language_id : String) → (line character : ℕ) → Request
  code_action :
      (id : ℕ)
      → (uri language_id : String) → (line character : ℕ) → (end_line end_character : Option ℕ)
      → (diagnostics : Json) → Request
  organize_imports : (id : ℕ) → (uri language_id : String) → Request
  execute_action : (id generation : ℕ) → (uri language_id : String) → (index : ℕ) → Request
  formatting :
      (id : ℕ) → (uri language_id : String) → (tab_size : ℕ) → (insert_spaces : Bool) → Request
  range_formatting :
      (id : ℕ)
      → (uri language_id : String) → (line character end_line end_character tab_size : ℕ)
      → (insert_spaces : Bool) → Request
  file_rename :
      (id : ℕ) → (old new : String) → (directory : Bool) → (phase identity : String) → Request
  prepare_rename : (id : ℕ) → (uri language_id : String) → (line character : ℕ) → Request
  rename :
      (id : ℕ) → (uri language_id : String) → (line character : ℕ) → (new_name : String) → Request
  signature_help : (id : ℕ) → (uri language_id : String) → (line character : ℕ) → Request
  implementation : (id : ℕ) → (uri language_id : String) → (line character : ℕ) → Request
  type_definition : (id : ℕ) → (uri language_id : String) → (line character : ℕ) → Request
  document_symbol : (id : ℕ) → (uri language_id : String) → Request
  workspace_symbol : (id : ℕ) → (language_id query : String) → Request
  document_highlight : (id : ℕ) → (uri language_id : String) → (line character : ℕ) → Request
  inlay_hint : (id : ℕ) → (uri language_id : String) → (start_line end_line : ℕ) → Request
  prepare_call_hierarchy : (id : ℕ) → (uri language_id : String) → (line character : ℕ) → Request
  incoming_calls : (id : ℕ) → (language_id : String) → (item : Json) → Request
  outgoing_calls : (id : ℕ) → (language_id : String) → (item : Json) → Request
  selection_range : (id : ℕ) → (uri language_id : String) → (positions : List Json) → Request
  semantic_tokens_full : (id : ℕ) → (uri language_id : String) → Request
  semantic_tokens_delta : (id : ℕ) → (uri language_id : String) → Request
  semantic_tokens_range :
      (id : ℕ)
      → (uri language_id : String) → (start_line start_character end_line end_character : ℕ)
      → Request
  code_lens : (id : ℕ) → (uri language_id : String) → Request
  folding_range : (id : ℕ) → (uri language_id : String) → Request
  linked_editing_range : (id : ℕ) → (uri language_id : String) → (line character : ℕ) → Request
  completion_resolve : (id : ℕ) → (language_id : String) → (generation : ℕ) → (index : ℕ) → Request
  execute_code_lens :
      (id : ℕ) → (language_id : String) → (generation : ℕ) → (uri : String) → (index : ℕ) → Request
  prepare_type_hierarchy : (id : ℕ) → (uri language_id : String) → (line character : ℕ) → Request
  supertypes : (id : ℕ) → (language_id : String) → (item : Json) → Request
  subtypes : (id : ℕ) → (language_id : String) → (item : Json) → Request
  pull_diagnostics : (id : ℕ) → (uri language_id : String) → Request
  install_server : (id : ℕ) → (server : String) → Request
  list_installable : (id : ℕ) → Request
  server_response : (id : ℕ) → (server : String) → (request_id result : Json) → Request

-- The `id` of a request.
unfoldable pub request_id : Request → ℕ
request_id (initialize id _ _ _ _ _ _) = id
request_id (shutdown id) = id
request_id (julia_activate_environment id _ _) = id
request_id (julia_refresh_language_server id _) = id
request_id (reload_configuration id _ _) = id
request_id (did_change_watched_files id _) = id
request_id (did_open id _ _ _ _) = id
request_id (did_change id _ _ _ _) = id
request_id (did_save id _ _) = id
request_id (did_close id _) = id
request_id (completion id _ _ _ _ _ _ _ _) = id
request_id (hover id _ _ _ _) = id
request_id (definition id _ _ _ _ _) = id
request_id (references id _ _ _ _) = id
request_id (code_action id _ _ _ _ _ _ _) = id
request_id (organize_imports id _ _) = id
request_id (execute_action id _ _ _ _) = id
request_id (formatting id _ _ _ _) = id
request_id (range_formatting id _ _ _ _ _ _ _ _) = id
request_id (file_rename id _ _ _ _ _) = id
request_id (prepare_rename id _ _ _ _) = id
request_id (rename id _ _ _ _ _) = id
request_id (signature_help id _ _ _ _) = id
request_id (implementation id _ _ _ _) = id
request_id (type_definition id _ _ _ _) = id
request_id (document_symbol id _ _) = id
request_id (workspace_symbol id _ _) = id
request_id (document_highlight id _ _ _ _) = id
request_id (inlay_hint id _ _ _ _) = id
request_id (prepare_call_hierarchy id _ _ _ _) = id
request_id (incoming_calls id _ _) = id
request_id (outgoing_calls id _ _) = id
request_id (selection_range id _ _ _) = id
request_id (semantic_tokens_full id _ _) = id
request_id (semantic_tokens_delta id _ _) = id
request_id (semantic_tokens_range id _ _ _ _ _ _) = id
request_id (code_lens id _ _) = id
request_id (folding_range id _ _) = id
request_id (linked_editing_range id _ _ _ _) = id
request_id (completion_resolve id _ _ _) = id
request_id (execute_code_lens id _ _ _ _) = id
request_id (prepare_type_hierarchy id _ _ _ _) = id
request_id (supertypes id _ _) = id
request_id (subtypes id _ _) = id
request_id (pull_diagnostics id _ _) = id
request_id (install_server id _) = id
request_id (list_installable id) = id
request_id (server_response id _ _ _) = id

-- Handled in the order of the input, before the next line is read.
unfoldable pub preserves_document_order : Request → Bool
preserves_document_order (initialize _ _ _ _ _ _ _) = true
preserves_document_order (shutdown _) = true
preserves_document_order (julia_activate_environment _ _ _) = true
preserves_document_order (julia_refresh_language_server _ _) = true
preserves_document_order (reload_configuration _ _ _) = true
preserves_document_order (did_change_watched_files _ _) = true
preserves_document_order (did_open _ _ _ _ _) = true
preserves_document_order (did_change _ _ _ _ _) = true
preserves_document_order (did_save _ _ _) = true
preserves_document_order (did_close _ _) = true
preserves_document_order (server_response _ _ _ _) = true
preserves_document_order _ = false

-- Ends the tasks of all earlier requests.
unfoldable pub is_lifecycle_barrier : Request → Bool
is_lifecycle_barrier (initialize _ _ _ _ _ _ _) = true
is_lifecycle_barrier (shutdown _) = true
is_lifecycle_barrier _ = false

-- Outlives a barrier.
unfoldable pub is_install : Request → Bool
is_install (install_server _ _) = true
is_install _ = false
