-- ===== src/Daemon/Handle.antt =====
-- src/simplecc/simplecc_daemon.rs: handle_request, by the request.
use simplecc.Base.{Result, ℕ, String}
use simplecc.Json.{Json}
use simplecc.Daemon.Request.{
  Request, initialize, shutdown, julia_activate_environment, julia_refresh_language_server,
  reload_configuration, did_change_watched_files, did_open, did_change, did_save, did_close,
  completion, hover, definition, references, code_action, organize_imports, execute_action,
  formatting, range_formatting, file_rename, prepare_rename, rename, signature_help, implementation,
  type_definition, document_symbol, workspace_symbol, document_highlight, inlay_hint,
  prepare_call_hierarchy, incoming_calls, outgoing_calls, selection_range, semantic_tokens_full,
  semantic_tokens_delta, semantic_tokens_range, code_lens, folding_range, linked_editing_range,
  completion_resolve, execute_code_lens, prepare_type_hierarchy, supertypes, subtypes,
  pull_diagnostics, install_server, list_installable, server_response,
}
use simplecc.Daemon.Handler.{Handler}
use simplecc.Daemon.Documents.{
  handle_did_open, handle_did_change, handle_did_save, handle_did_change_watched_files,
  handle_did_close, handle_server_response,
}
use simplecc.Daemon.Lifecycle.{
  handle_initialize, handle_shutdown, handle_julia_activate_environment,
  handle_julia_refresh_language_server, handle_reload_configuration, handle_install_request,
  handle_list_installable,
}
use simplecc.Daemon.Lookups.{
  handle_hover, handle_definition, handle_references, handle_implementation, handle_type_definition,
  handle_document_symbol, handle_workspace_symbol, handle_document_highlight, handle_inlay_hint,
}
use simplecc.Daemon.Hierarchies.{
  handle_prepare_call_hierarchy, handle_prepare_type_hierarchy, handle_incoming_calls,
  handle_outgoing_calls, handle_supertypes, handle_subtypes,
}
use simplecc.Daemon.Whole.{
  handle_selection_range, handle_semantic_tokens_full, handle_semantic_tokens_delta,
  handle_semantic_tokens_range, handle_folding_range, handle_linked_editing_range,
  handle_pull_diagnostics,
}
use simplecc.Daemon.Edits.{
  handle_completion, handle_completion_resolve, handle_signature_help, handle_code_action,
  handle_organize_imports, handle_execute_action, handle_execute_code_lens, handle_code_lens,
  handle_formatting, handle_range_formatting, handle_prepare_rename, handle_rename,
}
use simplecc.Daemon.FileRename.{handle_file_rename}

-- Outside this program: the text of a pointer to a client, and how serde_json reads the items of a
-- hierarchy.
pub record Readers : Type 0 where
  pub address : ℕ → String
  pub call_item : Json → Result Json
  pub type_item : Json → Result Json

unfoldable pub handle_request : Readers → Request → Handler
handle_request r (initialize id root config_path remote remote_config python_path python_lsp_path) =
    handle_initialize id root config_path remote remote_config python_path python_lsp_path
handle_request r (shutdown id) = handle_shutdown id
handle_request r (julia_activate_environment id language_id env_path) =
    handle_julia_activate_environment id language_id env_path
handle_request r (julia_refresh_language_server id language_id) =
    handle_julia_refresh_language_server id language_id
handle_request r (reload_configuration id config_path remote_config) =
    handle_reload_configuration id config_path remote_config
handle_request r (did_change_watched_files _ changes) = handle_did_change_watched_files changes
handle_request r (did_open _ uri language_id version text) =
    handle_did_open uri language_id version text
handle_request r (did_change _ uri version text changes) =
    handle_did_change uri version text changes
handle_request r (did_save _ uri text) = handle_did_save uri text
handle_request r (did_close _ uri) = handle_did_close uri
handle_request r
      (completion id uri language_id line character max_items trigger_kind trigger_character
        sort_items) =
    handle_completion id uri language_id line character max_items trigger_kind trigger_character
      sort_items
handle_request r (hover id uri language_id line character) =
    handle_hover id uri language_id line character
handle_request r (definition id uri language_id line character symbol) =
    handle_definition id uri language_id line character symbol
handle_request r (references id uri language_id line character) =
    handle_references id uri language_id line character
handle_request r
      (code_action id uri language_id line character end_line end_character diagnostics) =
    handle_code_action id uri language_id line character end_line end_character diagnostics
handle_request r (organize_imports id uri language_id) = handle_organize_imports id uri language_id
handle_request r (execute_action id generation uri language_id index) =
    handle_execute_action id generation uri language_id index
handle_request r (formatting id uri language_id tab_size insert_spaces) =
    handle_formatting id uri language_id tab_size insert_spaces
handle_request r
      (range_formatting id uri language_id line character end_line end_character tab_size
        insert_spaces) =
    handle_range_formatting id uri language_id line character end_line end_character tab_size
      insert_spaces
handle_request r (file_rename id old new directory phase identity) =
    handle_file_rename r.address id old new directory phase identity
handle_request r (prepare_rename id uri language_id line character) =
    handle_prepare_rename id uri language_id line character
handle_request r (rename id uri language_id line character new_name) =
    handle_rename id uri language_id line character new_name
handle_request r (signature_help id uri language_id line character) =
    handle_signature_help id uri language_id line character
handle_request r (implementation id uri language_id line character) =
    handle_implementation id uri language_id line character
handle_request r (type_definition id uri language_id line character) =
    handle_type_definition id uri language_id line character
handle_request r (document_symbol id uri language_id) = handle_document_symbol id uri language_id
handle_request r (workspace_symbol id language_id query) =
    handle_workspace_symbol id language_id query
handle_request r (document_highlight id uri language_id line character) =
    handle_document_highlight id uri language_id line character
handle_request r (inlay_hint id uri language_id start_line end_line) =
    handle_inlay_hint id uri language_id start_line end_line
handle_request r (prepare_call_hierarchy id uri language_id line character) =
    handle_prepare_call_hierarchy id uri language_id line character
handle_request r (incoming_calls id language_id item) =
    handle_incoming_calls r.call_item id language_id item
handle_request r (outgoing_calls id language_id item) =
    handle_outgoing_calls r.call_item id language_id item
handle_request r (selection_range id uri language_id positions) =
    handle_selection_range id uri language_id positions
handle_request r (semantic_tokens_full id uri language_id) =
    handle_semantic_tokens_full id uri language_id
handle_request r (semantic_tokens_delta id uri language_id) =
    handle_semantic_tokens_delta id uri language_id
handle_request r
      (semantic_tokens_range id uri language_id start_line start_character end_line end_character) =
    handle_semantic_tokens_range id uri language_id start_line start_character end_line
      end_character
handle_request r (code_lens id uri language_id) = handle_code_lens id uri language_id
handle_request r (folding_range id uri language_id) = handle_folding_range id uri language_id
handle_request r (linked_editing_range id uri language_id line character) =
    handle_linked_editing_range id uri language_id line character
handle_request r (completion_resolve id language_id generation index) =
    handle_completion_resolve id language_id generation index
handle_request r (execute_code_lens id language_id generation uri index) =
    handle_execute_code_lens id language_id generation uri index
handle_request r (prepare_type_hierarchy id uri language_id line character) =
    handle_prepare_type_hierarchy id uri language_id line character
handle_request r (supertypes id language_id item) =
    handle_supertypes r.type_item id language_id item
handle_request r (subtypes id language_id item) = handle_subtypes r.type_item id language_id item
handle_request r (pull_diagnostics id uri language_id) = handle_pull_diagnostics id uri language_id
handle_request r (install_server id server) = handle_install_request id server
handle_request r (list_installable id) = handle_list_installable id
handle_request r (server_response _ server request_id result) =
    handle_server_response server request_id result
