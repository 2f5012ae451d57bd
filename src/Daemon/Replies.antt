-- ===== src/Daemon/Replies.antt =====
-- src/simplecc/simplecc_daemon.rs: which requests are answered, and that they are.
use simplecc.Base.{refl, string_key}
use simplecc.Daemon.Request.{
  Request, request_id, initialize, shutdown, julia_activate_environment,
  julia_refresh_language_server, reload_configuration, did_change_watched_files, did_open,
  did_change, did_save, did_close, completion, hover, definition, references, code_action,
  organize_imports, execute_action, formatting, range_formatting, file_rename, prepare_rename,
  rename, signature_help, implementation, type_definition, document_symbol, workspace_symbol,
  document_highlight, inlay_hint, prepare_call_hierarchy, incoming_calls, outgoing_calls,
  selection_range, semantic_tokens_full, semantic_tokens_delta, semantic_tokens_range, code_lens,
  folding_range, linked_editing_range, completion_resolve, execute_code_lens,
  prepare_type_hierarchy, supertypes, subtypes, pull_diagnostics, install_server, list_installable,
  server_response,
}
use simplecc.Daemon.Answered.{
  never, always, Answered, for_each-Answered, ok_or_error-Answered, ok_or_skip-Answered,
  asks_client, asks_newest,
}
use simplecc.Daemon.Handle.{Readers, handle_request}
use simplecc.Daemon.Documents.{
  handle_did_open, handle_did_change, handle_did_save, handle_did_change_watched_files,
  handle_did_close, handle_server_response,
}
use simplecc.Daemon.Lifecycle.{
  handle_initialize, handle_shutdown, handle_julia_activate_environment,
  handle_julia_refresh_language_server, handle_reload_configuration, handle_install_request,
  handle_list_installable,
}
use simplecc.Daemon.Lookups.{
  handle_hover, handle_definition, handle_references, handle_implementation, handle_type_definition,
  handle_document_symbol, handle_workspace_symbol, handle_document_highlight, handle_inlay_hint,
}
use simplecc.Daemon.Hierarchies.{
  handle_prepare_call_hierarchy, handle_prepare_type_hierarchy, handle_incoming_calls,
  handle_outgoing_calls, handle_supertypes, handle_subtypes,
}
use simplecc.Daemon.Whole.{
  handle_selection_range, handle_semantic_tokens_full, handle_semantic_tokens_delta,
  handle_semantic_tokens_range, handle_folding_range, handle_linked_editing_range,
  handle_pull_diagnostics,
}
use simplecc.Daemon.Edits.{
  handle_completion, handle_completion_resolve, handle_signature_help, handle_code_action,
  handle_organize_imports, handle_execute_action, handle_execute_code_lens, handle_code_lens,
  handle_formatting, handle_range_formatting, handle_prepare_rename, handle_rename,
}
use simplecc.Daemon.Paths.{
  reply_kind, loaded-Answered, activate_environment-Answered, refresh_language_server-Answered,
  watched_files-Answered, for_filetype-Answered, respond-Answered, complete-Answered,
  definition-Answered, read_item-Answered, install_result-Answered, file_rename-Answered,
}

-- On every path of its handler a request is answered as its kind says, with its own id.
pub handle_request-Answered :
    (r : Readers) (req : Request)
    → Answered (reply_kind req) (request_id req) (handle_request r req)
unfolding handle_request request_id handle_initialize handle_shutdown
    handle_julia_activate_environment handle_julia_refresh_language_server
    handle_reload_configuration handle_did_change_watched_files handle_did_open handle_did_change
    handle_did_save handle_did_close handle_completion handle_hover handle_definition
    handle_references handle_code_action handle_organize_imports handle_execute_action
    handle_formatting handle_range_formatting handle_prepare_rename handle_rename
    handle_signature_help handle_implementation handle_type_definition handle_document_symbol
    handle_workspace_symbol handle_document_highlight handle_inlay_hint
    handle_prepare_call_hierarchy handle_incoming_calls handle_outgoing_calls handle_selection_range
    handle_semantic_tokens_full handle_semantic_tokens_delta handle_semantic_tokens_range
    handle_code_lens handle_folding_range handle_linked_editing_range handle_completion_resolve
    handle_execute_code_lens handle_prepare_type_hierarchy handle_supertypes handle_subtypes
    handle_pull_diagnostics handle_install_request handle_list_installable handle_server_response
handle_request-Answered r (initialize id root _ remote _ python_path python_lsp_path) =
    λ result. loaded-Answered id root remote python_path python_lsp_path result
handle_request-Answered r (shutdown id) =
    λ _ clients. for_each-Answered always id clients _ _ (λ _. (tt, refl, tt))
handle_request-Answered r (julia_activate_environment id language_id env_path) =
    activate_environment-Answered id language_id env_path
handle_request-Answered r (julia_refresh_language_server id language_id) =
    refresh_language_server-Answered id language_id
handle_request-Answered r (reload_configuration id _ _) =
    λ result. ok_or_error-Answered always id tt result _ (λ servers. (tt, refl, tt))
handle_request-Answered r (did_change_watched_files id changes) = watched_files-Answered id changes
handle_request-Answered r (did_open id _ _ _ _) =
    λ _ clients. for_each-Answered never id clients _ _ tt
handle_request-Answered r (did_change id _ _ _ _) = λ ft. for_filetype-Answered id ft _ _ tt
handle_request-Answered r (did_save id _ _) =
    λ ft. for_filetype-Answered id ft _ _ (λ clients. for_each-Answered never id clients _ _ tt)
handle_request-Answered r (did_close id _) = λ ft. for_filetype-Answered id ft _ _ tt
handle_request-Answered r
      (completion id uri _ line character max_items trigger_kind trigger_character sort_items) =
    λ found.
      complete-Answered id uri line character max_items trigger_kind trigger_character sort_items
        found
handle_request-Answered r (hover id _ language_id _ _) =
    asks_newest id language_id _
      (λ c result. ok_or_skip-Answered id result _ (λ found. (tt, refl, tt)))
handle_request-Answered r (definition id _ language_id _ _ symbol) =
    asks_client id language_id _ (λ c result.
      ok_or_error-Answered always id tt result _ (λ locs. definition-Answered id c symbol locs))
handle_request-Answered r (references id _ language_id _ _) =
    asks_client id language_id _
      (λ c result. ok_or_error-Answered always id tt result _ (λ found. (tt, refl, tt)))
handle_request-Answered r (code_action id _ language_id _ _ _ _ _) =
    asks_client id language_id _
      (λ c result. ok_or_error-Answered always id tt result _ (λ found. (tt, refl, tt)))
handle_request-Answered r (organize_imports id _ language_id) =
    asks_client id language_id _
      (λ c result. ok_or_error-Answered always id tt result _ (λ found. (tt, refl, tt)))
handle_request-Answered r (execute_action id _ _ language_id _) =
    asks_client id language_id _
      (λ c result. ok_or_error-Answered always id tt result _ (λ found. (tt, refl, tt)))
handle_request-Answered r (formatting id _ language_id _ _) =
    asks_client id language_id _
      (λ c result. ok_or_error-Answered always id tt result _ (λ found. (tt, refl, tt)))
handle_request-Answered r (range_formatting id _ language_id _ _ _ _ _ _) =
    asks_client id language_id _
      (λ c result. ok_or_error-Answered always id tt result _ (λ found. (tt, refl, tt)))
handle_request-Answered r (file_rename id old new directory phase identity) =
    file_rename-Answered r.address id old new directory phase identity
handle_request-Answered r (prepare_rename id _ language_id _ _) =
    asks_client id language_id _
      (λ c result. ok_or_error-Answered always id tt result _ (λ found. (tt, refl, tt)))
handle_request-Answered r (rename id _ language_id _ _ _) =
    asks_client id language_id _
      (λ c result. ok_or_error-Answered always id tt result _ (λ found. (tt, refl, tt)))
handle_request-Answered r (signature_help id _ language_id _ _) =
    asks_newest id language_id _
      (λ c result. ok_or_skip-Answered id result _ (λ found. (tt, refl, tt)))
handle_request-Answered r (implementation id _ language_id _ _) =
    asks_client id language_id _
      (λ c result. ok_or_error-Answered always id tt result _ (λ found. (tt, refl, tt)))
handle_request-Answered r (type_definition id _ language_id _ _) =
    asks_client id language_id _
      (λ c result. ok_or_error-Answered always id tt result _ (λ found. (tt, refl, tt)))
handle_request-Answered r (document_symbol id _ language_id) =
    asks_client id language_id _
      (λ c result. ok_or_error-Answered always id tt result _ (λ found. (tt, refl, tt)))
handle_request-Answered r (workspace_symbol id language_id _) =
    asks_newest id language_id _
      (λ c result. ok_or_skip-Answered id result _ (λ found. (tt, refl, tt)))
handle_request-Answered r (document_highlight id _ language_id _ _) =
    asks_newest id language_id _
      (λ c result. ok_or_skip-Answered id result _ (λ found. (tt, refl, tt)))
handle_request-Answered r (inlay_hint id _ language_id _ _) =
    asks_newest id language_id _
      (λ c result. ok_or_skip-Answered id result _ (λ found. (tt, refl, tt)))
handle_request-Answered r (prepare_call_hierarchy id _ language_id _ _) =
    asks_client id language_id _
      (λ c result. ok_or_error-Answered always id tt result _ (λ found. (tt, refl, tt)))
handle_request-Answered r (incoming_calls id language_id item) = asks_client id language_id _ (λ c.
    read_item-Answered id _ (r.call_item item) _
      (λ lsp_item result. ok_or_error-Answered always id tt result _ (λ found. (tt, refl, tt))))
handle_request-Answered r (outgoing_calls id language_id item) = asks_client id language_id _ (λ c.
    read_item-Answered id _ (r.call_item item) _
      (λ lsp_item result. ok_or_error-Answered always id tt result _ (λ found. (tt, refl, tt))))
handle_request-Answered r (selection_range id _ language_id _) =
    asks_client id language_id _
      (λ c result. ok_or_error-Answered always id tt result _ (λ found. (tt, refl, tt)))
handle_request-Answered r (semantic_tokens_full id _ language_id) =
    asks_client id language_id _
      (λ c result. ok_or_error-Answered always id tt result _ (λ found. (tt, refl, tt)))
handle_request-Answered r (semantic_tokens_delta id _ language_id) =
    asks_client id language_id _
      (λ c result. ok_or_error-Answered always id tt result _ (λ found. (tt, refl, tt)))
handle_request-Answered r (semantic_tokens_range id _ language_id _ _ _ _) =
    asks_client id language_id _
      (λ c result. ok_or_error-Answered always id tt result _ (λ found. (tt, refl, tt)))
handle_request-Answered r (code_lens id _ language_id) =
    asks_newest id language_id _
      (λ c result. ok_or_skip-Answered id result _ (λ found. (tt, refl, tt)))
handle_request-Answered r (folding_range id _ language_id) =
    asks_client id language_id _
      (λ c result. ok_or_error-Answered always id tt result _ (λ found. (tt, refl, tt)))
handle_request-Answered r (linked_editing_range id _ language_id _ _) =
    asks_client id language_id _
      (λ c result. ok_or_error-Answered always id tt result _ (λ found. (tt, refl, tt)))
handle_request-Answered r (completion_resolve id language_id _ _) =
    asks_client id language_id _
      (λ c result. ok_or_error-Answered always id tt result _ (λ found. (tt, refl, tt)))
handle_request-Answered r (execute_code_lens id language_id _ _ _) =
    asks_client id language_id _
      (λ c result. ok_or_error-Answered always id tt result _ (λ found. (tt, refl, tt)))
handle_request-Answered r (prepare_type_hierarchy id _ language_id _ _) =
    asks_client id language_id _
      (λ c result. ok_or_error-Answered always id tt result _ (λ found. (tt, refl, tt)))
handle_request-Answered r (supertypes id language_id item) = asks_client id language_id _ (λ c.
    read_item-Answered id _ (r.type_item item) _
      (λ lsp_item result. ok_or_error-Answered always id tt result _ (λ found. (tt, refl, tt))))
handle_request-Answered r (subtypes id language_id item) = asks_client id language_id _ (λ c.
    read_item-Answered id _ (r.type_item item) _
      (λ lsp_item result. ok_or_error-Answered always id tt result _ (λ found. (tt, refl, tt))))
handle_request-Answered r (pull_diagnostics id _ language_id) =
    asks_newest id language_id _
      (λ c server result. ok_or_skip-Answered id result _ (λ items. (tt, refl, tt)))
handle_request-Answered r (install_server id server) =
    λ result. install_result-Answered id server result
handle_request-Answered r (list_installable _) = λ servers. (tt, refl, tt)
handle_request-Answered r (server_response id _ request_id result) =
    λ found. respond-Answered id found request_id result
