-- ===== src/Daemon/Edits.antt =====
-- src/simplecc/simplecc_daemon.rs, handle_request: the requests of typing and of edits.
use simplecc.Daemon.Whole.{value_or_null}
use simplecc.Base.{ℕ, String, Bool, Option, none, some, ◌==◌, string_key, if◌then◌else◌}
use simplecc.Json.{Json, null, string, number, natural, array, Items, nil, cons, Fields, field, end}
use simplecc.Daemon.Handler.{
  Call, Handler, perform, call, reply, ok_or_error, ok_or_skip, primary_client_or_error,
  primary_client,
}

abbrev pub completion_reply : ℕ → ℕ → Items → Handler
completion_reply id generation items =
    reply "completion" id
      (field "generation" (number (natural generation)) (field "items" (array items) end))

abbrev pub drop_empty_text : String → Option String
drop_empty_text s = if s == "" then none else some s

abbrev pub complete : ℕ → String → ℕ → ℕ → ℕ → ℕ → String → Bool → Option ℕ → Handler
complete id uri line character max_items trigger_kind trigger_character sort_items none =
    completion_reply id 0 nil
complete id uri line character max_items trigger_kind trigger_character sort_items (some c) =
    perform
      (call c (
        Call.completion id uri line character max_items trigger_kind
          (drop_empty_text trigger_character) sort_items))
      (λ result. ok_or_skip id result (λ found. completion_reply id found.0 found.1))

unfoldable pub handle_completion : ℕ → String → String → ℕ → ℕ → ℕ → ℕ → String → Bool → Handler
handle_completion id uri language_id line character max_items trigger_kind trigger_character
      sort_items =
    perform (primary_client language_id) (λ client.
      complete id uri line character max_items trigger_kind trigger_character sort_items client)

unfoldable pub handle_completion_resolve : ℕ → String → ℕ → ℕ → Handler
handle_completion_resolve id language_id generation index =
    primary_client_or_error id language_id (λ c.
      perform (call c (Call.completion_resolve generation index)) (λ result.
        ok_or_error id result (λ found. reply "completionResolve" id (field "item" (found) end))))

abbrev pub signatures : Items → Json
signatures nil = null
signatures (cons s ss) = array (cons s ss)

unfoldable pub handle_signature_help : ℕ → String → String → ℕ → ℕ → Handler
handle_signature_help id uri language_id line character =
    primary_client_or_error id language_id (λ c.
      perform (call c (Call.signature_help id uri line character)) (λ result.
        ok_or_skip id result
          (λ found. reply "signatureHelp" id (field "signatures" (signatures found) end))))

abbrev pub or_start : ℕ → Option ℕ → ℕ
or_start n none = n
or_start n (some m) = m

unfoldable pub handle_code_action :
    ℕ → String → String → ℕ → ℕ → Option ℕ → Option ℕ → Json → Handler
handle_code_action id uri language_id line character end_line end_character diagnostics =
    primary_client_or_error id language_id (λ c.
      perform
        (call c (
          Call.code_action id uri line character (or_start line end_line)
            (or_start character end_character) diagnostics))
        (λ result. ok_or_error id result (λ actions.
          reply "codeAction" id
            (field "generation" (number (natural id)) (field "actions" (array actions) end)))))

unfoldable pub handle_organize_imports : ℕ → String → String → Handler
handle_organize_imports id uri language_id = primary_client_or_error id language_id (λ c.
    perform (call c (Call.organize_imports uri)) (λ result.
      ok_or_error id result (λ found. reply "organizeImports" id (field "edits" (found) end))))

-- The edit is left out where there is none.
abbrev pub execution_fields : ℕ → String → Option Json → Fields
execution_fields generation uri none =
    field "generation" (number (natural generation)) (field "uri" (string uri) end)
execution_fields generation uri (some edit) =
    field "generation" (number (natural generation))
      (field "uri" (string uri) (field "edit" edit end))

unfoldable pub handle_execute_action : ℕ → ℕ → String → String → ℕ → Handler
handle_execute_action id generation uri language_id index =
    primary_client_or_error id language_id (λ c.
      perform (call c (Call.execute_code_action generation uri index)) (λ result.
        ok_or_error id result
          (λ found. reply "executeAction" id (execution_fields generation uri found))))

unfoldable pub handle_execute_code_lens : ℕ → String → ℕ → String → ℕ → Handler
handle_execute_code_lens id language_id generation uri index =
    primary_client_or_error id language_id (λ c.
      perform (call c (Call.execute_code_lens generation uri index)) (λ result.
        ok_or_error id result
          (λ found. reply "codeLensExecute" id (execution_fields generation uri found))))

unfoldable pub handle_code_lens : ℕ → String → String → Handler
handle_code_lens id uri language_id = primary_client_or_error id language_id (λ c.
    perform (call c (Call.code_lens id uri)) (λ result. ok_or_skip id result (λ lenses.
      reply "codeLens" id (
        field "generation" (number (natural id))
          (field "uri" (string uri) (field "lenses" (array lenses) end))))))

unfoldable pub handle_formatting : ℕ → String → String → ℕ → Bool → Handler
handle_formatting id uri language_id tab_size insert_spaces =
    primary_client_or_error id language_id (λ c.
      perform (call c (Call.formatting uri tab_size insert_spaces)) (λ result.
        ok_or_error id result (λ found. reply "formatting" id (field "edits" (array found) end))))

unfoldable pub handle_range_formatting : ℕ → String → String → ℕ → ℕ → ℕ → ℕ → ℕ → Bool → Handler
handle_range_formatting id uri language_id line character end_line end_character tab_size
      insert_spaces =
    primary_client_or_error id language_id (λ c.
      perform
        (call c
          (Call.range_formatting uri line character end_line end_character tab_size insert_spaces))
        (λ result.
          ok_or_error id result (λ found. reply "formatting" id (field "edits" (array found) end))))

unfoldable pub handle_prepare_rename : ℕ → String → String → ℕ → ℕ → Handler
handle_prepare_rename id uri language_id line character =
    primary_client_or_error id language_id (λ c.
      perform (call c (Call.prepare_rename uri line character)) (λ result.
        ok_or_error id result
          (λ found. reply "prepareRename" id (field "result" (value_or_null found) end))))

unfoldable pub handle_rename : ℕ → String → String → ℕ → ℕ → String → Handler
handle_rename id uri language_id line character new_name =
    primary_client_or_error id language_id (λ c.
      perform (call c (Call.rename uri line character new_name)) (λ result.
        ok_or_error id result
          (λ found. reply "rename" id (field "edit" (value_or_null found) end))))
