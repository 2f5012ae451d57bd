-- ===== src/Daemon/Lookups.antt =====
-- src/simplecc/simplecc_daemon.rs, handle_request: the requests that look something up.
use simplecc.Base.{Result, ok, err, ℕ, String, Option, none, some}
use simplecc.Json.{Json, null, string, array, Items, nil, cons, field, end}
use simplecc.Daemon.Handler.{
  Call, Handler, perform, call, reply, ok_or_error, ok_or_skip, primary_client_or_error,
}

-- An optional text or value, `null` where there is none.
abbrev pub text_or_null : Option String → Json
text_or_null none = null
text_or_null (some s) = string s

unfoldable pub handle_hover : ℕ → String → String → ℕ → ℕ → Handler
handle_hover id uri language_id line character = primary_client_or_error id language_id (λ c.
    perform (call c (Call.hover id uri line character)) (λ result.
      ok_or_skip id result (λ found. reply "hover" id (field "contents" (text_or_null found) end))))

-- The workspace's symbols of that name, where there is no location and a name is given.
abbrev pub fallback_of : Items → Result Items → Items
fallback_of locs (ok (cons l ls)) = cons l ls
fallback_of locs (ok nil) = locs
fallback_of locs (err e) = locs

abbrev pub definition_reply : ℕ → Items → Handler
definition_reply id locs = reply "definition" id (field "locations" (array locs) end)

abbrev pub definition_found : ℕ → ℕ → String → Items → Handler
definition_found id c String.[] nil = definition_reply id nil
definition_found id c (String.◌∷◌ x symbol) nil =
    perform (call c (Call.workspace_symbol_locations (String.◌∷◌ x symbol)))
      (λ fallback. definition_reply id (fallback_of nil fallback))
definition_found id c symbol (cons l ls) = definition_reply id (cons l ls)

unfoldable pub handle_definition : ℕ → String → String → ℕ → ℕ → String → Handler
handle_definition id uri language_id line character symbol =
    primary_client_or_error id language_id (λ c.
      perform (call c (Call.definition uri line character))
        (λ result. ok_or_error id result (λ locs. definition_found id c symbol locs)))

unfoldable pub handle_references : ℕ → String → String → ℕ → ℕ → Handler
handle_references id uri language_id line character = primary_client_or_error id language_id (λ c.
    perform (call c (Call.references uri line character)) (λ result.
      ok_or_error id result (λ found. reply "references" id (field "locations" (array found) end))))

unfoldable pub handle_implementation : ℕ → String → String → ℕ → ℕ → Handler
handle_implementation id uri language_id line character =
    primary_client_or_error id language_id (λ c.
      perform (call c (Call.implementation uri line character)) (λ result.
        ok_or_error id result
          (λ found. reply "implementation" id (field "locations" (array found) end))))

unfoldable pub handle_type_definition : ℕ → String → String → ℕ → ℕ → Handler
handle_type_definition id uri language_id line character =
    primary_client_or_error id language_id (λ c.
      perform (call c (Call.type_definition uri line character)) (λ result.
        ok_or_error id result
          (λ found. reply "typeDefinition" id (field "locations" (array found) end))))

unfoldable pub handle_document_symbol : ℕ → String → String → Handler
handle_document_symbol id uri language_id = primary_client_or_error id language_id (λ c.
    perform (call c (Call.document_symbol uri)) (λ result.
      ok_or_error id result
        (λ found. reply "documentSymbol" id (field "symbols" (array found) end))))

unfoldable pub handle_workspace_symbol : ℕ → String → String → Handler
handle_workspace_symbol id language_id query = primary_client_or_error id language_id (λ c.
    perform (call c (Call.workspace_symbol id query)) (λ result.
      ok_or_skip id result
        (λ found. reply "workspaceSymbol" id (field "symbols" (array found) end))))

unfoldable pub handle_document_highlight : ℕ → String → String → ℕ → ℕ → Handler
handle_document_highlight id uri language_id line character =
    primary_client_or_error id language_id (λ c.
      perform (call c (Call.document_highlight id uri line character)) (λ result.
        ok_or_skip id result
          (λ found. reply "documentHighlight" id (field "highlights" (array found) end))))

unfoldable pub handle_inlay_hint : ℕ → String → String → ℕ → ℕ → Handler
handle_inlay_hint id uri language_id start_line end_line =
    primary_client_or_error id language_id (λ c.
      perform (call c (Call.inlay_hints id uri start_line end_line)) (λ result.
        ok_or_skip id result (λ found. reply "inlayHint" id (field "hints" (array found) end))))
