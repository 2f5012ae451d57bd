-- ===== src/Daemon/Whole.antt =====
-- src/simplecc/simplecc_daemon.rs, handle_request: the requests about a whole document.
use simplecc.Config.Merge.{get}
use simplecc.Base.{ℕ, String, Option, none, some, List, [], ◌∷◌, ◌%◌, ◌^◌}
use simplecc.Json.{Json, null, string, number, natural, array, object, field, end}
use simplecc.Daemon.Handler.{
  Call, Handler, perform, call, reply, ok_or_error, ok_or_skip, primary_client_or_error,
  primary_server_name,
}

abbrev pub value_or_null : Option Json → Json
value_or_null none = null
value_or_null (some v) = v

-- `as_u64`, and then the cast to `u32`.
abbrev pub as_u32 : Json → Option ℕ
as_u32 (number (natural n)) = some (n % 2 ^ 32)
as_u32 _ = none

abbrev pub field_u32 : String → Json → Option ℕ
field_u32 k (object fields) = elim (get k fields) [ none ↦ none | some v ↦ as_u32 v ]
field_u32 k _ = none

abbrev pub cons_position : Option ℕ → Option ℕ → List (ℕ × ℕ) → List (ℕ × ℕ)
cons_position (some line) (some character) rest = (line, character) ∷ rest
cons_position _ _ rest = rest

unfoldable pub positions_of : List Json → List (ℕ × ℕ)
unfolding get
positions_of [] = []
positions_of (p ∷ ps) =
    cons_position (field_u32 "line" p) (field_u32 "character" p) (positions_of ps)

unfoldable pub handle_selection_range : ℕ → String → String → List Json → Handler
handle_selection_range id uri language_id positions = primary_client_or_error id language_id (λ c.
    perform (call c (Call.selection_range uri (positions_of positions))) (λ result.
      ok_or_error id result
        (λ found. reply "selectionRange" id (field "ranges" (array found) end))))

unfoldable pub handle_semantic_tokens_full : ℕ → String → String → Handler
handle_semantic_tokens_full id uri language_id = primary_client_or_error id language_id (λ c.
    perform (call c (Call.semantic_tokens_full uri)) (λ result.
      ok_or_error id result
        (λ found. reply "semanticTokens" id (field "tokens" (array found) end))))

unfoldable pub handle_semantic_tokens_delta : ℕ → String → String → Handler
handle_semantic_tokens_delta id uri language_id = primary_client_or_error id language_id (λ c.
    perform (call c (Call.semantic_tokens_full_delta uri)) (λ result.
      ok_or_error id result
        (λ found. reply "semanticTokens" id (field "tokens" (array found) end))))

unfoldable pub handle_semantic_tokens_range : ℕ → String → String → ℕ → ℕ → ℕ → ℕ → Handler
handle_semantic_tokens_range id uri language_id start_line start_character end_line end_character =
    primary_client_or_error id language_id (λ c.
      perform
        (call c (Call.semantic_tokens_range uri start_line start_character end_line end_character))
        (λ result.
          ok_or_error id result
            (λ found. reply "semanticTokens" id (field "tokens" (array found) end))))

unfoldable pub handle_folding_range : ℕ → String → String → Handler
handle_folding_range id uri language_id = primary_client_or_error id language_id (λ c.
    perform (call c (Call.folding_range uri)) (λ result.
      ok_or_error id result (λ found. reply "foldingRange" id (field "ranges" (array found) end))))

unfoldable pub handle_linked_editing_range : ℕ → String → String → ℕ → ℕ → Handler
handle_linked_editing_range id uri language_id line character =
    primary_client_or_error id language_id (λ c.
      perform (call c (Call.linked_editing_range uri line character)) (λ result.
        ok_or_error id result
          (λ found. reply "linkedEditingRange" id (field "result" (value_or_null found) end))))

abbrev pub name_or_empty : Option String → String
name_or_empty none = ""
name_or_empty (some s) = s

unfoldable pub handle_pull_diagnostics : ℕ → String → String → Handler
handle_pull_diagnostics id uri language_id = primary_client_or_error id language_id (λ c.
    perform (primary_server_name language_id) (λ server.
      perform (call c (Call.pull_diagnostics uri)) (λ result. ok_or_skip id result (λ items.
        reply "diagnostics" id (
          field "server" (string (name_or_empty server))
            (field "uri" (string uri) (field "items" (array items) end)))))))
