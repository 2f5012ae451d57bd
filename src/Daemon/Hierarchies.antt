-- ===== src/Daemon/Hierarchies.antt =====
-- src/simplecc/simplecc_daemon.rs, handle_request: the requests about a whole document, and hierarchies.
use simplecc.Daemon.Lookups.{text_or_null}
use Prim.Native.String.{◌++◌ as append_text}
use simplecc.Base.{Result, ok, err, ℕ, zero, suc, String, List, [], ◌∷◌}
use simplecc.Json.{Json, string, number, natural, array, Items, nil, cons, object, field, end}
use simplecc.Daemon.Handler.{
  Call, Handler, perform, call, reply, error_reply, ok_or_error, primary_client_or_error,
  HierarchyItem,
}

-- The labels of the kinds of a symbol, from 1 on.
abbrev pub symbol_kind_labels : List String
symbol_kind_labels =
    "File" ∷ "Module" ∷ "Namespace" ∷ "Package" ∷ "Class" ∷ "Method" ∷ "Property" ∷ "Field"
    ∷ "Constructor" ∷ "Enum" ∷ "Interface" ∷ "Function" ∷ "Variable" ∷ "Constant" ∷ "String"
    ∷ "Number" ∷ "Boolean" ∷ "Array" ∷ "Object" ∷ "Key" ∷ "Null" ∷ "EnumMember" ∷ "Struct" ∷ "Event"
    ∷ "Operator" ∷ "TypeParam" ∷ []

abbrev pub label_at : List String → ℕ → String
label_at [] i = "Unknown"
label_at (l ∷ ls) zero = "Unknown"
label_at (l ∷ ls) (suc zero) = l
label_at (l ∷ ls) (suc (suc i)) = label_at ls (suc i)

unfoldable pub symbol_kind_label : ℕ → String
symbol_kind_label kind = label_at symbol_kind_labels kind

unfoldable pub hierarchy_item : HierarchyItem → Json
unfolding symbol_kind_label
hierarchy_item i = object (
    field "name" (string i.name) (
      field "kind" (string (symbol_kind_label i.kind)) (
        field "uri" (string i.uri) (
          field "line" (number (natural i.line)) (
            field "character" (number (natural i.character))
              (field "detail" (text_or_null i.detail) (field "raw" i.raw end)))))))

unfoldable pub hierarchy_items : List HierarchyItem → Items
hierarchy_items [] = nil
hierarchy_items (i ∷ is) = cons (hierarchy_item i) (hierarchy_items is)

unfoldable pub handle_prepare_call_hierarchy : ℕ → String → String → ℕ → ℕ → Handler
handle_prepare_call_hierarchy id uri language_id line character =
    primary_client_or_error id language_id (λ c.
      perform (call c (Call.call_hierarchy_prepare uri line character)) (λ result.
        ok_or_error id result (λ found.
          reply "callHierarchyPrepare" id (field "items" (array (hierarchy_items found)) end))))

unfoldable pub handle_prepare_type_hierarchy : ℕ → String → String → ℕ → ℕ → Handler
handle_prepare_type_hierarchy id uri language_id line character =
    primary_client_or_error id language_id (λ c.
      perform (call c (Call.type_hierarchy_prepare uri line character)) (λ result.
        ok_or_error id result (λ found.
          reply "typeHierarchyPrepare" id (field "items" (array (hierarchy_items found)) end))))

-- An item that comes back from the editor is read first. What it reads as, or the error, is
-- serde_json's.
abbrev pub read_item : ℕ → String → Result Json → (Json → Handler) → Handler
read_item id invalid (ok item) k = k item
read_item id invalid (err e) k = error_reply id (append_text invalid e)

unfoldable pub handle_incoming_calls : (Json → Result Json) → ℕ → String → Json → Handler
handle_incoming_calls from_value id language_id item = primary_client_or_error id language_id (λ c.
    read_item id "invalid call hierarchy item: " (from_value item) (λ lsp_item.
      perform (call c (Call.call_hierarchy_incoming lsp_item)) (λ result.
        ok_or_error id result
          (λ found. reply "incomingCalls" id (field "calls" (array found) end)))))

unfoldable pub handle_outgoing_calls : (Json → Result Json) → ℕ → String → Json → Handler
handle_outgoing_calls from_value id language_id item = primary_client_or_error id language_id (λ c.
    read_item id "invalid call hierarchy item: " (from_value item) (λ lsp_item.
      perform (call c (Call.call_hierarchy_outgoing lsp_item)) (λ result.
        ok_or_error id result
          (λ found. reply "outgoingCalls" id (field "calls" (array found) end)))))

unfoldable pub handle_supertypes : (Json → Result Json) → ℕ → String → Json → Handler
handle_supertypes from_value id language_id item = primary_client_or_error id language_id (λ c.
    read_item id "invalid type hierarchy item: " (from_value item) (λ lsp_item.
      perform (call c (Call.type_hierarchy_supertypes lsp_item)) (λ result.
        ok_or_error id result (λ found. reply "supertypes" id (field "items" (array found) end)))))

unfoldable pub handle_subtypes : (Json → Result Json) → ℕ → String → Json → Handler
handle_subtypes from_value id language_id item = primary_client_or_error id language_id (λ c.
    read_item id "invalid type hierarchy item: " (from_value item) (λ lsp_item.
      perform (call c (Call.type_hierarchy_subtypes lsp_item)) (λ result.
        ok_or_error id result (λ found. reply "subtypes" id (field "items" (array found) end)))))
