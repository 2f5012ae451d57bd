-- ===== src/Edit/Tests.antt =====
-- A workspace edit of src/simplecc/lsp/types.rs that moves a file after editing it.
use simplecc.Base.{◌≡◌, true, none, some, [], ◌∷◌}
use simplecc.Edit.{
  Range, LspWorkspaceEdit, DocumentEdit, edit, op, rename, operations, plain,
  from_lsp_workspace_edit,
}
use simplecc.Edit.Views.{workspace_edit_views, edit_steps}

abbrev here : Range
here = record {
  start = record { line = 1; character = 2 };
  end = record { line = 1; character = 5 };
}

abbrev import_edit : DocumentEdit
import_edit = record { uri = "a"; edits = plain (record { range = here; new_text = "x" }) ∷ [] }

abbrev edit_then_move : LspWorkspaceEdit
edit_then_move = record {
  changes = none;
  document_changes = some (
      operations (
        edit import_edit
        ∷ op (rename "a" "b" (some (record { overwrite = some true; ignore_if_exists = none })))
        ∷ []));
}

workspace_edit_views_example :
    (from_lsp_workspace_edit edit_then_move).changes
    ≡ edit_steps (from_lsp_workspace_edit edit_then_move).operations
workspace_edit_views_example = (workspace_edit_views edit_then_move).1
