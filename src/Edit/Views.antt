-- ===== src/Edit/Views.antt =====
-- The two views of a workspace edit that `from_lsp_workspace_edit` makes in one pass.
use mathlib.Core.List.{append_assoc, append-nil}
use simplecc.Base.{String, ◌≡◌, refl, sym, ap, ◌∙◌, Option, none, some, List, [], ◌∷◌, ◌++◌, map}
use simplecc.Edit.{
  LspTextEdit, DocumentEdit, DocumentChange, DocumentChanges, LspWorkspaceEdit, FileEdit,
  WorkspaceOperation, ResourceOp, create, rename, delete, WorkspaceEdit, edit, op, edits,
  operations, edit_file, create_file, rename_file, delete_file, text_edit, annotated_text_edit,
  resource_operation, empty, push_edit, push_changes, push_document, push_documents,
  push_operations, push_all_changes, push_document_changes, from_lsp_workspace_edit,
}

-- The text edits of an ordered list of operations.
pub edit_steps : List WorkspaceOperation → List FileEdit
edit_steps [] = []
edit_steps (edit_file uri es ∷ rest) = record { uri = uri; edits = es } ∷ edit_steps rest
edit_steps (create_file _ _ _ ∷ rest) = edit_steps rest
edit_steps (rename_file _ _ _ _ ∷ rest) = edit_steps rest
edit_steps (delete_file _ _ _ ∷ rest) = edit_steps rest

edit_steps-append :
    (xs ys : List WorkspaceOperation) → edit_steps (xs ++ ys) ≡ edit_steps xs ++ edit_steps ys
unfolding edit_steps
edit_steps-append [] ys = refl
edit_steps-append (edit_file uri es ∷ xs) ys = cc (edit_steps-append xs ys)
edit_steps-append (create_file _ _ _ ∷ xs) ys = edit_steps-append xs ys
edit_steps-append (rename_file _ _ _ _ ∷ xs) ys = edit_steps-append xs ys
edit_steps-append (delete_file _ _ _ ∷ xs) ys = edit_steps-append xs ys

-- One operation for each entry, in wire order.
abbrev pub change_operation : String × List LspTextEdit → WorkspaceOperation
change_operation c = edit_file c.0 (map text_edit c.1)

abbrev pub document_operation : DocumentEdit → WorkspaceOperation
document_operation d = edit_file d.uri (map annotated_text_edit d.edits)

abbrev pub entry_operation : DocumentChange → WorkspaceOperation
entry_operation (edit d) = document_operation d
entry_operation (op r) = resource_operation r

abbrev pub change_operations : Option (List (String × List LspTextEdit)) → List WorkspaceOperation
change_operations none = []
change_operations (some ch) = map change_operation ch

abbrev pub document_operations : Option DocumentChanges → List WorkspaceOperation
document_operations none = []
document_operations (some (edits ds)) = map document_operation ds
document_operations (some (operations ops)) = map entry_operation ops

abbrev Grows : WorkspaceEdit → WorkspaceEdit → List WorkspaceOperation → Type 0
Grows w w' ops = (w'.operations ≡ w.operations ++ ops) × (w'.changes ≡ w.changes ++ edit_steps ops)

Grows-refl : (w : WorkspaceEdit) → Grows w w []
unfolding edit_steps
Grows-refl w = (sym (append-nil w.operations), sym (append-nil w.changes))

Grows-cons :
    (w v x : WorkspaceEdit) (o : WorkspaceOperation) (ops : List WorkspaceOperation)
    → Grows w v (o ∷ [])
    → Grows v x ops
    → Grows w x (o ∷ ops)
Grows-cons w v x o ops (g, h) (g', h') = (
  g' ∙ (ap (λ xs. xs ++ ops) g ∙ append_assoc w.operations (o ∷ []) ops),
  h'
      ∙ (ap (λ xs. xs ++ edit_steps ops) h
          ∙ (append_assoc w.changes (edit_steps (o ∷ [])) (edit_steps ops)
              ∙ ap (λ xs. w.changes ++ xs) (sym (edit_steps-append (o ∷ []) ops)))),
)

push_changes-Grows :
    (w : WorkspaceEdit) (ch : List (String × List LspTextEdit))
    → Grows w (push_changes w ch) (map change_operation ch)
unfolding push_changes
push_changes-Grows w [] = Grows-refl w
push_changes-Grows w ((uri, es) ∷ rest) =
    Grows-cons w (push_edit w uri (map text_edit es)) _ (edit_file uri (map text_edit es)) _
      (unfold push_edit edit_steps in (refl, refl))
      (push_changes-Grows (push_edit w uri (map text_edit es)) rest)

push_document-Grows :
    (w : WorkspaceEdit) (d : DocumentEdit) → Grows w (push_document w d) (document_operation d ∷ [])
unfolding push_document push_edit edit_steps
push_document-Grows w d = (refl, refl)

push_documents-Grows :
    (w : WorkspaceEdit) (ds : List DocumentEdit)
    → Grows w (push_documents w ds) (map document_operation ds)
unfolding push_documents
push_documents-Grows w [] = Grows-refl w
push_documents-Grows w (d ∷ rest) =
    Grows-cons w (push_document w d) _ (document_operation d) _ (push_document-Grows w d)
      (push_documents-Grows (push_document w d) rest)

resource_changes :
    (w : WorkspaceEdit) (r : ResourceOp)
    → w.changes ≡ w.changes ++ edit_steps (resource_operation r ∷ [])
unfolding resource_operation edit_steps
resource_changes w (create _ _) = sym (append-nil w.changes)
resource_changes w (rename _ _ _) = sym (append-nil w.changes)
resource_changes w (delete _ _) = sym (append-nil w.changes)

push_operations-Grows :
    (w : WorkspaceEdit) (ops : List DocumentChange)
    → Grows w (push_operations w ops) (map entry_operation ops)
unfolding push_operations
push_operations-Grows w [] = Grows-refl w
push_operations-Grows w (edit d ∷ rest) =
    Grows-cons w (push_document w d) _ (document_operation d) _ (push_document-Grows w d)
      (push_operations-Grows (push_document w d) rest)
push_operations-Grows w (op r ∷ rest) =
    let v : WorkspaceEdit = record w { operations = w.operations ++ resource_operation r ∷ [] } in
    Grows-cons w v _ (resource_operation r) _ (refl, resource_changes w r)
      (push_operations-Grows v rest)

push_all_changes-Grows :
    (w : WorkspaceEdit) (ch : Option (List (String × List LspTextEdit)))
    → Grows w (push_all_changes w ch) (change_operations ch)
unfolding push_all_changes
push_all_changes-Grows w none = Grows-refl w
push_all_changes-Grows w (some ch) = push_changes-Grows w ch

push_document_changes-Grows :
    (w : WorkspaceEdit) (ch : Option DocumentChanges)
    → Grows w (push_document_changes w ch) (document_operations ch)
unfolding push_document_changes
push_document_changes-Grows w none = Grows-refl w
push_document_changes-Grows w (some (edits ds)) = push_documents-Grows w ds
push_document_changes-Grows w (some (operations ops)) = push_operations-Grows w ops

-- Every entry the server sent becomes one operation, `changes` first and then `documentChanges` in
-- wire order, and the flat view is exactly the text edits among these operations, in their order.
pub workspace_edit_views :
    (e : LspWorkspaceEdit)
    → let w = from_lsp_workspace_edit e in
      (w.operations ≡ change_operations e.changes ++ document_operations e.document_changes)
      × (w.changes ≡ edit_steps w.operations)
workspace_edit_views e =
    let v = push_all_changes empty e.changes in
    let (g, h) = push_all_changes-Grows empty e.changes in
    let (g', h') = push_document_changes-Grows v e.document_changes in
    let ops = g' ∙ ap (λ xs. xs ++ document_operations e.document_changes) g in
    unfold from_lsp_workspace_edit in
    (
      ops,
      h'
          ∙ (ap (λ xs. xs ++ edit_steps (document_operations e.document_changes)) h
              ∙ (sym (
                    edit_steps-append (change_operations e.changes)
                      (document_operations e.document_changes))
                  ∙ ap edit_steps (sym ops))),
    )
