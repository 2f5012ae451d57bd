-- ===== src/Edit.antt =====
-- src/simplecc/lsp/types.rs: workspace edits as the language server sends them, and as the editor gets them.
-- A URI stands for its text. A `HashMap` of edits is the list in which it is iterated.
pub mod Views
pub mod Tests
use simplecc.Base.{ℕ, String, Bool, false, Option, none, some, List, [], ◌∷◌, ◌++◌, map, get_or}

pub record Position : Type 0 where
  pub line : ℕ
  pub character : ℕ

pub record Range : Type 0 where
  pub start : Position
  pub end : Position

-- `lsp_types::TextEdit`.
pub record LspTextEdit : Type 0 where
  pub range : Range
  pub new_text : String

-- `OneOf<TextEdit, AnnotatedTextEdit>`.
pub data AnyTextEdit : Type 0 where
  plain : LspTextEdit → AnyTextEdit
  annotated : LspTextEdit → String → AnyTextEdit

pub record DocumentEdit : Type 0 where
  pub uri : String
  pub edits : List AnyTextEdit

pub record FileOptions : Type 0 where
  pub overwrite : Option Bool
  pub ignore_if_exists : Option Bool

pub record DeleteOptions : Type 0 where
  pub recursive : Option Bool
  pub ignore_if_not_exists : Option Bool

pub data ResourceOp : Type 0 where
  create : String → Option FileOptions → ResourceOp
  rename : String → String → Option FileOptions → ResourceOp
  delete : String → Option DeleteOptions → ResourceOp

pub data DocumentChange : Type 0 where
  edit : DocumentEdit → DocumentChange
  op : ResourceOp → DocumentChange

pub data DocumentChanges : Type 0 where
  edits : List DocumentEdit → DocumentChanges
  operations : List DocumentChange → DocumentChanges

-- `lsp_types::WorkspaceEdit`.
pub record LspWorkspaceEdit : Type 0 where
  pub changes : Option (List (String × List LspTextEdit))
  pub document_changes : Option DocumentChanges

-- What the editor gets.
pub record TextEdit : Type 0 where
  pub line : ℕ
  pub character : ℕ
  pub end_line : ℕ
  pub end_character : ℕ
  pub new_text : String

pub record FileEdit : Type 0 where
  pub uri : String
  pub edits : List TextEdit

pub data WorkspaceOperation : Type 0 where
  edit_file : String → List TextEdit → WorkspaceOperation
  create_file : String → Bool → Bool → WorkspaceOperation
  rename_file : String → String → Bool → Bool → WorkspaceOperation
  delete_file : String → Bool → Bool → WorkspaceOperation

pub record WorkspaceEdit : Type 0 where
  pub changes : List FileEdit
  pub operations : List WorkspaceOperation

unfoldable pub text_edit : LspTextEdit → TextEdit
text_edit e = record {
  line = e.range.start.line;
  character = e.range.start.character;
  end_line = e.range.end.line;
  end_character = e.range.end.character;
  new_text = e.new_text;
}

pub annotated_text_edit : AnyTextEdit → TextEdit
annotated_text_edit (plain e) = text_edit e
annotated_text_edit (annotated e note) = text_edit e

-- An option of an options record that may be missing; absent means false.
abbrev option_or_false {ℓ} : {A : Type ℓ} → Option A → (A → Option Bool) → Bool
option_or_false none field = false
option_or_false (some o) field = get_or (field o) false

pub resource_operation : ResourceOp → WorkspaceOperation
resource_operation (create uri o) =
    create_file uri (option_or_false o (λ r. r.overwrite))
      (option_or_false o (λ r. r.ignore_if_exists))
resource_operation (rename old new o) =
    rename_file old new (option_or_false o (λ r. r.overwrite))
      (option_or_false o (λ r. r.ignore_if_exists))
resource_operation (delete uri o) =
    delete_file uri (option_or_false o (λ r. r.recursive))
      (option_or_false o (λ r. r.ignore_if_not_exists))

-- The pair of vectors that `push_edit` writes to.
abbrev pub empty : WorkspaceEdit
empty = record { changes = []; operations = [] }

pub push_edit : WorkspaceEdit → String → List TextEdit → WorkspaceEdit
push_edit w uri es = record {
  changes = w.changes ++ record { uri = uri; edits = es } ∷ [];
  operations = w.operations ++ edit_file uri es ∷ [];
}

-- The three loops of `from_lsp_workspace_edit`.
pub push_changes : WorkspaceEdit → List (String × List LspTextEdit) → WorkspaceEdit
push_changes w [] = w
push_changes w ((uri, es) ∷ rest) = push_changes (push_edit w uri (map text_edit es)) rest

pub push_document : WorkspaceEdit → DocumentEdit → WorkspaceEdit
push_document w d = push_edit w d.uri (map annotated_text_edit d.edits)

pub push_documents : WorkspaceEdit → List DocumentEdit → WorkspaceEdit
push_documents w [] = w
push_documents w (d ∷ rest) = push_documents (push_document w d) rest

pub push_operations : WorkspaceEdit → List DocumentChange → WorkspaceEdit
push_operations w [] = w
push_operations w (edit d ∷ rest) = push_operations (push_document w d) rest
push_operations w (op r ∷ rest) =
    push_operations (record w { operations = w.operations ++ resource_operation r ∷ [] }) rest

push_all_changes : WorkspaceEdit → Option (List (String × List LspTextEdit)) → WorkspaceEdit
push_all_changes w none = w
push_all_changes w (some ch) = push_changes w ch

push_document_changes : WorkspaceEdit → Option DocumentChanges → WorkspaceEdit
push_document_changes w none = w
push_document_changes w (some (edits ds)) = push_documents w ds
push_document_changes w (some (operations ops)) = push_operations w ops

unfoldable pub from_lsp_workspace_edit : LspWorkspaceEdit → WorkspaceEdit
unfolding push_all_changes push_document_changes push_changes push_documents push_operations
    push_document push_edit annotated_text_edit resource_operation text_edit
from_lsp_workspace_edit e =
    push_document_changes (push_all_changes empty e.changes) e.document_changes
