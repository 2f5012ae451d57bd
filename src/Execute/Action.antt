-- ===== src/Execute/Action.antt =====
-- src/simplecc/lsp/client.rs: `execute_code_action`.
use simplecc.Base.{ℕ, String, Bool, false, ◌||◌, Option, none, some, List, not, if◌then◌else◌}
use simplecc.Edit.{LspWorkspaceEdit, WorkspaceEdit, from_lsp_workspace_edit}
use simplecc.Cache.{IdentityCache, Lookup, found, refused, matches, item}
use simplecc.Cache.History.{Event, advance}
use simplecc.Execute.{
  Command, Run, Reply, Wire, returned, failed, refused_by_cache, not_running,
  changed_while_resolving, changed_during_execution, stop, send_execution,
}

-- `lsp_types::CodeAction`; its diagnostics and flags are only passed back to the server.
pub record CodeAction : Type 0 where
  pub title : String
  pub kind : Option String
  pub edit : Option LspWorkspaceEdit
  pub command : Option Command

-- `CodeActionOrCommand`.
pub data Action : Type 0 where
  bare : Command → Action
  full : CodeAction → Action

-- As for a lens. `resolved` is `none` when `codeAction/resolve` fails or does not decode.
pub record ActionWorld : Type 0 where
  pub alive_at_start : Bool
  pub resolving : List (Event Action)
  pub resolved : Option CodeAction
  pub alive_resolved : Bool
  pub sending : List (Event Action)
  pub wire : Wire
  pub running : List (Event Action)
  pub alive_after : Bool
  pub reply : Reply

-- The edit and the command of an action: a deferred one is resolved, or kept as it was.
resolve_action :
    CodeAction → Option LspWorkspaceEdit → Option Command → Option CodeAction → CodeAction
resolve_action a none none (some a') = a'
resolve_action a none none none = a
resolve_action a none (some _) resolved = a
resolve_action a (some _) command resolved = a

convert_edit : Option LspWorkspaceEdit → Option WorkspaceEdit
convert_edit none = none
convert_edit (some e) = some (from_lsp_workspace_edit e)

unfoldable pub action_parts : Action → Option CodeAction → Option WorkspaceEdit × Option Command
unfolding resolve_action convert_edit
action_parts (bare cmd) resolved = (none, some cmd)
action_parts (full a) resolved =
    let a' = resolve_action a a.edit a.command resolved in (convert_edit a'.edit, a'.command)

-- What is returned once the command has run: its own edit, or else the edit of its reply.
abbrev pub edit_after : Option WorkspaceEdit → Option LspWorkspaceEdit → Option WorkspaceEdit
edit_after (some e) r = some e
edit_after none none = none
edit_after none (some e) = some (from_lsp_workspace_edit e)

unfoldable pub run_action :
    IdentityCache Action → ℕ → String → Option WorkspaceEdit → Option Command → ActionWorld → Run
unfolding send_execution matches
run_action c g u e none w = record { outcome = returned e; written = none; marked_dead = false }
run_action c g u e (some cmd) w =
    let c' = advance c w.sending in
    send_execution c' g u w.wire cmd w.reply λ r.
      if not w.alive_after || not (matches (advance c' w.running) g u)
      then failed changed_during_execution
      else returned (edit_after e r)

unfoldable pub checked_action :
    IdentityCache Action → ℕ → String → Option WorkspaceEdit → Option Command → ActionWorld → Run
unfolding run_action
checked_action c g u e cmd w =
    let c' = advance c w.resolving in
    if not w.alive_resolved || not (matches c' g u)
    then stop changed_while_resolving
    else run_action c' g u e cmd w

unfoldable pub run_found_action :
    IdentityCache Action → ℕ → String → Lookup Action → ActionWorld → Run
run_found_action c g u (refused e) w = stop (refused_by_cache e)
run_found_action c g u (found a) w =
    let (e, cmd) = action_parts a w.resolved in checked_action c g u e cmd w

unfoldable pub execute_code_action : IdentityCache Action → ℕ → String → ℕ → ActionWorld → Run
execute_code_action c g u i w =
    if not w.alive_at_start then stop not_running else run_found_action c g u (item c g u i) w
