-- ===== src/Execute/Lens.antt =====
-- src/simplecc/lsp/client.rs: `execute_code_lens`.
use simplecc.Base.{ℕ, String, Bool, Option, none, some, List, not, if◌then◌else◌}
use simplecc.Json.{Json}
use simplecc.Edit.{Range, LspWorkspaceEdit, from_lsp_workspace_edit}
use simplecc.Cache.{IdentityCache, Lookup, found, refused, matches, item}
use simplecc.Cache.History.{Event, advance}
use simplecc.Execute.{
  Command, Outcome, Run, Reply, Wire, returned, refused_by_cache, resolve_failed,
  changed_while_resolving, stop, send_execution,
}

-- `lsp_types::CodeLens`.
pub record CodeLens : Type 0 where
  pub range : Range
  pub command : Option Command
  pub payload : Option Json

-- `resolved` is what `codeLens/resolve` decodes to; `none` is a failure of the request or of the
-- decoding. `resolving` and `sending` are the events before the two later looks at the cache.
pub record LensWorld : Type 0 where
  pub resolving : List (Event CodeLens)
  pub resolved : Option CodeLens
  pub sending : List (Event CodeLens)
  pub wire : Wire
  pub reply : Reply

abbrev pub run_command_edit : Option LspWorkspaceEdit → Outcome
run_command_edit none = returned none
run_command_edit (some e) = returned (some (from_lsp_workspace_edit e))

unfoldable pub run_lens : IdentityCache CodeLens → ℕ → String → CodeLens → LensWorld → Run
unfolding matches send_execution
run_lens c g u lens w =
    let c' = advance c w.resolving in
    if not (matches c' g u) then stop changed_while_resolving else elim lens.command [
      | none ↦ record { outcome = returned none; written = none; marked_dead = Bool.false }
      | some cmd ↦ send_execution (advance c' w.sending) g u w.wire cmd w.reply run_command_edit
    ]

unfoldable pub resolve_lens :
    IdentityCache CodeLens
    → ℕ
    → String
    → CodeLens
    → Option Command
    → Option CodeLens
    → LensWorld
    → Run
resolve_lens c g u lens (some cmd) resolved w = run_lens c g u lens w
resolve_lens c g u lens none none w = stop resolve_failed
resolve_lens c g u lens none (some lens') w = run_lens c g u lens' w

unfoldable pub run_found : IdentityCache CodeLens → ℕ → String → Lookup CodeLens → LensWorld → Run
run_found c g u (refused e) w = stop (refused_by_cache e)
run_found c g u (found lens) w = resolve_lens c g u lens lens.command w.resolved w

unfoldable pub execute_code_lens : IdentityCache CodeLens → ℕ → String → ℕ → LensWorld → Run
execute_code_lens c g u i w = run_found c g u (item c g u i) w

-- The lens whose command may run: the one in the reply, or what the server resolved it to.
abbrev pub chosen_lens : CodeLens → Option Command → Option CodeLens → Option CodeLens
chosen_lens lens (some cmd) resolved = some lens
chosen_lens lens none resolved = resolved
