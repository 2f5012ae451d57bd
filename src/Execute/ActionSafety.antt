-- ===== src/Execute/ActionSafety.antt =====
-- src/simplecc/lsp/client.rs: a code action runs only while the reply that offered it is current.
use simplecc.Base.{
  List, ◌∷◌, ◌++◌, Option-cases, ℕ, String, ◌≡◌, ◌↔◌, ◌⊎◌, inl, inr, refl, sym, subst, Bool, true,
  false, not, if◌then◌else◌, Option, none, some, arith,
}
use simplecc.Edit.{WorkspaceEdit, LspWorkspaceEdit}
use simplecc.Cache.{IdentityCache, Lookup, found, refused, matches, item}
use simplecc.Cache.History.{Event, advance}
use simplecc.Cache.Retired.{Closes}
use simplecc.Execute.{Command, Run, Reply, returned, replied, no_reply, stop, not_running}
use simplecc.Execute.LensSafety.{Sends, still_open-closed, item-matches}
use simplecc.Execute.Action.{
  Action, ActionWorld, action_parts, edit_after, checked_action, run_found_action,
  execute_code_action,
}

abbrev pub ActionHolds : IdentityCache Action → ℕ → String → ActionWorld → Type 0
ActionHolds c g u w =
    (w.alive_resolved ≡ true)
    × (matches (advance c w.resolving) g u ≡ true)
    × Sends (advance (advance c w.resolving) w.sending) g u w.wire

checked_action-writes :
    (c : IdentityCache Action) (g : ℕ) (u : String) (e : Option WorkspaceEdit) (o : Option Command)
    (w : ActionWorld) (cmd : Command)
    → ((checked_action c g u e o w).written ≡ some cmd) ↔ ((o ≡ some cmd) × ActionHolds c g u w)
unfolding checked_action
checked_action-writes c g u e none w cmd = (λ h. ground arith, λ p. cc (p.0))
checked_action-writes c g u e (some o) w cmd = (λ h. ground arith, λ (p, q). ground arith)

abbrev pub ActionRuns :
    IdentityCache Action → ℕ → String → Lookup Action → ActionWorld → Command → Type 0
ActionRuns c g u l w cmd =
    (a : Action) × (l ≡ found a) × ((action_parts a w.resolved).1 ≡ some cmd) × ActionHolds c g u w

run_found_action-writes :
    (c : IdentityCache Action) (g : ℕ) (u : String) (l : Lookup Action) (w : ActionWorld)
    (cmd : Command)
    → ((run_found_action c g u l w).written ≡ some cmd) ↔ ActionRuns c g u l w cmd
unfolding run_found_action
run_found_action-writes c g u (refused e) w cmd = (λ e. cc, λ p. cc (p.1))
run_found_action-writes c g u (found a) w cmd =
    let (e, o) = action_parts a w.resolved in
    (
      λ h. let p = (checked_action-writes c g u e o w cmd).0 h in (a, refl, p.0, p.1),
      λ p.
          let same : a ≡ p.0 = cc (p.1) in
          (checked_action-writes c g u e o w cmd).1
            (subst (λ b. (action_parts b w.resolved).1 ≡ some cmd) (sym same) p.2, p.3),
    )

guarded :
    {P : Type 0} (alive : Bool) (r : Run) (cmd : Command)
    → ((r.written ≡ some cmd) ↔ P)
    → ((if not alive then stop not_running else r).written ≡ some cmd) ↔ ((alive ≡ true) × P)
guarded true r cmd h = (λ e. (refl, h.0 e), λ p. h.1 p.1)
guarded false r cmd h = (λ e. cc, λ p. cc (p.0))

pub action_writes :
    (c : IdentityCache Action) (g : ℕ) (u : String) (i : ℕ) (w : ActionWorld) (cmd : Command)
    → ((execute_code_action c g u i w).written ≡ some cmd)
      ↔ ((w.alive_at_start ≡ true) × ActionRuns c g u (item c g u i) w cmd)
unfolding execute_code_action
action_writes c g u i w cmd =
    guarded w.alive_at_start _ cmd (run_found_action-writes c g u (item c g u i) w cmd)

-- What `execute_code_action` may return: an action without a command gives its own edit; one with
-- a command has written it, the identity still holds after it ran, and the reply may fill in for a
-- missing edit.
abbrev pub ActionReturns :
    IdentityCache Action
    → ℕ
    → String
    → Lookup Action
    → ActionWorld
    → Option Command
    → Option WorkspaceEdit
    → Type 0
ActionReturns c g u l w sent e =
    (a : Action) × (l ≡ found a)
    × (w.alive_resolved ≡ true)
    × (matches (advance c w.resolving) g u ≡ true)
    × ((((action_parts a w.resolved).1 ≡ none)
          × (sent ≡ none)
          × (e ≡ (action_parts a w.resolved).0))
        ⊎ ((cmd : Command) × (r : Option LspWorkspaceEdit) × ((action_parts a w.resolved).1
              ≡ some cmd)
            × (sent ≡ some cmd)
            × (w.reply ≡ replied r)
            × (w.alive_after ≡ true)
            × (matches (advance (advance (advance c w.resolving) w.sending) w.running) g u ≡ true)
            × (e ≡ edit_after (action_parts a w.resolved).0 r)))

checked_action-returns :
    (c : IdentityCache Action) (g : ℕ) (u : String) (own : Option WorkspaceEdit)
    (o : Option Command) (w : ActionWorld) (reply : Reply) (e : Option WorkspaceEdit)
    → w.reply ≡ reply
    → (checked_action c g u own o w).outcome ≡ returned e
    → (w.alive_resolved ≡ true)
      × (matches (advance c w.resolving) g u ≡ true)
      × (((o ≡ none) × ((checked_action c g u own o w).written ≡ none) × (e ≡ own))
          ⊎ ((cmd : Command) × (r : Option LspWorkspaceEdit) × (o ≡ some cmd)
              × ((checked_action c g u own o w).written ≡ some cmd)
              × (reply ≡ replied r)
              × (w.alive_after ≡ true)
              × (matches (advance (advance (advance c w.resolving) w.sending) w.running) g u ≡ true)
              × (e ≡ edit_after own r)))
unfolding checked_action
checked_action-returns c g u own none w reply e same h =
    (ground arith, ground arith, inl (refl, ground arith, ground arith))
checked_action-returns c g u own (some o) w no_reply e same h = absurd (ground arith)
checked_action-returns c g u own (some o) w (replied r) e same h = (
  ground arith,
  ground arith,
  inr (o, r, refl, ground arith, refl, ground arith, ground arith, ground arith),
)

run_found_action-returns :
    (c : IdentityCache Action) (g : ℕ) (u : String) (l : Lookup Action) (w : ActionWorld)
    (e : Option WorkspaceEdit)
    → (run_found_action c g u l w).outcome ≡ returned e
    → ActionReturns c g u l w (run_found_action c g u l w).written e
unfolding run_found_action
run_found_action-returns c g u (refused f) w e h = absurd (ground arith)
run_found_action-returns c g u (found a) w e h =
    let (own, o) = action_parts a w.resolved in
    let (alive, held, rest) = checked_action-returns c g u own o w w.reply e refl h in
    (a, refl, alive, held, rest)

-- A code action returns an edit only if its identity still holds at the last look: after resolving
-- when it has no command, and after the command ran, on a live client, when it has one. The edit is
-- its own; only where it has none may the reply of the command supply it.
pub action_returns :
    (c : IdentityCache Action) (g : ℕ) (u : String) (i : ℕ) (w : ActionWorld)
    (e : Option WorkspaceEdit)
    → (execute_code_action c g u i w).outcome ≡ returned e
    → ActionReturns c g u (item c g u i) w (execute_code_action c g u i w).written e
unfolding execute_code_action
action_returns c g u i w e = started w.alive_at_start
  where
    started :
        (b : Bool)
        → (if not b then stop not_running else run_found_action c g u (item c g u i) w).outcome
          ≡ returned e
        → ActionReturns c g u
            (item c g u i)
            w
            (if not b then stop not_running else run_found_action c g u (item c g u i) w).written
            e
    started true h = run_found_action-returns c g u (item c g u i) w e h
    started false h = absurd (ground arith)

-- Whatever closes the document's identity between the look-up and the write, no command is written.
action_closed :
    (c : IdentityCache Action) (g : ℕ) (u : String) (i : ℕ) (w : ActionWorld)
    (newer : List (Event Action)) (e : Event Action) (older : List (Event Action))
    → w.sending ++ w.resolving ≡ newer ++ e ∷ older
    → Closes u e
    → (execute_code_action c g u i w).written ≡ none
action_closed c g u i w newer e older split h =
    elim (Option-cases (execute_code_action c g u i w).written) [
      | inl quiet ↦ quiet
      | inr (cmd, ran) ↦
          let p = (action_writes c g u i w cmd).0 ran in
          absurd (
            still_open-closed c g u newer e older w.sending w.resolving split h
              (item-matches c g u i p.1.1) p.1.3.2.0)
    ]
