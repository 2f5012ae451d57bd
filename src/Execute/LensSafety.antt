-- ===== src/Execute/LensSafety.antt =====
-- src/simplecc/lsp/client.rs: a code lens runs only while the reply that offered it is current.
use simplecc.Base.{
  List, ◌∷◌, ◌++◌, Option-cases, ap, inl, inr, ℕ, String, ◌≡◌, ◌↔◌, ◌≤◌, refl, sym, subst, true,
  Option, none, some, arith,
}
use simplecc.Cache.{IdentityCache, Lookup, found, refused, matches, item}
use simplecc.Cache.History.{Event, advance}
use simplecc.Cache.Retired.{Closes, closed_forever, advance-append}
use simplecc.Execute.{Command, Reply, Wire, Outcome, send_execution}
use simplecc.Edit.{LspWorkspaceEdit}
use simplecc.Execute.Lens.{
  CodeLens, LensWorld, execute_code_lens, run_lens, resolve_lens, run_found, chosen_lens,
}

-- The test under the lock of the write.
abbrev pub Sends {ℓ} : {A : Type ℓ} → IdentityCache A → ℕ → String → Wire → Type 0
Sends c g u w = (matches c g u ≡ true) × (w.alive ≡ true) × (w.accepts ≡ true)

pub send_execution-writes {ℓ} :
    {A : Type ℓ} (c : IdentityCache A) (g : ℕ) (u : String) (w : Wire) (cmd : Command) (r : Reply)
    (k : Option LspWorkspaceEdit → Outcome) (run : Command)
    → ((send_execution c g u w cmd r k).written ≡ some run) ↔ ((cmd ≡ run) × Sends c g u w)
unfolding send_execution
send_execution-writes c g u w cmd r k run = (λ e. ground arith, λ (h, s). ground arith)

-- The two looks at the cache after the item was read, and the state of the transport.
abbrev pub LensHolds : IdentityCache CodeLens → ℕ → String → LensWorld → Type 0
LensHolds c g u w =
    (matches (advance c w.resolving) g u ≡ true)
    × Sends (advance (advance c w.resolving) w.sending) g u w.wire

run_lens-writes :
    (c : IdentityCache CodeLens) (g : ℕ) (u : String) (lens : CodeLens) (w : LensWorld)
    (cmd : Command)
    → ((run_lens c g u lens w).written ≡ some cmd) ↔ ((lens.command ≡ some cmd) × LensHolds c g u w)
unfolding run_lens send_execution
run_lens-writes c g u lens w cmd = (λ e. ground arith, λ (h, s). ground arith)

resolve_lens-writes :
    (c : IdentityCache CodeLens) (g : ℕ) (u : String) (lens : CodeLens) (o : Option Command)
    (r : Option CodeLens) (w : LensWorld) (cmd : Command)
    → ((resolve_lens c g u lens o r w).written ≡ some cmd) ↔ (
        (ran : CodeLens) × (chosen_lens lens o r ≡ some ran)
        × (ran.command ≡ some cmd)
        × LensHolds c g u w)
unfolding resolve_lens
resolve_lens-writes c g u lens (some old) r w cmd = (
  λ e. let p = (run_lens-writes c g u lens w cmd).0 e in (lens, refl, p.0, p.1),
  λ p. (run_lens-writes c g u lens w cmd).1 (cc (p.1, p.2), p.3),
)
resolve_lens-writes c g u lens none none w cmd = (λ e. cc, λ p. cc (p.1))
resolve_lens-writes c g u lens none (some r) w cmd = (
  λ e. let p = (run_lens-writes c g u r w cmd).0 e in (r, refl, p.0, p.1),
  λ p. (run_lens-writes c g u r w cmd).1 (cc (p.1, p.2), p.3),
)

-- What a found item must satisfy for its command to be written.
abbrev pub LensRuns :
    IdentityCache CodeLens → ℕ → String → Lookup CodeLens → LensWorld → Command → Type 0
LensRuns c g u l w cmd =
    (lens : CodeLens) × (ran : CodeLens) × (l ≡ found lens)
    × (chosen_lens lens lens.command w.resolved ≡ some ran)
    × (ran.command ≡ some cmd)
    × LensHolds c g u w

run_found-writes :
    (c : IdentityCache CodeLens) (g : ℕ) (u : String) (l : Lookup CodeLens) (w : LensWorld)
    (cmd : Command)
    → ((run_found c g u l w).written ≡ some cmd) ↔ LensRuns c g u l w cmd
unfolding run_found
run_found-writes c g u (refused e) w cmd = (λ e. cc, λ p. cc (p.2))
run_found-writes c g u (found lens) w cmd = (
  λ e.
      let p = (resolve_lens-writes c g u lens lens.command w.resolved w cmd).0 e in
      (lens, p.0, refl, p.1, p.2, p.3),
  λ p.
      let same : lens ≡ p.0 = cc (p.2) in
      (resolve_lens-writes c g u lens lens.command w.resolved w cmd).1
        (p.1, subst (λ l. chosen_lens l l.command w.resolved ≡ some p.1) (sym same) p.3, p.4, p.5),
)

-- A code lens writes a command exactly if its identity and index were found, the lens or its
-- resolution has that command, the identity still held after resolving and again under the lock
-- of the write, and the transport was alive and took it.
pub lens_writes :
    (c : IdentityCache CodeLens) (g : ℕ) (u : String) (i : ℕ) (w : LensWorld) (cmd : Command)
    → ((execute_code_lens c g u i w).written ≡ some cmd) ↔ LensRuns c g u (item c g u i) w cmd
unfolding execute_code_lens
lens_writes c g u i w cmd = run_found-writes c g u (item c g u i) w cmd

pub item-matches {ℓ} :
    {A : Type ℓ} (c : IdentityCache A) (g : ℕ) (u : String) (i : ℕ) {a : A}
    → item c g u i ≡ found a
    → g ≤ c.generation
unfolding item
item-matches c g u i h = ground arith

-- No write can follow once an event between the look-up and the write closed the identity.
pub still_open-closed :
    {A : Type 0} (c : IdentityCache A) (g : ℕ) (u : String) (newer : List (Event A)) (e : Event A)
    (older sending resolving : List (Event A))
    → sending ++ resolving ≡ newer ++ e ∷ older
    → Closes u e
    → g ≤ c.generation
    → ¬ (matches (advance (advance c resolving) sending) g u ≡ true)
still_open-closed c g u newer e older sending resolving split h old m =
    let gone = closed_forever c g u newer e older old h in
    cc (m, gone, advance-append c sending resolving, ap (advance c) split)

-- Whatever closes the document's identity between the look-up and the write, no command is written.
lens_closed :
    (c : IdentityCache CodeLens) (g : ℕ) (u : String) (i : ℕ) (w : LensWorld)
    (newer : List (Event CodeLens)) (e : Event CodeLens) (older : List (Event CodeLens))
    → w.sending ++ w.resolving ≡ newer ++ e ∷ older
    → Closes u e
    → (execute_code_lens c g u i w).written ≡ none
lens_closed c g u i w newer e older split h =
    elim (Option-cases (execute_code_lens c g u i w).written) [
      | inl quiet ↦ quiet
      | inr (cmd, ran) ↦
          let p = (lens_writes c g u i w cmd).0 ran in
          absurd (
            still_open-closed c g u newer e older w.sending w.resolving split h
              (item-matches c g u i p.2) p.5.1.0)
    ]
