-- ===== src/Completion/Trigger.antt =====
-- src/simplecc/lsp/client.rs: the context of a completion request is one that the server allows.
use simplecc.Base.{
  ℕ, ◌≤◌, ◌≡◌, refl, String, true, false, Option, none, some, List, arith, ◌==◌, nat_key,
  string_key, if◌then◌else◌, Bool-cases, inl, inr,
}
use simplecc.Config.{contains}
use simplecc.Completion.{clamp, drop_empty, advertised, trigger_context}

-- One of the three kinds; a character goes with the second kind only, and only one that the server
-- advertised.
abbrev pub IsAllowed : Option (List String) → ℕ × Option String → Type 0
IsAllowed characters (kind, none) = (1 ≤ kind) × ((kind ≤ 3) × ((kind == 2) ≡ false))
IsAllowed characters (kind, some t) =
    (kind ≡ 2)
    × ((t == "") ≡ false)
    × ((cs : List String) × ((characters ≡ some cs) × (contains t cs ≡ true)))

supported-IsAllowed :
    (character : Option String) (characters : Option (List String))
    → IsAllowed characters (
        if advertised (drop_empty character) characters
        then (2, drop_empty character)
        else (3, none))
supported-IsAllowed none characters = (ground arith, (ground arith, refl))
supported-IsAllowed (some t) none = elim (Bool-cases (t == "")) [
  | inl empty ↦ rw empty (ground arith, (ground arith, refl))
  | inr filled ↦ rw filled (ground arith, (ground arith, refl))
]
supported-IsAllowed (some t) (some cs) = elim (Bool-cases (t == "")) [
  | inl empty ↦ rw empty (ground arith, (ground arith, refl))
  | inr filled ↦ rw filled (elim (Bool-cases (contains t cs)) [
    | inl known ↦ rw known (refl, filled, (cs, (refl, known)))
    | inr unknown ↦ rw unknown (ground arith, (ground arith, refl))
  ])
]

-- Whatever the editor asks for, the context of a completion request has one of the three kinds; it
-- names a character exactly when the kind is that of a trigger character, and then one that is not
-- empty and that the server advertised.
pub trigger_context-IsAllowed :
    (kind : ℕ) (character : Option String) (characters : Option (List String))
    → IsAllowed characters (trigger_context kind character characters)
unfolding trigger_context
trigger_context-IsAllowed kind character characters = elim (Bool-cases (clamp 1 3 kind == 2)) [
  | inl typed ↦ rw typed (supported-IsAllowed character characters)
  | inr other ↦ rw other (ground arith, (ground arith, other))
]
