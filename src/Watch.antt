-- ===== src/Watch.antt =====
-- src/simplecc/workspace_watcher.rs: how the events of the file system are merged.
pub mod Merged
pub mod Recent
pub mod Spaced
mod Tests
use simplecc.Base.{
  ℕ, ◌+◌, ◌-◌, String, ◌≡◌, Bool, true, false, not, ◌&&◌, ◌||◌, Option, none, some, List, [], ◌∷◌,
  ◌++◌, map, keep, ltb, ◌==◌, nat_key, string_key, if◌then◌else◌,
}
use simplecc.Base.Assoc.{Map, insert, lookup}

abbrev pub created : ℕ
created = 1

abbrev pub changed : ℕ
changed = 2

abbrev pub deleted : ℕ
deleted = 3

pub data RenameMode : Type 0 where
  any both from to other : RenameMode

-- The kinds of an event; `modify` is any modification that is no renaming.
pub data EventKind : Type 0 where
  any_event access create modify remove other_event : EventKind
  rename : RenameMode → EventKind

pub record Event : Type 0 where
  pub kind : EventKind
  pub paths : List String

-- What an entry becomes; a plain change does not hide a creation or a deletion.
abbrev pub merged : ℕ → Option ℕ → ℕ
merged change none = change
merged change (some existing) =
    if not (change == changed) || existing == changed then change else existing

unfoldable pub merge_path : Map String ℕ → String → ℕ → Map String ℕ
merge_path pending path change = insert path (merged change (lookup path pending)) pending

unfoldable pub merge_paths : Map String ℕ → List String → ℕ → Map String ℕ
unfolding merge_path
merge_paths pending [] change = pending
merge_paths pending (p ∷ ps) change = merge_paths (merge_path pending p change) ps change

-- A renaming with both names, if it has two paths.
unfoldable pub merge_rename : Map String ℕ → List String → Map String ℕ
unfolding merge_path merge_paths
merge_rename pending [] = merge_paths pending [] changed
merge_rename pending (p ∷ []) = merge_paths pending (p ∷ []) changed
merge_rename pending (p ∷ q ∷ ps) = merge_path (merge_path pending p deleted) q created

unfoldable pub merge_event : Map String ℕ → Event → Map String ℕ
unfolding merge_paths merge_rename
merge_event pending e = elim e.kind [
  | create ↦ merge_paths pending e.paths created
  | remove ↦ merge_paths pending e.paths deleted
  | rename m ↦ elim m [
    | both ↦ merge_rename pending e.paths
    | from ↦ merge_paths pending e.paths deleted
    | to ↦ merge_paths pending e.paths created
    | any ↦ merge_paths pending e.paths changed
    | other ↦ merge_paths pending e.paths changed
  ]
  | modify ↦ merge_paths pending e.paths changed
  | access ↦ pending
  | other_event ↦ pending
  | any_event ↦ pending
]

unfoldable pub merge_events : Map String ℕ → List Event → Map String ℕ
merge_events pending [] = pending
merge_events pending (e ∷ es) = merge_events (merge_event pending e) es
