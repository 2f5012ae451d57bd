-- ===== src/Installer/Disk.antt =====
-- src/simplecc/installer.rs: the file system as the installer calls it, in one directory. A program
-- is the tree of its calls, and the process may die after any of them.
use simplecc.Base.{
  ℕ, zero, suc, Bool, true, false, not, ◌&&◌, ◌||◌, Option, none, some, List, ◌==◌, if◌then◌else◌,
}
use simplecc.Installer.{Name}
use simplecc.Installer.Names.{name_key}

-- `build` is a download or an installer command with the search for its binary; `create_dir` makes
-- an empty directory.
pub data Op : Type 0 where
  symlink_metadata : Name → Op
  rename : Name → Name → Op
  remove_path : Name → Op
  read_dir : Op
  create_dir : Name → Op
  build : Name → Op

pub data Listing : Type 0 where
  entries : List Name → Listing
  not_found : Listing
  unreadable : Listing

-- Whether the build has succeeded, and whether a failure leaves a process that may still write.
pub data Built : Type 0 where
  succeeded : Built
  failed : Bool → Built

abbrev pub Answer : Op → Type 0
Answer (symlink_metadata a) = Bool
Answer (rename a b) = Bool
Answer (remove_path a) = Bool
Answer read_dir = Listing
Answer (create_dir a) = Bool
Answer (build a) = Built

pub data Io (A : Type 0) : Type 0 where
  done : A → Io A
  perform : (op : Op) → (Answer op → Io A) → Io A

-- `T` is what an entry of the directory holds.
abbrev pub Dir : Type 0 → Type 0
Dir T = Name → Option T

-- What the system does, by the number of calls that are left until the process dies: whether a
-- renaming or a creation succeeds where it can, what is left of a tree that is being removed, the
-- listing, and the outcome of a build.
pub record Outside (T : Type 0) : Type 0 where
  pub allows : ℕ → Bool
  pub left : ℕ → Option T
  pub listing : ℕ → Listing
  pub built : ℕ → Built × T
  pub empty : T

abbrev pub is_some {ℓ} : {A : Type ℓ} → Option A → Bool
is_some none = false
is_some (some a) = true

module _ {T : Type 0} where
  abbrev pub update : Name → Option T → Dir T → Dir T
  update a v dir b = if a == b then v else dir b

  -- A directory that is not empty is not replaced by a renaming.
  unfoldable pub exec : Outside T → ℕ → Dir T → (op : Op) → Answer op × Dir T
  exec o n dir (symlink_metadata a) = (is_some (dir a), dir)
  exec o n dir (rename a b) =
      let ok = o.allows n && (is_some (dir a) && not (is_some (dir b))) in
      (ok, if ok then update a none (update b (dir a) dir) else dir)
  exec o n dir (remove_path a) = (
    not (is_some (dir a)) || not (is_some (o.left n)),
    if is_some (dir a) then update a (o.left n) dir else dir,
  )
  exec o n dir read_dir = (o.listing n, dir)
  exec o n dir (create_dir a) =
      let ok = o.allows n && not (is_some (dir a)) in
      (ok, if ok then update a (some o.empty) dir else dir)
  exec o n dir (build a) = ((o.built n).0, update a (some (o.built n).1) dir)

  -- None where the process has died.
  unfoldable pub run : {A : Type 0} → Outside T → ℕ → Dir T → Io A → Option A × Dir T
  unfolding exec
  run o n dir (done a) = (some a, dir)
  run o zero dir (perform op k) = (none, dir)
  run o (suc n) dir (perform op k) = let (answer, dir') = exec o n dir op in run o n dir' (k answer)
