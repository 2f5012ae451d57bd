-- ===== src/Installer/Promote.antt =====
-- src/simplecc/installer.rs: promote_installation_sync, recover_stale_install_siblings and do_install,
-- as the calls that they make of the file system.
use simplecc.Base.{
  ℕ, ◌^◌, String, Bool, true, false, Option, none, some, List, [], ◌∷◌, ◌++◌, Result, ok, err, ltb,
  leb, ◌==◌, nat_key, if◌then◌else◌,
}
use simplecc.Base.Sort.{sort_by}
use simplecc.Installer.{
  Name, installing, abandoned, backup, unique_sibling_path, hidden_sibling_owner,
}
use simplecc.Installer.Names.{name_key}
use simplecc.Installer.Disk.{
  symlink_metadata, rename, remove_path, read_dir, create_dir, build, Listing, entries, not_found,
  unreadable, Built, succeeded, failed, Io, done, perform,
}

module _ {A : Type 0} where
  -- The renaming of the staged tree, and the restoration of the old one.
  abbrev pub restored : (Result (Option Name) → Io A) → Bool → Io A
  restored k true = k (err "failed to activate managed installation")
  restored k false =
      k (err "failed to activate managed installation; also failed to restore the previous one")

  abbrev pub activated : Name → Name → Bool → (Result (Option Name) → Io A) → Bool → Io A
  activated old destination had k true = k (ok (if had then some old else none))
  activated old destination true k false = perform (rename old destination) (restored k)
  activated old destination false k false = k (err "failed to activate managed installation")

  abbrev pub staged_old : Name → Name → Name → (Result (Option Name) → Io A) → Bool → Io A
  staged_old staged old destination k true =
      perform (rename staged destination) (activated old destination true k)
  staged_old staged old destination k false =
      k (err "failed to stage the previous managed installation")

  abbrev pub had_destination : Name → Name → Name → (Result (Option Name) → Io A) → Bool → Io A
  had_destination staged old destination k true =
      perform (rename destination old) (staged_old staged old destination k)
  had_destination staged old destination k false =
      perform (rename staged destination) (activated old destination false k)

  -- `old` is the name of the backup that is made.
  unfoldable pub promote_installation_sync :
      Name → Name → Name → (Result (Option Name) → Io A) → Io A
  promote_installation_sync staged old destination k =
      perform (symlink_metadata destination) (had_destination staged old destination k)

  unfoldable pub remove_all : List (ℕ × Name) → Io A → Io A
  remove_all [] k = k
  remove_all ((stamp, path) ∷ rest) k = perform (remove_path path) (λ removed. remove_all rest k)

-- `gone` says of which processes `kill` reports that there are none.
unfoldable pub owner_is_stale : ℕ → (ℕ → Bool) → ℕ → Bool
owner_is_stale own gone pid =
    if pid == own then true else if ltb pid (2 ^ 31) then gone pid else false

-- What an entry of the directory is.
pub data Sibling : Type 0 where
  unrelated alive stale_tree : Sibling
  stale_backup : ℕ → Sibling

-- `later` is what the labels after this one say.
abbrev pub judge : (ℕ → Bool) → Name → Option (ℕ × ℕ) → Sibling → Sibling
judge stale label none later = later
judge stale label (some (pid, stamp)) later =
    if stale pid then if label == backup then stale_backup stamp else stale_tree else alive

unfoldable pub judge_labels : (ℕ → Bool) → Name → Name → List Name → Sibling
judge_labels stale destination path [] = unrelated
judge_labels stale destination path (label ∷ labels) =
    judge stale label (hidden_sibling_owner path destination label)
      (judge_labels stale destination path labels)

abbrev pub labels : List Name
labels = installing ∷ abandoned ∷ backup ∷ []

-- The last entry, and those before it.
unfoldable pub pop_from {ℓ} : {B : Type ℓ} → B → List B → List B × B
pop_from x [] = ([], x)
pop_from x (y ∷ ys) = let (before, last) = pop_from y ys in (x ∷ before, last)

abbrev pub pop {ℓ} : {B : Type ℓ} → List B → Option (List B × B)
pop [] = none
pop (x ∷ xs) = some (pop_from x xs)

abbrev pub by_stamp : ℕ × Name → ℕ × Name → Bool
by_stamp a b = leb a.0 b.0

module _ {A : Type 0} (stale : ℕ → Bool) (destination : Name) (k : Result (Unit {0}) → Io A) where
  abbrev pub renamed_back : List (ℕ × Name) → Bool → Io A
  renamed_back rest true = remove_all rest (k (ok tt))
  renamed_back rest false = k (err "failed to restore interrupted managed installation")

  abbrev pub restore : Option (List (ℕ × Name) × (ℕ × Name)) → Io A
  restore none = k (ok tt)
  restore (some (rest, newest)) = perform (rename newest.1 destination) (renamed_back rest)

  abbrev pub settle : List (ℕ × Name) → Bool → Io A
  settle backups true = remove_all backups (k (ok tt))
  settle backups false = restore (pop backups)

  abbrev pub sort_backups : List (ℕ × Name) → Io A
  sort_backups backups = perform (symlink_metadata destination) (settle (sort_by by_stamp backups))

  abbrev pub treat : Sibling → Name → List (ℕ × Name) → (List (ℕ × Name) → Io A) → Io A
  treat unrelated path backups next = next backups
  treat alive path backups next = next backups
  treat stale_tree path backups next = perform (remove_path path) (λ removed. next backups)
  treat (stale_backup stamp) path backups next = next (backups ++ ((stamp, path) ∷ []))

  unfoldable pub collect : List Name → List (ℕ × Name) → Io A
  unfolding judge_labels
  collect [] backups = sort_backups backups
  collect (path ∷ paths) backups =
      treat (judge_labels stale destination path labels) path backups (collect paths)

  abbrev pub listed : Listing → Io A
  listed (entries paths) = collect paths []
  listed not_found = k (ok tt)
  listed unreadable = k (err "could not inspect installation siblings")

  unfoldable pub recover_stale_install_siblings : Io A
  recover_stale_install_siblings = perform read_dir listed

-- StagingGuard::cleanup: only where no process may still write there.
abbrev pub cleanup : Name → Bool → String → Io (Result (Unit {0}))
cleanup staging true e = done (err e)
cleanup staging false e = perform (remove_path staging) (λ removed. done (err e))

abbrev pub promoted : Name → Result (Option Name) → Io (Result (Unit {0}))
promoted staging (err e) = cleanup staging false e
promoted staging (ok none) = done (ok tt)
promoted staging (ok (some old)) = perform (remove_path old) (λ removed. done (ok tt))

module _ (staging old destination : Name) where
  abbrev pub after_build : Built → Io (Result (Unit {0}))
  after_build succeeded = promote_installation_sync staging old destination (promoted staging)
  after_build (failed deferred) = cleanup staging deferred "the installation failed"

  abbrev pub after_create : Bool → Io (Result (Unit {0}))
  after_create true = perform (build staging) after_build
  after_create false = done (err "failed to create installation staging directory")

  abbrev pub after_recovery : Result (Unit {0}) → Io (Result (Unit {0}))
  after_recovery (err e) = done (err e)
  after_recovery (ok u) = perform (create_dir staging) after_create

  -- The process `own` takes the two names at the times `staged_at` and `backed_up_at`.
  unfoldable pub install_managed : (ℕ → Bool) → Io (Result (Unit {0}))
  unfolding recover_stale_install_siblings promote_installation_sync
  install_managed stale = recover_stale_install_siblings stale destination after_recovery

unfoldable pub do_install : ℕ → (ℕ → Bool) → Name → ℕ → ℕ → Io (Result (Unit {0}))
unfolding install_managed owner_is_stale
do_install own gone destination staged_at backed_up_at =
    install_managed (unique_sibling_path destination installing own staged_at)
      (unique_sibling_path destination backup own backed_up_at) destination
      (owner_is_stale own gone)
