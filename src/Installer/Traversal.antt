-- ===== src/Installer/Traversal.antt =====
-- src/simplecc/installer.rs: what a run keeps while the recovery goes through the directory.
use simplecc.Base.{
  ℕ, zero, suc, ◌≡◌, ◌≢◌, refl, sym, ◌∙◌, subst, Bool, true, false, ◌&&◌, not, Option, none, List,
  [], ◌∷◌, ◌++◌, Result, arith, if◌then◌else◌,
}
use simplecc.Base.Member.{Each, Each-add}
use simplecc.Base.Sort.{Each-sort, sort_by}
use simplecc.Installer.{Name}
use simplecc.Installer.Names.{name_key}
use simplecc.Installer.Disk.{rename, Io, perform, Dir, Outside, is_some, update, exec, run}
use simplecc.Installer.Promote.{
  Sibling, unrelated, alive, stale_tree, stale_backup, judge_labels, labels, by_stamp, remove_all,
  treat, collect, settle,
}
use simplecc.Installer.Calls.{remove-other, tree-ne, backup-ne}

module _ {T A : Type 0} (o : Outside T) (S : Option A × Dir T → Type 0) where
  -- The state after a test that a call has made.
  pub by_test :
      (n : ℕ) (b : Bool) (x dir : Dir T) (k : Bool → Io A)
      → (b ≡ false → S (run o n dir (k false)))
      → (b ≡ true → S (run o n x (k true)))
      → S (run o n (if b then x else dir) (k b))
  by_test n true x dir k fails moves = moves refl
  by_test n false x dir k fails moves = fails refl

  -- A renaming happens, or changes nothing.
  pub after-rename :
      (n : ℕ) (dir : Dir T) (a b : Name) (k : Bool → Io A)
      → S (none, dir)
      → ((m : ℕ) → S (run o m dir (k false)))
      → ((m : ℕ)
          → (is_some (dir a) && not (is_some (dir b))) ≡ true
          → S (run o m (update a none (update b (dir a) dir)) (k true)))
      → S (run o n dir (perform (rename a b) k))
  unfolding run exec
  after-rename zero dir a b k now fails moves = now
  after-rename (suc n) dir a b k now fails moves =
      by_test n _ (update a none (update b (dir a) dir)) dir k (λ e. fails n)
        (λ e. moves n (ground (arith, e)))

  module _ (destination : Name) (v : Option T)
      (inj : (d : Dir T) → d destination ≡ v → S (none, d)) where
    abbrev pub Good : Io A → Type 0
    Good k = (n : ℕ) (d : Dir T) → d destination ≡ v → S (run o n d k)

    pub remove_all-Good :
        (rest : List (ℕ × Name)) (k : Io A)
        → Each (λ e. e.1 ≢ destination) rest
        → Good k
        → Good (remove_all rest k)
    unfolding run remove_all
    remove_all-Good [] k others good n d at = good n d at
    remove_all-Good ((stamp, path) ∷ rest) k others good zero d at = inj d at
    remove_all-Good ((stamp, path) ∷ rest) k (other, others) good (suc n) d at =
        remove_all-Good rest k others good n _ (remove-other o n d path destination other ∙ at)

    module _ (stale : ℕ → Bool) (k : Result (Unit {0}) → Io A) where
      treat-Good :
          (s : Sibling) (path : Name) (backups : List (ℕ × Name)) (next : List (ℕ × Name) → Io A)
          → judge_labels stale destination path labels ≡ s
          → Each (λ e. e.1 ≢ destination) backups
          → ((bs : List (ℕ × Name)) → Each (λ e. e.1 ≢ destination) bs → Good (next bs))
          → Good (treat stale destination k s path backups next)
      unfolding run
      treat-Good unrelated path backups next e others good n d at = good backups others n d at
      treat-Good alive path backups next e others good n d at = good backups others n d at
      treat-Good stale_tree path backups next e others good zero d at = inj d at
      treat-Good stale_tree path backups next e others good (suc n) d at =
          good backups others n _
            (remove-other o n d path destination (tree-ne stale destination path e) ∙ at)
      treat-Good (stale_backup stamp) path backups next e others good n d at =
          good (backups ++ ((stamp, path) ∷ []))
            (Each-add (λ e. e.1 ≢ destination) backups (stamp, path) others
              (backup-ne stale destination path stamp e))
            n d at

      -- Below, `good` is about what follows the search, with the backups sorted.
      pub collect-Good :
          (paths : List Name) (backups : List (ℕ × Name))
          → Each (λ e. e.1 ≢ destination) backups
          → ((bs : List (ℕ × Name))
              → Each (λ e. e.1 ≢ destination) bs
              → Good (settle stale destination k bs (is_some v)))
          → Good (collect stale destination k paths backups)
      unfolding run exec collect
      collect-Good [] backups others good zero d at = inj d at
      collect-Good [] backups others good (suc n) d at =
          subst
            (λ w. S (run o n d (settle stale destination k (sort_by by_stamp backups) (is_some w))))
            (sym at) (good _ (Each-sort by_stamp (λ e. e.1 ≢ destination) backups others) n d at)
      collect-Good (path ∷ paths) backups others good n d at =
          treat-Good _ path backups (collect stale destination k paths) refl others
            (λ bs h. collect-Good paths bs h good) n d at
