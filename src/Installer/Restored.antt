-- ===== src/Installer/Restored.antt =====
-- src/simplecc/installer.rs: an installation that was interrupted and then recovered.
use simplecc.Base.{
  ℕ, zero, suc, ◌^◌, ◌<◌, ◌≡◌, ◌≢◌, ◌⊎◌, inl, inr, refl, ap, sym, ◌∙◌, subst, ap₂, Bool, true, none,
  some, List, [], ◌∷◌, ◌++◌, Result,
}
use simplecc.Installer.{Name, backup, unique_sibling_path, hidden_sibling_owner}
use simplecc.Installer.Disk.{remove_path, entries, Io, done, Dir, Outside, exec, run}
use simplecc.Installer.Promote.{
  Sibling, unrelated, alive, stale_tree, stale_backup, judge_labels, labels, owner_is_stale, treat,
  collect, listed, recover_stale_install_siblings, do_install,
}
use simplecc.Base.Member.{Has, Has-add, Has-last, Each, Each-add}
use simplecc.Installer.Calls.{remove-other, tree-ne, backup-ne}
use simplecc.Installer.Newest.{judge-owner, judge-backup}
use simplecc.Installer.Safe.{IsSafe, sibling-ne, do_install-IsSafe}
use simplecc.Installer.Recover.{
  IsListed, IsNewest, Older, IsRecovered, there-IsRecovered, end-IsRecovered, no-backup,
}

stamp-injective : (s t : ℕ) → stale_backup s ≡ stale_backup t → s ≡ t
stamp-injective s t h = cc

module _ {T : Type 0} (o r : Outside T) (destination old : Name) (tree : T) (stale : ℕ → Bool)
    (stamp : ℕ) (apart : old ≢ destination)
    (found : judge_labels stale destination old labels ≡ stale_backup stamp) where
  abbrev Waits : List Name → List (ℕ × Name) → Type 0
  Waits paths bs = Has (stamp, old) bs ⊎ IsListed destination old stamp paths

  -- An entry that is passed over is not `old`.
  passed :
      (path : Name) (paths : List Name) (bs : List (ℕ × Name))
      → path ≢ old
      → Waits (path ∷ paths) bs
      → Waits paths bs
  passed path paths bs other (inl has) = inl has
  passed path paths bs other (inr (inl here)) = absurd (other here)
  passed path paths bs other (inr (inr there)) = inr there

  -- The one entry with that name.
  same_entry :
      (path : Name) (s : ℕ)
      → judge_labels stale destination path labels ≡ stale_backup s
      → path ≡ old
      → ◌≡◌ {A = ℕ × Name} (s, path) (stamp, old)
  same_entry path s is here =
      ap₂ (λ a b. (a, b))
        (stamp-injective s stamp
          (sym is ∙ ap (λ t. judge_labels stale destination t labels) here ∙ found))
        here

  -- An entry that is a backup.
  added :
      (path : Name) (s : ℕ) (paths : List Name) (bs : List (ℕ × Name))
      → judge_labels stale destination path labels ≡ stale_backup s
      → Waits (path ∷ paths) bs
      → Waits paths (bs ++ ((s, path) ∷ []))
  added path s paths bs is (inl has) = inl (Has-add (stamp, old) (s, path) bs has)
  added path s paths bs is (inr (inl here)) =
      inl (Has-last (stamp, old) (s, path) bs (same_entry path s is here))
  added path s paths bs is (inr (inr there)) = inr there

  by_name :
      (path : Name) (s : ℕ)
      → judge_labels stale destination path labels ≡ stale_backup s
      → (path ≡ old) ⊎ (s < stamp)
      → (◌≡◌ {A = ℕ × Name} (s, path) (stamp, old)) ⊎ (s < stamp)
  by_name path s is (inl here) = inl (same_entry path s is here)
  by_name path s is (inr before) = inr before

  older :
      (path : Name) (s : ℕ)
      → judge_labels stale destination path labels ≡ stale_backup s
      → ((owner t : ℕ)
          → hidden_sibling_owner path destination backup ≡ some (owner, t)
          → (path ≡ old) ⊎ (t < stamp))
      → Older destination old stamp (s, path)
  older path s is newest =
      let (owner, named) = judge-owner stale destination path s is in
      (backup-ne stale destination path s is, by_name path s is (newest owner s named))

  treat-IsRecovered :
      (s : Sibling) (path : Name) (paths : List Name) (bs : List (ℕ × Name))
      (next : List (ℕ × Name) → Io (Result (Unit {0})))
      → judge_labels stale destination path labels ≡ s
      → Each (Older destination old stamp) bs
      → Waits (path ∷ paths) bs
      → IsNewest destination old stamp (path ∷ paths)
      → ((cs : List (ℕ × Name)) (n : ℕ) (d : Dir T)
          → Each (Older destination old stamp) cs
          → Waits paths cs
          → d destination ≡ none
          → d old ≡ some tree
          → IsRecovered o destination old tree (run r n d (next cs)))
      → (n : ℕ) (d : Dir T) → d destination ≡ none
      → d old ≡ some tree
      → IsRecovered o destination old tree (run r n d (treat stale destination done s path bs next))
  unfolding run
  treat-IsRecovered unrelated path paths bs next is all waits newest goes n d gone saved =
      goes bs n d all
        (passed path paths bs
          (no-backup o r destination old tree stale stamp apart found path unrelated is (λ e. cc e))
          waits)
        gone saved
  treat-IsRecovered alive path paths bs next is all waits newest goes n d gone saved =
      goes bs n d all
        (passed path paths bs
          (no-backup o r destination old tree stale stamp apart found path alive is (λ e. cc e))
          waits)
        gone saved
  treat-IsRecovered stale_tree path paths bs next is all waits newest goes zero d gone saved =
      inr (inr (gone, saved))
  treat-IsRecovered stale_tree path paths bs next is all waits newest goes (suc n) d gone saved =
      let other =
        no-backup o r destination old tree stale stamp apart found path stale_tree is (λ e. cc e) in
      goes bs n (exec r n d (remove_path path)).1 all (passed path paths bs other waits)
        (remove-other r n d path destination (tree-ne stale destination path is) ∙ gone)
        (remove-other r n d path old other ∙ saved)
  treat-IsRecovered (stale_backup s) path paths bs next is all waits newest goes n d gone saved =
      goes (bs ++ ((s, path) ∷ [])) n d
        (Each-add (Older destination old stamp) bs (s, path) all (older path s is newest.0))
        (added path s paths bs is waits) gone saved

  collect-IsRecovered :
      (paths : List Name) (bs : List (ℕ × Name)) (n : ℕ) (d : Dir T)
      → Each (Older destination old stamp) bs
      → Waits paths bs
      → IsNewest destination old stamp paths
      → d destination ≡ none
      → d old ≡ some tree
      → IsRecovered o destination old tree (run r n d (collect stale destination done paths bs))
  unfolding collect
  collect-IsRecovered [] bs n d all (inl has) newest gone saved =
      end-IsRecovered o r destination old tree stale stamp apart found bs n d all has gone saved
  collect-IsRecovered [] bs n d all (inr listed) newest gone saved = absurd listed
  collect-IsRecovered (path ∷ paths) bs n d all waits newest gone saved =
      treat-IsRecovered _ path paths bs (collect stale destination done paths) refl all waits newest
        (λ cs m e all' waits' gone' saved'.
          collect-IsRecovered paths cs m e all' waits' newest.1 gone' saved')
        n d gone saved

  pub recover-IsRecovered :
      (paths : List Name) (m : ℕ) (d : Dir T)
      → r.listing m ≡ entries paths
      → (d old ≡ none) ⊎ IsListed destination old stamp paths
      → IsNewest destination old stamp paths
      → IsSafe o destination old tree d
      → IsRecovered o destination old tree
          (run r (suc m) d (recover_stale_install_siblings stale destination done))
  unfolding run exec recover_stale_install_siblings
  recover-IsRecovered paths m d seen there newest safe =
      subst (λ l. IsRecovered o destination old tree (run r m d (listed stale destination done l)))
        (sym seen) (go safe there)
    where
      go :
          IsSafe o destination old tree d
          → (d old ≡ none) ⊎ IsListed destination old stamp paths
          → IsRecovered o destination old tree
              (run r m d (listed stale destination done (entries paths)))
      go (inl kept) there =
          there-IsRecovered o r destination old tree tree (inl refl) stale (entries paths) m d kept
      go (inr (inl (t, (new, whole)))) there =
          there-IsRecovered o r destination old tree t (inr (t, (refl, whole))) stale
            (entries paths) m d new
      go (inr (inr (gone, saved))) (inl no_backup) = absurd (cc (saved, no_backup))
      go (inr (inr (gone, saved))) (inr there) =
          collect-IsRecovered paths [] m d tt (inr there) newest gone saved

-- A process dies after any number of calls while it installs a server that is there already, and
-- another one, to which it counts as gone, then runs the recovery, with calls that may fail too.
-- If the listing of the directory has the backup of the first process where there is one, and any
-- other backup in it is older, then a recovery that ends well leaves the old tree installed or one
-- that a build has delivered whole; and where it fails or dies too, nothing is lost still.
pub do_install-IsRecovered :
    {T : Type 0} (o r : Outside T) (own next : ℕ) (gone gone' : ℕ → Bool) (destination : Name)
    (staged_at backed_up_at : ℕ) (tree : T) (d : Dir T) (n m : ℕ) (paths : List Name)
    → own < 2 ^ 32
    → staged_at < 2 ^ 128
    → backed_up_at < 2 ^ 128
    → d destination ≡ some tree
    → owner_is_stale next gone' own ≡ true
    → r.listing m ≡ entries paths
    → let old = unique_sibling_path destination backup own backed_up_at in
      let d' = (run o n d (do_install own gone destination staged_at backed_up_at)).1 in
      (d' old ≡ none) ⊎ IsListed destination old backed_up_at paths
      → IsNewest destination old backed_up_at paths
      → IsRecovered o destination old tree (
          run r
            (suc m)
            d'
            (recover_stale_install_siblings (owner_is_stale next gone') destination done))
do_install-IsRecovered o r own next gone gone' destination staged_at backed_up_at tree d n m paths p
      s b at dead seen there newest =
    recover-IsRecovered o r destination (unique_sibling_path destination backup own backed_up_at)
      tree (owner_is_stale next gone') backed_up_at
      (sibling-ne destination own backed_up_at p b backup)
      (judge-backup (owner_is_stale next gone') destination own backed_up_at p b dead) paths m _
      seen there newest
      (do_install-IsSafe o own gone destination staged_at backed_up_at tree d n p s b at)
