-- ===== src/Installer/Recover.antt =====
-- src/simplecc/installer.rs: the recovery after a process has died while it was installing.
use simplecc.Base.{
  ℕ, zero, suc, ◌≤◌, ◌<◌, ◌≡◌, ◌≢◌, ◌⊎◌, inl, inr, refl, ap, sym, ◌∙◌, subst, Bool, Option, none,
  some, List, [], ◌∷◌, Result, ok, err, arith,
}
use simplecc.Base.Sort.{Each-sort, Has-sort, sort_by, Sorted}
use simplecc.Installer.{Name, backup, hidden_sibling_owner}
use simplecc.Installer.Disk.{
  rename, Listing, entries, done, perform, Dir, Outside, is_some, exec, run,
}
use simplecc.Installer.Promote.{
  Sibling, stale_backup, judge_labels, labels, by_stamp, pop_from, pop, remove_all, renamed_back,
  restore, settle, sort_backups, listed,
}
use simplecc.Base.Member.{Has, Each}
use simplecc.Installer.Calls.{moved-to}
use simplecc.Installer.Newest.{sort-Sorted, Each-pop, pop-newest}
use simplecc.Installer.Traversal.{after-rename, remove_all-Good, collect-Good}
use simplecc.Installer.Safe.{IsNew, IsSafe}

-- Below, `old` is the name of the backup, made at the time `stamp`.
module _ (destination old : Name) (stamp : ℕ) where
  abbrev pub IsListed : List Name → Type 0
  IsListed [] = ⊥
  IsListed (path ∷ paths) = (path ≡ old) ⊎ IsListed paths

  -- Any other backup of the installation is older.
  abbrev pub IsNewest : List Name → Type 0
  IsNewest [] = Unit
  IsNewest (path ∷ paths) =
      ((owner s : ℕ)
        → hidden_sibling_owner path destination backup ≡ some (owner, s)
        → (path ≡ old) ⊎ (s < stamp))
      × IsNewest paths

  abbrev pub Older : ℕ × Name → Type 0
  Older e = (e.1 ≢ destination) × ((e ≡ (stamp, old)) ⊎ (e.0 < stamp))

module _ {T : Type 0} (o : Outside T) (destination old : Name) (tree : T) where
  -- A recovery that ends well leaves the old tree or a new one installed.
  abbrev pub IsRecovered : Option (Result (Unit {0})) × Dir T → Type 0
  IsRecovered (none, d) = IsSafe o destination old tree d
  IsRecovered (some (err e), d) = IsSafe o destination old tree d
  IsRecovered (some (ok u), d) =
      (d destination ≡ some tree) ⊎ IsNew o destination old tree (d destination)

module _ {T : Type 0} (o r : Outside T) (destination old : Name) (tree : T) where
  present-IsRecovered :
      (x : Option (Result (Unit {0}))) (d : Dir T)
      → (d destination ≡ some tree) ⊎ IsNew o destination old tree (d destination)
      → IsRecovered o destination old tree (x, d)
  present-IsRecovered none d (inl kept) = inl kept
  present-IsRecovered none d (inr new) = inr (inl new)
  present-IsRecovered (some (err e)) d (inl kept) = inl kept
  present-IsRecovered (some (err e)) d (inr new) = inr (inl new)
  present-IsRecovered (some (ok u)) d h = h

  installed :
      (v : T) (d : Dir T)
      → (some v ≡ some tree) ⊎ IsNew o destination old tree (some v)
      → d destination ≡ some v
      → (d destination ≡ some tree) ⊎ IsNew o destination old tree (d destination)
  installed v d (inl kept) at = inl (at ∙ kept)
  installed v d (inr (t, (new, whole))) at = inr (t, (at ∙ new, whole))

  module _ (v : T) (h : (some v ≡ some tree) ⊎ IsNew o destination old tree (some v)) where
    inj : (d : Dir T) → d destination ≡ some v → IsRecovered o destination old tree (none, d)
    inj d at = present-IsRecovered none d (installed v d h at)

    pub ended :
        (x : Result (Unit {0})) (n : ℕ) (d : Dir T)
        → d destination ≡ some v
        → IsRecovered o destination old tree (run r n d (done x))
    unfolding run
    ended x n d at = present-IsRecovered (some x) d (installed v d h at)

    -- What is left of the backups is removed beside an installation.
    removed-IsRecovered :
        (rest : List (ℕ × Name)) (n : ℕ) (d : Dir T)
        → Each (λ e. e.1 ≢ destination) rest
        → d destination ≡ some v
        → IsRecovered o destination old tree (run r n d (remove_all rest (done (ok tt))))
    removed-IsRecovered rest n d others at =
        remove_all-Good r (IsRecovered o destination old tree) destination (some v) inj rest
          (done (ok tt)) others (ended (ok tt)) n d at

    -- Something is installed.
    pub there-IsRecovered :
        (stale : ℕ → Bool) (l : Listing) (n : ℕ) (d : Dir T)
        → d destination ≡ some v
        → IsRecovered o destination old tree (run r n d (listed stale destination done l))
    there-IsRecovered stale Listing.not_found n d at = ended (ok tt) n d at
    there-IsRecovered stale Listing.unreadable n d at = ended (err _) n d at
    there-IsRecovered stale (entries paths) n d at =
        collect-Good r (IsRecovered o destination old tree) destination (some v) inj stale done
          paths [] tt (λ bs others m e. removed-IsRecovered bs m e others) n d at

  module _ (stale : ℕ → Bool) (stamp : ℕ) (apart : old ≢ destination)
      (found : judge_labels stale destination old labels ≡ stale_backup stamp) where
    others-apart :
        (bs : List (ℕ × Name))
        → Each (Older destination old stamp) bs
        → Each (λ e. e.1 ≢ destination) bs
    others-apart [] h = tt
    others-apart (b ∷ bs) (older, h) = (older.0, others-apart bs h)

    -- The last of the sorted backups is the one that the process has made.
    last-old : (e : ℕ × Name) → Older destination old stamp e → stamp ≤ e.0 → e.1 ≡ old
    last-old e (other, inl same) h = ap (λ t. t.1) same
    last-old e (other, inr before) h = absurd (omega arith)

    restore_old-IsRecovered :
        (rest : List (ℕ × Name)) (n : ℕ) (d : Dir T)
        → Each (λ e. e.1 ≢ destination) rest
        → d destination ≡ none
        → d old ≡ some tree
        → IsRecovered o destination old tree (
            run r n d (perform (rename old destination) (renamed_back stale destination done rest)))
    unfolding run
    restore_old-IsRecovered rest n d others gone saved =
        after-rename r (IsRecovered o destination old tree) n d old destination
          (renamed_back stale destination done rest) (inr (inr (gone, saved)))
          (λ m. inr (inr (gone, saved)))
          (λ m e.
            removed-IsRecovered tree (inl refl) rest m _ others
              (moved-to old destination (d old) d apart ∙ saved))

    restore-IsRecovered :
        (xs : List (ℕ × Name)) (n : ℕ) (d : Dir T)
        → Each (Older destination old stamp) xs
        → Has (stamp, old) xs
        → Sorted by_stamp xs
        → d destination ≡ none
        → d old ≡ some tree
        → IsRecovered o destination old tree (run r n d (restore stale destination done (pop xs)))
    restore-IsRecovered [] n d older has sorted gone saved = absurd has
    restore-IsRecovered (x ∷ xs) n d (older, all_older) has (leads, sorted) gone saved =
        let (before, last) = Each-pop (Older destination old stamp) x xs older all_older in
        let newest =
          last-old (pop_from x xs).1 last (pop-newest (stamp, old) x xs leads sorted has) in
        subst
          (λ a. IsRecovered o destination old tree (
            run r n d (
              perform (rename a destination)
                (renamed_back stale destination done (pop_from x xs).0))))
          (sym newest)
          (restore_old-IsRecovered (pop_from x xs).0 n d (others-apart (pop_from x xs).0 before)
            gone saved)

    pub end-IsRecovered :
        (bs : List (ℕ × Name)) (n : ℕ) (d : Dir T)
        → Each (Older destination old stamp) bs
        → Has (stamp, old) bs
        → d destination ≡ none
        → d old ≡ some tree
        → IsRecovered o destination old tree (run r n d (sort_backups stale destination done bs))
    unfolding run exec
    end-IsRecovered bs zero d older has gone saved = inr (inr (gone, saved))
    end-IsRecovered bs (suc n) d older has gone saved =
        subst
          (λ w.
            IsRecovered o destination old tree
              (run r n d (settle stale destination done (sort_by by_stamp bs) (is_some w))))
          (sym gone)
          (restore-IsRecovered (sort_by by_stamp bs) n d
            (Each-sort by_stamp (Older destination old stamp) bs older)
            (Has-sort by_stamp (stamp, old) bs has) (sort-Sorted bs) gone saved)

    -- An entry that is no backup is not `old`.
    pub no-backup :
        (path : Name) (s : Sibling)
        → judge_labels stale destination path labels ≡ s
        → s ≢ stale_backup stamp
        → path ≢ old
    no-backup path s is other e =
        other (sym is ∙ ap (λ t. judge_labels stale destination t labels) e ∙ found)
