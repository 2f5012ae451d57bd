-- ===== src/Installer/Untouched.antt =====
-- src/simplecc/installer.rs: what the recovery leaves alone.
use simplecc.Base.{
  ℕ, zero, suc, ◌≤◌, ◌^◌, nat_same_iff, nat_key, arith, ◌≡◌, ◌≢◌, ◌⊎◌, inl, inr, refl, ap, sym, ◌∙◌,
  Bool, true, false, Option, none, some, List, [], ◌∷◌, ◌++◌, Result, ok, err,
}
use simplecc.Base.Member.{Each, Each-add}
use simplecc.Base.Sort.{Each-sort, sort_by}
use simplecc.Installer.{Name, installing, abandoned, backup, hidden_sibling_owner}
use simplecc.Installer.Disk.{
  remove_path, Listing, entries, Io, done, Dir, Outside, is_some, exec, run,
}
use simplecc.Installer.Promote.{
  Sibling, owner_is_stale, unrelated, alive, stale_tree, stale_backup, judge, judge_labels, labels,
  by_stamp, pop_from, renamed_back, settle, treat, collect, listed, recover_stale_install_siblings,
}
use simplecc.Installer.Calls.{moved-third, remove-other}
use simplecc.Installer.Newest.{Each-pop}
use simplecc.Installer.Traversal.{after-rename, remove_all-Good}

module _ (stale : ℕ → Bool) (destination x : Name) where
  -- No hidden sibling by this label, or one that is not stale.
  abbrev IsFresh : Name → Type 0
  IsFresh label =
      (hidden_sibling_owner x destination label ≡ none)
      ⊎ ((pid s : ℕ) × ((hidden_sibling_owner x destination label ≡ some (pid, s))
            × (stale pid ≡ false)))

  abbrev IsLeft : Sibling → Type 0
  IsLeft s = (s ≡ unrelated) ⊎ (s ≡ alive)

  judge-IsLeft :
      (label : Name) (later : Sibling)
      → IsFresh label
      → IsLeft later
      → IsLeft (judge stale label (hidden_sibling_owner x destination label) later)
  judge-IsLeft label later (inl nobody) left = rw nobody left
  judge-IsLeft label later (inr (pid, s, (owner, living))) left = rw (owner, living) (inr refl)

  judge_labels-IsLeft :
      IsFresh installing
      → IsFresh abandoned
      → IsFresh backup
      → IsLeft (judge_labels stale destination x labels)
  unfolding judge_labels
  judge_labels-IsLeft a b c =
      judge-IsLeft installing _ a (judge-IsLeft abandoned _ b (judge-IsLeft backup _ c (inl refl)))

  taken-ne :
      (path : Name) (s : Sibling)
      → IsLeft (judge_labels stale destination x labels)
      → judge_labels stale destination path labels ≡ s
      → s ≢ unrelated
      → s ≢ alive
      → path ≢ x
  taken-ne path s left is known gone e =
      let same : judge_labels stale destination x labels ≡ s =
        ap (λ t. judge_labels stale destination t labels) (sym e) ∙ is in
      elim left [ inl u ↦ known (sym same ∙ u) | inr l ↦ gone (sym same ∙ l) ]

  module _ {T : Type 0} (r : Outside T) (v : Option T) (apart : destination ≢ x)
      (left : IsLeft (judge_labels stale destination x labels)) where
    abbrev Same : Option (Result (Unit {0})) × Dir T → Type 0
    Same y = y.1 x ≡ v

    ended : (a : Result (Unit {0})) (n : ℕ) (d : Dir T) → d x ≡ v → Same (run r n d (done a))
    unfolding run
    ended a n d at = at

    removed-Same :
        (bs : List (ℕ × Name)) (n : ℕ) (d : Dir T)
        → Each (λ e. e.1 ≢ x) bs
        → d x ≡ v
        → Same (run r n d (renamed_back stale destination done bs true))
    removed-Same bs n d others at =
        remove_all-Good r Same x v (λ d at. at) bs (done (ok tt)) others (ended (ok tt)) n d at

    settle-Same :
        (bs : List (ℕ × Name)) (here : Bool) (n : ℕ) (d : Dir T)
        → Each (λ e. e.1 ≢ x) bs
        → d x ≡ v
        → Same (run r n d (settle stale destination done bs here))
    settle-Same bs true n d others at = removed-Same bs n d others at
    settle-Same [] false n d others at = ended (ok tt) n d at
    settle-Same (b ∷ bs) false n d (other, others) at =
        let (before, last) = Each-pop (λ e. e.1 ≢ x) b bs other others in
        after-rename r Same n d (pop_from b bs).1.1 destination
          (renamed_back stale destination done (pop_from b bs).0) at (λ m. ended (err _) m d at)
          (λ m e. removed-Same (pop_from b bs).0 m _ before (
            moved-third (pop_from b bs).1.1 destination x (d (pop_from b bs).1.1) d last apart
            ∙ at))

    treat-Same :
        (s : Sibling) (path : Name) (bs : List (ℕ × Name))
        (next : List (ℕ × Name) → Io (Result (Unit {0})))
        → judge_labels stale destination path labels ≡ s
        → Each (λ e. e.1 ≢ x) bs
        → ((cs : List (ℕ × Name)) (n : ℕ) (d : Dir T)
            → Each (λ e. e.1 ≢ x) cs
            → d x ≡ v
            → Same (run r n d (next cs)))
        → (n : ℕ) (d : Dir T) → d x ≡ v
        → Same (run r n d (treat stale destination done s path bs next))
    unfolding run
    treat-Same unrelated path bs next is others goes n d at = goes bs n d others at
    treat-Same alive path bs next is others goes n d at = goes bs n d others at
    treat-Same stale_tree path bs next is others goes zero d at = at
    treat-Same stale_tree path bs next is others goes (suc n) d at =
        goes bs n (exec r n d (remove_path path)).1 others (
          remove-other r n d path x (taken-ne path stale_tree left is (λ e. cc e) (λ e. cc e)) ∙ at)
    treat-Same (stale_backup s) path bs next is others goes n d at =
        goes (bs ++ ((s, path) ∷ [])) n d
          (Each-add (λ e. e.1 ≢ x) bs (s, path) others
            (taken-ne path (stale_backup s) left is (λ e. cc e) (λ e. cc e)))
          at

    collect-Same :
        (paths : List Name) (bs : List (ℕ × Name)) (n : ℕ) (d : Dir T)
        → Each (λ e. e.1 ≢ x) bs
        → d x ≡ v
        → Same (run r n d (collect stale destination done paths bs))
    unfolding run exec collect
    collect-Same [] bs zero d others at = at
    collect-Same [] bs (suc n) d others at =
        settle-Same (sort_by by_stamp bs) (is_some (d destination)) n d
          (Each-sort by_stamp (λ e. e.1 ≢ x) bs others) at
    collect-Same (path ∷ paths) bs n d others at =
        treat-Same _ path bs (collect stale destination done paths) refl others
          (λ cs m e others' at'. collect-Same paths cs m e others' at') n d at

    listed-Same :
        (l : Listing) (n : ℕ) (d : Dir T)
        → d x ≡ v
        → Same (run r n d (listed stale destination done l))
    listed-Same Listing.not_found n d at = ended (ok tt) n d at
    listed-Same Listing.unreadable n d at = ended (err _) n d at
    listed-Same (entries paths) n d at = collect-Same paths [] n d tt at

  fresh_untouched :
      {T : Type 0} (r : Outside T) (n : ℕ) (d : Dir T)
      → destination ≢ x
      → IsFresh installing
      → IsFresh abandoned
      → IsFresh backup
      → (run r n d (recover_stale_install_siblings stale destination done)).1 x ≡ d x
  unfolding run exec recover_stale_install_siblings
  fresh_untouched r zero d apart a b c = refl
  fresh_untouched r (suc n) d apart a b c =
      listed-Same r (d x) apart (judge_labels-IsLeft a b c) (r.listing n) n d refl

module _ (own : ℕ) (gone : ℕ → Bool) (destination x : Name) where
  -- No hidden sibling by this label, or one of another process, of which `kill` does not say that
  -- it is gone or cannot be asked.
  abbrev pub IsForeign : Name → Type 0
  IsForeign label =
      (hidden_sibling_owner x destination label ≡ none)
      ⊎ ((pid s : ℕ) × ((hidden_sibling_owner x destination label ≡ some (pid, s))
            × (pid ≢ own)
            × ((gone pid ≡ false) ⊎ (2 ^ 31 ≤ pid))))

  lives :
      (pid : ℕ)
      → pid ≢ own
      → (gone pid ≡ false) ⊎ (2 ^ 31 ≤ pid)
      → owner_is_stale own gone pid ≡ false
  unfolding owner_is_stale
  lives pid other living = ground (arith, nat_same_iff pid own)

  Foreign-Fresh :
      (label : Name) → IsForeign label → IsFresh (owner_is_stale own gone) destination x label
  Foreign-Fresh label (inl nobody) = inl nobody
  Foreign-Fresh label (inr (pid, s, (owner, other, living))) =
      inr (pid, s, (owner, lives pid other living))

  -- Wherever a recovery ends, by itself or because the process dies, an entry that is not the
  -- installation is left as it was, unless it is a hidden sibling of the installation that was made
  -- by the process itself or by one that is gone: nothing of another program, of another server or
  -- of another process that lives is touched, nor of one whose number is too large to be asked for.
  pub recover_untouched :
      {T : Type 0} (r : Outside T) (n : ℕ) (d : Dir T)
      → destination ≢ x
      → IsForeign installing
      → IsForeign abandoned
      → IsForeign backup
      → (run r n d (recover_stale_install_siblings (owner_is_stale own gone) destination done)).1 x
        ≡ d x
  recover_untouched r n d apart a b c =
      fresh_untouched (owner_is_stale own gone) destination x r n d apart
        (Foreign-Fresh installing a) (Foreign-Fresh abandoned b) (Foreign-Fresh backup c)
