-- ===== src/Installer/Safe.antt =====
-- src/simplecc/installer.rs: an update never loses the installation that it replaces.
use simplecc.Base.{
  ℕ, zero, suc, ◌^◌, ◌<◌, ◌≡◌, ◌≢◌, ◌⊎◌, inl, inr, refl, ap, sym, ◌∙◌, subst, Bool, true, false,
  Option, none, some, String, [], Result, ok, err,
}
use simplecc.Installer.{Name, installing, backup, unique_sibling_path, hidden_sibling_owner}
use simplecc.Installer.Names.{owner-destination, installing-backup, hidden_sibling_owner_unique}
use simplecc.Installer.Disk.{
  remove_path, create_dir, Listing, entries, not_found, unreadable, Built, succeeded, failed, Dir,
  Outside, is_some, update, exec, run,
}
use simplecc.Installer.Promote.{
  restored, activated, staged_old, had_destination, promote_installation_sync, listed,
  recover_stale_install_siblings, owner_is_stale, cleanup, promoted, after_build, after_create,
  after_recovery, install_managed, do_install,
}
use simplecc.Installer.Calls.{
  update-other, update_self, moved-to, moved-from, moved-third, remove-other, create-other,
}
use simplecc.Installer.Traversal.{after-rename, remove_all-Good, collect-Good}

module _ {T : Type 0} (o : Outside T) (destination old : Name) (tree : T) where
  -- A build has ended well with this tree.
  abbrev pub Delivered : T → Type 0
  Delivered t = (n : ℕ) × (o.built n ≡ (succeeded, t))

  abbrev pub IsNew : Option T → Type 0
  IsNew v = (t : T) × ((v ≡ some t) × Delivered t)

  -- The old tree is installed, or a new and whole one; or nothing is, and the backup is the old one.
  abbrev pub IsSafe : Dir T → Type 0
  IsSafe d =
      (d destination ≡ some tree)
      ⊎ (IsNew (d destination) ⊎ ((d destination ≡ none) × (d old ≡ some tree)))

  pub IsSafe-same :
      (d e : Dir T) → e destination ≡ d destination → e old ≡ d old → IsSafe d → IsSafe e
  IsSafe-same d e at behind (inl kept) = inl (at ∙ kept)
  IsSafe-same d e at behind (inr (inl (t, (new, whole)))) = inr (inl (t, (at ∙ new, whole)))
  IsSafe-same d e at behind (inr (inr (gone, saved))) = inr (inr (at ∙ gone, behind ∙ saved))

  module _ (staging : Name) (apart : staging ≢ destination) (aside : staging ≢ old)
      (behind : old ≢ destination) where
    cleanup-IsSafe :
        (deferred : Bool) (e : String) (n : ℕ) (d : Dir T)
        → IsSafe d
        → IsSafe (run o n d (cleanup staging deferred e)).1
    unfolding run
    cleanup-IsSafe true e n d safe = safe
    cleanup-IsSafe false e zero d safe = safe
    cleanup-IsSafe false e (suc n) d safe =
        IsSafe-same d (exec o n d (remove_path staging)).1
          (remove-other o n d staging destination apart) (remove-other o n d staging old aside) safe

    -- The new tree is installed, and the old one goes.
    finish-IsSafe :
        (n : ℕ) (d : Dir T)
        → IsNew (d destination)
        → IsSafe (run o n d (promoted staging (ok (some old)))).1
    unfolding run
    finish-IsSafe zero d new = inr (inl new)
    finish-IsSafe (suc n) d (t, (new, whole)) =
        inr (inl (t, (remove-other o n d old destination behind ∙ new, whole)))

    -- Between the two renamings.
    between-IsSafe :
        (n : ℕ) (d : Dir T)
        → d destination ≡ none
        → d old ≡ some tree
        → IsNew (d staging)
        → IsSafe (run o n d (staged_old staging old destination (promoted staging) true)).1
    between-IsSafe n d gone saved (t, (staged, whole)) =
        after-rename o (λ r. IsSafe r.1) n d staging destination
          (activated old destination true (promoted staging)) (inr (inr (gone, saved)))
          (λ m.
            after-rename o (λ r. IsSafe r.1) m d old destination (restored (promoted staging))
              (inr (inr (gone, saved))) (λ l. cleanup-IsSafe false _ l d (inr (inr (gone, saved))))
              (λ l e.
                cleanup-IsSafe false _ l _
                  (inl (moved-to old destination (d old) d behind ∙ saved))))
          (λ m e.
            finish-IsSafe m _
              (t, (moved-to staging destination (d staging) d apart ∙ staged, whole)))

    promote-IsSafe :
        (n : ℕ) (d : Dir T)
        → d destination ≡ some tree
        → IsNew (d staging)
        → IsSafe
            (run o n d (promote_installation_sync staging old destination (promoted staging))).1
    unfolding run exec promote_installation_sync
    promote-IsSafe zero d at new = inl at
    promote-IsSafe (suc n) d at (t, (staged, whole)) =
        subst
          (λ v.
            IsSafe
              (run o n d
                (had_destination staging old destination (promoted staging) (is_some v))).1)
          (sym at)
          (after-rename o (λ r. IsSafe r.1) n d destination old
            (staged_old staging old destination (promoted staging)) (inl at)
            (λ m. cleanup-IsSafe false _ m d (inl at))
            (λ m e.
              between-IsSafe m _ (moved-from destination old (d destination) d)
                (moved-to destination old (d destination) d (λ e. behind (sym e)) ∙ at)
                (
                  t,
                  (
                    moved-third destination old staging (d destination) d (λ e. apart (sym e))
                          (λ e. aside (sym e))
                        ∙ staged,
                    whole,
                  ),
                )))

    built-IsSafe :
        (n : ℕ) (d : Dir T) (b : Built × T)
        → o.built n ≡ b
        → d destination ≡ some tree
        → IsSafe (run o n (update staging (some b.1) d) (after_build staging old destination b.0)).1
    built-IsSafe n d (succeeded, t) e at =
        promote-IsSafe n _ (update-other staging destination (some t) d apart ∙ at)
          (t, (update_self staging (some t) d, (n, e)))
    built-IsSafe n d (failed deferred, t) e at =
        cleanup-IsSafe deferred _ n _ (inl (update-other staging destination (some t) d apart ∙ at))

    create-IsSafe :
        (made : Bool) (n : ℕ) (d : Dir T)
        → d destination ≡ some tree
        → IsSafe (run o n d (after_create staging old destination made)).1
    unfolding run exec
    create-IsSafe false n d at = inl at
    create-IsSafe true zero d at = inl at
    create-IsSafe true (suc n) d at = built-IsSafe n d (o.built n) refl at

    recovered-IsSafe :
        (r : Result (Unit {0})) (n : ℕ) (d : Dir T)
        → d destination ≡ some tree
        → IsSafe (run o n d (after_recovery staging old destination r)).1
    unfolding run
    recovered-IsSafe (err e) n d at = inl at
    recovered-IsSafe (ok u) zero d at = inl at
    recovered-IsSafe (ok u) (suc n) d at =
        create-IsSafe (exec o n d (create_dir staging)).0 n (exec o n d (create_dir staging)).1
          (create-other o n d staging destination apart ∙ at)

    module _ (stale : ℕ → Bool) where
      listed-IsSafe :
          (l : Listing) (n : ℕ) (d : Dir T)
          → d destination ≡ some tree
          → IsSafe
              (run o n d (listed stale destination (after_recovery staging old destination) l)).1
      listed-IsSafe not_found n d at = recovered-IsSafe (ok tt) n d at
      listed-IsSafe unreadable n d at = recovered-IsSafe (err _) n d at
      listed-IsSafe (entries paths) n d at =
          collect-Good o (λ r. IsSafe r.1) destination (some tree) (λ d at. inl at) stale
            (after_recovery staging old destination) paths [] tt
            (λ bs others.
              remove_all-Good o (λ r. IsSafe r.1) destination (some tree) (λ d at. inl at) bs
                (after_recovery staging old destination (ok tt)) others (recovered-IsSafe (ok tt)))
            n d at

      install-IsSafe :
          (n : ℕ) (d : Dir T)
          → d destination ≡ some tree
          → IsSafe (run o n d (install_managed staging old destination stale)).1
      unfolding run exec install_managed recover_stale_install_siblings
      install-IsSafe zero d at = inl at
      install-IsSafe (suc n) d at = listed-IsSafe (o.listing n) n d at

-- The names that one process takes differ from each other and from that of the installation.
module _ (destination : Name) (pid stamp : ℕ) (p : pid < 2 ^ 32) (s : stamp < 2 ^ 128) where
  pub sibling-ne : (label : Name) → unique_sibling_path destination label pid stamp ≢ destination
  sibling-ne label e =
      let owner = hidden_sibling_owner_unique destination label pid stamp p s in
      let nobody = owner-destination destination label in
      cc (owner, nobody, ap (λ t. hidden_sibling_owner t destination label) e)

  pub siblings-ne :
      (at : ℕ)
      → unique_sibling_path destination installing pid at
        ≢ unique_sibling_path destination backup pid stamp
  siblings-ne at e =
      let owner = hidden_sibling_owner_unique destination backup pid stamp p s in
      let nobody = installing-backup destination pid at in
      cc (owner, nobody, ap (λ t. hidden_sibling_owner t destination backup) e)

-- When a server is installed that is there already, the process may die after any number of calls
-- and each call may fail: what is installed then is the old tree, or one that a build has delivered
-- whole; or nothing is, and the backup that the process has made is the old tree.
pub do_install-IsSafe :
    {T : Type 0} (o : Outside T) (own : ℕ) (gone : ℕ → Bool) (destination : Name)
    (staged_at backed_up_at : ℕ) (tree : T) (d : Dir T) (n : ℕ)
    → own < 2 ^ 32
    → staged_at < 2 ^ 128
    → backed_up_at < 2 ^ 128
    → d destination ≡ some tree
    → IsSafe o destination
        (unique_sibling_path destination backup own backed_up_at)
        tree
        (run o n d (do_install own gone destination staged_at backed_up_at)).1
unfolding do_install
do_install-IsSafe o own gone destination staged_at backed_up_at tree d n p s b at =
    install-IsSafe o destination _ tree _ (sibling-ne destination own staged_at p s installing)
      (siblings-ne destination own backed_up_at p b staged_at)
      (sibling-ne destination own backed_up_at p b backup) (owner_is_stale own gone) n d at
