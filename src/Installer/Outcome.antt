-- ===== src/Installer/Outcome.antt =====
-- src/simplecc/installer.rs: promote_installation_sync on every branch.
use simplecc.Base.{
  ℕ, suc, ◌≡◌, ◌≢◌, ◌⊎◌, inl, inr, refl, sym, ◌∙◌, Bool, true, false, not, ◌&&◌, Option, none, some,
  Result, ok, err, arith,
}
use simplecc.Installer.{Name}
use simplecc.Installer.Names.{name_key}
use simplecc.Installer.Disk.{rename, Io, done, perform, Dir, Outside, is_some, update, exec, run}
use simplecc.Installer.Promote.{
  restored, activated, staged_old, had_destination, promote_installation_sync,
}
use simplecc.Installer.Calls.{moved-to, moved-from, moved-third}
use simplecc.Installer.Traversal.{by_test}

module _ {T : Type 0} (o : Outside T) (n : ℕ) (staged old destination : Name) (d : Dir T) where
  -- The staged tree is installed, and the old one, if there was one, is the backup that is named; or
  -- nothing has changed; or the renaming that puts the old one back was refused, and it is the
  -- backup.
  abbrev pub IsOutcome : Option (Result (Option Name)) × Dir T → Type 0
  IsOutcome (none, e) = ⊥
  IsOutcome (some (ok none), e) =
      (d destination ≡ none) × ((e destination ≡ d staged) × (e staged ≡ none))
  IsOutcome (some (ok (some b)), e) =
      (b ≡ old) × ((e destination ≡ d staged) × ((e old ≡ d destination) × (e staged ≡ none)))
  IsOutcome (some (err message), e) =
      (e staged ≡ d staged)
      × ((e destination ≡ d destination)
          ⊎ ((d destination ≢ none)
              × (e destination ≡ none)
              × (e old ≡ d destination)
              × (o.allows n ≡ false)))

module _ {T : Type 0} (o : Outside T) (staged old destination : Name) (apart : staged ≢ destination)
    (aside : staged ≢ old) (behind : old ≢ destination) (d : Dir T) where
  -- A renaming with calls left.
  renaming :
      (i n : ℕ) (e : Dir T) (a b : Name) (k : Bool → Io (Result (Option Name)))
      → ((o.allows n && (is_some (e a) && not (is_some (e b)))) ≡ false
          → IsOutcome o i staged old destination d (run o n e (k false)))
      → ((is_some (e a) && not (is_some (e b))) ≡ true
          → IsOutcome o i staged old destination d
              (run o n (update a none (update b (e a) e)) (k true)))
      → IsOutcome o i staged old destination d (run o (suc n) e (perform (rename a b) k))
  unfolding run exec
  renaming i n e a b k fails moves =
      by_test o (IsOutcome o i staged old destination d) n _ (update a none (update b (e a) e)) e k
        fails (λ h. moves (ground (arith, h)))

  -- A tree that is there is put back, unless that is refused.
  refused :
      (b : Bool) (v w : Option T) (t : T)
      → v ≡ some t
      → w ≡ none
      → (b && (is_some v && not (is_some w))) ≡ false
      → b ≡ false
  refused b v w t there gone h = ground (arith, h, there, gone)

  module _ (n : ℕ) where
    replaced-IsOutcome :
        (t : T)
        → d destination ≡ some t
        → IsOutcome o n staged old destination d (
            run o
              (suc (suc (suc n)))
              d
              (perform (rename destination old) (staged_old staged old destination done)))
    unfolding run
    replaced-IsOutcome t at =
        let gone = moved-from destination old (d destination) d in
        let saved = moved-to destination old (d destination) d (λ e. behind (sym e)) in
        let kept =
          moved-third destination old staged (d destination) d (λ e. apart (sym e))
            (λ e. aside (sym e)) in
        let between = update destination none (update old (d destination) d) in
        renaming n (suc (suc n)) d destination old (staged_old staged old destination done)
          (λ h. (refl, inl refl))
          (λ h.
            renaming n (suc n) between staged destination (activated old destination true done)
              (λ stuck.
                renaming n n between old destination (restored done)
                  (λ h. (
                    kept,
                    inr (
                      λ e. absurd (cc (at, e)),
                      gone,
                      saved,
                      refused (o.allows n) (between old) (between destination) t (saved ∙ at) gone
                          h,
                    ),
                  ))
                  (λ g. (
                    moved-third old destination staged (between old) between (λ e. aside (sym e))
                          (λ e. apart (sym e))
                        ∙ kept,
                    inl (moved-to old destination (between old) between behind ∙ saved),
                  )))
              (λ g. (
                refl,
                (
                  moved-to staged destination (between staged) between apart ∙ kept,
                  (
                    moved-third staged destination old (between staged) between aside
                          (λ e. behind (sym e))
                        ∙ saved,
                    moved-from staged destination (between staged) between,
                  ),
                ),
              )))

    fresh-IsOutcome :
        d destination ≡ none
        → IsOutcome o n staged old destination d (
            run o
              (suc (suc (suc n)))
              d
              (perform (rename staged destination) (activated old destination false done)))
    unfolding run
    fresh-IsOutcome empty =
        renaming n (suc (suc n)) d staged destination (activated old destination false done)
          (λ h. (refl, inl refl))
          (λ h. (
            empty,
            (
              moved-to staged destination (d staged) d apart,
              moved-from staged destination (d staged) d,
            ),
          ))

    had-IsOutcome :
        (v : Option T)
        → d destination ≡ v
        → IsOutcome o n staged old destination d
            (run o (suc (suc (suc n))) d (had_destination staged old destination done (is_some v)))
    had-IsOutcome none at = fresh-IsOutcome at
    had-IsOutcome (some t) at = replaced-IsOutcome t at

    -- A process that lives for four calls ends the promotion, whichever of them fail. Where it ends
    -- well, the staged tree is installed and no longer staged, and the backup that it names has what
    -- was installed. Where it fails, the staged tree stays, and what was installed is installed
    -- still; or something was installed, its fourth call, which was to put that back, was refused,
    -- and it is the backup.
    pub promote-IsOutcome :
        IsOutcome o n staged old destination d (
          run o (suc (suc (suc (suc n)))) d (promote_installation_sync staged old destination done))
    unfolding run exec promote_installation_sync
    promote-IsOutcome = had-IsOutcome (d destination) refl
