-- ===== src/Installer/Newest.antt =====
-- src/simplecc/installer.rs: which backup the recovery restores.
use simplecc.Base.{
  ℕ, ◌^◌, ◌≤◌, ◌<◌, ◌≡◌, inl, inr, refl, ap, sym, ◌∙◌, Bool-cases, Bool, true, false, Option, none,
  some, List, [], ◌∷◌, arith, ◌==◌, if◌then◌else◌,
}
use simplecc.Base.Sort.{sort_by, Leads, Sorted, Sorted-sort}
use simplecc.Frames.Text.{same_codes}
use simplecc.Installer.{
  Name, installing, abandoned, backup, unique_sibling_path, hidden_sibling_owner,
}
use simplecc.Installer.Names.{
  name_key, backup-installing, backup-abandoned, hidden_sibling_owner_unique,
}
use simplecc.Installer.Promote.{
  Sibling, stale_backup, unrelated, judge, judge_labels, labels, by_stamp, pop_from,
}
use simplecc.Base.Member.{Has, Each}

module _ (stale : ℕ → Bool) (destination : Name) where
  -- A label that is not "backup" says of no entry that it is a backup.
  other-label :
      (label : Name) (owner : Option (ℕ × ℕ)) (later : Sibling) (s : ℕ)
      → (label == backup) ≡ false
      → judge stale label owner later ≡ stale_backup s
      → later ≡ stale_backup s
  other-label label none later s other h = h
  other-label label (some (pid, stamp)) later s other h = ground (arith, other, h)

  backup-label :
      (owner : Option (ℕ × ℕ)) (s : ℕ)
      → judge stale backup owner unrelated ≡ stale_backup s
      → (pid : ℕ) × (owner ≡ some (pid, s))
  unfolding same_codes
  backup-label none s h = absurd (cc)
  backup-label (some (pid, stamp)) s h = elim (Bool-cases (stale pid)) [
    | inl dead ↦
        let found : stale_backup stamp ≡ stale_backup s =
          ap (λ b. if b then stale_backup stamp else Sibling.alive) (sym dead) ∙ h in
        (pid, ap (λ t. some (pid, t)) (cc))
    | inr living ↦ absurd (cc (h, ap (λ b. if b then stale_backup stamp else Sibling.alive) living))
  ]

  -- What is taken for a backup has the name of one.
  pub judge-owner :
      (path : Name) (s : ℕ)
      → judge_labels stale destination path labels ≡ stale_backup s
      → (pid : ℕ) × (hidden_sibling_owner path destination backup ≡ some (pid, s))
  unfolding judge_labels same_codes
  judge-owner path s h = backup-label (hidden_sibling_owner path destination backup) s (
      other-label abandoned (hidden_sibling_owner path destination abandoned) _ s refl
        (other-label installing (hidden_sibling_owner path destination installing) _ s refl h))

  -- The backup of a process that is gone is taken for one.
  pub judge-backup :
      (pid stamp : ℕ)
      → pid < 2 ^ 32
      → stamp < 2 ^ 128
      → stale pid ≡ true
      → judge_labels stale destination (unique_sibling_path destination backup pid stamp) labels
        ≡ stale_backup stamp
  unfolding judge_labels same_codes
  judge-backup pid stamp p s dead = rw (backup-installing destination pid stamp) (
      rw (backup-abandoned destination pid stamp)
        (rw (hidden_sibling_owner_unique destination backup pid stamp p s) (rw dead refl)))

by_stamp_total : (x y : ℕ × Name) → by_stamp x y ≡ false → by_stamp y x ≡ true
by_stamp_total x y h = ground arith

by_stamp_trans :
    (x y z : ℕ × Name) → by_stamp x y ≡ true → by_stamp y z ≡ true → by_stamp x z ≡ true
by_stamp_trans x y z h k = ground arith

pub sort-Sorted : (xs : List (ℕ × Name)) → Sorted by_stamp (sort_by by_stamp xs)
sort-Sorted = Sorted-sort by_stamp by_stamp_total by_stamp_trans

pub Each-pop :
    (P : ℕ × Name → Type 0) (x : ℕ × Name) (xs : List (ℕ × Name))
    → P x
    → Each P xs
    → Each P (pop_from x xs).0 × P (pop_from x xs).1
unfolding pop_from
Each-pop P x [] p h = (tt, p)
Each-pop P x (y ∷ ys) p (q, h) = let (before, last) = Each-pop P y ys q h in ((p, before), last)

-- The last of a sorted list has the greatest stamp.
lead-last :
    (e x : ℕ × Name) (xs : List (ℕ × Name))
    → by_stamp e x ≡ true
    → Leads by_stamp e xs
    → e.0 ≤ (pop_from x xs).1.0
unfolding pop_from
lead-last e x [] h l = ground arith
lead-last e x (y ∷ ys) h (k, l) = lead-last e y ys k l

pub pop-newest :
    (e x : ℕ × Name) (xs : List (ℕ × Name))
    → Leads by_stamp x xs
    → Sorted by_stamp xs
    → Has e (x ∷ xs)
    → e.0 ≤ (pop_from x xs).1.0
unfolding pop_from
pop-newest e x [] l s (inl here) = omega (arith, ap (λ t. t.0) here)
pop-newest e x [] l s (inr there) = absurd there
pop-newest e x (y ∷ ys) (k, l) s (inl here) =
    omega (arith, ap (λ t. t.0) here, lead-last x y ys k l)
pop-newest e x (y ∷ ys) (k, l) (m, s) (inr there) = pop-newest e y ys m s there
