-- ===== src/Installer/Calls.antt =====
-- src/simplecc/installer.rs: what one call leaves of the entries that it does not name, and which
-- entries the recovery takes.
use simplecc.Base.{
  ℕ, ◌≡◌, ◌≢◌, refl, ap, ◌∙◌, inl, inr, Bool-cases, Bool, true, false, not, ◌&&◌, Option, none,
  some, List, [], ◌∷◌, ◌==◌, eq_refl, if◌then◌else◌,
}
use simplecc.Installer.{Name, hidden_sibling_owner}
use simplecc.Installer.Names.{name_key, same_codes_iff, owner-destination}
use simplecc.Installer.Disk.{remove_path, rename, create_dir, Dir, Outside, is_some, update, exec}
use simplecc.Installer.Promote.{unrelated, stale_tree, stale_backup, judge, judge_labels, labels}

pub differ : (a b : Name) → a ≢ b → (a == b) ≡ false
differ a b h = elim (Bool-cases (a == b)) [
  | inl same ↦ absurd (h ((same_codes_iff a b).0 same))
  | inr other ↦ other
]

module _ {T : Type 0} where
  pub update-other : (a b : Name) (v : Option T) (dir : Dir T) → a ≢ b → update a v dir b ≡ dir b
  update-other a b v dir h = rw (differ a b h) refl

  pub update_self : (a : Name) (v : Option T) (dir : Dir T) → update a v dir a ≡ v
  update_self a v dir = rw (eq_refl a) refl

  -- What a renaming from `a` to `b` leaves.
  pub moved-to :
      (a b : Name) (v : Option T) (d : Dir T) → a ≢ b → update a none (update b v d) b ≡ v
  moved-to a b v d h = update-other a b none (update b v d) h ∙ update_self b v d

  pub moved-from : (a b : Name) (v : Option T) (d : Dir T) → update a none (update b v d) a ≡ none
  moved-from a b v d = update_self a none (update b v d)

  pub moved-third :
      (a b x : Name) (v : Option T) (d : Dir T)
      → a ≢ x
      → b ≢ x
      → update a none (update b v d) x ≡ d x
  moved-third a b x v d h g = update-other a x none (update b v d) h ∙ update-other b x v d g

  pub update_if-other :
      (b : Bool) (a x : Name) (v : Option T) (dir : Dir T)
      → a ≢ x
      → (if b then update a v dir else dir) x ≡ dir x
  update_if-other true a x v dir h = update-other a x v dir h
  update_if-other false a x v dir h = refl

  pub remove-other :
      (o : Outside T) (n : ℕ) (dir : Dir T) (a x : Name)
      → a ≢ x
      → (exec o n dir (remove_path a)).1 x ≡ dir x
  unfolding exec
  remove-other o n dir a x h = update_if-other (is_some (dir a)) a x (o.left n) dir h

  pub create-other :
      (o : Outside T) (n : ℕ) (dir : Dir T) (a x : Name)
      → a ≢ x
      → (exec o n dir (create_dir a)).1 x ≡ dir x
  unfolding exec
  create-other o n dir a x h =
      update_if-other (o.allows n && not (is_some (dir a))) a x (some o.empty) dir h

  moved-other :
      (b : Bool) (a c x : Name) (v : Option T) (dir : Dir T)
      → a ≢ x
      → c ≢ x
      → (if b then update a none (update c v dir) else dir) x ≡ dir x
  moved-other true a c x v dir h g = moved-third a c x v dir h g
  moved-other false a c x v dir h g = refl

  pub rename-other :
      (o : Outside T) (n : ℕ) (dir : Dir T) (a c x : Name)
      → a ≢ x
      → c ≢ x
      → (exec o n dir (rename a c)).1 x ≡ dir x
  unfolding exec
  rename-other o n dir a c x h g = moved-other _ a c x (dir a) dir h g

module _ (stale : ℕ → Bool) (destination : Name) where
  -- No label takes an entry that is no hidden sibling of the installation.
  judge-none :
      (path : Name) (ls : List Name)
      → ((label : Name) → hidden_sibling_owner path destination label ≡ none)
      → judge_labels stale destination path ls ≡ unrelated
  unfolding judge_labels
  judge-none path [] h = refl
  judge-none path (l ∷ ls) h =
      ap (λ o. judge stale l o (judge_labels stale destination path ls)) (h l)
      ∙ judge-none path ls h

  pub judge-destination : judge_labels stale destination destination labels ≡ unrelated
  judge-destination = judge-none destination labels (owner-destination destination)

  pub tree-ne :
      (path : Name) → judge_labels stale destination path labels ≡ stale_tree → path ≢ destination
  tree-ne path h e =
      let same : judge_labels stale destination path labels ≡ unrelated =
        ap (λ t. judge_labels stale destination t labels) e ∙ judge-destination in
      cc (h, same)

  pub backup-ne :
      (path : Name) (stamp : ℕ)
      → judge_labels stale destination path labels ≡ stale_backup stamp
      → path ≢ destination
  backup-ne path stamp h e =
      let same : judge_labels stale destination path labels ≡ unrelated =
        ap (λ t. judge_labels stale destination t labels) e ∙ judge-destination in
      cc (h, same)
