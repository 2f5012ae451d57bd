-- ===== src/Daemon/Renames.antt =====
-- src/simplecc/simplecc_daemon.rs: which clients the renaming of a file is told to.
use simplecc.Base.{
  ℕ, ◌≡◌, ◌∙◌, sym, refl, String, Bool, true, false, not, ◌&&◌, ◌⊎◌, inl, inr, Bool-cases, Option,
  List, [], ◌∷◌, Result, ok, err, ◌==◌, string_key, eq_iff, if◌then◌else◌, arith,
}
use simplecc.Json.{Json, Items, nil}
use simplecc.Daemon.Handler.{Call, Op, Answer, call, Handler}
use simplecc.Daemon.FileRename.{
  FileRename, identity_of, push_found, will_renamed, did_renamed, rename_at, rename_each,
  rename_checked, handle_file_rename,
}
use simplecc.Daemon.Calls.{calls_of}

module _ (answers : (o : Op) → Answer o) (f : FileRename) (identity current : String) where
  -- The connections are the ones that the preparation has seen, or this is the preparation.
  abbrev pub Unchanged : Type 0
  Unchanged = (f.phase ≡ "prepare") ⊎ (identity ≡ current)

  -- A call of a client: what it has registered for, or the renaming, if it has.
  abbrev pub Permitted : ℕ → Call → Type 0
  Permitted c (Call.matches_file_rename old directory will) = Unchanged
  Permitted c (Call.will_rename_files old new) =
      (old ≡ f.old)
      × (new ≡ f.new)
      × (f.phase ≡ "prepare")
      × (answers (call c (Call.matches_file_rename f.old f.directory true)) ≡ true)
  Permitted c (Call.did_rename_files old new) =
      (old ≡ f.old)
      × (new ≡ f.new)
      × (f.phase ≡ "did")
      × (identity ≡ current)
      × (answers (call c (Call.matches_file_rename f.old f.directory false)) ≡ true)
  Permitted c _ = ⊥

  abbrev pub AllPermitted : List (ℕ × Call) → Type 0
  AllPermitted [] = Unit
  AllPermitted ((c, m) ∷ calls) = Permitted c m × AllPermitted calls

  if-AllPermitted :
      (b : Bool) (h k : Handler)
      → (b ≡ true → AllPermitted (calls_of answers h))
      → (b ≡ false → AllPermitted (calls_of answers k))
      → AllPermitted (calls_of answers (if b then h else k))
  if-AllPermitted true h k first second = first refl
  if-AllPermitted false h k first second = second refl

  will-AllPermitted :
      (edits : Items) (result : Result (Option Json)) (k : Items → Handler)
      → ((e : Items) → AllPermitted (calls_of answers (k e)))
      → AllPermitted (calls_of answers (will_renamed f edits result k))
  will-AllPermitted edits (ok edit) k each = each (push_found edits edit)
  will-AllPermitted edits (err e) k each = tt

  did-AllPermitted :
      (edits : Items) (result : Result (Unit {0})) (k : Items → Handler)
      → ((e : Items) → AllPermitted (calls_of answers (k e)))
      → AllPermitted (calls_of answers (did_renamed f edits result k))
  did-AllPermitted edits (ok done) k each = each edits
  did-AllPermitted edits (err e) k each = tt

  -- What is known when both tests of a phase and of a registration have passed.
  both_true : (s t : String) (b : Bool) → (s == t && b) ≡ true → (s ≡ t) × (b ≡ true)
  both_true s t b h = (ground (arith, h, eq_iff s t), ground (arith, h))

  same_when_did : Unchanged → f.phase ≡ "did" → identity ≡ current
  same_when_did (inl prepare) did =
      let e = (eq_iff "prepare" "did").1 (sym prepare ∙ did) in absurd (ground (arith, e))
  same_when_did (inr same) did = same

  at-AllPermitted :
      (c : ℕ) (will did : Bool) (edits : Items) (k : Items → Handler)
      → Unchanged
      → answers (call c (Call.matches_file_rename f.old f.directory true)) ≡ will
      → answers (call c (Call.matches_file_rename f.old f.directory false)) ≡ did
      → ((e : Items) → AllPermitted (calls_of answers (k e)))
      → AllPermitted (calls_of answers (rename_at f c will did edits k))
  unfolding rename_at
  at-AllPermitted c will did edits k unchanged wills dids each =
      if-AllPermitted (f.phase == "prepare" && will) _ _
        (λ h.
          let (prepare, w) = both_true f.phase "prepare" will h in
          ((refl, refl, prepare, wills ∙ w), will-AllPermitted edits _ k each))
        (λ _.
          if-AllPermitted (f.phase == "did" && did) _ _
            (λ h.
              let (told, d) = both_true f.phase "did" did h in
              (
                (refl, refl, told, same_when_did unchanged told, dids ∙ d),
                did-AllPermitted edits _ k each,
              ))
            (λ _. each edits))

  each-AllPermitted :
      (cs : List ℕ) (supported : Bool) (edits : Items)
      → Unchanged
      → AllPermitted (calls_of answers (rename_each f current cs supported edits))
  unfolding rename_each
  each-AllPermitted [] supported edits unchanged = tt
  each-AllPermitted (c ∷ cs) supported edits unchanged = (
    unchanged,
    (
      unchanged,
      at-AllPermitted c _ _ edits _ unchanged refl refl (λ e. each-AllPermitted cs _ e unchanged),
    ),
  )

  passed : (not (f.phase == "prepare") && not (identity == current)) ≡ false → Unchanged
  passed h = elim (Bool-cases (f.phase == "prepare")) [
    | inl is ↦ inl ((eq_iff f.phase "prepare").0 is)
    | inr other ↦ inr (ground (arith, h, other, eq_iff identity current))
  ]

  checked-AllPermitted :
      (cs : List ℕ) → AllPermitted (calls_of answers (rename_checked f identity current cs))
  unfolding rename_checked
  checked-AllPermitted cs =
      if-AllPermitted (not (f.phase == "prepare") && not (identity == current)) _ _ (λ _. tt)
        (λ h. each-AllPermitted cs false nil (passed h))

-- Whatever the clients answer: a client is asked for the edits of a renaming only while it is
-- prepared, and told of it only afterwards, each with the names of the request and only where the
-- client says that it has registered for them; and after the preparation no client is called at all
-- unless the clients' identity is still the one that the request gives.
pub file_rename-AllPermitted :
    (answers : (o : Op) → Answer o) (address : ℕ → String) (id : ℕ) (old new : String)
    (directory : Bool) (phase identity : String)
    → AllPermitted answers
        (record { id = id; old = old; new = new; directory = directory; phase = phase })
        identity
        (identity_of address (answers Op.active_clients))
        (calls_of answers (handle_file_rename address id old new directory phase identity))
unfolding handle_file_rename
file_rename-AllPermitted answers address id old new directory phase identity =
    checked-AllPermitted answers _ identity (identity_of address (answers Op.active_clients))
      (answers Op.active_clients)
