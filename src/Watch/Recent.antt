-- ===== src/Watch/Recent.antt =====
-- src/simplecc/lsp/client.rs: did_change_watched_files. A change is a URI and its kind, a time is a
-- number of milliseconds, and which changes a server registered for is a test.
use simplecc.Base.{
  ℕ, ◌-◌, String, Bool, true, false, ◌&&◌, Option, none, some, List, [], ◌∷◌, keep, ltb, ◌==◌,
  nat_key, string_key, Key, if◌then◌else◌, arith, ◌≡◌, ◌↔◌, ap, ap₂, eq_iff, nat_same_iff,
}
use simplecc.Base.Assoc.{Map, insert, lookup}

abbrev pub Change : Type 0
Change = String × ℕ

abbrev pub same_change : Change → Change → Bool
same_change (u, c) (v, d) = u == v && c == d

pub same_change_iff : (x y : Change) → (same_change x y ≡ true) ↔ (x ≡ y)
same_change_iff (u, c) (v, d) = (
  λ h.
      ap₂ (λ a b. (a, b)) ((eq_iff u v).0 (ground (arith, h)))
        ((nat_same_iff c d).0 (ground (arith, h))),
  λ e. ground (arith, (eq_iff u v).1 (ap (λ x. x.0) e), (nat_same_iff c d).1 (ap (λ x. x.1) e)),
)

instance abbrev pub change_key : Key Change
change_key = record { same = same_change; same_iff = same_change_iff }

abbrev pub Times : Type 0
Times = Map Change ℕ

abbrev pub young : ℕ → Change × ℕ → Bool
young now (k, seen) = ltb (now - seen) 2000

abbrev pub is_recent : ℕ → Option ℕ → Bool
is_recent now none = false
is_recent now (some seen) = ltb (now - seen) 250

-- One round of the `filter_map`.
unfoldable pub pick_one : ℕ → Times → Change → Times × Option Change
pick_one now recent k =
    if is_recent now (lookup k recent) then (recent, none) else (insert k now recent, some k)

abbrev pub cons_some : Option Change → List Change → List Change
cons_some none ks = ks
cons_some (some k) ks = k ∷ ks

unfoldable pub pick : ℕ → Times → List Change → Times × List Change
unfolding pick_one
pick now recent [] = (recent, [])
pick now recent (k ∷ ks) =
    let (recent', picked) = pick_one now recent k in
    let (later, sent) = pick now recent' ks in (later, cons_some picked sent)

abbrev pub is_nil : List Change → Bool
is_nil [] = true
is_nil (k ∷ ks) = false

-- The times that are kept, and the changes that are sent; no message is sent without a change.
unfoldable pub did_change_watched_files :
    (Change → Bool) → ℕ → List Change → Times → Times × List Change
unfolding pick
did_change_watched_files registered now changes recent =
    if is_nil (keep registered changes)
    then (recent, [])
    else pick now (keep (young now) recent) (keep registered changes)
