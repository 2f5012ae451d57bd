-- ===== src/Watch/Spaced.antt =====
-- src/simplecc/lsp/client.rs: the same change is not sent twice in a quarter of a second.
use simplecc.Base.{
  subst, ℕ, ◌+◌, ◌≤◌, ◌≡◌, ◌⊎◌, inl, inr, Bool-cases, Bool, false, some, List, [], ◌∷◌, keep, ◌==◌,
  arith,
}
use simplecc.Base.Assoc.{insert, lookup, lookup-insert, lookup-insert_self}
use simplecc.Watch.Recent.{
  Change, change_key, Times, young, is_recent, pick_one, pick, is_nil, did_change_watched_files,
}

-- What was sent and when, newest first.
abbrev pub Log : Type 0
Log = List (ℕ × Change)

abbrev pub push : ℕ → List Change → Log → Log
push now [] log = log
push now (k ∷ ks) log = push now ks ((now, k) ∷ log)

-- What was sent of a change was sent a quarter of a second before.
abbrev pub LongAgo : ℕ → Change → Log → Type 0
LongAgo now k [] = Unit
LongAgo now k ((t, j) ∷ log) = (j ≡ k → t + 250 ≤ now) × LongAgo now k log

abbrev pub Spaced : Log → Type 0
Spaced [] = Unit
Spaced ((t, k) ∷ log) = LongAgo t k log × Spaced log

abbrev Covered : ℕ → Times → ℕ → Change → Type 0
Covered now recent t k =
    (t ≤ now) × ((t + 250 ≤ now) ⊎ ((s : ℕ) × ((lookup k recent ≡ some s) × (t ≤ s))))

abbrev AllCovered : ℕ → Times → Log → Type 0
AllCovered now recent [] = Unit
AllCovered now recent ((t, k) ∷ log) = Covered now recent t k × AllCovered now recent log

AllCovered-later :
    (now now' : ℕ) (recent : Times) (log : Log)
    → now ≤ now'
    → AllCovered now recent log
    → AllCovered now' recent log
AllCovered-later now now' recent [] h c = tt
AllCovered-later now now' recent ((t, k) ∷ log) h ((before, why), c) = (
  (omega arith, elim why [ inl old ↦ inl (omega arith) | inr held ↦ inr held ]),
  AllCovered-later now now' recent log h c,
)

lookup-young :
    (now : ℕ) (k : Change) (s : ℕ) (m : Times)
    → lookup k m ≡ some s
    → (lookup k (keep (young now) m) ≡ some s) ⊎ (s + 2000 ≤ now)
unfolding lookup
lookup-young now k s [] h = absurd cc
lookup-young now k s ((j, t) ∷ m) h = ground (arith, h, lookup-young now k s m)

not_recent-LongAgo :
    (now : ℕ) (recent : Times) (k : Change) (log : Log)
    → is_recent now (lookup k recent) ≡ false
    → AllCovered now recent log
    → LongAgo now k log
not_recent-LongAgo now recent k [] h c = tt
not_recent-LongAgo now recent k ((t, j) ∷ log) h ((before, why), c) = (
  λ e. elim why [
    | inl old ↦ old
    | inr (s, (at, le)) ↦
        let here : lookup k recent ≡ some s = subst (λ x. lookup x recent ≡ some s) e at in
        ground (arith, h, here, le)
  ],
  not_recent-LongAgo now recent k log h c,
)

-- The time of a new send covers what was sent of the change before.
AllCovered-insert :
    (now : ℕ) (recent : Times) (k : Change) (log : Log)
    → AllCovered now recent log
    → AllCovered now (insert k now recent) log
AllCovered-insert now recent k [] c = tt
AllCovered-insert now recent k ((t, j) ∷ log) ((before, why), c) = (
  (
    before,
    elim why [
      | inl old ↦ inl old
      | inr (s, (at, le)) ↦ elim (Bool-cases (k == j)) [
        | inl same ↦ inr (now, (ground (arith, lookup-insert k j now recent, same), before))
        | inr other ↦ inr (s, (ground (arith, lookup-insert k j now recent, other, at), le))
      ]
    ],
  ),
  AllCovered-insert now recent k log c,
)

AllCovered-keep :
    (now : ℕ) (recent : Times) (log : Log)
    → AllCovered now recent log
    → AllCovered now (keep (young now) recent) log
AllCovered-keep now recent [] c = tt
AllCovered-keep now recent ((t, j) ∷ log) ((before, why), c) = (
  (
    before,
    elim why [
      | inl old ↦ inl old
      | inr (s, (at, le)) ↦ elim (lookup-young now j s recent at) [
        | inl kept ↦ inr (s, (kept, le))
        | inr gone ↦ inl (omega (arith, gone, le))
      ]
    ],
  ),
  AllCovered-keep now recent log c,
)

-- The times cover the log, and the log is spaced.
abbrev Good : ℕ → Times → Log → Type 0
Good now recent log = AllCovered now recent log × Spaced log

pick-Good :
    (now : ℕ) (recent : Times) (ks : List Change) (log : Log)
    → Good now recent log
    → Good now (pick now recent ks).0 (push now (pick now recent ks).1 log)
unfolding pick pick_one
pick-Good now recent [] log g = g
pick-Good now recent (k ∷ ks) log (c, sp) = elim (Bool-cases (is_recent now (lookup k recent))) [
  | inl seen ↦ rw seen (pick-Good now recent ks log (c, sp))
  | inr fresh ↦ rw fresh (
      pick-Good now (insert k now recent) ks ((now, k) ∷ log) (
        (
          (omega arith, inr (now, (lookup-insert_self k now recent, omega arith))),
          AllCovered-insert now recent k log c,
        ),
        (not_recent-LongAgo now recent k log fresh c, sp),
      ))
]

-- Calls: the time of each, and its changes. Times do not go back.
abbrev pub Calls : Type 0
Calls = List (ℕ × List Change)

abbrev pub InOrder : ℕ → Calls → Type 0
InOrder now [] = Unit
InOrder now ((t, ks) ∷ calls) = (now ≤ t) × InOrder t calls

-- The log after the calls, oldest first.
abbrev pub sent_by : (Change → Bool) → Times → Calls → Log → Log
sent_by registered recent [] log = log
sent_by registered recent ((t, ks) ∷ calls) log =
    let (recent', sent) = did_change_watched_files registered t ks recent in
    sent_by registered recent' calls (push t sent log)

call-Good :
    (registered : Change → Bool) (t : ℕ) (ks : List Change) (recent : Times) (log : Log)
    → Good t recent log
    → Good t
        (did_change_watched_files registered t ks recent).0
        (push t (did_change_watched_files registered t ks recent).1 log)
unfolding did_change_watched_files
call-Good registered t ks recent log (c, sp) = elim (Bool-cases (is_nil (keep registered ks))) [
  | inl none_left ↦ rw none_left (c, sp)
  | inr some_left ↦ rw some_left (
      pick-Good t (keep (young t) recent) (keep registered ks) log
        (AllCovered-keep t recent log c, sp))
]

calls-Spaced :
    (registered : Change → Bool) (now : ℕ) (recent : Times) (calls : Calls) (log : Log)
    → InOrder now calls
    → Good now recent log
    → Spaced (sent_by registered recent calls log)
calls-Spaced registered now recent [] log o (c, sp) = sp
calls-Spaced registered now recent ((t, ks) ∷ calls) log (h, o) (c, sp) =
    calls-Spaced registered t (did_change_watched_files registered t ks recent).0 calls
      (push t (did_change_watched_files registered t ks recent).1 log) o
      (call-Good registered t ks recent log (AllCovered-later now t recent log h c, sp))

-- In a sequence of calls whose times do not go back, whatever the server registered for, a change of
-- one kind to one URI is never sent less than 250 milliseconds after it was sent before, in the same
-- call or in another.
pub sent_by-Spaced :
    (registered : Change → Bool) (calls : Calls)
    → InOrder 0 calls
    → Spaced (sent_by registered [] calls [])
sent_by-Spaced registered calls o = calls-Spaced registered 0 [] calls [] o (tt, tt)
