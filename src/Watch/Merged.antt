-- ===== src/Watch/Merged.antt =====
-- src/simplecc/workspace_watcher.rs: what a path stands for once events are merged.
use simplecc.Base.{
  ap, ap₂, Option-cases, ℕ, String, ◌≡◌, refl, sym, ◌∙◌, Bool-cases, inl, inr, Option, none, some,
  List, [], ◌∷◌, ◌++◌, ◌==◌, nat_key, string_key, eq_iff, if◌then◌else◌, arith,
}
use simplecc.Base.Assoc.{Map, lookup, lookup-insert}
use simplecc.Watch.{
  created, changed, deleted, any, both, from, to, other, EventKind, any_event, access, create,
  modify, remove, other_event, rename, Event, merged, merge_path, merge_paths, merge_rename,
  merge_event, merge_events,
}

-- What an event says of paths, in its order.
abbrev pub renamed : List String → List (String × ℕ)
renamed [] = []
renamed (p ∷ []) = (p, changed) ∷ []
renamed (p ∷ q ∷ ps) = (p, deleted) ∷ (q, created) ∷ []

abbrev pub each : List String → ℕ → List (String × ℕ)
each [] change = []
each (p ∷ ps) change = (p, change) ∷ each ps change

abbrev pub reports_of : EventKind → List String → List (String × ℕ)
reports_of any_event ps = []
reports_of access ps = []
reports_of create ps = each ps created
reports_of modify ps = each ps changed
reports_of remove ps = each ps deleted
reports_of other_event ps = []
reports_of (rename any) ps = each ps changed
reports_of (rename both) ps = renamed ps
reports_of (rename from) ps = each ps deleted
reports_of (rename to) ps = each ps created
reports_of (rename other) ps = each ps changed

abbrev pub all_reports : List Event → List (String × ℕ)
all_reports [] = []
all_reports (e ∷ es) = reports_of e.kind e.paths ++ all_reports es

-- The last creation or deletion of the path, or else a change, if there is any.
abbrev pub verdict : String → List (String × ℕ) → Option ℕ
verdict path [] = none
verdict path ((p, change) ∷ rest) =
    let later = verdict path rest in
    if p == path
    then (elim later [ none ↦ some change | some l ↦ if l == changed then some change else some l ])
    else later

-- A verdict on top of what was pending.
abbrev over : Option ℕ → Option ℕ → Option ℕ
over before none = before
over before (some l) = some (merged l before)

merge_reports : Map String ℕ → List (String × ℕ) → Map String ℕ
merge_reports m [] = m
merge_reports m ((p, change) ∷ rest) = merge_reports (merge_path m p change) rest

abbrev fold_in : ℕ → Option ℕ → Option ℕ
fold_in c none = some c
fold_in c (some l) = if l == changed then some c else some l

over-merged :
    (b : Option ℕ) (c : ℕ) (v : Option ℕ) → over (some (merged c b)) v ≡ over b (fold_in c v)
over-merged b c none = refl
over-merged none c (some l) = ground arith
over-merged (some x) c (some l) = ground arith

verdict-cons :
    (path p : String) (c : ℕ) (rest : List (String × ℕ))
    → verdict path ((p, c) ∷ rest)
      ≡ (if p == path then fold_in c (verdict path rest) else verdict path rest)
verdict-cons path p c rest = elim (Option-cases (verdict path rest)) [
  | inl e ↦ ground (arith, e)
  | inr (l, e) ↦ ground (arith, e)
]

over-merge_path :
    (path : String) (m : Map String ℕ) (p : String) (c : ℕ) (rest : List (String × ℕ))
    → over (lookup path (merge_path m p c)) (verdict path rest)
      ≡ over (lookup path m) (verdict path ((p, c) ∷ rest))
unfolding merge_path
over-merge_path path m p c rest = elim (Bool-cases (p == path)) [
  | inl same ↦
      let e = (eq_iff p path).0 same in
      ap (λ t. over t (verdict path rest))
        (lookup-insert p path (merged c (lookup p m)) m
          ∙ ap (λ b. if b then some (merged c (lookup p m)) else lookup path m) same)
      ∙ over-merged (lookup p m) c (verdict path rest)
      ∙ ap₂ over (ap (λ t. lookup t m) e) (
          sym (
            verdict-cons path p c rest
            ∙ ap (λ b. if b then fold_in c (verdict path rest) else verdict path rest) same))
  | inr differ ↦
      ap₂ over
        (lookup-insert p path (merged c (lookup p m)) m
          ∙ ap (λ b. if b then some (merged c (lookup p m)) else lookup path m) differ)
        (sym (
          verdict-cons path p c rest
          ∙ ap (λ b. if b then fold_in c (verdict path rest) else verdict path rest) differ))
]

lookup-merge_reports :
    (path : String) (m : Map String ℕ) (rs : List (String × ℕ))
    → lookup path (merge_reports m rs) ≡ over (lookup path m) (verdict path rs)
unfolding merge_reports merge_path
lookup-merge_reports path m [] = refl
lookup-merge_reports path m ((p, change) ∷ rest) =
    lookup-merge_reports path (merge_path m p change) rest ∙ over-merge_path path m p change rest

each-merge :
    (m : Map String ℕ) (ps : List String) (c : ℕ) → merge_paths m ps c ≡ merge_reports m (each ps c)
unfolding merge_paths merge_reports
each-merge m [] c = refl
each-merge m (p ∷ ps) c = each-merge (merge_path m p c) ps c

renamed-merge :
    (m : Map String ℕ) (ps : List String) → merge_rename m ps ≡ merge_reports m (renamed ps)
unfolding merge_rename merge_paths merge_reports
renamed-merge m [] = refl
renamed-merge m (p ∷ []) = refl
renamed-merge m (p ∷ q ∷ ps) = refl

kind-merge :
    (m : Map String ℕ) (k : EventKind) (ps : List String)
    → merge_event m (record { kind = k; paths = ps }) ≡ merge_reports m (reports_of k ps)
unfolding merge_event merge_reports
kind-merge m any_event ps = refl
kind-merge m access ps = refl
kind-merge m create ps = each-merge m ps created
kind-merge m modify ps = each-merge m ps changed
kind-merge m remove ps = each-merge m ps deleted
kind-merge m other_event ps = refl
kind-merge m (rename any) ps = each-merge m ps changed
kind-merge m (rename both) ps = renamed-merge m ps
kind-merge m (rename from) ps = each-merge m ps deleted
kind-merge m (rename to) ps = each-merge m ps created
kind-merge m (rename other) ps = each-merge m ps changed

reports-append :
    (m : Map String ℕ) (xs ys : List (String × ℕ))
    → merge_reports m (xs ++ ys) ≡ merge_reports (merge_reports m xs) ys
unfolding merge_reports
reports-append m [] ys = refl
reports-append m ((p, c) ∷ xs) ys = reports-append (merge_path m p c) xs ys

events-merge :
    (m : Map String ℕ) (es : List Event) → merge_events m es ≡ merge_reports m (all_reports es)
unfolding merge_events merge_reports
events-merge m [] = refl
events-merge m (e ∷ es) =
    events-merge (merge_event m e) es
    ∙ ap (λ t. merge_reports t (all_reports es)) (kind-merge m e.kind e.paths)
    ∙ sym (reports-append m (reports_of e.kind e.paths) (all_reports es))

over-none : (v : Option ℕ) → over none v ≡ v
over-none none = refl
over-none (some l) = refl

-- After a batch of events each path stands for its last creation or deletion in them, or for a
-- change if it was only changed, and for nothing if no event is about it: writes after a deletion or
-- a creation do not hide it.
pub merge_events-verdict :
    (es : List Event) (path : String)
    → lookup path (merge_events [] es) ≡ verdict path (all_reports es)
unfolding lookup
merge_events-verdict es path =
    ap (lookup path) (events-merge [] es)
    ∙ lookup-merge_reports path [] (all_reports es)
    ∙ over-none (verdict path (all_reports es))
