-- ===== src/Cache/Tests.antt =====
-- The identity caches of src/simplecc/lsp/client.rs at concrete histories.
use simplecc.Base.{ℕ, String, ◌≡◌, ◌≢◌, refl, false, List, [], ◌∷◌, ◌++◌, inr, arith, eq_iff}
use simplecc.Cache.{found, matches, item}
use simplecc.Cache.History.{
  Event, requested, replied, document_edge, step, after, advance, opened, answered, spared,
  item-iff-Open,
}
use simplecc.Cache.Retired.{closed_forever}

abbrev answered_history : List (Event ℕ)
answered_history =
    document_edge "b" ∷ replied 2 "a" (7 ∷ 8 ∷ []) ∷ requested 2 "a" ∷ requested 1 "b" ∷ []

a_not_empty : ◌≢◌ {A = String} "a" ""
a_not_empty = ground (arith, eq_iff "a" "")

b_not_a : ◌≢◌ {A = String} "b" "a"
b_not_a = ground (arith, eq_iff "b" "a")

item-iff-Open_example : item (after answered_history) 2 "a" 1 ≡ found 8
item-iff-Open_example = (item-iff-Open answered_history 2 "a" 1 8).1 (
  7 ∷ 8 ∷ [],
  spared (document_edge "b") b_not_a
      (answered (7 ∷ 8 ∷ []) (opened (inr (omega arith), omega arith) a_not_empty)),
  refl,
)

first_reply_stays_closed :
    matches
      (advance (after answered_history) ((replied 2 "a" (9 ∷ []) ∷ []) ++ document_edge "a" ∷ []))
      2
      "a"
    ≡ false
unfolding step
first_reply_stays_closed =
    closed_forever (after answered_history) 2 "a" (replied 2 "a" (9 ∷ []) ∷ []) (document_edge "a")
      [] (omega arith) refl
