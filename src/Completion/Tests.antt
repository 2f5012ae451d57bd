-- ===== src/Completion/Tests.antt =====
-- Two answers of src/simplecc/lsp/client.rs, the later one to the earlier request.
use simplecc.Base.{
  ℕ, ◌≡◌, refl, String, true, Option, none, some, List, [], ◌∷◌, ◌++◌, length, keep, smaller,
  get_elem?,
}
use simplecc.Base.Sort.{sort_by, insert_by}
use simplecc.Config.{str_leb}
use simplecc.Json.{null}
use simplecc.Completion.{
  Item, ranks, clamp, cut_items, rank_completion_items, empty_cache, keep_answer, found, find_item,
}
use simplecc.Completion.Newest.{answers, IsAnswer, NoneNewer, find_item-newest}
use simplecc.Completion.Rank.{IsRanked, is_like, cut_items-IsRanked}

abbrev item : String → Option String → Item
item label sort_text = record {
  label = label;
  sort_text = sort_text;
  insert_text = none;
  insert_text_format = none;
  text_edit = none;
  additional_text_edits = none;
  commit_characters = none;
  detail = none;
  documentation = none;
  others = null;
}

abbrev shown : List Item
shown = item "zip" (some "1") ∷ item "all" (some "2") ∷ item "any" (some "1") ∷ []

-- Two items with one sort text are ordered by their labels.
label_breaks_ties :
    rank_completion_items shown
    ≡ item "any" (some "1") ∷ item "zip" (some "1") ∷ item "all" (some "2") ∷ []
unfolding rank_completion_items sort_by insert_by ranks str_leb
label_breaks_ties = refl

cut_items-IsRanked_example :
    (others : List Item) × (IsRanked (cut_items true 1 shown ++ others)
      × ((text label : String)
          → keep (is_like text label) (cut_items true 1 shown ++ others)
            ≡ keep (is_like text label) shown)
      × (length (cut_items true 1 shown) ≡ smaller (clamp 1 500 1) (length shown)))
cut_items-IsRanked_example = cut_items-IsRanked 1 shown

abbrev two_answers : List (ℕ × List Item)
two_answers = (2, shown) ∷ (1, []) ∷ []

second_item : find_item 2 1 (answers empty_cache two_answers) ≡ found (item "all" (some "2"))
unfolding find_item keep_answer
second_item = refl

find_item-newest_example :
    (items : List Item) × (IsAnswer 2 items two_answers
      × (NoneNewer 2 two_answers × (get_elem? items 1 ≡ some (item "all" (some "2")))))
find_item-newest_example = find_item-newest two_answers 2 1 (item "all" (some "2")) second_item
