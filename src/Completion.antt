-- ===== src/Completion.antt =====
-- src/simplecc/lsp/client.rs: completion and completion_resolve, and
-- src/simplecc/lsp/types.rs: rank_completion_items. What the editor is shown of an item is left out.
pub mod Rank
pub mod Newest
pub mod Trigger
mod Tests
use simplecc.Base.{
  ℕ, ◌+◌, String, Bool, true, false, not, ◌&&◌, Option, none, some, List, [], ◌∷◌, length, take,
  get_elem?, ltb, leb, ◌==◌, nat_key, string_key, if◌then◌else◌,
}
use simplecc.Base.Sort.{sort_by}
use simplecc.Config.{str_leb, contains}
use simplecc.Json.{Json}

-- `lsp_types::CompletionItem`: the fields that the code reads, and the others.
pub record Item : Type 0 where
  pub label : String
  pub sort_text : Option String
  pub insert_text : Option String
  pub insert_text_format : Option ℕ
  pub text_edit : Option Json
  pub additional_text_edits : Option (List Json)
  pub commit_characters : Option (List String)
  pub detail : Option String
  pub documentation : Option Json
  pub others : Json

abbrev pub sort_key : Item → String
sort_key item = elim item.sort_text [ none ↦ item.label | some t ↦ t ]

-- The comparison of `rank_completion_items`.
unfoldable pub ranks : Item → Item → Bool
ranks a b =
    if str_leb (sort_key a) (sort_key b)
    then if str_leb (sort_key b) (sort_key a) then str_leb a.label b.label else true
    else false

unfoldable pub rank_completion_items : List Item → List Item
rank_completion_items items = sort_by ranks items

abbrev pub clamp : ℕ → ℕ → ℕ → ℕ
clamp low high n = if ltb n low then low else if ltb high n then high else n

-- The items of an answer that are kept.
unfoldable pub cut_items : Bool → ℕ → List Item → List Item
unfolding rank_completion_items
cut_items sort_items max_items items =
    take (clamp 1 500 max_items) (if sort_items then rank_completion_items items else items)

-- The context that is sent: its kind, and its character.
abbrev pub drop_empty : Option String → Option String
drop_empty none = none
drop_empty (some s) = if s == "" then none else some s

abbrev pub advertised : Option String → Option (List String) → Bool
advertised none characters = false
advertised (some t) none = false
advertised (some t) (some characters) = contains t characters

-- `characters` are the trigger characters of the server, if it has any.
unfoldable pub trigger_context : ℕ → Option String → Option (List String) → ℕ × Option String
trigger_context kind character characters =
    if clamp 1 3 kind == 2
    then if advertised (drop_empty character) characters
      then (2, drop_empty character)
      else (3, none)
    else (clamp 1 3 kind, none)

pub record CompletionCache : Type 0 where
  pub generation : ℕ
  pub items : List Item

abbrev pub empty_cache : CompletionCache
empty_cache = record { generation = 0; items = [] }

-- The cache once the answer to the request with this generation has come.
unfoldable pub keep_answer : ℕ → List Item → CompletionCache → CompletionCache
keep_answer generation items cache =
    if leb cache.generation generation
    then record { generation = generation; items = items }
    else cache

pub data ResolveError : Type 0 where
  stale_generation invalid_index : ResolveError

pub data Found : Type 0 where
  found : Item → Found
  refused : ResolveError → Found

abbrev pub found_at : Option Item → Found
found_at none = refused invalid_index
found_at (some item) = found item

-- The item that `completion_resolve` sends.
unfoldable pub find_item : ℕ → ℕ → CompletionCache → Found
find_item generation index cache =
    if not (cache.generation == generation)
    then refused stale_generation
    else found_at (get_elem? cache.items index)

abbrev pub or_else {ℓ} : {A : Type ℓ} → Option A → Option A → Option A
or_else none o = o
or_else (some a) o = some a

-- What a resolved item keeps of the one that was sent.
unfoldable pub fill_resolved : Item → Item → Item
fill_resolved item resolved = record resolved {
  insert_text = or_else resolved.insert_text item.insert_text;
  insert_text_format = or_else resolved.insert_text_format item.insert_text_format;
  text_edit = or_else resolved.text_edit item.text_edit;
  additional_text_edits = or_else resolved.additional_text_edits item.additional_text_edits;
  commit_characters = or_else resolved.commit_characters item.commit_characters;
  detail = or_else resolved.detail item.detail;
  documentation = or_else resolved.documentation item.documentation;
}
