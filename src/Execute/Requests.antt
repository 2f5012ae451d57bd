-- ===== src/Execute/Requests.antt =====
-- src/simplecc/lsp/client.rs: `code_lens` and `code_action`, which fill the caches, and what their replies offer.
use simplecc.Base.{
  ℕ, suc, String, Bool, true, false, not, if◌then◌else◌, Option, none, some, List, [], ◌∷◌,
}
use simplecc.Cache.{IdentityCache, begin, replace}
use simplecc.Cache.History.{Event, advance}
use simplecc.Execute.{Command}
use simplecc.Execute.Lens.{CodeLens}
use simplecc.Execute.Action.{Action, bare, full}

-- `types::CodeLensItem` and `types::CodeAction`.
pub record CodeLensItem : Type 0 where
  pub line : ℕ
  pub character : ℕ
  pub end_line : ℕ
  pub end_character : ℕ
  pub command_title : Option String
  pub index : ℕ

pub record CodeActionItem : Type 0 where
  pub title : String
  pub kind : Option String
  pub index : ℕ

-- The answer to the request: superseded, failed (also by decoding), or the decoded items, where a
-- null result has none.
pub data Answer (A : Type 0) : Type 0 where
  superseded failed : Answer A
  items : List A → Answer A

-- `Ok(None)`, an error, or the items for the editor.
pub data Offer (A : Type 0) : Type 0 where
  skipped errored : Offer A
  offered : List A → Offer A

title_of : Option Command → Option String
title_of none = none
title_of (some c) = some c.title

unfoldable pub lens_item : ℕ → CodeLens → CodeLensItem
unfolding title_of
lens_item i l = record {
  line = l.range.start.line;
  character = l.range.start.character;
  end_line = l.range.end.line;
  end_character = l.range.end.character;
  command_title = title_of l.command;
  index = i;
}

unfoldable pub action_item : ℕ → Action → CodeActionItem
action_item i (bare c) = record { title = c.title; kind = none; index = i }
action_item i (full a) = record { title = a.title; kind = a.kind; index = i }

-- `iter().enumerate().map(…)`, from the index `i`.
unfoldable pub enumerate {ℓ κ} : {A : Type ℓ} {B : Type κ} → (ℕ → A → B) → ℕ → List A → List B
enumerate f i [] = []
enumerate f i (x ∷ xs) = f i x ∷ enumerate f (suc i) xs

module _ {A B : Type 0} (convert : ℕ → A → B) (late : Offer B) where
  -- The end of both requests: the reply goes into the cache, if its identity still holds there.
  unfoldable pub fill : IdentityCache A → ℕ → String → List A → IdentityCache A × Offer B
  fill c g u xs =
      let (c', kept) = replace c g u xs in
      if not kept then (c', late) else (c', offered (enumerate convert 0 xs))

-- The rest of `code_lens`, by what `begin` said and what came back.
unfoldable pub lens_reply :
    Bool
    → IdentityCache CodeLens
    → IdentityCache CodeLens
    → ℕ
    → String
    → Answer CodeLens
    → IdentityCache CodeLens × Offer CodeLensItem
lens_reply false begun now g u answer = (begun, skipped)
lens_reply true begun now g u superseded = (now, skipped)
lens_reply true begun now g u failed = (now, errored)
lens_reply true begun now g u (items xs) = fill lens_item skipped now g u xs

unfoldable pub code_lens :
    IdentityCache CodeLens
    → ℕ
    → String
    → List (Event CodeLens)
    → Answer CodeLens
    → IdentityCache CodeLens × Offer CodeLensItem
code_lens c g u waiting answer =
    let (c', fresh) = begin c g u in lens_reply fresh c' (advance c' waiting) g u answer

-- `code_action` asks by `request`, which takes no part in latest-wins: nothing is superseded.
unfoldable pub action_reply :
    Bool
    → IdentityCache Action
    → IdentityCache Action
    → ℕ
    → String
    → Option (List Action)
    → IdentityCache Action × Offer CodeActionItem
action_reply false begun now g u answer = (begun, errored)
action_reply true begun now g u none = (now, errored)
action_reply true begun now g u (some xs) = fill action_item errored now g u xs

unfoldable pub code_action :
    IdentityCache Action
    → ℕ
    → String
    → List (Event Action)
    → Option (List Action)
    → IdentityCache Action × Offer CodeActionItem
code_action c g u waiting answer =
    let (c', fresh) = begin c g u in action_reply fresh c' (advance c' waiting) g u answer
