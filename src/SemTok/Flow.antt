-- ===== src/SemTok/Flow.antt =====
-- src/simplecc/lsp/client.rs: `semantic_tokens_full_inner` and `semantic_tokens_full_delta`, under the lock of the
-- document. Other documents may change the cache at each `await`.
use simplecc.Base.{ℕ, String, Option, none, some, List, [], string_key}
use simplecc.Base.Assoc.{lookup, remove}
use simplecc.SemTok.{Token, TokensEdit, TokenItem}
use simplecc.SemTok.Edits.{Result, ok, err, apply_semantic_token_edits}
use simplecc.SemTok.Decode.{decode_raw_tokens}
use simplecc.SemTok.Bounded.{Cache, Entry, store_semtok_cache}

-- What the server answers, once it decodes; `Option` around it stands for a failure.
pub data FullReply : Type 0 where
  null_full : FullReply
  tokens : Option String → List Token → FullReply

pub data DeltaReply : Type 0 where
  null_delta unreadable : DeltaReply
  as_full : Option String → List Token → DeltaReply
  as_delta : Option String → List TokensEdit → DeltaReply

-- The replies, the times at which they are stored, and what other documents do to the cache
-- before each of them.
pub record World : Type 0 where
  pub delta : Option DeltaReply
  pub delta_time : ℕ
  pub before_delta : Cache → Cache
  pub full : Option FullReply
  pub full_time : ℕ
  pub before_full : Cache → Cache

module _ (type_number : ℕ → String) (type_names mod_names : List String) where
  abbrev decode : List Token → List TokenItem
  decode = decode_raw_tokens type_number type_names mod_names

  unfoldable pub store_full :
      ℕ → String → Cache → Option FullReply → Cache × Option (List TokenItem)
  store_full now uri m none = (m, none)
  store_full now uri m (some null_full) = (remove uri m, some [])
  store_full now uri m (some (tokens id ts)) =
      (store_semtok_cache now uri id ts m, some (decode ts))

  unfoldable pub semantic_tokens_full_inner :
      String → World → Cache → Cache × Option (List TokenItem)
  semantic_tokens_full_inner uri w m = store_full w.full_time uri (w.before_full m) w.full

  unfoldable pub apply_delta :
      String → World → Option String → Cache → Result (List Token) → Cache × Option (List TokenItem)
  apply_delta uri w id m (ok ts) = (store_semtok_cache w.delta_time uri id ts m, some (decode ts))
  apply_delta uri w id m (err e) = semantic_tokens_full_inner uri w (remove uri m)

  unfoldable pub store_delta :
      String → World → List Token → Cache → Option DeltaReply → Cache × Option (List TokenItem)
  store_delta uri w previous m none = semantic_tokens_full_inner uri w (remove uri m)
  store_delta uri w previous m (some null_delta) = (remove uri m, some [])
  store_delta uri w previous m (some unreadable) = semantic_tokens_full_inner uri w (remove uri m)
  store_delta uri w previous m (some (as_full id ts)) =
      (store_semtok_cache w.delta_time uri id ts m, some (decode ts))
  store_delta uri w previous m (some (as_delta id edits)) =
      apply_delta uri w id m (apply_semantic_token_edits previous edits)

  unfoldable pub from_previous :
      String → World → Cache → Option Entry → Option String → Cache × Option (List TokenItem)
  from_previous uri w m none id = semantic_tokens_full_inner uri w m
  from_previous uri w m (some e) none = semantic_tokens_full_inner uri w m
  from_previous uri w m (some e) (some id) = store_delta uri w e.tokens (w.before_delta m) w.delta

  abbrev pub id_of : Option Entry → Option String
  id_of none = none
  id_of (some e) = e.result_id

  unfoldable pub semantic_tokens_full_delta :
      String → World → Cache → Cache × Option (List TokenItem)
  semantic_tokens_full_delta uri w m =
      let previous = lookup uri m in from_previous uri w m previous (id_of previous)
