-- ===== src/SemTok/Coherent.antt =====
-- The semantic tokens that the editor gets from src/simplecc/lsp/client.rs are those of the cache.
use simplecc.Base.{
  ℕ, String, ◌≡◌, ◌≤◌, ◌⊎◌, inl, inr, refl, Option, none, some, List, [], arith, length, string_key,
}
use simplecc.Base.Assoc.{
  lookup, remove, Distinct, Distinct-remove, length-remove-le, lookup-remove, lookup-remove_self,
}
use simplecc.SemTok.{Token, TokenItem}
use simplecc.SemTok.Edits.{Result, ok, err, apply_semantic_token_edits}
use simplecc.SemTok.Decode.{decode_raw_tokens}
use simplecc.SemTok.Bounded.{Cache, Entry, store_semtok_cache, semtok_cache_limit}
use simplecc.SemTok.Store.{Older, store_lru}
use simplecc.SemTok.Flow.{
  World, FullReply, null_full, tokens, DeltaReply, null_delta, unreadable, as_full, as_delta,
  store_full, semantic_tokens_full_inner, apply_delta, store_delta, from_previous,
  semantic_tokens_full_delta,
}

-- A cache within its limit, with no double key, used before `now`.
pub record Fits (now : ℕ) (m : Cache) : Type 0 where
  pub distinct : Distinct m
  pub small : length m ≤ semtok_cache_limit
  pub older : Older now m

-- Time goes on, and the other documents keep the cache in order.
pub record Orderly (start : ℕ) (w : World) : Type 0 where
  pub later : start ≤ w.delta_time
  pub delta_step : (m : Cache) → Fits start m → Fits w.delta_time (w.before_delta m)
  pub full_step : (m : Cache) → Fits w.delta_time m → Fits w.full_time (w.before_full m)

Fits-later : {s t : ℕ} {m : Cache} → s ≤ t → Fits s m → Fits t m
Fits-later h f = record {
  distinct = f.distinct;
  small = f.small;
  older = λ j e at. omega (arith, f.older j e at);
}

Fits-remove : (now : ℕ) (uri : String) (m : Cache) → Fits now m → Fits now (remove uri m)
Fits-remove now uri m f = record {
  distinct = Distinct-remove uri m f.distinct;
  small = omega (arith, length-remove-le uri m, f.small);
  older = λ j e at. f.older j e (found j e at);
}
  where
    found : (j : String) (e : Entry) → lookup j (remove uri m) ≡ some e → lookup j m ≡ some e
    found j e at = ground (arith, lookup-remove uri j m)

module _ (type_number : ℕ → String) (type_names mod_names : List String) where
  -- The items are none and the document is not cached, or the cached tokens decode to them.
  abbrev pub Shows : String → Cache × Option (List TokenItem) → Type 0
  Shows uri (m, none) = Unit {0}
  Shows uri (m, some items) =
      ((lookup uri m ≡ none) × (items ≡ []))
      ⊎ ((e : Entry) × (lookup uri m ≡ some e)
          × (items ≡ decode_raw_tokens type_number type_names mod_names e.tokens))

  stored-Shows :
      (now : ℕ) (uri : String) (id : Option String) (ts : List Token) (m : Cache)
      → Fits now m
      → Shows uri (
        store_semtok_cache now uri id ts m,
        some (decode_raw_tokens type_number type_names mod_names ts),
      )
  stored-Shows now uri id ts m f =
      inr (_, (store_lru now uri id ts m f.distinct f.small f.older).2, refl)

  full_inner-Shows :
      (uri : String) (w : World) (m : Cache) (reply : Option FullReply)
      → Fits w.full_time (w.before_full m)
      → Shows uri
          (store_full type_number type_names mod_names w.full_time uri (w.before_full m) reply)
  unfolding store_full
  full_inner-Shows uri w m none o = tt
  full_inner-Shows uri w m (some null_full) o = inl (lookup-remove_self uri _, refl)
  full_inner-Shows uri w m (some (tokens id ts)) o = stored-Shows w.full_time uri id ts _ o

module _ (type_number : ℕ → String) (type_names mod_names : List String) (start : ℕ) (w : World)
    (o : Orderly start w) where
  inner-Shows :
      (uri : String) (m : Cache)
      → Fits w.delta_time m
      → Shows type_number type_names mod_names uri
          (semantic_tokens_full_inner type_number type_names mod_names uri w m)
  unfolding semantic_tokens_full_inner
  inner-Shows uri m f =
      full_inner-Shows type_number type_names mod_names uri w m w.full (o.full_step m f)

  apply_delta-Shows :
      (uri : String) (id : Option String) (m : Cache) (r : Result (List Token))
      → Fits w.delta_time m
      → Shows type_number type_names mod_names uri
          (apply_delta type_number type_names mod_names uri w id m r)
  unfolding apply_delta
  apply_delta-Shows uri id m (ok ts) f =
      stored-Shows type_number type_names mod_names w.delta_time uri id ts m f
  apply_delta-Shows uri id m (err e) f =
      inner-Shows uri (remove uri m) (Fits-remove w.delta_time uri m f)

  store_delta-Shows :
      (uri : String) (previous : List Token) (m : Cache) (reply : Option DeltaReply)
      → Fits w.delta_time m
      → Shows type_number type_names mod_names uri
          (store_delta type_number type_names mod_names uri w previous m reply)
  unfolding store_delta
  store_delta-Shows uri previous m none f =
      inner-Shows uri (remove uri m) (Fits-remove w.delta_time uri m f)
  store_delta-Shows uri previous m (some null_delta) f = inl (lookup-remove_self uri m, refl)
  store_delta-Shows uri previous m (some unreadable) f =
      inner-Shows uri (remove uri m) (Fits-remove w.delta_time uri m f)
  store_delta-Shows uri previous m (some (as_full id ts)) f =
      stored-Shows type_number type_names mod_names w.delta_time uri id ts m f
  store_delta-Shows uri previous m (some (as_delta id edits)) f =
      apply_delta-Shows uri id m (apply_semantic_token_edits previous edits) f

  from_previous-Shows :
      (uri : String) (m : Cache) (e : Option Entry) (id : Option String)
      → Fits start m
      → Shows type_number type_names mod_names uri
          (from_previous type_number type_names mod_names uri w m e id)
  unfolding from_previous
  from_previous-Shows uri m none id f = inner-Shows uri m (Fits-later o.later f)
  from_previous-Shows uri m (some e) none f = inner-Shows uri m (Fits-later o.later f)
  from_previous-Shows uri m (some e) (some id) f =
      store_delta-Shows uri e.tokens (w.before_delta m) w.delta (o.delta_step m f)

-- Whatever the server answers to a delta request, when the call returns items the cache entry of
-- the document decodes to just these items, or there are none and the document is not cached:
-- while time goes on and other documents keep the cache within its limit.
pub full_delta-Shows :
    (type_number : ℕ → String) (type_names mod_names : List String) (start : ℕ) (w : World)
    (uri : String) (m : Cache)
    → Orderly start w
    → Fits start m
    → Shows type_number type_names mod_names uri
        (semantic_tokens_full_delta type_number type_names mod_names uri w m)
full_delta-Shows type_number type_names mod_names start w uri m o f =
    unfold semantic_tokens_full_delta in
    from_previous-Shows type_number type_names mod_names start w o uri m (lookup uri m) _ f
