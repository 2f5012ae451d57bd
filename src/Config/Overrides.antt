-- ===== src/Config/Overrides.antt =====
-- What src/simplecc/config.rs leaves of the overrides and of the defaults, path by path.
use simplecc.Base.{◌≡◌, refl, ap, ◌∙◌, String, Option, none, some, List, [], ◌∷◌}
use simplecc.Json.{Json, null, boolean, number, string, array, object, end}
use simplecc.Config.Merge.{get, merge_json_value, DistinctKeys, overlay, merge-get}

-- What a value shows at a path of keys: a value there that is no object, the empty object for any
-- object, or nothing.
unfoldable pub seen : Option Json → List String → Option Json
seen none path = none
seen (some (object fields)) [] = some (object end)
seen (some (object fields)) (k ∷ path) = seen (get k fields) path
seen (some v) [] = some v
seen (some v) (k ∷ path) = none

-- Where only one of the two has something, that is seen; where both have an object, one goes on with
-- what both have at the next key; else the overrides are seen.
unfoldable pub preferred : Option Json → Option Json → List String → Option Json
preferred none base path = seen base path
preferred (some v) none path = seen (some v) path
preferred (some (object overrides)) (some (object base)) [] = some (object end)
preferred (some (object overrides)) (some (object base)) (k ∷ path) =
    preferred (get k overrides) (get k base) path
preferred (some v) (some base) path = seen (some v) path

-- No object along the path has a key twice, as none has in a map.
abbrev pub DistinctAlong : Option Json → List String → Type 0
DistinctAlong none path = Unit {0}
DistinctAlong (some v) [] = Unit {0}
DistinctAlong (some (object fields)) (k ∷ path) =
    DistinctKeys fields × DistinctAlong (get k fields) path
DistinctAlong (some v) (k ∷ path) = Unit {0}

overlay-preferred :
    (o b : Option Json) (path : List String)
    → DistinctAlong o path
    → seen (overlay o b) path ≡ preferred o b path
unfolding seen preferred merge_json_value
overlay-preferred none b path d = refl
overlay-preferred (some v) none path d = refl
overlay-preferred (some (object o)) (some (object b)) [] d = refl
overlay-preferred (some (object o)) (some (object b)) (k ∷ path) (keys, along) =
    ap (λ v. seen v path) (merge-get o b k keys) ∙ overlay-preferred (get k o) (get k b) path along
overlay-preferred (some null) (some b) path d = refl
overlay-preferred (some (boolean x)) (some b) path d = refl
overlay-preferred (some (number x)) (some b) path d = refl
overlay-preferred (some (string x)) (some b) path d = refl
overlay-preferred (some (array x)) (some b) path d = refl
overlay-preferred (some (object o)) (some null) path d = refl
overlay-preferred (some (object o)) (some (boolean x)) path d = refl
overlay-preferred (some (object o)) (some (number x)) path d = refl
overlay-preferred (some (object o)) (some (string x)) path d = refl
overlay-preferred (some (object o)) (some (array x)) path d = refl

-- The overrides win: at every path of keys a merge shows what the overrides have there, a value, a
-- list or an object; below an object that both have, what only the base has is still there, and
-- where the overrides have no object, nothing of the base is. No object of the overrides along the
-- path has a key twice.
pub merge_json_value-preferred :
    (overrides base : Json) (path : List String)
    → DistinctAlong (some overrides) path
    → seen (some (merge_json_value overrides base)) path
      ≡ preferred (some overrides) (some base) path
merge_json_value-preferred overrides base path d =
    overlay-preferred (some overrides) (some base) path d
