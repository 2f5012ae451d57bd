-- ===== src/Config/Merge.antt =====
-- src/simplecc/config.rs: the merge of a user's settings over defaults, and what it leaves of both.
use simplecc.Base.{
  ◌≡◌, ◌≢◌, refl, ◌∙◌, subst, inl, inr, Bool-cases, String, eq_refl, Bool, Option, none, some, [],
  ◌∷◌, ◌==◌, string_key, eq_iff, if◌then◌else◌, arith,
}
use simplecc.Config.{ServerConfig, Config, contains}
use simplecc.Json.{Json, null, string, object, Fields, end, field}

-- `get`.
unfoldable pub get : String → Fields → Option Json
get k end = none
get k (field j v rest) = let found = get k rest in if j == k then some v else found

-- `get_mut` and its update by `f`, or else `insert`.
unfoldable pub put : String → (Json → Json) → Json → Fields → Fields
put k f v end = field k v end
put k f v (field j w rest) =
    let rest' = put k f v rest in if j == k then field j (f w) rest else field j w rest'

-- `merge_json_value`, of the overrides over the base.
unfoldable mutual
  pub merge_json_value : Json → Json → Json
  merge_json_value (object overrides) (object base) = object (merge_fields overrides base)
  merge_json_value v base = v

  pub merge_fields : Fields → Fields → Fields
  merge_fields end base = base
  merge_fields (field k v rest) base = merge_fields rest (put k (merge_json_value v) v base)

-- `merge_json`.
unfoldable pub merge_json : Json → Option Json → Option Json
merge_json defaults (some overrides) = some (merge_json_value overrides defaults)
merge_json null none = none
merge_json defaults none = some defaults

-- No key twice, as in a map.
abbrev pub NoKey : String → Fields → Type 0
NoKey k end = Unit
NoKey k (field j v rest) = (j ≢ k) × NoKey k rest

abbrev pub DistinctKeys : Fields → Type 0
DistinctKeys end = Unit
DistinctKeys (field j v rest) = NoKey j rest × DistinctKeys rest

-- What one key holds after a merge: the override merged into the base.
abbrev pub overlay : Option Json → Option Json → Option Json
overlay none base = base
overlay (some v) none = some v
overlay (some v) (some base) = some (merge_json_value v base)

abbrev put_value : (Json → Json) → Json → Option Json → Json
put_value f v none = v
put_value f v (some w) = f w

get-put :
    (k j : String) (f : Json → Json) (v : Json) (b : Fields)
    → get j (put k f v b) ≡ (if k == j then some (put_value f v (get k b)) else get j b)
unfolding get put
get-put k j f v end = ground arith
get-put k j f v (field i w rest) =
    ground (arith, get-put k j f v rest, eq_iff k j, eq_iff i j, eq_iff i k)

get-NoKey : (k : String) (o : Fields) → NoKey k o → get k o ≡ none
unfolding get
get-NoKey k end n = refl
get-NoKey k (field j v rest) (d, n) = ground (arith, get-NoKey k rest n, eq_iff j k)

overlay_put :
    (v : Json) (o : Option Json) → some (put_value (merge_json_value v) v o) ≡ overlay (some v) o
overlay_put v none = refl
overlay_put v (some w) = refl

overlay_same :
    (j : String) (v : Json) (rest b : Fields)
    → NoKey j rest
    → overlay (get j rest) (get j (put j (merge_json_value v) v b)) ≡ overlay (some v) (get j b)
overlay_same j v rest b n = rw (get-NoKey j rest n, get-put, eq_refl j) (overlay_put v (get j b))

overlay_step :
    (j : String) (v : Json) (rest b : Fields) (k : String)
    → NoKey j rest
    → overlay (get k rest) (get k (put j (merge_json_value v) v b))
      ≡ overlay (get k (field j v rest)) (get k b)
unfolding get
overlay_step j v rest b k n = elim (Bool-cases (j == k)) [
  | inl same ↦ rw same (
      subst
        (λ x.
          overlay (get x rest) (get x (put j (merge_json_value v) v b))
          ≡ overlay (some v) (get x b))
        ((eq_iff j k).0 same) (overlay_same j v rest b n))
  | inr other ↦ rw (get-put, other) refl
]

-- What a key holds after a merge.
pub merge-get :
    (o b : Fields) (k : String)
    → DistinctKeys o
    → get k (merge_fields o b) ≡ overlay (get k o) (get k b)
unfolding merge_fields get
merge-get end b k d = refl
merge-get (field j v rest) b k (n, d) =
    merge-get rest (put j (merge_json_value v) v b) k d ∙ overlay_step j v rest b k n

-- The settings that `apply_python_environment` merges.
abbrev python_settings : String → Json
python_settings path = object (
    field "python"
      (object (field "pythonPath" (string path) (field "defaultInterpreterPath" (string path) end)))
      end)

abbrev is_empty : String → Bool
is_empty s = s == ""

abbrev or_object : Option Json → Json
or_object none = object end
or_object (some v) = v

-- One server of `apply_python_environment`.
unfoldable pub apply_python : String → String → ServerConfig → ServerConfig
unfolding merge_json_value
apply_python python_path lsp_path server =
    if contains "python" server.filetypes
    then record server {
      command = if is_empty lsp_path then server.command else lsp_path;
      settings =
          if is_empty python_path
          then server.settings
          else some (merge_json_value (python_settings python_path) (or_object server.settings));
    }
    else server

unfoldable pub apply_python_environment : String → String → Config → Config
apply_python_environment python_path lsp_path [] = []
apply_python_environment python_path lsp_path ((n, server) ∷ rest) =
    (n, apply_python python_path lsp_path server)
    ∷ apply_python_environment python_path lsp_path rest
