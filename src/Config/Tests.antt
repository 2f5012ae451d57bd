-- ===== src/Config/Tests.antt =====
-- A configuration with two servers, as src/simplecc/config.rs reads it.
use simplecc.Base.{arith, eq_iff, ◌≡◌, ◌≢◌, refl, String, true, none, some, List, [], ◌∷◌}
use simplecc.Base.Sort.{sort_by, insert_by}
use simplecc.Config.{
  ServerConfig, Config, pos, ranks, servers_for_filetype, sort_ranked, contains,
  server_for_filetype, validate,
}
use simplecc.Config.Merge.{get, merge_json_value, DistinctKeys}
use simplecc.Config.Overrides.{seen, preferred, merge_json_value-preferred}
use simplecc.Config.Order.{Among, IsChosen, server-IsChosen}
use simplecc.Config.Valid.{IsUsable, validate_iff}
use simplecc.Json.{null, boolean, string, object, Fields, end, field}

abbrev pyright : ServerConfig
pyright = record {
  command = "pyright-langserver";
  args = "--stdio" ∷ [];
  filetypes = "python" ∷ [];
  root_patterns = [];
  initialization_options = none;
  settings = none;
  priority = pos 5;
}

abbrev ruff : ServerConfig
ruff = record pyright { command = "ruff"; priority = pos 0 }

abbrev two_servers : Config
two_servers = ("ruff", ruff) ∷ ("pyright", pyright) ∷ []

python_server : server_for_filetype "python" two_servers ≡ some ("pyright", pyright)
unfolding server_for_filetype servers_for_filetype sort_ranked sort_by insert_by ranks contains
python_server = refl

no_server : server_for_filetype "rust" two_servers ≡ none
unfolding server_for_filetype servers_for_filetype sort_ranked sort_by insert_by ranks contains
no_server = refl

server-IsChosen_example : IsChosen "python" two_servers (server_for_filetype "python" two_servers)
server-IsChosen_example = server-IsChosen "python" two_servers

validate_iff_example :
    (validate two_servers ≡ none → (x : String × ServerConfig) → Among x two_servers → IsUsable x)
    × (((x : String × ServerConfig) → Among x two_servers → IsUsable x)
        → validate two_servers ≡ none)
validate_iff_example = validate_iff two_servers

abbrev defaults : Fields
defaults = field "lint" (object (field "run" (boolean true) (field "call" (boolean true) end))) end

abbrev overrides : Fields
overrides = field "lint" (object (field "run" null end)) (field "mode" (string "fast") end)

keys_differ : ◌≢◌ {A = String} "mode" "lint"
keys_differ e = absurd (ground (arith, (eq_iff "mode" "lint").1 e))

overrides_distinct : DistinctKeys overrides
overrides_distinct = ((keys_differ, tt), (tt, tt))

abbrev lint_run : List String
lint_run = "lint" ∷ "run" ∷ []

merge_json_value-preferred_example :
    seen (some (merge_json_value (object overrides) (object defaults))) lint_run
    ≡ preferred (some (object overrides)) (some (object defaults)) lint_run
unfolding get
merge_json_value-preferred_example =
    merge_json_value-preferred (object overrides) (object defaults) lint_run
      (overrides_distinct, ((tt, tt), tt))
