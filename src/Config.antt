-- ===== src/Config.antt =====
-- src/simplecc/config.rs: the servers of a configuration, which of them serves a filetype, and the
-- checks that a configuration passes. Texts are ordered by their code points, as by their bytes.
pub mod Order
pub mod Valid
pub mod Merge
pub mod Overrides
pub mod Effective
mod Tests
use Prim.Native.Char.{code}
use simplecc.Base.Sort.{sort_by}
use simplecc.Base.{
  ℕ, String, Bool, true, false, not, ◌&&◌, ◌||◌, Option, none, some, List, [], ◌∷◌, ltb, leb, keep,
  ◌==◌, nat_key, string_key, if◌then◌else◌,
}
use simplecc.Base.Assoc.{Map}
use simplecc.Json.{Json}

-- An `i32`.
pub data ℤ : Type 0 where
  pos : ℕ → ℤ
  negsuc : ℕ → ℤ

abbrev pub int_leb : ℤ → ℤ → Bool
int_leb (pos m) (pos n) = leb m n
int_leb (pos m) (negsuc n) = false
int_leb (negsuc m) (pos n) = true
int_leb (negsuc m) (negsuc n) = leb n m

unfoldable pub str_leb : String → String → Bool
str_leb String.[] t = true
str_leb (String.◌∷◌ c s) String.[] = false
str_leb (String.◌∷◌ c s) (String.◌∷◌ d t) =
    let rest = str_leb s t in
    if ltb (code c) (code d) then true else if ltb (code d) (code c) then false else rest

pub record ServerConfig : Type 0 where
  pub command : String
  pub args : List String
  pub filetypes : List String
  pub root_patterns : List String
  pub initialization_options : Option Json
  pub settings : Option Json
  pub priority : ℤ

-- `languageServers`.
abbrev pub Config : Type 0
Config = Map String ServerConfig

unfoldable pub contains : String → List String → Bool
contains x [] = false
contains x (y ∷ ys) = let rest = contains x ys in y == x || rest

-- The order of `sort_by`: the higher priority first, and then the names.
unfoldable pub ranks : String × ServerConfig → String × ServerConfig → Bool
ranks (n, a) (m, b) =
    if int_leb a.priority b.priority
    then if int_leb b.priority a.priority then str_leb n m else false
    else true

unfoldable pub sort_ranked : Config → Config
unfolding ranks
sort_ranked config = sort_by ranks config

abbrev pub serves : String → String × ServerConfig → Bool
serves filetype (n, c) = contains filetype c.filetypes

unfoldable pub servers_for_filetype : String → Config → Config
servers_for_filetype filetype config = sort_ranked (keep (serves filetype) config)

abbrev pub first_of {ℓ} : {A : Type ℓ} → List A → Option A
first_of [] = none
first_of (x ∷ xs) = some x

unfoldable pub server_for_filetype : String → Config → Option (String × ServerConfig)
server_for_filetype filetype config = first_of (servers_for_filetype filetype config)

-- `char::is_whitespace`.
abbrev pub is_whitespace : ℕ → Bool
is_whitespace c =
    (leb 9 c && leb c 13)
    || c == 32
    || c == 133
    || c == 160
    || c == 5760
    || (leb 8192 c && leb c 8202)
    || c == 8232
    || c == 8233
    || c == 8239
    || c == 8287
    || c == 12288

-- `trim().is_empty()`.
unfoldable pub is_blank : String → Bool
is_blank String.[] = true
is_blank (String.◌∷◌ c s) = let rest = is_blank s in is_whitespace (code c) && rest

unfoldable pub any_blank : List String → Bool
any_blank [] = false
any_blank (s ∷ ss) = let rest = any_blank ss in is_blank s || rest

pub data ConfigError : Type 0 where
  empty_name : ConfigError
  empty_command empty_filetype empty_root_pattern : String → ConfigError

-- The checks of one server.
unfoldable pub server_error : String → ServerConfig → Option ConfigError
server_error name server =
    if is_blank name
    then some empty_name
    else if is_blank server.command
    then some (empty_command name)
    else if any_blank server.filetypes
    then some (empty_filetype name)
    else if any_blank server.root_patterns
    then some (empty_root_pattern name)
    else none

abbrev pub or_else {ℓ} : {A : Type ℓ} → Option A → Option A → Option A
or_else none o = o
or_else (some a) o = some a

-- `Config::validate`: the first error, or none.
unfoldable pub validate : Config → Option ConfigError
validate [] = none
validate ((n, s) ∷ rest) = or_else (server_error n s) (validate rest)
