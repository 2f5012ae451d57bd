-- ===== src/Installer.antt =====
-- src/simplecc/installer.rs: the names of the hidden siblings of an installation, the promotion of
-- a new installation and the recovery after a process has died, and the limits of archives. A name
-- is the list of its code points; all names are those of one directory.
pub mod Archive
pub mod Calls
pub mod Disk
pub mod Names
pub mod Newest
pub mod Outcome
pub mod Promote
pub mod Recover
pub mod Restored
pub mod Safe
pub mod Traversal
pub mod Untouched
mod Tests
use simplecc.Base.{
  ℕ, ◌^◌, Bool, true, false, Option, none, some, List, [], ◌∷◌, ◌++◌, ltb, ◌==◌, nat_key,
  if◌then◌else◌,
}
use simplecc.Diagnostics.{digits_value}
use simplecc.Frames.Stream.{decimal}

abbrev pub Name : Type 0
Name = List ℕ

-- ".name.label-", before the owner.
abbrev pub hidden_prefix : Name → Name → Name
hidden_prefix destination label = 46 ∷ (destination ++ (46 ∷ (label ++ (45 ∷ []))))

-- The labels "installing", "abandoned" and "backup".
abbrev pub installing : Name
installing = 105 ∷ 110 ∷ 115 ∷ 116 ∷ 97 ∷ 108 ∷ 108 ∷ 105 ∷ 110 ∷ 103 ∷ []

abbrev pub abandoned : Name
abandoned = 97 ∷ 98 ∷ 97 ∷ 110 ∷ 100 ∷ 111 ∷ 110 ∷ 101 ∷ 100 ∷ []

abbrev pub backup : Name
backup = 98 ∷ 97 ∷ 99 ∷ 107 ∷ 117 ∷ 112 ∷ []

-- The process and the time, in nanoseconds, are arguments.
unfoldable pub unique_sibling_path : Name → Name → ℕ → ℕ → Name
unique_sibling_path path label pid unique =
    hidden_prefix path label ++ (decimal pid ++ (45 ∷ decimal unique))

unfoldable pub strip_prefix : Name → Name → Option Name
strip_prefix [] cs = some cs
strip_prefix (p ∷ ps) [] = none
strip_prefix (p ∷ ps) (c ∷ cs) = let rest = strip_prefix ps cs in if p == c then rest else none

abbrev pub put_before : ℕ → Option (Name × Name) → Option (Name × Name)
put_before c none = none
put_before c (some (before, behind)) = some (c ∷ before, behind)

-- `split_once('-')`.
unfoldable pub split_dash : Name → Option (Name × Name)
split_dash [] = none
split_dash (c ∷ cs) =
    let rest = split_dash cs in if c == 45 then some ([], cs) else put_before c rest

abbrev pub below : ℕ → Option ℕ → Option ℕ
below limit none = none
below limit (some n) = if ltb n limit then some n else none

-- `parse` to an unsigned type, by the number of its values.
unfoldable pub parse_unsigned : ℕ → Name → Option ℕ
parse_unsigned limit [] = none
parse_unsigned limit (c ∷ cs) =
    if c == 43 then below limit (digits_value cs) else below limit (digits_value (c ∷ cs))

abbrev pub both : Option ℕ → Option ℕ → Option (ℕ × ℕ)
both none stamp = none
both (some pid) none = none
both (some pid) (some stamp) = some (pid, stamp)

abbrev pub owner_of_parts : Option (Name × Name) → Option (ℕ × ℕ)
owner_of_parts none = none
owner_of_parts (some (pid, stamp)) =
    both (parse_unsigned (2 ^ 32) pid) (parse_unsigned (2 ^ 128) stamp)

abbrev pub owner_of_suffix : Option Name → Option (ℕ × ℕ)
owner_of_suffix none = none
owner_of_suffix (some suffix) = owner_of_parts (split_dash suffix)

unfoldable pub hidden_sibling_owner : Name → Name → Name → Option (ℕ × ℕ)
hidden_sibling_owner path destination label =
    owner_of_suffix (strip_prefix (hidden_prefix destination label) path)
