-- ===== src/Config/Valid.antt =====
-- src/simplecc/config.rs: what a configuration that passes the checks is.
use simplecc.Base.{◌≡◌, inl, inr, refl, subst, String, false, none, List, [], ◌∷◌, arith}
use simplecc.Config.{ServerConfig, Config, is_blank, any_blank, server_error, validate}
use simplecc.Config.Order.{Among}

-- No text is blank.
abbrev pub NoneBlank : List String → Type 0
NoneBlank [] = Unit
NoneBlank (s ∷ ss) = (is_blank s ≡ false) × NoneBlank ss

-- What the checks ask of a server.
abbrev pub IsUsable : String × ServerConfig → Type 0
IsUsable (name, server) =
    (is_blank name ≡ false)
    × (is_blank server.command ≡ false)
    × NoneBlank server.filetypes
    × NoneBlank server.root_patterns

any_blank-NoneBlank : (ss : List String) → any_blank ss ≡ false → NoneBlank ss
unfolding any_blank
any_blank-NoneBlank [] h = tt
any_blank-NoneBlank (s ∷ ss) h = (ground arith, any_blank-NoneBlank ss (ground arith))

NoneBlank-any_blank : (ss : List String) → NoneBlank ss → any_blank ss ≡ false
unfolding any_blank
NoneBlank-any_blank [] h = refl
NoneBlank-any_blank (s ∷ ss) (a, rest) = ground (arith, NoneBlank-any_blank ss rest)

server_error-IsUsable : (n : String) (s : ServerConfig) → server_error n s ≡ none → IsUsable (n, s)
unfolding server_error
server_error-IsUsable n s h = (
  ground arith,
  ground arith,
  any_blank-NoneBlank s.filetypes (ground arith),
  any_blank-NoneBlank s.root_patterns (ground arith),
)

IsUsable-server_error : (n : String) (s : ServerConfig) → IsUsable (n, s) → server_error n s ≡ none
unfolding server_error
IsUsable-server_error n s (a, b, c, d) =
    ground (arith, NoneBlank-any_blank s.filetypes c, NoneBlank-any_blank s.root_patterns d)

-- A configuration passes the checks exactly when each of its servers has a name and a command that
-- are not blank, and no blank filetype and no blank root pattern.
pub validate_iff :
    (config : Config)
    → (validate config ≡ none → (x : String × ServerConfig) → Among x config → IsUsable x)
      × (((x : String × ServerConfig) → Among x config → IsUsable x) → validate config ≡ none)
unfolding validate
validate_iff [] = (λ h x a. absurd a, λ h. refl)
validate_iff ((n, s) ∷ rest) =
    let (sound, complete) = validate_iff rest in
    (
      λ h x a. elim a [
        | inl e ↦ subst IsUsable e (server_error-IsUsable n s (ground arith))
        | inr w ↦ sound (ground arith) x w
      ],
      λ h.
          let first = IsUsable-server_error n s (h (n, s) (inl refl)) in
          ground (arith, first, complete (λ x w. h x (inr w))),
    )
