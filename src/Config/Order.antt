-- ===== src/Config/Order.antt =====
-- src/simplecc/config.rs: the server that a filetype gets is the best of those that serve it.
use simplecc.Base.{
  Option, Option-cases, ◌≡◌, ◌∙◌, refl, sym, subst, ◌⊎◌, inl, inr, Bool-cases, String, true, false,
  none, some, [], ◌∷◌, keep, string_key, arith,
}
use simplecc.Config.{
  ℤ, pos, negsuc, int_leb, str_leb, ServerConfig, Config, ranks, sort_ranked, serves,
  servers_for_filetype, first_of, server_for_filetype,
}
use simplecc.Base.Member.{Has, keep-Has, Has-keep}
use simplecc.Base.Sort.{Sorted, Sorted-sort, Leads-Has, Has-sort, sort-Has}

int_total : (a b : ℤ) → int_leb a b ≡ false → int_leb b a ≡ true
int_total (pos m) (pos n) h = ground arith
int_total (pos m) (negsuc n) h = refl
int_total (negsuc m) (pos n) h = absurd cc
int_total (negsuc m) (negsuc n) h = ground arith

int_trans : (a b c : ℤ) → int_leb a b ≡ true → int_leb b c ≡ true → int_leb a c ≡ true
int_trans (pos m) (pos n) (pos o) h k = ground arith
int_trans (pos m) (pos n) (negsuc o) h k = absurd cc
int_trans (pos m) (negsuc n) c h k = absurd cc
int_trans (negsuc m) (pos n) (pos o) h k = refl
int_trans (negsuc m) (pos n) (negsuc o) h k = absurd cc
int_trans (negsuc m) (negsuc n) (pos o) h k = refl
int_trans (negsuc m) (negsuc n) (negsuc o) h k = ground arith

pub str_total : (s t : String) → str_leb s t ≡ false → str_leb t s ≡ true
unfolding str_leb
str_total String.[] t h = absurd cc
str_total (String.◌∷◌ c s) String.[] h = refl
str_total (String.◌∷◌ c s) (String.◌∷◌ d t) h = ground (arith, str_total s t)

pub str_trans : (s t u : String) → str_leb s t ≡ true → str_leb t u ≡ true → str_leb s u ≡ true
unfolding str_leb
str_trans String.[] t u h k = refl
str_trans (String.◌∷◌ c s) String.[] u h k = absurd cc
str_trans (String.◌∷◌ c s) (String.◌∷◌ d t) String.[] h k = absurd cc
str_trans (String.◌∷◌ c s) (String.◌∷◌ d t) (String.◌∷◌ e u) h k = ground (arith, str_trans s t u)

module _ (x y : String × ServerConfig) where
  ranks_total : ranks x y ≡ false → ranks y x ≡ true
  unfolding ranks
  ranks_total h =
      let (n, a) = x in
      let (m, b) = y in ground (arith, int_total a.priority b.priority, str_total n m)

ranks_trans :
    (x y z : String × ServerConfig) → ranks x y ≡ true → ranks y z ≡ true → ranks x z ≡ true
unfolding ranks
ranks_trans (n, a) (m, b) (o, c) h k = ground (
  arith,
  int_total a.priority b.priority,
  int_total b.priority c.priority,
  int_trans a.priority b.priority c.priority,
  int_trans c.priority b.priority a.priority,
  int_trans b.priority c.priority a.priority,
  int_trans c.priority a.priority b.priority,
  str_trans n m o,
)

abbrev pub Among : String × ServerConfig → Config → Type 0
Among x config = Has x config

first-Best :
    (xs : Config) (x : String × ServerConfig)
    → Sorted ranks xs
    → first_of xs ≡ some x
    → Among x xs × ((y : String × ServerConfig) → Among y xs → (x ≡ y) ⊎ (ranks x y ≡ true))
first-Best [] x r h = absurd cc
first-Best (z ∷ zs) x (lead, r) h =
    let e : z ≡ x = ground (arith, h) in
    (
      inl e,
      λ y a. elim a [
        | inl same ↦ inl (sym e ∙ same)
        | inr w ↦ inr (subst (λ t. ranks t y ≡ true) e (Leads-Has ranks z y zs lead w))
      ],
    )

-- The first server has the higher priority, or the same one and a name that is not behind.
abbrev pub Outranks : String × ServerConfig → String × ServerConfig → Type 0
Outranks (n, a) (m, b) =
    (int_leb b.priority a.priority ≡ true)
    × (int_leb a.priority b.priority ≡ true → str_leb n m ≡ true)

ranks-Outranks : (x y : String × ServerConfig) → ranks x y ≡ true → Outranks x y
unfolding ranks
ranks-Outranks (n, a) (m, b) h =
    (ground (arith, h, int_total a.priority b.priority), λ e. ground (arith, h, e))

server-Outranks :
    (filetype : String) (config : Config) (x : String × ServerConfig)
    → server_for_filetype filetype config ≡ some x
    → (Among x config × (serves filetype x ≡ true))
      × ((y : String × ServerConfig)
          → Among y config
          → serves filetype y ≡ true
          → (x ≡ y) ⊎ Outranks x y)
unfolding server_for_filetype servers_for_filetype sort_ranked
server-Outranks filetype config x h =
    let serving = keep (serves filetype) config in
    let (here, best) =
      first-Best (sort_ranked serving) x (Sorted-sort ranks ranks_total ranks_trans serving) h in
    (
      Has-keep (serves filetype) x config (sort-Has ranks x serving here),
      λ y a s. elim (best y (Has-sort ranks y serving (keep-Has (serves filetype) y config a s))) [
        | inl same ↦ inl same
        | inr first ↦ inr (ranks-Outranks x y first)
      ],
    )

none_empty : (xs : Config) (y : String × ServerConfig) → first_of xs ≡ none → ¬ Among y xs
none_empty [] y h a = a
none_empty (x ∷ xs) y h a = absurd cc

server-none :
    (filetype : String) (config : Config)
    → server_for_filetype filetype config ≡ none
    → (y : String × ServerConfig) → Among y config
    → serves filetype y ≡ false
unfolding server_for_filetype servers_for_filetype sort_ranked
server-none filetype config h y a = elim (Bool-cases (serves filetype y)) [
  | inl found ↦ absurd (
      none_empty (sort_ranked (keep (serves filetype) config)) y h (
        Has-sort ranks y (keep (serves filetype) config)
          (keep-Has (serves filetype) y config a found)))
  | inr missed ↦ missed
]

-- What is known of the server that a filetype gets.
abbrev pub IsChosen : String → Config → Option (String × ServerConfig) → Type 0
IsChosen filetype config none =
    (y : String × ServerConfig) → Among y config → serves filetype y ≡ false
IsChosen filetype config (some x) =
    (Among x config × (serves filetype x ≡ true))
    × ((y : String × ServerConfig)
        → Among y config
        → serves filetype y ≡ true
        → (x ≡ y) ⊎ Outranks x y)

-- The server that a filetype gets is in the configuration and serves the filetype, and each other
-- server that serves it has a lower priority, or the same one and a name that is not before; and a
-- filetype gets no server only when none serves it.
pub server-IsChosen :
    (filetype : String) (config : Config)
    → IsChosen filetype config (server_for_filetype filetype config)
server-IsChosen filetype config = elim (Option-cases (server_for_filetype filetype config)) [
  | inl missing ↦
      subst (IsChosen filetype config) (sym missing) (server-none filetype config missing)
  | inr (x, at) ↦ subst (IsChosen filetype config) (sym at) (server-Outranks filetype config x at)
]
