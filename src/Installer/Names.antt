-- ===== src/Installer/Names.antt =====
-- src/simplecc/installer.rs: the name of a hidden sibling says who has made it.
use simplecc.Base.{
  ℕ, ◌^◌, ◌<◌, ◌≡◌, refl, sym, ap, ◌∙◌, subst, true, false, none, some, [], ◌∷◌, ◌++◌, arith, ltb,
  ◌==◌, nat_key, Key, ◌↔◌, append_assoc, length, length-append,
}
use simplecc.Frames.Stream.{decimal}
use simplecc.Frames.Text.{same_codes}
use simplecc.Frames.Digits.{AllDigits}
use simplecc.Diagnostics.{digits_value}
use simplecc.Diagnostics.Integers.{decimal-some, decimal-AllDigits, digits_value-decimal}
use simplecc.Installer.{
  Name, hidden_prefix, installing, abandoned, backup, unique_sibling_path, strip_prefix, put_before,
  split_dash, below, parse_unsigned, owner_of_suffix, owner_of_parts, both, hidden_sibling_owner,
}

pub same_codes_iff : (a b : Name) → (same_codes a b ≡ true) ↔ (a ≡ b)
unfolding same_codes
same_codes_iff [] [] = (λ e. refl, λ e. refl)
same_codes_iff [] (d ∷ ds) = ground arith
same_codes_iff (c ∷ cs) [] = ground arith
same_codes_iff (c ∷ cs) (d ∷ ds) = ground (arith, same_codes_iff cs ds)

instance abbrev pub name_key : Key Name
name_key = record { same = same_codes; same_iff = same_codes_iff }

-- What a common beginning leaves.
strip_prefix-append : (xs ys zs : Name) → strip_prefix (xs ++ ys) (xs ++ zs) ≡ strip_prefix ys zs
unfolding strip_prefix
strip_prefix-append [] ys zs = refl
strip_prefix-append (x ∷ xs) ys zs =
    let same : (x == x) ≡ true = ground arith in rw same (strip_prefix-append xs ys zs)

strip_prefix-short : (ps cs : Name) → length cs < length ps → strip_prefix ps cs ≡ none
unfolding strip_prefix
strip_prefix-short [] cs h = absurd (omega arith)
strip_prefix-short (p ∷ ps) [] h = refl
strip_prefix-short (p ∷ ps) (c ∷ cs) h = ground (arith, strip_prefix-short ps cs (omega arith))

split_dash-digits :
    (ds rest : Name) → AllDigits ds → split_dash (ds ++ (45 ∷ rest)) ≡ some (ds, rest)
unfolding split_dash
split_dash-digits [] rest h = refl
split_dash-digits (d ∷ ds) rest h =
    let other : (d == 45) ≡ false = ground (arith, h) in
    rw other (ap (put_before d) (split_dash-digits ds rest h.1))

parse-unsigned :
    (limit c : ℕ) (cs : Name)
    → AllDigits (c ∷ cs)
    → parse_unsigned limit (c ∷ cs) ≡ below limit (digits_value (c ∷ cs))
unfolding parse_unsigned
parse-unsigned limit c cs h = let plus : (c == 43) ≡ false = ground (arith, h) in rw plus refl

parse_unsigned-decimal : (limit n : ℕ) → n < limit → parse_unsigned limit (decimal n) ≡ some n
parse_unsigned-decimal limit n h =
    let (c, cs, e) = decimal-some n in
    let fits : ltb n limit ≡ true = ground (arith, h) in
    ap (parse_unsigned limit) e
    ∙ parse-unsigned limit c cs (subst AllDigits e (decimal-AllDigits n))
    ∙ ap (λ t. below limit (digits_value t)) (sym e)
    ∙ ap (below limit) (digits_value-decimal n)
    ∙ (rw fits refl)

strip_prefix_self : (xs ys : Name) → strip_prefix xs (xs ++ ys) ≡ some ys
unfolding strip_prefix
strip_prefix_self [] ys = refl
strip_prefix_self (x ∷ xs) ys =
    let same : (x == x) ≡ true = ground arith in rw same (strip_prefix_self xs ys)

-- The name that a process makes gives back the process and the time.
pub hidden_sibling_owner_unique :
    (destination label : Name) (pid stamp : ℕ)
    → pid < 2 ^ 32
    → stamp < 2 ^ 128
    → hidden_sibling_owner (unique_sibling_path destination label pid stamp) destination label
      ≡ some (pid, stamp)
unfolding hidden_sibling_owner unique_sibling_path
hidden_sibling_owner_unique destination label pid stamp p s =
    ap owner_of_suffix (strip_prefix_self (hidden_prefix destination label) _)
    ∙ ap owner_of_parts (split_dash-digits (decimal pid) (decimal stamp) (decimal-AllDigits pid))
    ∙ ap (λ o. both o (parse_unsigned (2 ^ 128) (decimal stamp)))
        (parse_unsigned-decimal (2 ^ 32) pid p)
    ∙ ap (both (some pid)) (parse_unsigned-decimal (2 ^ 128) stamp s)

-- The installation itself is no hidden sibling.
pub owner-destination :
    (destination label : Name) → hidden_sibling_owner destination destination label ≡ none
unfolding hidden_sibling_owner
owner-destination destination label = ap owner_of_suffix (
    strip_prefix-short (hidden_prefix destination label) destination
      (omega (arith, length-append {0} destination (46 ∷ (label ++ (45 ∷ []))))))

prefix-split :
    (destination label suffix : Name)
    → hidden_prefix destination label ++ suffix
      ≡ (46 ∷ destination) ++ ((46 ∷ (label ++ (45 ∷ []))) ++ suffix)
prefix-split destination label suffix =
    ap (λ t. 46 ∷ t) (append_assoc destination (46 ∷ (label ++ (45 ∷ []))) suffix)

-- What one label says of a name with another is what is left of the two.
owner-labels :
    (destination label other : Name) (pid stamp : ℕ)
    → strip_prefix
        (46 ∷ (other ++ (45 ∷ [])))
        ((46 ∷ (label ++ (45 ∷ []))) ++ (decimal pid ++ (45 ∷ decimal stamp)))
      ≡ none
    → hidden_sibling_owner (unique_sibling_path destination label pid stamp) destination other
      ≡ none
unfolding hidden_sibling_owner unique_sibling_path
owner-labels destination label other pid stamp h = ap owner_of_suffix (
    ap (strip_prefix (hidden_prefix destination other)) (prefix-split destination label _)
    ∙ strip_prefix-append (46 ∷ destination) (46 ∷ (other ++ (45 ∷ []))) _
    ∙ h)

module _ (destination : Name) (pid stamp : ℕ) where
  pub backup-installing :
      hidden_sibling_owner (unique_sibling_path destination backup pid stamp) destination installing
      ≡ none
  unfolding strip_prefix
  backup-installing = owner-labels destination backup installing pid stamp refl

  pub backup-abandoned :
      hidden_sibling_owner (unique_sibling_path destination backup pid stamp) destination abandoned
      ≡ none
  unfolding strip_prefix
  backup-abandoned = owner-labels destination backup abandoned pid stamp refl

  pub installing-backup :
      hidden_sibling_owner (unique_sibling_path destination installing pid stamp) destination backup
      ≡ none
  unfolding strip_prefix
  installing-backup = owner-labels destination installing backup pid stamp refl
