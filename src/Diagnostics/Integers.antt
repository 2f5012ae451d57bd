-- ===== src/Diagnostics/Integers.antt =====
-- src/simplecc/lsp/types.rs and client.rs: the code of a diagnostic, printed and read again.
use simplecc.Base.{
  ℕ, suc, ◌+◌, ◌^◌, ◌<◌, ◌≡◌, refl, ap, sym, ◌∙◌, subst, true, false, some, [], ◌∷◌, arith, ltb,
  ◌==◌, nat_key,
}
use simplecc.Config.{ℤ, pos, negsuc}
use simplecc.Frames.Text.{value_from}
use simplecc.Frames.Stream.{decimal}
use simplecc.Frames.Digits.{AllDigits, digits-AllDigits, value-digits, digits-some}
use simplecc.Diagnostics.{Text, int_to_string, parse_i32, signed, digits_value, to_i32, negated}

-- The range of `i32`.
abbrev pub IsI32 : ℤ → Type 0
IsI32 (pos n) = n < 2 ^ 31
IsI32 (negsuc n) = n < 2 ^ 31

to_i32-some : (z : ℤ) → IsI32 z → to_i32 z ≡ some z
to_i32-some (pos n) h = let fits : ltb n (2 ^ 31) ≡ true = ground (arith, h) in rw fits refl
to_i32-some (negsuc n) h = let fits : ltb n (2 ^ 31) ≡ true = ground (arith, h) in rw fits refl

pub decimal-some : (n : ℕ) → (c : ℕ) × (cs : Text) × (decimal n ≡ c ∷ cs)
decimal-some n = digits-some (n + 1) n [] (omega arith)

pub digits_value-decimal : (n : ℕ) → digits_value (decimal n) ≡ some n
unfolding value_from
digits_value-decimal n =
    let (c, cs, e) = decimal-some n in
    ap digits_value e ∙ sym (ap (value_from 0) e) ∙ value-digits (n + 1) n [] (omega arith)

pub decimal-AllDigits : (n : ℕ) → AllDigits (decimal n)
decimal-AllDigits n = digits-AllDigits (n + 1) n [] (omega arith) tt

-- A text that begins with a digit has no sign.
parse-unsigned :
    (c : ℕ) (cs : Text)
    → AllDigits (c ∷ cs)
    → parse_i32 (c ∷ cs) ≡ signed pos (digits_value (c ∷ cs))
unfolding parse_i32
parse-unsigned c cs h =
    let minus : (c == 45) ≡ false = ground (arith, h) in
    let plus : (c == 43) ≡ false = ground (arith, h) in rw (minus, plus) refl

parse-decimal : (n : ℕ) → parse_i32 (decimal n) ≡ signed pos (digits_value (decimal n))
parse-decimal n =
    let (c, cs, e) = decimal-some n in
    ap parse_i32 e
    ∙ parse-unsigned c cs (subst AllDigits e (decimal-AllDigits n))
    ∙ ap (λ t. signed pos (digits_value t)) (sym e)

pub parse-to_string : (z : ℤ) → IsI32 z → parse_i32 (int_to_string z) ≡ some z
unfolding parse_i32 int_to_string
parse-to_string (pos n) h =
    parse-decimal n ∙ ap (signed pos) (digits_value-decimal n) ∙ to_i32-some (pos n) h
parse-to_string (negsuc n) h =
    ap (signed negated) (digits_value-decimal (suc n)) ∙ to_i32-some (negsuc n) h
