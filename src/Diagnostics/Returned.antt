-- ===== src/Diagnostics/Returned.antt =====
-- src/simplecc/lsp/types.rs: what comes back to a server of the diagnostics that it published.
use simplecc.Base.{
  ℕ, ◌≡◌, refl, ap, ◌⊎◌, inl, inr, Option-cases, true, false, Option, none, some, List, [], ◌∷◌,
  Result, ok, arith, ltb, leb, ◌&&◌, suc, zero, ◌==◌, nat_key, if◌then◌else◌,
}
use simplecc.Json.{Json, Items, nil, cons, array, null}
use simplecc.Config.{ℤ, pos, negsuc}
use simplecc.Diagnostics.{
  Diagnostic, DiagnosticItem, FlatDiagnostic, NumberOrString, number, string, value_string,
  CodeValue, severity_to_u8, severity_from_u8, int_to_string, item_of, parse_i32, number_or,
  code_texts, code_of, into_lsp, has_range, parse_entries, parse_context_diagnostics,
}
use simplecc.Diagnostics.Integers.{IsI32, parse-to_string}

abbrev pub string_values : Option (List ℕ) → Option CodeValue
string_values none = none
string_values (some s) = some (value_string s)

-- The fields of a published item, as the editor sends them.
abbrev pub flat_of : DiagnosticItem → FlatDiagnostic
flat_of i = record {
  line = i.line;
  character = i.character;
  end_line = some i.end_line;
  end_character = some i.end_character;
  severity = some i.severity;
  message = i.message;
  source = i.source;
  code = string_values i.code;
}

abbrev pub CodeInRange : Option NumberOrString → Type 0
CodeInRange none = Unit
CodeInRange (some (number n)) = IsI32 n
CodeInRange (some (string s)) = Unit

-- The entries are these diagnostics' items, as serde reads them.
abbrev pub Echoes : (Json → Result FlatDiagnostic) → List Diagnostic → Items → Type 0
Echoes read_flat [] nil = Unit
Echoes read_flat [] (cons entry entries) = ⊥
Echoes read_flat (d ∷ ds) nil = ⊥
Echoes read_flat (d ∷ ds) (cons entry entries) =
    (has_range entry ≡ false)
    × ((read_flat entry ≡ ok (flat_of (item_of d)))
        × (CodeInRange d.code × Echoes read_flat ds entries))

-- One of the four severities of the protocol comes back, and any other as information.
abbrev pub SameSeverity : Option ℤ → Option ℤ → Type 0
SameSeverity none back = back ≡ some (pos 3)
SameSeverity (some (negsuc n)) back = back ≡ some (pos 3)
SameSeverity (some (pos n)) back =
    back ≡ (if ltb 0 n && leb n 4 then some (pos n) else some (pos 3))

-- A number, or a text that is none; a text that is a number comes back as that number.
abbrev pub SameCode : Option NumberOrString → Option NumberOrString → Type 0
SameCode none back = back ≡ none
SameCode (some (number n)) back = back ≡ some (number n)
SameCode (some (string s)) back =
    ((parse_i32 s ≡ none) × (back ≡ some (string s)))
    ⊎ ((n : ℤ) × ((parse_i32 s ≡ some n) × (back ≡ some (number n))))

abbrev pub SameRange : Diagnostic → Diagnostic → Type 0
SameRange d e =
    (e.line ≡ d.line)
    × ((e.character ≡ d.character)
        × ((e.end_line ≡ d.end_line) × (e.end_character ≡ d.end_character)))

abbrev pub AllReturned : List Diagnostic → List Diagnostic → Type 0
AllReturned [] [] = Unit
AllReturned [] (e ∷ es) = ⊥
AllReturned (d ∷ ds) [] = ⊥
AllReturned (d ∷ ds) (e ∷ es) =
    SameRange d e
    × (SameSeverity d.severity e.severity
        × (SameCode d.code e.code
            × ((e.source ≡ d.source)
                × ((e.message ≡ d.message) × ((e.others ≡ null) × AllReturned ds es)))))

severity-SameSeverity :
    (severity : Option ℤ) → SameSeverity severity (severity_from_u8 (severity_to_u8 severity))
unfolding severity_to_u8 severity_from_u8
severity-SameSeverity none = refl
severity-SameSeverity (some (negsuc n)) = refl
severity-SameSeverity (some (pos zero)) = refl
severity-SameSeverity (some (pos (suc zero))) = refl
severity-SameSeverity (some (pos (suc (suc zero)))) = refl
severity-SameSeverity (some (pos (suc (suc (suc zero))))) = refl
severity-SameSeverity (some (pos (suc (suc (suc (suc zero)))))) = refl
severity-SameSeverity (some (pos (suc (suc (suc (suc (suc n))))))) =
    let m = suc (suc (suc (suc (suc n)))) in
    let one : (m == 1) ≡ false = ground arith in
    let two : (m == 2) ≡ false = ground arith in
    let three : (m == 3) ≡ false = ground arith in
    let four : (m == 4) ≡ false = ground arith in
    let some_of : ltb 0 m ≡ true = ground arith in
    let beyond : leb m 4 ≡ false = ground arith in rw (one, two, three, four, some_of, beyond) refl

code-SameCode :
    (code : Option NumberOrString)
    → CodeInRange code
    → SameCode code (code_of (string_values (code_texts code)))
unfolding code_of
code-SameCode none h = refl
code-SameCode (some (number n)) h = ap (number_or (int_to_string n)) (parse-to_string n h)
code-SameCode (some (string s)) h = elim (Option-cases (parse_i32 s)) [
  | inl other ↦ inl (other, ap (number_or s) other)
  | inr (n, digits) ↦ inr (n, (digits, ap (number_or s) digits))
]

module _ (read_diagnostic : Json → Result Diagnostic)
    (read_flat : Json → Result FlatDiagnostic) where
  entries-AllReturned :
      (ds : List Diagnostic) (entries : Items)
      → Echoes read_flat ds entries
      → AllReturned ds (parse_entries read_diagnostic read_flat entries).0
        × ((parse_entries read_diagnostic read_flat entries).1 ≡ [])
  unfolding parse_entries into_lsp item_of
  entries-AllReturned [] nil echoes = (tt, refl)
  entries-AllReturned [] (cons entry entries) echoes = absurd echoes
  entries-AllReturned (d ∷ ds) nil echoes = absurd echoes
  entries-AllReturned (d ∷ ds) (cons entry entries) (flat, (reads, (fits, rest))) =
      let (others, quiet) = entries-AllReturned ds entries rest in
      rw (flat, reads)
        (
          (
            (refl, (refl, (refl, refl))),
            (
              severity-SameSeverity d.severity,
              (code-SameCode d.code fits, (refl, (refl, (refl, others)))),
            ),
          ),
          quiet,
        )

  -- When the editor sends the items of published diagnostics back as the context of a code action,
  -- and serde reads of each entry the fields of its item, every diagnostic reaches the server again,
  -- in order, and no problem is reported. Its range, source and message are the published ones; its
  -- severity is too, or information where the server gave none of the four; a numeric code in the
  -- range of `i32` is the same number, a code that is a text comes back as that text, unless it
  -- reads as such a number, which comes back in its place.
  pub parse_context_diagnostics-AllReturned :
      (ds : List Diagnostic) (entries : Items)
      → Echoes read_flat ds entries
      → AllReturned ds (parse_context_diagnostics read_diagnostic read_flat (array entries)).0
        × ((parse_context_diagnostics read_diagnostic read_flat (array entries)).1 ≡ [])
  unfolding parse_context_diagnostics
  parse_context_diagnostics-AllReturned = entries-AllReturned
