-- ===== src/Diagnostics.antt =====
-- src/simplecc/lsp/types.rs: the severities and parse_context_diagnostics; src/simplecc/lsp/client.rs:
-- what is published of a diagnostic. A text is the list of its code points.
pub mod Integers
pub mod Returned
mod Tests
use simplecc.Base.{
  ℕ, zero, suc, ◌^◌, String, Bool, true, false, Option, none, some, List, [], ◌∷◌, Result, ok, err,
  map, ltb, leb, ◌==◌, nat_key, string_key, if◌then◌else◌,
}
use simplecc.Json.{Json, array, object, null, Items, nil, cons, Fields, end, field}
use simplecc.Config.{ℤ, pos, negsuc}
use simplecc.Frames.Text.{value_from}
use simplecc.Frames.Stream.{decimal, digits_before}

abbrev pub Text : Type 0
Text = List ℕ

-- `lsp_types::NumberOrString`; the number is an `i32`.
pub data NumberOrString : Type 0 where
  number : ℤ → NumberOrString
  string : Text → NumberOrString

-- `lsp_types::Diagnostic`; `others` is null where the fields that the code leaves are at default.
pub record Diagnostic : Type 0 where
  pub line : ℕ
  pub character : ℕ
  pub end_line : ℕ
  pub end_character : ℕ
  pub severity : Option ℤ
  pub code : Option NumberOrString
  pub source : Option Text
  pub message : Text
  pub others : Json

unfoldable pub severity_to_u8 : Option ℤ → ℕ
severity_to_u8 none = 3
severity_to_u8 (some (negsuc n)) = 3
severity_to_u8 (some (pos n)) =
    if n == 1 then 1 else if n == 2 then 2 else if n == 3 then 3 else if n == 4 then 4 else 3

unfoldable pub severity_from_u8 : ℕ → Option ℤ
severity_from_u8 n =
    if n == 1
    then some (pos 1)
    else if n == 2
    then some (pos 2)
    else if n == 3
    then some (pos 3)
    else if n == 4
    then some (pos 4)
    else none

pub record DiagnosticItem : Type 0 where
  pub line : ℕ
  pub character : ℕ
  pub end_line : ℕ
  pub end_character : ℕ
  pub severity : ℕ
  pub message : Text
  pub source : Option Text
  pub code : Option Text

-- `i32::to_string`.
unfoldable pub int_to_string : ℤ → Text
unfolding digits_before
int_to_string (pos n) = decimal n
int_to_string (negsuc n) = 45 ∷ decimal (suc n)

abbrev pub code_text : NumberOrString → Text
code_text (number n) = int_to_string n
code_text (string s) = s

abbrev pub code_texts : Option NumberOrString → Option Text
code_texts none = none
code_texts (some c) = some (code_text c)

-- What the editor is told of a diagnostic.
unfoldable pub item_of : Diagnostic → DiagnosticItem
unfolding int_to_string
item_of d = record {
  line = d.line;
  character = d.character;
  end_line = d.end_line;
  end_character = d.end_character;
  severity = severity_to_u8 d.severity;
  message = d.message;
  source = d.source;
  code = code_texts d.code;
}

-- The code of an entry as JSON: a number as `as_i64` gives it, a text, or another value.
pub data CodeValue : Type 0 where
  value_number : Option ℤ → CodeValue
  value_string : Text → CodeValue
  other_value : CodeValue

pub record FlatDiagnostic : Type 0 where
  pub line : ℕ
  pub character : ℕ
  pub end_line : Option ℕ
  pub end_character : Option ℕ
  pub severity : Option ℕ
  pub message : Text
  pub source : Option Text
  pub code : Option CodeValue

-- `i32::try_from`.
abbrev pub to_i32 : ℤ → Option ℤ
to_i32 (pos n) = if ltb n (2 ^ 31) then some (pos n) else none
to_i32 (negsuc n) = if ltb n (2 ^ 31) then some (negsuc n) else none

abbrev pub negated : ℕ → ℤ
negated zero = pos 0
negated (suc n) = negsuc n

abbrev pub signed : (ℕ → ℤ) → Option ℕ → Option ℤ
signed sign none = none
signed sign (some n) = to_i32 (sign n)

abbrev pub digits_value : Text → Option ℕ
digits_value [] = none
digits_value (c ∷ cs) = value_from 0 (c ∷ cs)

-- `parse::<i32>`.
unfoldable pub parse_i32 : Text → Option ℤ
unfolding value_from
parse_i32 [] = none
parse_i32 (c ∷ cs) =
    if c == 45
    then signed negated (digits_value cs)
    else if c == 43
    then signed pos (digits_value cs)
    else signed pos (digits_value (c ∷ cs))

abbrev pub number_of : Option ℤ → Option NumberOrString
number_of none = none
number_of (some n) = some (number n)

abbrev pub number_or : Text → Option ℤ → Option NumberOrString
number_or s none = some (string s)
number_or s (some n) = some (number n)

abbrev pub narrowed : Option ℤ → Option ℤ
narrowed none = none
narrowed (some n) = to_i32 n

unfoldable pub code_of : Option CodeValue → Option NumberOrString
unfolding parse_i32
code_of none = none
code_of (some (value_number n)) = number_of (narrowed n)
code_of (some (value_string s)) = number_or s (parse_i32 s)
code_of (some other_value) = none

abbrev pub severity_of : Option ℕ → Option ℤ
severity_of none = none
severity_of (some n) = severity_from_u8 n

abbrev pub or_same : Option ℕ → ℕ → ℕ
or_same none n = n
or_same (some m) n = m

unfoldable pub into_lsp : FlatDiagnostic → Diagnostic
unfolding severity_from_u8 code_of
into_lsp flat = record {
  line = flat.line;
  character = flat.character;
  end_line = or_same flat.end_line flat.line;
  end_character = or_same flat.end_character flat.character;
  severity = severity_of flat.severity;
  code = code_of flat.code;
  source = flat.source;
  message = flat.message;
  others = null;
}

abbrev pub has_field : String → Fields → Bool
has_field name end = false
has_field name (field k v rest) = if k == name then true else has_field name rest

abbrev pub has_range : Json → Bool
has_range (object fields) = has_field "range" fields
has_range _ = false

-- What `serde_json::from_value` makes of an entry.
module _ (read_diagnostic : Json → Result Diagnostic)
    (read_flat : Json → Result FlatDiagnostic) where
  abbrev pub put_result :
      Result Diagnostic → List Diagnostic × List String → List Diagnostic × List String
  put_result (ok d) (diagnostics, problems) = (d ∷ diagnostics, problems)
  put_result (err e) (diagnostics, problems) = (diagnostics, e ∷ problems)

  abbrev pub converted : Result FlatDiagnostic → Result Diagnostic
  converted (ok flat) = ok (into_lsp flat)
  converted (err e) = err e

  unfoldable pub parse_entries : Items → List Diagnostic × List String
  unfolding into_lsp
  parse_entries nil = ([], [])
  parse_entries (cons entry entries) =
      let rest = parse_entries entries in
      if has_range entry
      then put_result (read_diagnostic entry) rest
      else put_result (converted (read_flat entry)) rest

  unfoldable pub parse_context_diagnostics : Json → List Diagnostic × List String
  unfolding parse_entries
  parse_context_diagnostics (array entries) = parse_entries entries
  parse_context_diagnostics _ = ([], [])
