-- ===== src/Diagnostics/Tests.antt =====
-- Two diagnostics that src/simplecc/lsp/types.rs gives back, and entries it cannot read.
use simplecc.Base.{◌≡◌, refl, arith, true, none, some, [], ◌∷◌, Result, ok, err}
use simplecc.Json.{Json, null, boolean, array, nil, cons}
use simplecc.Config.{pos, negsuc}
use simplecc.Frames.Text.{value_from}
use simplecc.Diagnostics.{
  Diagnostic, FlatDiagnostic, NumberOrString, number, string, severity_to_u8, severity_from_u8,
  item_of, parse_i32, code_of, into_lsp, parse_entries, parse_context_diagnostics,
}
use simplecc.Diagnostics.Returned.{flat_of, AllReturned, parse_context_diagnostics-AllReturned}

abbrev coded : NumberOrString → Diagnostic
coded code = record {
  line = 3;
  character = 4;
  end_line = 3;
  end_character = 9;
  severity = some (pos 1);
  code = some code;
  source = none;
  message = 120 ∷ [];
  others = null;
}

abbrev read_flat : Json → Result FlatDiagnostic
read_flat null = ok (flat_of (item_of (coded (number (negsuc 41)))))
read_flat (boolean b) = ok (flat_of (item_of (coded (string (50 ∷ 51 ∷ [])))))
read_flat _ = err "missing field `line`"

abbrev read_none : Json → Result Diagnostic
read_none entry = err "missing field `range`"

-- The text "23" comes back as a number, and what cannot be read is reported.
text_of_digits :
    parse_context_diagnostics read_none read_flat
      (array (cons (array nil) (cons (boolean true) nil)))
    ≡ (coded (number (pos 23)) ∷ [], "missing field `line`" ∷ [])
unfolding parse_context_diagnostics parse_entries into_lsp item_of code_of parse_i32 value_from
    severity_to_u8 severity_from_u8
text_of_digits = refl

parse_context_diagnostics-AllReturned_example :
    AllReturned
      (coded (number (negsuc 41)) ∷ [])
      (parse_context_diagnostics read_none read_flat (array (cons null nil))).0
    × ((parse_context_diagnostics read_none read_flat (array (cons null nil))).1 ≡ [])
parse_context_diagnostics-AllReturned_example =
    parse_context_diagnostics-AllReturned read_none read_flat (coded (number (negsuc 41)) ∷ [])
      (cons null nil) (refl, (refl, (omega arith, tt)))
