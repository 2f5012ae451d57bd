-- ===== src/Signature/Tests.antt =====
-- Two overloads of src/simplecc/lsp/types.rs, the second of them active.
use simplecc.Base.{ℕ, ◌≡◌, refl, Option, none, some, List, [], ◌∷◌, map}
use simplecc.Signature.{
  Label, Parameter, Signature, SignatureInfo, SignatureHelp, simple, label_offsets, get_from,
  get_first, get, starts_with, find, byte_offset, signature_label_slice, simple_range, label_of,
  parameter_infos, overload_of, signature_info, remove, active_of, active_first, infos_from,
  from_lsp_signature_help,
}
use simplecc.Signature.Shown.{AllShown, from_lsp_signature_help-AllShown}

abbrev signature : Label → List Parameter → Signature
signature label parameters = record {
  label = label;
  documentation = none;
  parameters = some parameters;
  active_parameter = none;
}

-- "f()" and "f(\u{1f600}, b)".
abbrev help : SignatureHelp
help = record {
  signatures =
      signature (102 ∷ 40 ∷ 41 ∷ []) []
      ∷ signature (102 ∷ 40 ∷ 128512 ∷ 44 ∷ 32 ∷ 98 ∷ 41 ∷ []) (
          record { label = simple (128512 ∷ []); documentation = none }
          ∷ record { label = label_offsets 6 7; documentation = none }
          ∷ record { label = label_offsets 3 7; documentation = none }
          ∷ [])
      ∷ [];
  active_signature = some 1;
  active_parameter = some 1;
}

abbrev ranges : SignatureInfo → ℕ × List (Option (ℕ × ℕ))
ranges s = (s.overload_index, map (λ p. p.byte_range) s.parameters)

-- The third parameter begins inside of a surrogate pair.
two_overloads :
    map ranges (from_lsp_signature_help help)
    ≡ (1, some (2, 6) ∷ some (8, 9) ∷ none ∷ []) ∷ (0, []) ∷ []
unfolding from_lsp_signature_help infos_from active_first active_of remove signature_info
    overload_of parameter_infos label_of simple_range signature_label_slice byte_offset find
    starts_with get get_from get_first
two_overloads = refl

from_lsp_signature_help-AllShown_example : AllShown help 0 (from_lsp_signature_help help)
from_lsp_signature_help-AllShown_example = from_lsp_signature_help-AllShown help
