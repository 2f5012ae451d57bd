-- ===== src/Signature.antt =====
-- src/simplecc/lsp/types.rs: from_lsp_signature_help and signature_label_slice. A text is the list
-- of its code points.
pub mod Slices
pub mod Ranges
pub mod Shown
mod Tests
use simplecc.Base.{
  ℕ, zero, suc, ◌+◌, ◌-◌, Bool, true, false, ◌&&◌, Option, none, some, List, [], ◌∷◌, length,
  get_elem?, ltb, leb, ◌==◌, nat_key, if◌then◌else◌,
}
use simplecc.Completion.{or_else}

abbrev pub Label : Type 0
Label = List ℕ

abbrev pub len_utf8 : ℕ → ℕ
len_utf8 c = if ltb c 128 then 1 else if ltb c 2048 then 2 else if ltb c 65536 then 3 else 4

abbrev pub len_utf16 : ℕ → ℕ
len_utf16 c = if ltb c 65536 then 1 else 2

-- `str::len`.
abbrev pub bytes : Label → ℕ
bytes [] = 0
bytes (c ∷ cs) = len_utf8 c + bytes cs

-- `str::get`: what follows the first bytes, and the first bytes; none inside of a code point.
unfoldable pub get_from : ℕ → Label → Option Label
get_from n [] = if n == 0 then some [] else none
get_from n (c ∷ cs) =
    let rest = get_from (n - len_utf8 c) cs in
    if n == 0 then some (c ∷ cs) else if leb (len_utf8 c) n then rest else none

abbrev pub put_first : ℕ → Option Label → Option Label
put_first c none = none
put_first c (some cs) = some (c ∷ cs)

unfoldable pub get_first : ℕ → Label → Option Label
get_first n [] = if n == 0 then some [] else none
get_first n (c ∷ cs) =
    let rest = get_first (n - len_utf8 c) cs in
    if n == 0 then some [] else if leb (len_utf8 c) n then put_first c rest else none

abbrev pub first_of : ℕ → Option Label → Option Label
first_of n none = none
first_of n (some cs) = get_first n cs

unfoldable pub get : ℕ → ℕ → Label → Option Label
get a b cs = if leb a b then first_of (b - a) (get_from a cs) else none

-- `str::find`: the byte where the first occurrence begins.
unfoldable pub starts_with : Label → Label → Bool
starts_with [] cs = true
starts_with (d ∷ ds) [] = false
starts_with (d ∷ ds) (c ∷ cs) = let rest = starts_with ds cs in d == c && rest

abbrev pub after : ℕ → Option ℕ → Option ℕ
after n none = none
after n (some at) = some (n + at)

unfoldable pub find : Label → Label → Option ℕ
find ds [] = if starts_with ds [] then some 0 else none
find ds (c ∷ cs) =
    let rest = find ds cs in if starts_with ds (c ∷ cs) then some 0 else after (len_utf8 c) rest

-- The inner function of `signature_label_slice`, from the units and bytes that are passed.
unfoldable pub byte_offset : ℕ → ℕ → Label → ℕ → Option ℕ
byte_offset units byte [] offset = if units == offset then some byte else none
byte_offset units byte (c ∷ cs) offset =
    let rest = byte_offset (units + len_utf16 c) (byte + len_utf8 c) cs offset in
    if units == offset then some byte else if ltb offset (units + len_utf16 c) then none else rest

-- The slice, and the byte where it begins.
abbrev pub begin_at : ℕ → Option Label → Option (ℕ × Label)
begin_at a none = none
begin_at a (some part) = some (a, part)

abbrev pub slice_between : Label → Option ℕ → Option ℕ → Option (ℕ × Label)
slice_between label none end = none
slice_between label (some a) none = none
slice_between label (some a) (some b) = begin_at a (get a b label)

unfoldable pub signature_label_slice : Label → ℕ → ℕ → Option (ℕ × Label)
signature_label_slice label start end =
    slice_between label (byte_offset 0 0 label start) (byte_offset 0 0 label end)

-- `lsp_types::Documentation`.
pub data Documentation : Type 0 where
  string : Label → Documentation
  markup_content : Label → Label → Documentation

unfoldable pub extract_doc : Option Documentation → Option Label
extract_doc none = none
extract_doc (some (string s)) = some s
extract_doc (some (markup_content kind value)) = some value

pub data ParameterLabel : Type 0 where
  simple : Label → ParameterLabel
  label_offsets : ℕ → ℕ → ParameterLabel

pub record Parameter : Type 0 where
  pub label : ParameterLabel
  pub documentation : Option Documentation

pub record Signature : Type 0 where
  pub label : Label
  pub documentation : Option Documentation
  pub parameters : Option (List Parameter)
  pub active_parameter : Option ℕ

pub record SignatureHelp : Type 0 where
  pub signatures : List Signature
  pub active_signature : Option ℕ
  pub active_parameter : Option ℕ

-- What the editor is told.
pub record ParameterInfo : Type 0 where
  pub byte_range : Option (ℕ × ℕ)
  pub label : Label
  pub documentation : Option Label

pub record SignatureInfo : Type 0 where
  pub overload_index : ℕ
  pub overload_count : ℕ
  pub label : Label
  pub documentation : Option Label
  pub active_parameter : Option ℕ
  pub parameters : List ParameterInfo

abbrev pub find_in : Label → Option Label → Option ℕ
find_in part none = none
find_in part (some tail) = find part tail

abbrev pub range_at : ℕ → ℕ → Option ℕ → Option (ℕ × ℕ)
range_at search_from len none = none
range_at search_from len (some offset) = some (search_from + offset, search_from + offset + len)

abbrev pub is_empty : Label → Bool
is_empty [] = true
is_empty (c ∷ cs) = false

unfoldable pub simple_range : Label → ℕ → Label → Option (ℕ × ℕ)
simple_range whole search_from part =
    if is_empty part
    then none
    else range_at search_from (bytes part) (find_in part (get_from search_from whole))

abbrev pub slice_text : Option (ℕ × Label) → Label
slice_text none = []
slice_text (some (a, part)) = part

abbrev pub slice_range : Option (ℕ × Label) → Option (ℕ × ℕ)
slice_range none = none
slice_range (some (a, part)) = some (a, a + bytes part)

unfoldable pub label_of : Label → ℕ → ParameterLabel → Label × Option (ℕ × ℕ)
label_of whole search_from (simple part) = (part, simple_range whole search_from part)
label_of whole search_from (label_offsets start end) =
    let slice = signature_label_slice whole start end in (slice_text slice, slice_range slice)

abbrev pub search_after : ℕ → Option (ℕ × ℕ) → ℕ
search_after search_from none = search_from
search_after search_from (some (a, b)) = b

abbrev pub parameter_info : Label × Option (ℕ × ℕ) → Option Documentation → ParameterInfo
parameter_info (text, range) doc = record {
  byte_range = range;
  label = text;
  documentation = extract_doc doc;
}

unfoldable pub parameter_infos : Label → ℕ → List Parameter → List ParameterInfo
parameter_infos whole search_from [] = []
parameter_infos whole search_from (p ∷ ps) =
    let it = label_of whole search_from p.label in
    parameter_info it p.documentation ∷ parameter_infos whole (search_after search_from it.1) ps

abbrev pub or_no_parameters : Option (List Parameter) → List Parameter
or_no_parameters none = []
or_no_parameters (some ps) = ps

-- After the first "(".
abbrev pub search_start : Option ℕ → ℕ
search_start none = 0
search_start (some at) = at + 1

unfoldable pub overload_of : ℕ → ℕ → ℕ
overload_of active position =
    if position == 0 then active else if leb position active then position - 1 else position

unfoldable pub signature_info : ℕ → Option ℕ → ℕ → Signature → SignatureInfo
signature_info count active_parameter index sig = record {
  overload_index = index;
  overload_count = count;
  label = sig.label;
  documentation = extract_doc sig.documentation;
  active_parameter = or_else sig.active_parameter active_parameter;
  parameters =
      parameter_infos sig.label (search_start (find (40 ∷ []) sig.label))
        (or_no_parameters sig.parameters);
}

-- `Vec::remove`, without the entry.
unfoldable pub remove {ℓ} : {A : Type ℓ} → ℕ → List A → List A
remove i [] = []
remove zero (x ∷ xs) = xs
remove (suc i) (x ∷ xs) = x ∷ remove i xs

abbrev pub insert_first {ℓ} : {A : Type ℓ} → Option A → List A → List A
insert_first none xs = xs
insert_first (some x) xs = x ∷ xs

abbrev pub requested_of : Option ℕ → ℕ
requested_of none = 0
requested_of (some n) = n

unfoldable pub active_of : SignatureHelp → ℕ
active_of help =
    let requested = requested_of help.active_signature in
    if ltb requested (length help.signatures) then requested else 0

unfoldable pub active_first {ℓ} : {A : Type ℓ} → ℕ → List A → List A
active_first active sigs =
    if ltb 0 active && ltb active (length sigs)
    then insert_first (get_elem? sigs active) (remove active sigs)
    else sigs

unfoldable pub infos_from : ℕ → Option ℕ → ℕ → ℕ → List Signature → List SignatureInfo
infos_from count active_parameter active position [] = []
infos_from count active_parameter active position (sig ∷ sigs) =
    signature_info count active_parameter (overload_of active position) sig
    ∷ infos_from count active_parameter active (suc position) sigs

unfoldable pub from_lsp_signature_help : SignatureHelp → List SignatureInfo
from_lsp_signature_help help =
    infos_from (length help.signatures) help.active_parameter (active_of help) 0
      (active_first (active_of help) help.signatures)
