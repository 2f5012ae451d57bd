-- ===== src/Signature/Shown.antt =====
-- src/simplecc/lsp/types.rs: the signatures that the editor is shown.
use simplecc.Base.{
  ℕ, zero, suc, ◌+◌, ◌≤◌, ◌<◌, ◌≡◌, refl, ap, sym, ◌∙◌, ◌⊎◌, inl, inr, true, false, some, List, [],
  ◌∷◌, arith, length, get_elem?, ltb, leb, ◌==◌, nat_key, if◌then◌else◌, Bool-cases,
}
use simplecc.Completion.{or_else}
use simplecc.Signature.{
  Label, Parameter, ParameterInfo, Signature, SignatureInfo, SignatureHelp, extract_doc, label_of,
  parameter_infos, search_after, or_no_parameters, overload_of, signature_info, remove,
  requested_of, active_of, active_first, infos_from, from_lsp_signature_help,
}
use simplecc.Signature.Ranges.{Stands, label_of-Stands}

-- Every parameter with its own documentation, in the order of the server.
abbrev pub AllStand : Label → List Parameter → List ParameterInfo → Type 0
AllStand whole [] [] = Unit
AllStand whole [] (i ∷ is) = ⊥
AllStand whole (p ∷ ps) [] = ⊥
AllStand whole (p ∷ ps) (i ∷ is) =
    Stands whole p.label i.label i.byte_range
    × ((i.documentation ≡ extract_doc p.documentation) × AllStand whole ps is)

parameter_infos-AllStand :
    (whole : Label) (from : ℕ) (ps : List Parameter)
    → AllStand whole ps (parameter_infos whole from ps)
unfolding parameter_infos
parameter_infos-AllStand whole from [] = tt
parameter_infos-AllStand whole from (p ∷ ps) = (
  label_of-Stands whole from p.label,
  (refl, parameter_infos-AllStand whole (search_after from (label_of whole from p.label).1) ps),
)

-- The active signature is the first, and the others keep their order.
abbrev pub IsPlace : ℕ → ℕ → ℕ → Type 0
IsPlace active zero i = i ≡ active
IsPlace active (suc p) i = ((p < active) × (i ≡ p)) ⊎ ((active ≤ p) × (i ≡ suc p))

-- The entry shows the signature that its index names.
abbrev pub Shows : SignatureHelp → SignatureInfo → Signature → Type 0
Shows help s sig =
    (get_elem? help.signatures s.overload_index ≡ some sig)
    × ((s.overload_count ≡ length help.signatures)
        × ((s.label ≡ sig.label)
            × ((s.documentation ≡ extract_doc sig.documentation)
                × ((s.active_parameter ≡ or_else sig.active_parameter help.active_parameter)
                    × AllStand sig.label (or_no_parameters sig.parameters) s.parameters))))

-- From a place on, up to the number of signatures.
abbrev pub AllShown : SignatureHelp → ℕ → List SignatureInfo → Type 0
AllShown help p [] = p ≡ length help.signatures
AllShown help p (s ∷ ss) =
    IsPlace (active_of help) p s.overload_index
    × (((sig : Signature) × Shows help s sig) × AllShown help (suc p) ss)

overload_of-IsPlace : (active p : ℕ) → IsPlace active p (overload_of active p)
unfolding overload_of
overload_of-IsPlace active zero = refl
overload_of-IsPlace active (suc p) =
    let later : (suc p == 0) ≡ false = ground arith in
    elim (Bool-cases (leb (suc p) active)) [
      | inl near ↦ rw (later, near) (inl (ground (arith, near), omega arith))
      | inr far ↦ rw (later, far) (inr (ground (arith, far), refl))
    ]

overload_of-first : (active : ℕ) → overload_of active 0 ≡ active
unfolding overload_of
overload_of-first active = refl

overload_of-zero : (k : ℕ) → overload_of 0 k ≡ k
unfolding overload_of
overload_of-zero k = ground arith

overload_of-suc : (active k : ℕ) → overload_of active (suc k) ≡ (if ltb k active then k else suc k)
unfolding overload_of
overload_of-suc active k = ground arith

module _ {ℓ} {A : Type ℓ} where
  get_elem-remove :
      (i k : ℕ) (xs : List A)
      → get_elem? (remove i xs) k ≡ get_elem? xs (if ltb k i then k else suc k)
  unfolding remove
  get_elem-remove i k [] = refl
  get_elem-remove zero k (x ∷ xs) = let far : ltb k 0 ≡ false = ground arith in rw far refl
  get_elem-remove (suc i) zero (x ∷ xs) =
      let near : ltb 0 (suc i) ≡ true = ground arith in rw near refl
  get_elem-remove (suc i) (suc k) (x ∷ xs) = elim (Bool-cases (ltb k i)) [
    | inl near ↦
        let also : ltb (suc k) (suc i) ≡ true = ground (arith, near) in
        rw also (get_elem-remove i k xs ∙ ap (λ b. get_elem? xs (if b then k else suc k)) near)
    | inr far ↦
        let also : ltb (suc k) (suc i) ≡ false = ground (arith, far) in
        rw also (get_elem-remove i k xs ∙ ap (λ b. get_elem? xs (if b then k else suc k)) far)
  ]

  length-remove : (i : ℕ) (xs : List A) → i < length xs → suc (length (remove i xs)) ≡ length xs
  unfolding remove
  length-remove i [] h = absurd (omega arith)
  length-remove zero (x ∷ xs) h = refl
  length-remove (suc i) (x ∷ xs) h = ap suc (length-remove i xs (omega arith))

  get_elem-some : (i : ℕ) (xs : List A) → i < length xs → (x : A) × (get_elem? xs i ≡ some x)
  get_elem-some i [] h = absurd (omega arith)
  get_elem-some zero (x ∷ xs) h = (x, refl)
  get_elem-some (suc i) (x ∷ xs) h = get_elem-some i xs (omega arith)

  -- The list with the entry at `active` moved to its front.
  front :
      (active : ℕ) (xs : List A)
      → 0 < active
      → active < length xs
      → (x : A) × ((get_elem? xs active ≡ some x) × (active_first active xs ≡ x ∷ remove active xs))
  unfolding active_first
  front active xs more less =
      let (x, at) = get_elem-some active xs less in
      let yes : ltb 0 active ≡ true = ground (arith, more) in
      let fits : ltb active (length xs) ≡ true = ground (arith, less) in
      (x, (at, rw (yes, fits, at) refl))

  get_elem-active_first :
      (active : ℕ) (xs : List A) (k : ℕ)
      → (active ≡ 0) ⊎ ((0 < active) × (active < length xs))
      → get_elem? (active_first active xs) k ≡ get_elem? xs (overload_of active k)
  unfolding active_first
  get_elem-active_first active xs k (inl first) =
      rw first (ap (get_elem? xs) (sym (overload_of-zero k)))
  get_elem-active_first active xs zero (inr (more, less)) =
      let (x, (at, moved)) = front active xs more less in
      ap (λ t. get_elem? t 0) moved ∙ sym at ∙ ap (get_elem? xs) (sym (overload_of-first active))
  get_elem-active_first active xs (suc k) (inr (more, less)) =
      let (x, (at, moved)) = front active xs more less in
      ap (λ t. get_elem? t (suc k)) moved
      ∙ get_elem-remove active k xs
      ∙ ap (get_elem? xs) (sym (overload_of-suc active k))

  length-active_first :
      (active : ℕ) (xs : List A)
      → (active ≡ 0) ⊎ ((0 < active) × (active < length xs))
      → length (active_first active xs) ≡ length xs
  unfolding active_first
  length-active_first active xs (inl first) = rw first refl
  length-active_first active xs (inr (more, less)) =
      let (x, (at, moved)) = front active xs more less in
      ap length moved ∙ length-remove active xs less

active_of-within :
    (help : SignatureHelp)
    → (active_of help ≡ 0) ⊎ ((0 < active_of help) × (active_of help < length help.signatures))
unfolding active_of
active_of-within help =
    let requested = requested_of help.active_signature in
    elim (Bool-cases (ltb requested (length help.signatures))) [
      | inl within ↦ rw within (ground (arith, within))
      | inr beyond ↦ rw beyond (inl refl)
    ]

-- Below, `sigs` is what is left of the signatures in the order of the answer.
infos_from-AllShown :
    (help : SignatureHelp) (position : ℕ) (sigs : List Signature)
    → ((k : ℕ)
        → get_elem? sigs k
          ≡ get_elem? help.signatures (overload_of (active_of help) (position + k)))
    → position + length sigs ≡ length help.signatures
    → AllShown help position
        (infos_from (length help.signatures) help.active_parameter (active_of help) position sigs)
unfolding infos_from signature_info
infos_from-AllShown help position [] each total = omega (arith, total)
infos_from-AllShown help position (sig ∷ sigs) each total =
    let here : position + 0 ≡ position = omega arith in
    let place = overload_of (active_of help) in
    (
      overload_of-IsPlace (active_of help) position,
      (
        (
          sig,
          (
            sym (each 0 ∙ ap (λ t. get_elem? help.signatures (place t)) here),
            (refl, (refl, (refl, (refl, parameter_infos-AllStand sig.label _ _)))),
          ),
        ),
        infos_from-AllShown help (suc position) sigs
            (λ k. each (suc k) ∙ ap (λ t. get_elem? help.signatures (place t)) (omega arith))
            (omega (arith, total)),
      ),
    )

-- The editor is shown as many entries as the server gave signatures: first the active one of
-- `active_of`, then the others in the order of the server. The index of an entry is the place of its signature in the answer of the server, and
-- label, documentation, number of the active parameter and parameters are that signature's. A
-- parameter with a range stands in the label at exactly these bytes, on the borders of code points,
-- and it is the text that the server named or the part between the two UTF-16 offsets it gave; the
-- text of one without a range is the one named, or empty where there are offsets.
pub from_lsp_signature_help-AllShown :
    (help : SignatureHelp) → AllShown help 0 (from_lsp_signature_help help)
unfolding from_lsp_signature_help
from_lsp_signature_help-AllShown help =
    infos_from-AllShown help 0 _
      (λ k.
        get_elem-active_first (active_of help) help.signatures k (active_of-within help)
        ∙ ap (λ t. get_elem? help.signatures (overload_of (active_of help) t)) (omega arith))
      (omega (arith, length-active_first (active_of help) help.signatures (active_of-within help)))
