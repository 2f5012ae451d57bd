-- ===== src/Completion/Rank.antt =====
-- src/simplecc/lsp/types.rs: the order of completion items, and what a cut keeps of them.
use simplecc.Base.{
  ℕ, zero, suc, ◌≡◌, ◌≢◌, ◌⊎◌, inl, inr, refl, sym, ap, ◌∙◌, subst, Bool, Bool-cases, true, false,
  ◌&&◌, ◌==◌, string_key, eq_iff, String, none, some, get_or, List, [], ◌∷◌, ◌++◌, length, take,
  drop, keep, take-append-drop, smaller, arith,
}
use simplecc.Base.Sort.{sort_by, Leads, Sorted, Sorted-sort, sort_stable, length-sort}
use simplecc.Config.{str_leb}
use simplecc.Config.Order.{str_total, str_trans}
use simplecc.Completion.{Item, sort_key, ranks, rank_completion_items, clamp, cut_items}

ranks_total : (a b : Item) → ranks a b ≡ false → ranks b a ≡ true
unfolding ranks
ranks_total a b h =
    ground (arith, h, str_total (sort_key a) (sort_key b), str_total a.label b.label)

ranks_trans : (a b c : Item) → ranks a b ≡ true → ranks b c ≡ true → ranks a c ≡ true
unfolding ranks
ranks_trans a b c h k = ground (
  arith,
  h,
  k,
  str_trans (sort_key a) (sort_key b) (sort_key c),
  str_trans (sort_key c) (sort_key a) (sort_key b),
  str_trans (sort_key b) (sort_key c) (sort_key a),
  str_trans a.label b.label c.label,
)

-- One item may stand before another: its sort text, or its label where it has none, comes first, or
-- the two have one such text and its label comes no later.
abbrev pub text_of : Item → String
text_of item = get_or item.sort_text item.label

abbrev pub MayPrecede : Item → Item → Type 0
MayPrecede a b =
    ((text_of a ≢ text_of b) × (str_leb (text_of a) (text_of b) ≡ true))
    ⊎ ((text_of a ≡ text_of b) × (str_leb a.label b.label ≡ true))

abbrev pub PrecedesAll : Item → List Item → Type 0
PrecedesAll a [] = Unit
PrecedesAll a (b ∷ bs) = MayPrecede a b × PrecedesAll a bs

abbrev pub IsRanked : List Item → Type 0
IsRanked [] = Unit
IsRanked (a ∷ bs) = PrecedesAll a bs × IsRanked bs

text_sort_key : (a : Item) → text_of a ≡ sort_key a
text_sort_key a =
    elim a.sort_text as (λ o. get_or o a.label ≡ (elim o [ none ↦ a.label | some t ↦ t ])) [
      | none ↦ refl
      | some t ↦ refl
    ]

precedes : (a b : Item) → ranks a b ≡ true → MayPrecede a b
unfolding ranks
precedes a b h =
    rw (text_sort_key a, text_sort_key b)
      (elim (Bool-cases (sort_key a == sort_key b)) [
        | inl same ↦ inr (
          (eq_iff (sort_key a) (sort_key b)).0 same,
          ground (arith, h, eq_iff (sort_key a) (sort_key b), str_total (sort_key a) (sort_key b)),
        )
        | inr other ↦
            inl (
              (λ e. absurd (cc (other, (eq_iff (sort_key a) (sort_key b)).1 e))),
              ground (arith, h),
            )
      ])

precedes_all : (a : Item) (bs : List Item) → Leads ranks a bs → PrecedesAll a bs
precedes_all a [] l = tt
precedes_all a (b ∷ bs) (h, l) = (precedes a b h, precedes_all a bs l)

ranked : (items : List Item) → Sorted ranks items → IsRanked items
ranked [] s = tt
ranked (a ∷ bs) (l, s) = (precedes_all a bs l, ranked bs s)

-- The items with one text and one label.
abbrev pub is_like : String → String → Item → Bool
is_like text label item = (text_of item == text) && (item.label == label)

like_ranks :
    (text label : String) (a b : Item)
    → is_like text label a ≡ true
    → is_like text label b ≡ true
    → ranks a b ≡ true
unfolding ranks
like_ranks text label a b h k =
    let a_text : sort_key a ≡ text =
      sym (text_sort_key a) ∙ (eq_iff (text_of a) text).0 (ground (arith, h)) in
    let b_text : sort_key b ≡ text =
      sym (text_sort_key b) ∙ (eq_iff (text_of b) text).0 (ground (arith, k)) in
    let a_label : a.label ≡ label = (eq_iff a.label label).0 (ground (arith, h)) in
    let b_label : b.label ≡ label = (eq_iff b.label label).0 (ground (arith, k)) in
    rw (a_text, b_text, a_label, b_label)
      (ground (arith, str_total text text, str_total label label))

length_take : {A : Type 0} (n : ℕ) (xs : List A) → length (take n xs) ≡ smaller n (length xs)
length_take zero xs = ground arith
length_take (suc n) [] = ground arith
length_take (suc n) (x ∷ xs) = ground (arith, length_take n xs)

-- An answer that is to be sorted is the items that the editor gets, followed by others: all of them
-- are ranked by sort text, or label where there is none, and items with one text by their labels,
-- although the code's comment says that these stay in the server's order; none is lost or made up,
-- and those with one text and one label stay in order. The editor gets as many as it asked for, at
-- least one and at most 500, or all of them where there are fewer.
pub cut_items-IsRanked :
    (max_items : ℕ) (items : List Item)
    → (others : List Item) × (IsRanked (cut_items true max_items items ++ others)
        × ((text label : String)
            → keep (is_like text label) (cut_items true max_items items ++ others)
              ≡ keep (is_like text label) items)
        × (length (cut_items true max_items items)
            ≡ smaller (clamp 1 500 max_items) (length items)))
unfolding cut_items rank_completion_items
cut_items-IsRanked max_items items =
    let n = clamp 1 500 max_items in
    let sorted = sort_by ranks items in
    let whole = sym (take-append-drop n sorted) in
    (
      drop n sorted,
      (
        subst IsRanked whole (ranked sorted (Sorted-sort ranks ranks_total ranks_trans items)),
        (λ text label.
            ap (keep (is_like text label)) (sym whole)
            ∙ sort_stable ranks (is_like text label) (like_ranks text label) items),
        length_take n sorted ∙ ap (smaller n) (length-sort ranks items),
      ),
    )
