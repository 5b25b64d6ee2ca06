-- ===== src/Chunk/Storage/Pages.antt =====
-- What a query returns of a row, against the test that its entry stands for.
use mathlib.Core.Path.{fun_ext}
use cortex.Base.{
  ℕ, zero, suc, ◌≡◌, refl, sym, ap, ◌∙◌, List, [], ◌∷◌, Bool, true, false, not, ◌&&◌, Bytes,
  bytes_ord, nat_ord, ◌==◌, ltb, leb, Option, none, some, All, take, drop, filter, arith,
  Option-cases, inl, inr, if◌then◌else◌, bytes_cmp-swap, bytes_eq_of_cmp, Result, ok, err, panic,
}
use cortex.Base.Dict
use cortex.Base.Search.{search_list, Monotone, search_list-eq-first_index}
use cortex.Base.Cuts.{drop-eq-filter, take-eq-filter, filter-filter, IsStrict-filter, filter-tests}
use cortex.Base.Sorted.{AboveKey, IsStrict, leb_trans, leb_of_ltb}
use cortex.Chunk.Entries.{IndexEntry}
use cortex.Chunk.Storage.{
  row, StorageError, table_not_found, MockItem, MockStorage, has_prefix, prefix_from, prefix_past,
  query_items, query_pages,
}
use cortex.Chunk.Storage.Rows.{range_key, from-Monotone}
use cortex.Chunk.Storage.Contents.{IsStored}

-- the items that an entry asks for
abbrev pub asked : IndexEntry → MockItem → Bool
asked entry it = elim entry.range_value_prefix [
  | some p ↦ has_prefix it.range_value p
  | none ↦ elim entry.range_value_start [ some start ↦ leb start it.range_value | none ↦ true ]
]

-- the items that reach the callback
abbrev pub page : Option (List MockItem) → List MockItem
page none = []
page (some items) = items

leb-prefix : (a p : Bytes) → has_prefix a p ≡ true → leb p a ≡ true
unfolding has_prefix
leb-prefix [] [] h = refl
leb-prefix [] (y ∷ p) h = cc
leb-prefix (x ∷ a) [] h = refl
leb-prefix (x ∷ a) (y ∷ p) h = ground (arith, leb-prefix a p)

prefix_self : (p : Bytes) → has_prefix p p ≡ true
unfolding has_prefix
prefix_self [] = refl
prefix_self (y ∷ p) = ground (arith, prefix_self p)

-- Between a prefix and a string that has it, every string has it.
prefix_between :
    (p a b : Bytes)
    → leb p a ≡ true
    → leb a b ≡ true
    → has_prefix b p ≡ true
    → has_prefix a p ≡ true
unfolding has_prefix
prefix_between [] a b h k l = refl
prefix_between (y ∷ p) [] b h k l = cc
prefix_between (y ∷ p) (x ∷ a) [] h k l = cc
prefix_between (y ∷ p) (x ∷ a) (z ∷ b) h k l = ground (arith, prefix_between p a b)

prefix_from-eq-leb : (p : Bytes) (it : MockItem) → prefix_from p it ≡ leb p it.range_value
unfolding prefix_from
prefix_from-eq-leb p it =
    ground (arith, leb-prefix it.range_value p, prefix_self p, bytes_eq_of_cmp p it.range_value)

prefix_past_from :
    (p : Bytes) (it : MockItem)
    → (leb p it.range_value && not (prefix_past p it)) ≡ has_prefix it.range_value p
unfolding prefix_past
prefix_past_from p it = ground (arith, leb-prefix it.range_value p, bytes_cmp-swap p it.range_value)

past-later :
    (p : Bytes) (x y : MockItem)
    → leb p x.range_value ≡ true
    → ltb x.range_value y.range_value ≡ true
    → prefix_past p x ≡ true
    → prefix_past p y ≡ true
unfolding prefix_past
past-later p x y h k t = ground (
  arith,
  prefix_between p x.range_value y.range_value,
  leb_of_ltb x.range_value y.range_value k,
  leb_trans p x.range_value y.range_value h,
  bytes_cmp-swap p y.range_value,
  bytes_cmp-swap p x.range_value,
)

past-Monotone :
    (p : Bytes) (xs : List MockItem)
    → IsStrict range_key xs
    → All (λ it. leb p (range_key it) ≡ true) xs
    → Monotone (prefix_past p) xs
past-Monotone p [] s h = tt
past-Monotone p (x ∷ xs) s h = (λ t. later xs s.0 h.0 t, past-Monotone p xs s.1 h.1)
  where
    later :
        (ys : List MockItem)
        → AboveKey range_key (range_key x) ys
        → leb p (range_key x) ≡ true
        → prefix_past p x ≡ true
        → All (λ y. prefix_past p y ≡ true) ys
    later [] a l t = tt
    later (y ∷ ys) a l t = (past-later p x y l a.0 t, later ys a.1 l t)

module _ (p : Bytes) (xs : List MockItem) (s : IsStrict range_key xs) where
  abbrev start_at : List MockItem
  start_at = filter (λ it. leb p (range_key it)) xs

  drop_before : drop (search_list (λ it. leb p (range_key it)) xs) xs ≡ start_at
  drop_before =
      rw
        (search_list-eq-first_index (λ it. leb p (range_key it)) xs
          (from-Monotone range_key p xs s))
        (drop-eq-filter (λ it. leb p (range_key it)) xs (from-Monotone range_key p xs s))

  start_at-Monotone : Monotone (prefix_past p) start_at
  start_at-Monotone =
      past-Monotone p start_at (IsStrict-filter range_key (λ it. leb p (range_key it)) xs s)
        (filter-tests (λ it. leb p (range_key it)) xs)

  take_prefix :
      take (search_list (prefix_past p) start_at) start_at
      ≡ filter (λ it. has_prefix (range_key it) p) xs
  take_prefix = rw (search_list-eq-first_index (prefix_past p) start_at start_at-Monotone) (
      take-eq-filter (prefix_past p) start_at start_at-Monotone
      ∙ filter-filter (λ it. leb p (range_key it)) (λ it. not (prefix_past p it))
          (λ it. has_prefix (range_key it) p) (prefix_past_from p) xs)

filter-true : (xs : List MockItem) → filter (λ it. true) xs ≡ xs
unfolding filter
filter-true [] = refl
filter-true (x ∷ xs) = ap (λ r. x ∷ r) (filter-true xs)

page_if :
    (n : Bool) (ys : List MockItem) → (n ≡ true → ys ≡ []) → page (if n then none else some ys) ≡ ys
page_if true ys h = sym (h refl)
page_if false ys h = refl

empty_take : (j : ℕ) (ys : List MockItem) → (j == 0) ≡ true → take j ys ≡ []
empty_take zero ys h = refl
empty_take (suc j) ys h = ground arith

page-query_items :
    (items : List MockItem) (entry : IndexEntry)
    → IsStrict range_key items
    → page (query_items items entry) ≡ filter (asked entry) items
unfolding query_items
page-query_items items entry s = elim (Option-cases entry.range_value_prefix) [
  | inl e ↦ elim (Option-cases entry.range_value_start) [
    | inl f ↦ rw (e, f) (sym (filter-true items))
    | inr (start, f) ↦ rw (e, f) (drop_before start items s)
  ]
  | inr (p, e) ↦
      let from_eq : prefix_from p ≡ (λ it. leb p (range_key it)) = fun_ext (prefix_from-eq-leb p) in
      rw (e, from_eq, drop_before p items s)
        (page_if (search_list (prefix_past p) (start_at p items s) == 0) _
            (empty_take (search_list (prefix_past p) (start_at p items s)) (start_at p items s))
          ∙ take_prefix p items s)
]

filter_nil : (p : MockItem → Bool) → filter p [] ≡ []
unfolding filter
filter_nil p = refl

abbrev pub pages :
    Result StorageError (Option (List MockItem)) → Result StorageError (List MockItem)
pages (ok p) = ok (page p)
pages (err e) = err e
pages panic = panic

-- the items of the row that the entry asks for
abbrev pub answer : MockStorage → IndexEntry → Result StorageError (List MockItem)
answer s entry = elim (Dict.get s.tables entry.table_name) [
  | none ↦ err table_not_found
  | some table ↦ ok (filter (asked entry) (row table entry.hash_value))
]

-- On tables whose rows are in strict order, a query of a table that exists gives the callback the
-- items of the row that the entry asks for, in order: those with the prefix, or from the start
-- on, or all; and fails on one that does not exist. Not calling the callback counts as giving
-- nothing.
pub query_pages_lem :
    (s : MockStorage) (entry : IndexEntry)
    → IsStored s
    → pages (query_pages s entry) ≡ answer s entry
unfolding query_pages row
query_pages_lem s entry stored = elim (Option-cases (Dict.get s.tables entry.table_name)) [
  | inl e ↦ rw (e, query_pages, answer) refl
  | inr (table, e) ↦ elim (Option-cases (Dict.get table.items entry.hash_value)) [
    | inl f ↦ rw (e, query_pages, f, answer, row) (ap ok (sym (filter_nil (asked entry))))
    | inr (items, f) ↦
        let rows : IsStrict range_key items =
          rw (row, f) at (stored entry.table_name table e entry.hash_value) in
        rw (e, query_pages, f, answer, row) (ap ok (page-query_items items entry rows))
  ]
]
