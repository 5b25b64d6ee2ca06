-- ===== src/Chunk/Storage/Rows.antt =====
-- One row: the search by which a write finds its place is an insertion into a sorted list.
use cortex.Base.{
  is_some, bytes_cmp-swap, bytes_eq_of_cmp, ◌≡◌, refl, List, [], ◌∷◌, ◌++◌, true, false, Bytes,
  bytes_ord, ◌==◌, ltb, leb, none, some, take, drop, get_elem?, All, arith, Bool-cases, inl, inr,
  Ord, if◌then◌else◌,
}
use cortex.Base.Search.{first_index, Monotone, search_list-eq-first_index}
use cortex.Base.Sorted.{AboveKey, AboveKey-trans, IsStrict, leb_trans, leb_of_ltb}
use cortex.Base.Sort.{insert, All-insert}
use cortex.Merge.{find}
use cortex.Merge.Union.{find-before}
use cortex.Chunk.Storage.{MockItem, insert_item, has_range}

module _ {ℓ κ} {A : Type ℓ} {K : Type κ} ⦃o : Ord K⦄ (key : A → K) where
  pub from-Monotone : (k : K) (xs : List A) → IsStrict key xs → Monotone (λ x. leb k (key x)) xs
  from-Monotone k [] s = tt
  from-Monotone k (x ∷ xs) s = (λ h. later xs h s.0, from-Monotone k xs s.1)
    where
      later :
          (ys : List A)
          → leb k (key x) ≡ true
          → AboveKey key (key x) ys
          → All (λ y. leb k (key y) ≡ true) ys
      later [] h a = tt
      later (y ∷ ys) h a =
          (leb_trans k (key x) (key y) h (leb_of_ltb (key x) (key y) a.0), later ys h a.1)

  pub find-insert :
      (x : A) (xs : List A) (k : K)
      → find key k (insert key x xs) ≡ (if key x == k then some x else find key k xs)
  unfolding find insert
  find-insert x [] k = refl
  find-insert x (y ∷ ys) k =
      ground (arith, find-insert x ys k, o.eq_of_cmp (key y) k, o.eq_of_cmp (key x) k, o.cmp-self k)

  ltb_of_find :
      (x y : A) (ys : List A)
      → find key (key x) (y ∷ ys) ≡ none
      → ltb (key y) (key x) ≡ false
      → ltb (key x) (key y) ≡ true
  unfolding find
  ltb_of_find x y ys n h = ground (arith, o.cmp-swap (key x) (key y))

  find_tail : (k : K) (y : A) (ys : List A) → find key k (y ∷ ys) ≡ none → find key k ys ≡ none
  unfolding find
  find_tail k y ys n = ground arith

  pub insert-IsStrict :
      (x : A) (xs : List A)
      → find key (key x) xs ≡ none
      → IsStrict key xs
      → IsStrict key (insert key x xs)
  unfolding insert
  insert-IsStrict x [] n s = (tt, tt)
  insert-IsStrict x (y ∷ ys) n s = elim (Bool-cases (ltb (key y) (key x))) [
    | inl t ↦ rw t (
      All-insert key (λ z. ltb (key y) (key z) ≡ true) x ys t s.0,
      insert-IsStrict x ys (find_tail (key x) y ys n) s.1,
    )
    | inr t ↦
        let below = ltb_of_find x y ys n t in
        rw t ((below, AboveKey-trans key (key x) (key y) ys below s.0), s)
  ]

abbrev pub range_key : MockItem → Bytes
range_key it = it.range_value

insert_at-eq-insert :
    (x : MockItem) (xs : List MockItem)
    → let i = first_index (λ it. leb (range_key x) (range_key it)) xs in
      take i xs ++ x ∷ drop i xs ≡ insert range_key x xs
unfolding first_index insert
insert_at-eq-insert x [] = refl
insert_at-eq-insert x (y ∷ ys) =
    ground (arith, insert_at-eq-insert x ys, bytes_cmp-swap (range_key x) (range_key y))

has_range-first_index :
    (x : MockItem) (xs : List MockItem)
    → IsStrict range_key xs
    → has_range
        (range_key x)
        (get_elem? xs (first_index (λ it. leb (range_key x) (range_key it)) xs))
      ≡ is_some (find range_key (range_key x) xs)
unfolding first_index find
has_range-first_index x [] s = refl
has_range-first_index x (y ∷ ys) s = elim (Bool-cases (ltb (range_key x) (range_key y))) [
  | inl below ↦
      let gone = find-before range_key (range_key x) y ys s below in
      let le = leb_of_ltb (range_key x) (range_key y) below in
      rw (gone, le) (ground (arith, bytes_cmp-swap (range_key x) (range_key y)))
  | inr above ↦ ground (
    arith,
    has_range-first_index x ys s.1,
    bytes_cmp-swap (range_key x) (range_key y),
    bytes_eq_of_cmp (range_key x) (range_key y),
  )
]

-- A write to a row that has the key fails, and otherwise puts the item in its place.
pub insert_item-eq-insert :
    (x : MockItem) (xs : List MockItem)
    → IsStrict range_key xs
    → insert_item xs x
      ≡ (if is_some (find range_key (range_key x) xs) then none else some (insert range_key x xs))
unfolding insert_item
insert_item-eq-insert x xs s =
    rw
      (
        search_list-eq-first_index (λ it. leb (range_key x) (range_key it)) xs
            (from-Monotone range_key (range_key x) xs s),
        has_range-first_index x xs s,
        insert_at-eq-insert x xs,
      )
      refl
