-- ===== src/Merge/Tests.antt =====
-- What a search and a membership test find in a sorted copy of a list, and in what passes a test.
use cortex.Base.{
  ◌≡◌, refl, ap, Bool, true, false, List, [], ◌∷◌, arith, Ord, ◌==◌, ◌||◌, ◌&&◌, is_some, All, sym,
  none, filter, if◌then◌else◌, Bool-cases, inl, inr, eq_of_==,
}
use cortex.Base.Sort.{insert, sort}
use cortex.Base.Sorted.{IsStrict}
use cortex.Merge.{find, unique, merge, n_way_intersect}
use cortex.Merge.Union.{find-merge}
use cortex.Merge.Unique.{find-unique}
use cortex.Merge.Intersection.{find_all, find-n_way_intersect}
use cortex.Merge.Shuffle.{has}

module _ {ℓ κ} {A : Type ℓ} {K : Type κ} ⦃o : Ord K⦄ (key : A → K) where
  has-insert :
      (k : K) (x : A) (xs : List A) → has key k (insert key x xs) ≡ ((key x == k) || has key k xs)
  unfolding has insert
  has-insert k x [] = ground arith
  has-insert k x (y ∷ ys) = ground (arith, has-insert k x ys)

  pub has-sort : (k : K) (xs : List A) → has key k (sort key xs) ≡ has key k xs
  unfolding has sort
  has-sort k [] = refl
  has-sort k (x ∷ xs) = ground (arith, has-insert k x (sort key xs), has-sort k xs)

  -- a test of the key keeps all that a key finds, or nothing of it
  pub find-filter :
      (g : K → Bool) (k : K) (xs : List A)
      → find key k (filter (λ x. g (key x)) xs) ≡ (if g k then find key k xs else none)
  unfolding find filter
  find-filter g k [] = ground arith
  find-filter g k (x ∷ xs) = elim (Bool-cases (key x == k)) [
    | inl e ↦ ground (arith, find-filter g k xs, ap g (eq_of_== (key x) k e))
    | inr e ↦ ground (arith, find-filter g k xs)
  ]

  pub has-find : (k : K) (xs : List A) → has key k xs ≡ is_some (find key k xs)
  unfolding has find
  has-find k [] = refl
  has-find k (x ∷ xs) = ground (arith, has-find k xs)

  pub has-unique : (k : K) (xs : List A) → has key k (unique key xs) ≡ has key k xs
  has-unique k xs = rw (has-find k (unique key xs), find-unique key k xs) (sym (has-find k xs))

  pub has-merge :
      (k : K) (xs ys : List A)
      → IsStrict key xs
      → IsStrict key ys
      → has key k (merge key xs ys) ≡ (has key k xs || has key k ys)
  has-merge k xs ys h i = ground (
    arith,
    has-find k (merge key xs ys),
    has-find k xs,
    has-find k ys,
    find-merge key k xs ys h i,
  )

  -- some list has the key, and each of them has it
  abbrev pub any_has : K → List (List A) → Bool
  any_has k [] = false
  any_has k (xs ∷ xss) = has key k xs || any_has k xss

  abbrev pub all_have : K → List (List A) → Bool
  all_have k [] = true
  all_have k (xs ∷ xss) = has key k xs && all_have k xss

  find_all-have :
      (k : K) (xs : List A) (xss : List (List A))
      → is_some (find_all key k (xs ∷ xss)) ≡ all_have k (xs ∷ xss)
  find_all-have k xs [] = ground (arith, has-find k xs)
  find_all-have k xs (ys ∷ xss) = ground (arith, has-find k xs, find_all-have k ys xss)

  pub has-n_way_intersect :
      (k : K) (xs : List A) (xss : List (List A))
      → All (IsStrict key) (xs ∷ xss)
      → has key k (n_way_intersect key (xs ∷ xss)) ≡ all_have k (xs ∷ xss)
  has-n_way_intersect k xs xss h =
      rw (has-find k (n_way_intersect key (xs ∷ xss)), (find-n_way_intersect key k (xs ∷ xss) h).1)
        (find_all-have k xs xss)
