-- ===== src/Merge.antt =====
-- The loops over two sorted slices, which several packages repeat: util/util.go (MergeSamples),
-- chunk/by_key.go (unique, merge, nWayIntersect) and ingester/index.go (merge, intersect). An index into
-- a slice is the rest of the list from there. `key` is what the loop compares: a timestamp, an external
-- key, a fingerprint.
pub mod Union
pub mod Intersection
pub mod Unique
pub mod Shuffle
pub mod Tests
use cortex.Base.{
  ℕ, zero, suc, ◌/◌, List, [], ◌∷◌, Ord, cmp, Ordering, Option, none, some, ◌==◌, if◌then◌else◌,
  take, drop, length, ltb, true, false,
}

module _ {ℓ κ} {A : Type ℓ} {K : Type κ} ⦃o : Ord K⦄ (key : A → K) where
  -- util.MergeSamples and chunk.merge: where both have a key, the element of the left list is taken.
  unfoldable pub merge : List A → List A → List A
  merge [] bs = bs
  merge (a ∷ as') [] = a ∷ as'
  merge (a ∷ as') (b ∷ bs) = elim (cmp (key a) (key b)) [
    | Ordering.lt ↦ a ∷ merge as' (b ∷ bs)
    | Ordering.gt ↦ b ∷ merge (a ∷ as') bs
    | Ordering.eq ↦ a ∷ merge as' bs
  ]

  -- ingester's merge, which keeps both of two equal keys.
  unfoldable pub shuffle : List A → List A → List A
  shuffle [] bs = bs
  shuffle (a ∷ as') [] = a ∷ as'
  shuffle (a ∷ as') (b ∷ bs) = elim (ltb (key a) (key b)) [
    | true ↦ a ∷ shuffle as' (b ∷ bs)
    | false ↦ b ∷ shuffle (a ∷ as') bs
  ]

  -- The loop of ingester's intersect, and of nWayIntersect on two sets.
  unfoldable pub intersect : List A → List A → List A
  intersect [] bs = []
  intersect (a ∷ as') [] = []
  intersect (a ∷ as') (b ∷ bs) = elim (cmp (key a) (key b)) [
    | Ordering.lt ↦ intersect as' (b ∷ bs)
    | Ordering.eq ↦ a ∷ intersect (a ∷ as') bs
    | Ordering.gt ↦ intersect (a ∷ as') bs
  ]

  -- chunk.unique, with the last element that was kept.
  unique_from : A → List A → List A
  unique_from x [] = []
  unique_from x (y ∷ ys) = elim (key x == key y) [
    | true ↦ unique_from x ys
    | false ↦ y ∷ unique_from y ys
  ]

  unfoldable pub unique : List A → List A
  unfolding unique_from
  unique [] = []
  unique (x ∷ xs) = x ∷ unique_from x xs

  -- chunk.nWayIntersect. A set of three or more is cut in two halves, and each has fewer sets, so that
  -- as much fuel as sets is enough (Intersection.antt).
  n_way_intersect_fuel : ℕ → List (List A) → List A
  n_way_intersect_fuel fuel [] = []
  n_way_intersect_fuel fuel (x ∷ []) = x
  n_way_intersect_fuel fuel (x ∷ y ∷ []) = intersect x y
  n_way_intersect_fuel zero (x ∷ y ∷ z ∷ sets) = []
  n_way_intersect_fuel (suc fuel) (x ∷ y ∷ z ∷ sets) =
      let split = length (x ∷ y ∷ z ∷ sets) / 2 in
      intersect (n_way_intersect_fuel fuel (take split (x ∷ y ∷ z ∷ sets)))
        (n_way_intersect_fuel fuel (drop split (x ∷ y ∷ z ∷ sets)))

  unfoldable pub n_way_intersect : List (List A) → List A
  unfolding n_way_intersect_fuel intersect
  n_way_intersect sets = n_way_intersect_fuel (length sets) sets

  -- The element that has a key, if one has it: what a sorted list means as a finite map.
  unfoldable pub find : K → List A → Option A
  find k [] = none
  find k (x ∷ xs) = if key x == k then some x else find k xs
