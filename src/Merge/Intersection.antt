-- ===== src/Merge/Intersection.antt =====
-- Intersections: of two sets, and of n sets by halving.
use mathlib.Core.Path.{subst}
use cortex.Base.{
  ◌≡◌, refl, sym, ℕ, zero, suc, ◌/◌, ◌≤◌, ◌<◌, List, [], ◌∷◌, arith, Ord, cmp, All, Ordering,
  Ordering-cases, Option, none, some, inl, inr, take, drop, length, length-take, length-drop,
  All-take, All-drop, ◌∙◌,
}
use cortex.Base.Sorted.{AboveKey, IsStrict}
use cortex.Merge.{intersect, find, n_way_intersect_fuel, n_way_intersect}
use cortex.Merge.Union.{find-before, gt→lt}

-- the element of the left set, where the right set has its key too
abbrev pub both {ℓ} : {A : Type ℓ} → Option A → Option A → Option A
both none y = none
both (some x) none = none
both (some x) (some y) = some x

module _ {ℓ κ} {A : Type ℓ} {K : Type κ} ⦃o : Ord K⦄ (key : A → K) where
  pub intersect_lt :
      (a b : A) (as' bs : List A)
      → cmp (key a) (key b) ≡ Ordering.lt
      → intersect key (a ∷ as') (b ∷ bs) ≡ intersect key as' (b ∷ bs)
  unfolding intersect
  intersect_lt a b as' bs e = ground arith

  pub intersect_eq :
      (a b : A) (as' bs : List A)
      → cmp (key a) (key b) ≡ Ordering.eq
      → intersect key (a ∷ as') (b ∷ bs) ≡ a ∷ intersect key (a ∷ as') bs
  unfolding intersect
  intersect_eq a b as' bs e = ground arith

  pub intersect_gt :
      (a b : A) (as' bs : List A)
      → cmp (key a) (key b) ≡ Ordering.gt
      → intersect key (a ∷ as') (b ∷ bs) ≡ intersect key (a ∷ as') bs
  unfolding intersect
  intersect_gt a b as' bs e = ground arith

  -- After a match the left index stays, and the right list is past the key.
  AboveKey-intersect :
      (k : K) (as' bs : List A)
      → AboveKey key k bs
      → IsStrict key bs
      → AboveKey key k (intersect key as' bs)
  AboveKey-intersect k [] bs h s = unfold intersect in tt
  AboveKey-intersect k (a ∷ as') [] h s = unfold intersect in tt
  AboveKey-intersect k (a ∷ as') (b ∷ bs) h s = elim (Ordering-cases (cmp (key a) (key b))) [
    | inl e ↦ shut (intersect_lt a b as' bs e) (AboveKey-intersect k as' (b ∷ bs) h s)
    | inr (inl e) ↦
        shut (intersect_eq a b as' bs e)
          (rw (o.eq_of_cmp (key a) (key b) e) h.0, AboveKey-intersect k (a ∷ as') bs h.1 s.1)
    | inr (inr e) ↦ shut (intersect_gt a b as' bs e) (AboveKey-intersect k (a ∷ as') bs h.1 s.1)
  ]
    where
      shut : {xs ys : List A} → xs ≡ ys → AboveKey key k ys → AboveKey key k xs
      shut e t = subst (AboveKey key k) (sym e) t

  pub intersect-IsStrict : (as' bs : List A) → IsStrict key bs → IsStrict key (intersect key as' bs)
  intersect-IsStrict [] bs s = unfold intersect in tt
  intersect-IsStrict (a ∷ as') [] s = unfold intersect in tt
  intersect-IsStrict (a ∷ as') (b ∷ bs) s = elim (Ordering-cases (cmp (key a) (key b))) [
    | inl e ↦ rw (intersect_lt a b as' bs e) (intersect-IsStrict as' (b ∷ bs) s)
    | inr (inl e) ↦ rw (intersect_eq a b as' bs e) (
      AboveKey-intersect (key a) (a ∷ as') bs (rw (o.eq_of_cmp (key a) (key b) e) s.0) s.1,
      intersect-IsStrict (a ∷ as') bs s.1,
    )
    | inr (inr e) ↦ rw (intersect_gt a b as' bs e) (intersect-IsStrict (a ∷ as') bs s.1)
  ]

  both-none : (x : Option A) → both x none ≡ none
  both-none none = refl
  both-none (some x) = refl

  pub find-intersect :
      (k : K) (as' bs : List A)
      → IsStrict key as'
      → IsStrict key bs
      → find key k (intersect key as' bs) ≡ both (find key k as') (find key k bs)
  unfolding find
  find-intersect k [] bs h s = unfold intersect in refl
  find-intersect k (a ∷ as') [] h s = unfold intersect in ground arith
  find-intersect k (a ∷ as') (b ∷ bs) h s = elim (Ordering-cases (cmp (key a) (key b))) [
    | inl e ↦
        let absent : key a ≡ k → find key k (b ∷ bs) ≡ none =
          λ q. find-before key k b bs s (rw (← q) (ground arith)) in
        rw (intersect_lt a b as' bs e)
          (ground (arith, find-intersect k as' (b ∷ bs) h.1 s, absent, o.eq_of_cmp (key a) k))
    | inr (inl e) ↦
        rw (intersect_eq a b as' bs e)
          (ground (arith, find-intersect k (a ∷ as') bs h s.1, o.eq_of_cmp (key a) (key b)))
    | inr (inr e) ↦
        let absent : key b ≡ k → find key k (a ∷ as') ≡ none =
          λ q. find-before key k a as' h (rw (← q) (gt→lt key (key a) (key b) e)) in
        rw (intersect_gt a b as' bs e)
          (ground (arith, find-intersect k (a ∷ as') bs h s.1, absent, o.eq_of_cmp (key b) k))
  ]

  -- What all the sets have under a key: the element of the first one.
  abbrev pub find_all : K → List (List A) → Option A
  find_all k [] = none
  find_all k (x ∷ []) = find key k x
  find_all k (x ∷ y ∷ sets) = both (find key k x) (find_all k (y ∷ sets))

  both_assoc : (x y z : Option A) → both x (both y z) ≡ both (both x y) z
  both_assoc none y z = refl
  both_assoc (some x) none z = refl
  both_assoc (some x) (some y) none = refl
  both_assoc (some x) (some y) (some z) = refl

  find_all-split :
      (k : K) (n : ℕ) (sets : List (List A))
      → 0 < n
      → n < length sets
      → find_all k sets ≡ both (find_all k (take n sets)) (find_all k (drop n sets))
  find_all-split k zero sets h l = absurd (omega arith)
  find_all-split k (suc n) [] h l = elim l [ ]
  find_all-split k (suc zero) (x ∷ []) h l = absurd (omega arith)
  find_all-split k (suc zero) (x ∷ y ∷ sets) h l = refl
  find_all-split k (suc (suc n)) (x ∷ []) h l = absurd (omega arith)
  find_all-split k (suc (suc n)) (x ∷ y ∷ sets) h l =
      rw (find_all-split k (suc n) (y ∷ sets) (omega arith) (omega arith)) (both_assoc _ _ _)

  n_way_fuel_lem :
      (fuel : ℕ) (k : K) (sets : List (List A))
      → length sets ≤ fuel
      → All (IsStrict key) sets
      → IsStrict key (n_way_intersect_fuel key fuel sets)
        × (find key k (n_way_intersect_fuel key fuel sets) ≡ find_all k sets)
  unfolding n_way_intersect_fuel
  n_way_fuel_lem fuel k [] l h = (tt, unfold find in refl)
  n_way_fuel_lem fuel k (x ∷ []) l h = (h.0, refl)
  n_way_fuel_lem fuel k (x ∷ y ∷ []) l h =
      (intersect-IsStrict x y h.1.0, find-intersect k x y h.0 h.1.0)
  n_way_fuel_lem zero k (x ∷ y ∷ z ∷ sets) l h = absurd (omega arith)
  n_way_fuel_lem (suc fuel) k (x ∷ y ∷ z ∷ sets) l h =
      let all : List (List A) = x ∷ y ∷ z ∷ sets in
      let split = length all / 2 in
      let left =
        n_way_fuel_lem fuel k (take split all) (omega (arith, length-take split all))
          (All-take _ split all h) in
      let right =
        n_way_fuel_lem fuel k (drop split all) (omega (arith, length-drop split all))
          (All-drop _ split all h) in
      (
        intersect-IsStrict _ _ right.0,
        find-intersect k _ _ left.0 right.0
            ∙ rw (left.1, right.1) (sym (find_all-split k split all (omega arith) (omega arith))),
      )

  -- The intersection of n strictly sorted sets is strictly sorted, and has under each key what all have.
  pub find-n_way_intersect :
      (k : K) (sets : List (List A))
      → All (IsStrict key) sets
      → IsStrict key (n_way_intersect key sets)
        × (find key k (n_way_intersect key sets) ≡ find_all k sets)
  unfolding n_way_intersect
  find-n_way_intersect k sets h = n_way_fuel_lem (length sets) k sets (omega arith) h
