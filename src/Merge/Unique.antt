-- ===== src/Merge/Unique.antt =====
-- `unique` on a sorted list keeps the first element of each key.
use cortex.Base.{
  ◌≡◌, refl, true, false, List, [], ◌∷◌, arith, Ord, ltb, leb, ◌==◌, Bool-cases, inl, inr, eq_of_==,
}
use cortex.Base.Sorted.{FromKey, IsSorted, IsStrict, AboveKey-trans}
use cortex.Merge.{unique, unique_from, find}

module _ {ℓ κ} {A : Type ℓ} {K : Type κ} ⦃o : Ord K⦄ (key : A → K) where
  unique_from-same :
      (x y : A) (ys : List A)
      → (key x == key y) ≡ true
      → unique_from key x (y ∷ ys) ≡ unique_from key x ys
  unfolding unique_from
  unique_from-same x y ys e = ground arith

  unique_from-new :
      (x y : A) (ys : List A)
      → (key x == key y) ≡ false
      → unique_from key x (y ∷ ys) ≡ y ∷ unique_from key y ys
  unfolding unique_from
  unique_from-new x y ys e = ground arith

  lt_of_ne :
      (x y : A) → leb (key x) (key y) ≡ true → (key x == key y) ≡ false → ltb (key x) (key y) ≡ true
  lt_of_ne x y h e = ground arith

  unique_from-IsStrict :
      (x : A) (ys : List A)
      → FromKey key (key x) ys
      → IsSorted key ys
      → IsStrict key (x ∷ unique_from key x ys)
  unique_from-IsStrict x [] h s = unfold unique_from in (tt, tt)
  unique_from-IsStrict x (y ∷ ys) h s = elim (Bool-cases (key x == key y)) [
    | inl e ↦ rw (unique_from-same x y ys e) (unique_from-IsStrict x ys h.1 s.1)
    | inr e ↦
        let rest = unique_from-IsStrict y ys s.0 s.1 in
        let lt = lt_of_ne x y h.0 e in
        rw (unique_from-new x y ys e)
          ((lt, AboveKey-trans key (key x) (key y) (unique_from key y ys) lt rest.0), rest)
  ]

  find-unique_from :
      (k : K) (x : A) (ys : List A) → find key k (x ∷ unique_from key x ys) ≡ find key k (x ∷ ys)
  unfolding find
  find-unique_from k x [] = unfold unique_from in refl
  find-unique_from k x (y ∷ ys) = elim (Bool-cases (key x == key y)) [
    | inl e ↦
        rw (unique_from-same x y ys e)
          (ground (arith, find-unique_from k x ys, eq_of_== (key x) (key y) e))
    | inr e ↦ rw (unique_from-new x y ys e) (ground (arith, find-unique_from k y ys))
  ]

  pub unique-IsStrict : (xs : List A) → IsSorted key xs → IsStrict key (unique key xs)
  unfolding unique
  unique-IsStrict [] s = tt
  unique-IsStrict (x ∷ xs) s = unique_from-IsStrict x xs s.0 s.1

  pub find-unique : (k : K) (xs : List A) → find key k (unique key xs) ≡ find key k xs
  unfolding unique
  find-unique k [] = refl
  find-unique k (x ∷ xs) = find-unique_from k x xs
