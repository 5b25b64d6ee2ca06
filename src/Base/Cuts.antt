-- ===== src/Base/Cuts.antt =====
-- A monotone test cuts a list in two: those that fail it, and those that pass it.
use cortex.Base.{
  Ord, ltb, ◌≡◌, refl, sym, ap, Bool, true, not, ◌&&◌, List, [], ◌∷◌, take, drop, All, filter,
  Bool-cases, inl, inr, arith,
}
use cortex.Base.Search.{first_index, Monotone}
use cortex.Base.Sorted.{IsStrict}

module _ {ℓ} {A : Type ℓ} where
  filter_none :
      (p : A → Bool) (xs : List A) → All (λ x. p x ≡ true) xs → filter (λ x. not (p x)) xs ≡ []
  unfolding filter
  filter_none p [] h = refl
  filter_none p (x ∷ xs) h = rw h.0 (filter_none p xs h.1)

  filter_all : (p : A → Bool) (xs : List A) → All (λ x. p x ≡ true) xs → filter p xs ≡ xs
  unfolding filter
  filter_all p [] h = refl
  filter_all p (x ∷ xs) h = rw h.0 (ap (λ r. x ∷ r) (filter_all p xs h.1))

  pub drop-eq-filter :
      (p : A → Bool) (xs : List A) → Monotone p xs → drop (first_index p xs) xs ≡ filter p xs
  unfolding first_index filter
  drop-eq-filter p [] m = refl
  drop-eq-filter p (x ∷ xs) m = elim (Bool-cases (p x)) [
    | inl t ↦ rw t (ap (λ r. x ∷ r) (sym (filter_all p xs (m.0 t))))
    | inr t ↦ rw t (drop-eq-filter p xs m.1)
  ]

  pub take-eq-filter :
      (p : A → Bool) (xs : List A)
      → Monotone p xs
      → take (first_index p xs) xs ≡ filter (λ x. not (p x)) xs
  unfolding first_index filter
  take-eq-filter p [] m = refl
  take-eq-filter p (x ∷ xs) m = elim (Bool-cases (p x)) [
    | inl t ↦ rw t (sym (filter_none p xs (m.0 t)))
    | inr t ↦ rw t (ap (λ r. x ∷ r) (take-eq-filter p xs m.1))
  ]

  pub filter-filter :
      (p q r : A → Bool)
      → ((x : A) → (p x && q x) ≡ r x)
      → (xs : List A) → filter q (filter p xs) ≡ filter r xs
  unfolding filter
  filter-filter p q r h [] = refl
  filter-filter p q r h (x ∷ xs) = ground (arith, h x, filter-filter p q r h xs)

  pub filter_congr :
      (p q : A → Bool) (xs : List A) → All (λ x. p x ≡ q x) xs → filter p xs ≡ filter q xs
  unfolding filter
  filter_congr p q [] h = refl
  filter_congr p q (x ∷ xs) h = ground (arith, h.0, filter_congr p q xs h.1)

  pub All-filter {κ} :
      (P : A → Type κ) (p : A → Bool) (xs : List A) → All P xs → All P (filter p xs)
  unfolding filter
  All-filter P p [] h = tt
  All-filter P p (x ∷ xs) h = elim (Bool-cases (p x)) [
    | inl t ↦ rw t (h.0, All-filter P p xs h.1)
    | inr t ↦ rw t (All-filter P p xs h.1)
  ]

  pub filter-tests : (p : A → Bool) (xs : List A) → All (λ x. p x ≡ true) (filter p xs)
  unfolding filter
  filter-tests p [] = tt
  filter-tests p (x ∷ xs) = elim (Bool-cases (p x)) [
    | inl t ↦ rw t (t, filter-tests p xs)
    | inr t ↦ rw t (filter-tests p xs)
  ]

module _ {ℓ κ} {A : Type ℓ} {K : Type κ} ⦃o : Ord K⦄ (key : A → K) where
  pub IsStrict-filter : (p : A → Bool) (xs : List A) → IsStrict key xs → IsStrict key (filter p xs)
  unfolding filter
  IsStrict-filter p [] s = tt
  IsStrict-filter p (x ∷ xs) s = elim (Bool-cases (p x)) [
    | inl t ↦ rw t (All-filter (λ y. ltb (key x) (key y) ≡ true) p xs s.0, IsStrict-filter p xs s.1)
    | inr t ↦ rw t (IsStrict-filter p xs s.1)
  ]
