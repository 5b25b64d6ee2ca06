-- ===== src/Base/Sort.antt =====
-- Go's `sort.Sort` by a key. Its result is fixed up to the order of elements with equal keys, for which
-- this insertion sort keeps the order of the input.
use mathlib.Core.List.{Perm, Memᴰ}
use mathlib.Core.List.Perm
use cortex.Base.{
  ◌≡◌, true, List, [], ◌∷◌, Ord, ltb, leb, All, if◌then◌else◌, Bool-cases, inl, inr, ◌⊎◌, In,
}
use cortex.Base.Sorted.{IsSorted, FromKey-trans, leb_of_not_ltb, leb_of_ltb}

module _ {ℓ κ} {A : Type ℓ} {K : Type κ} ⦃o : Ord K⦄ (key : A → K) where
  unfoldable pub insert : A → List A → List A
  insert x [] = x ∷ []
  insert x (y ∷ ys) = if ltb (key y) (key x) then y ∷ insert x ys else x ∷ y ∷ ys

  unfoldable pub sort : List A → List A
  unfolding insert
  sort [] = []
  sort (x ∷ xs) = insert x (sort xs)

  pub All-insert : (P : A → Type 0) (x : A) (ys : List A) → P x → All P ys → All P (insert x ys)
  unfolding insert
  All-insert P x [] p h = (p, h)
  All-insert P x (y ∷ ys) p h = elim (Bool-cases (ltb (key y) (key x))) [
    | inl t ↦ rw t (h.0, All-insert P x ys p h.1)
    | inr t ↦ rw t (p, h)
  ]

  pub insert-IsSorted : (x : A) (ys : List A) → IsSorted key ys → IsSorted key (insert x ys)
  unfolding insert
  insert-IsSorted x [] h = (tt, tt)
  insert-IsSorted x (y ∷ ys) h = elim (Bool-cases (ltb (key y) (key x))) [
    | inl t ↦ rw t (
      All-insert (λ z. leb (key y) (key z) ≡ true) x ys (leb_of_ltb (key y) (key x) t) h.0,
      insert-IsSorted x ys h.1,
    )
    | inr t ↦
        let le = leb_of_not_ltb (key y) (key x) t in
        rw t ((le, FromKey-trans key (key x) (key y) ys le h.0), h)
  ]

  pub sort-IsSorted : (xs : List A) → IsSorted key (sort xs)
  unfolding sort
  sort-IsSorted [] = tt
  sort-IsSorted (x ∷ xs) = insert-IsSorted x (sort xs) (sort-IsSorted xs)

  insert-perm : (x : A) (ys : List A) → Perm (insert x ys) (x ∷ ys)
  unfolding insert
  insert-perm x [] = Perm.refl _
  insert-perm x (y ∷ ys) = elim (Bool-cases (ltb (key y) (key x))) [
    | inl t ↦ rw t (Perm.trans (Perm.cons y (insert-perm x ys)) (Perm.swap _ _ _))
    | inr t ↦ rw t (Perm.refl _)
  ]

  pub sort-perm : (xs : List A) → Perm (sort xs) xs
  unfolding sort
  sort-perm [] = Perm.refl _
  sort-perm (x ∷ xs) = Perm.trans (insert-perm x (sort xs)) (Perm.cons x (sort-perm xs))

  pub All-sort : (P : A → Type 0) (xs : List A) → All P xs → All P (sort xs)
  unfolding sort
  All-sort P [] h = tt
  All-sort P (x ∷ xs) h = All-insert P x (sort xs) h.0 (All-sort P xs h.1)

  In-insert : (a x : A) (ys : List A) → (a ≡ x) ⊎ In a ys → In a (insert x ys)
  unfolding insert
  In-insert a x [] (inl e) = Memᴰ.head e
  In-insert a x [] (inr m) = elim m [ ]
  In-insert a x (y ∷ ys) h = elim (Bool-cases (ltb (key y) (key x))) [
    | inl t ↦ rw t (elim h [
      | inl e ↦ Memᴰ.tail (In-insert a x ys (inl e))
      | inr m ↦ elim m [
        | Memᴰ.head e ↦ Memᴰ.head e
        | Memᴰ.tail m ↦ Memᴰ.tail (In-insert a x ys (inr m))
      ]
    ])
    | inr t ↦ rw t (elim h [ inl e ↦ Memᴰ.head e | inr m ↦ Memᴰ.tail m ])
  ]

  pub In-sort : (a : A) (xs : List A) → In a xs → In a (sort xs)
  unfolding sort
  In-sort a [] m = elim m [ ]
  In-sort a (x ∷ xs) (Memᴰ.head e) = In-insert a x (sort xs) (inl e)
  In-sort a (x ∷ xs) (Memᴰ.tail m) = In-insert a x (sort xs) (inr (In-sort a xs m))
