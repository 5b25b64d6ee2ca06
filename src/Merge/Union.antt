-- ===== src/Merge/Union.antt =====
-- The deduplicating merge is a union of finite maps, in which the left one wins.
use cortex.Base.{
  ◌≡◌, refl, true, List, [], ◌∷◌, arith, Ord, cmp, ltb, All, Ordering, Ordering-cases, Option, none,
  some, inl, inr, sym,
}
use mathlib.Core.Path.{subst}
use cortex.Base.Sorted.{AboveKey, IsStrict, AboveKey-trans}
use cortex.Merge.{merge, find}

abbrev pub or_else {ℓ} : {A : Type ℓ} → Option A → Option A → Option A
or_else none y = y
or_else (some x) y = some x

module _ {ℓ κ} {A : Type ℓ} {K : Type κ} ⦃o : Ord K⦄ (key : A → K) where
  pub find-above : (k : K) (xs : List A) → AboveKey key k xs → find key k xs ≡ none
  unfolding find
  find-above k [] h = refl
  find-above k (x ∷ xs) h = ground (arith, find-above k xs h.1, o.cmp-swap k (key x))

  -- a smaller key than the first stands nowhere
  pub find-before :
      (k : K) (a : A) (as' : List A)
      → IsStrict key (a ∷ as')
      → ltb k (key a) ≡ true
      → find key k (a ∷ as') ≡ none
  find-before k a as' h lt = find-above k (a ∷ as') (lt, AboveKey-trans key k (key a) as' lt h.0)

  merge_lt :
      (a b : A) (as' bs : List A)
      → cmp (key a) (key b) ≡ Ordering.lt
      → merge key (a ∷ as') (b ∷ bs) ≡ a ∷ merge key as' (b ∷ bs)
  unfolding merge
  merge_lt a b as' bs e = ground arith

  merge_eq :
      (a b : A) (as' bs : List A)
      → cmp (key a) (key b) ≡ Ordering.eq
      → merge key (a ∷ as') (b ∷ bs) ≡ a ∷ merge key as' bs
  unfolding merge
  merge_eq a b as' bs e = ground arith

  merge_gt :
      (a b : A) (as' bs : List A)
      → cmp (key a) (key b) ≡ Ordering.gt
      → merge key (a ∷ as') (b ∷ bs) ≡ b ∷ merge key (a ∷ as') bs
  unfolding merge
  merge_gt a b as' bs e = ground arith

  pub All-merge :
      (P : A → Type 0) (as' bs : List A) → All P as' → All P bs → All P (merge key as' bs)
  unfolding merge
  All-merge P [] bs h k = k
  All-merge P (a ∷ as') [] h k = h
  All-merge P (a ∷ as') (b ∷ bs) h k = elim (Ordering-cases (cmp (key a) (key b))) [
    | inl e ↦ shut (merge_lt a b as' bs e) (h.0, All-merge P as' (b ∷ bs) h.1 k)
    | inr (inl e) ↦ shut (merge_eq a b as' bs e) (h.0, All-merge P as' bs h.1 k.1)
    | inr (inr e) ↦ shut (merge_gt a b as' bs e) (k.0, All-merge P (a ∷ as') bs h k.1)
  ]
    where
      shut : {xs ys : List A} → xs ≡ ys → All P ys → All P xs
      shut e t = subst (All P) (sym e) t

  pub gt→lt : (a b : K) → cmp a b ≡ Ordering.gt → ltb b a ≡ true
  gt→lt a b h = ground (arith, o.cmp-swap a b)

  pub eq→lt : (a b c : K) → cmp a b ≡ Ordering.eq → ltb b c ≡ true → ltb a c ≡ true
  eq→lt a b c h k = ground (arith, o.eq_of_cmp a b)

  AboveKey-eq :
      (a b : K) (xs : List A) → cmp a b ≡ Ordering.eq → AboveKey key b xs → AboveKey key a xs
  AboveKey-eq a b xs e h = rw (o.eq_of_cmp a b e) h

  pub merge-IsStrict :
      (as' bs : List A) → IsStrict key as' → IsStrict key bs → IsStrict key (merge key as' bs)
  merge-IsStrict [] bs h k = unfold merge in k
  merge-IsStrict (a ∷ as') [] h k = unfold merge in h
  merge-IsStrict (a ∷ as') (b ∷ bs) h k = elim (Ordering-cases (cmp (key a) (key b))) [
    | inl e ↦
        let lt : ltb (key a) (key b) ≡ true = ground arith in
        rw (merge_lt a b as' bs e) (
          All-merge _ as' (b ∷ bs) h.0 (lt, AboveKey-trans key (key a) (key b) bs lt k.0),
          merge-IsStrict as' (b ∷ bs) h.1 k,
        )
    | inr (inl e) ↦ rw (merge_eq a b as' bs e) (
      All-merge _ as' bs h.0 (AboveKey-eq (key a) (key b) bs e k.0),
      merge-IsStrict as' bs h.1 k.1,
    )
    | inr (inr e) ↦
        let lt = gt→lt (key a) (key b) e in
        rw (merge_gt a b as' bs e) (
          All-merge _ (a ∷ as') bs (lt, AboveKey-trans key (key b) (key a) as' lt h.0) k.0,
          merge-IsStrict (a ∷ as') bs h k.1,
        )
  ]

  pub find-merge :
      (k : K) (as' bs : List A)
      → IsStrict key as'
      → IsStrict key bs
      → find key k (merge key as' bs) ≡ or_else (find key k as') (find key k bs)
  unfolding find
  find-merge k [] bs h i = unfold merge in refl
  find-merge k (a ∷ as') [] h i = unfold merge in ground arith
  find-merge k (a ∷ as') (b ∷ bs) h i = elim (Ordering-cases (cmp (key a) (key b))) [
    | inl e ↦ rw (merge_lt a b as' bs e) (ground (arith, find-merge k as' (b ∷ bs) h.1 i))
    | inr (inl e) ↦
        rw (merge_eq a b as' bs e)
          (ground (arith, find-merge k as' bs h.1 i.1, o.eq_of_cmp (key a) (key b)))
    | inr (inr e) ↦
        let lt = gt→lt (key a) (key b) e in
        let absent : key b ≡ k → find key k (a ∷ as') ≡ none =
          λ q. find-before k a as' h (rw (← q) lt) in
        rw (merge_gt a b as' bs e)
          (ground (arith, find-merge k (a ∷ as') bs h i.1, absent, o.eq_of_cmp (key b) k))
  ]
