-- ===== src/Merge/Shuffle.antt =====
-- Membership in what ingester/index.go makes of sorted lists that may hold a key twice.
use cortex.Base.{
  ◌≡◌, refl, Bool, true, false, List, [], ◌∷◌, arith, Ord, cmp, ltb, leb, ◌==◌, ◌&&◌, ◌||◌, All,
  if◌then◌else◌, Bool-cases, Ordering-cases, inl, inr, sym,
}
use mathlib.Core.Path.{subst}
use cortex.Base.Sorted.{FromKey, IsSorted, FromKey-trans, leb_of_ltb, leb_of_not_ltb}
use cortex.Merge.{shuffle, intersect}
use cortex.Merge.Intersection.{intersect_lt, intersect_eq, intersect_gt}
use cortex.Merge.Union.{gt→lt}

module _ {ℓ κ} {A : Type ℓ} {K : Type κ} ⦃o : Ord K⦄ (key : A → K) where
  -- some element has the key
  unfoldable pub has : K → List A → Bool
  has k [] = false
  has k (x ∷ xs) = if key x == k then true else has k xs

  shuffle_lt :
      (a b : A) (as' bs : List A)
      → ltb (key a) (key b) ≡ true
      → shuffle key (a ∷ as') (b ∷ bs) ≡ a ∷ shuffle key as' (b ∷ bs)
  unfolding shuffle
  shuffle_lt a b as' bs e = ground arith

  shuffle_ge :
      (a b : A) (as' bs : List A)
      → ltb (key a) (key b) ≡ false
      → shuffle key (a ∷ as') (b ∷ bs) ≡ b ∷ shuffle key (a ∷ as') bs
  unfolding shuffle
  shuffle_ge a b as' bs e = ground arith

  -- The merged list has the keys of both.
  pub has-shuffle : (k : K) (as' bs : List A) → has k (shuffle key as' bs) ≡ (has k as' || has k bs)
  unfolding has
  has-shuffle k [] bs = unfold shuffle in refl
  has-shuffle k (a ∷ as') [] = unfold shuffle in ground arith
  has-shuffle k (a ∷ as') (b ∷ bs) = elim (Bool-cases (ltb (key a) (key b))) [
    | inl e ↦ rw (shuffle_lt a b as' bs e) (ground (arith, has-shuffle k as' (b ∷ bs)))
    | inr e ↦ rw (shuffle_ge a b as' bs e) (ground (arith, has-shuffle k (a ∷ as') bs))
  ]

  All-shuffle :
      (P : A → Type 0) (as' bs : List A) → All P as' → All P bs → All P (shuffle key as' bs)
  All-shuffle P [] bs h k = unfold shuffle in k
  All-shuffle P (a ∷ as') [] h k = unfold shuffle in h
  All-shuffle P (a ∷ as') (b ∷ bs) h k = elim (Bool-cases (ltb (key a) (key b))) [
    | inl e ↦ subst (All P) (sym (shuffle_lt a b as' bs e)) (h.0, All-shuffle P as' (b ∷ bs) h.1 k)
    | inr e ↦ subst (All P) (sym (shuffle_ge a b as' bs e)) (k.0, All-shuffle P (a ∷ as') bs h k.1)
  ]

  pub shuffle-IsSorted :
      (as' bs : List A) → IsSorted key as' → IsSorted key bs → IsSorted key (shuffle key as' bs)
  shuffle-IsSorted [] bs h k = unfold shuffle in k
  shuffle-IsSorted (a ∷ as') [] h k = unfold shuffle in h
  shuffle-IsSorted (a ∷ as') (b ∷ bs) h k = elim (Bool-cases (ltb (key a) (key b))) [
    | inl e ↦
        let le = leb_of_ltb (key a) (key b) e in
        rw (shuffle_lt a b as' bs e) (
          All-shuffle _ as' (b ∷ bs) h.0 (le, FromKey-trans key (key a) (key b) bs le k.0),
          shuffle-IsSorted as' (b ∷ bs) h.1 k,
        )
    | inr e ↦
        let le = leb_of_not_ltb (key a) (key b) e in
        rw (shuffle_ge a b as' bs e) (
          All-shuffle _ (a ∷ as') bs (le, FromKey-trans key (key b) (key a) as' le h.0) k.0,
          shuffle-IsSorted (a ∷ as') bs h k.1,
        )
  ]

  pub has-before :
      (k : K) (b : A) (bs : List A)
      → ltb k (key b) ≡ true
      → FromKey key (key b) bs
      → has k (b ∷ bs) ≡ false
  unfolding has
  has-before k b bs lt h = rw (not_same k (key b) lt) (none_same bs h)
    where
      not_same : (k x : K) → ltb k x ≡ true → (x == k) ≡ false
      not_same k x e = ground (arith, o.cmp-swap k x)

      after : (x : K) → leb (key b) x ≡ true → ltb k x ≡ true
      after x e = ground (arith, o.lt_trans k (key b) x, o.eq_of_cmp (key b) x)

      none_same : (xs : List A) → FromKey key (key b) xs → has k xs ≡ false
      none_same [] h = refl
      none_same (x ∷ xs) h = rw (not_same k (key x) (after (key x) h.0)) (none_same xs h.1)

  -- The intersection has the keys that both have.
  pub has-intersect :
      (k : K) (as' bs : List A)
      → IsSorted key as'
      → IsSorted key bs
      → has k (intersect key as' bs) ≡ (has k as' && has k bs)
  unfolding has
  has-intersect k [] bs h s = unfold intersect in refl
  has-intersect k (a ∷ as') [] h s = unfold intersect in ground arith
  has-intersect k (a ∷ as') (b ∷ bs) h s = elim (Ordering-cases (cmp (key a) (key b))) [
    | inl e ↦
        let absent : key a ≡ k → has k (b ∷ bs) ≡ false =
          λ q. has-before k b bs (rw (← q) (ground arith)) s.0 in
        rw (intersect_lt key a b as' bs e)
          (ground (arith, has-intersect k as' (b ∷ bs) h.1 s, absent, o.eq_of_cmp (key a) k))
    | inr (inl e) ↦
        rw (intersect_eq key a b as' bs e)
          (ground (arith, has-intersect k (a ∷ as') bs h s.1, o.eq_of_cmp (key a) (key b)))
    | inr (inr e) ↦
        let absent : key b ≡ k → has k (a ∷ as') ≡ false =
          λ q. has-before k a as' (rw (← q) (gt→lt key (key a) (key b) e)) h.0 in
        rw (intersect_gt key a b as' bs e)
          (ground (arith, has-intersect k (a ∷ as') bs h s.1, absent, o.eq_of_cmp (key b) k))
  ]

  All-intersect : (P : A → Type 0) (as' bs : List A) → All P as' → All P (intersect key as' bs)
  All-intersect P [] bs h = unfold intersect in tt
  All-intersect P (a ∷ as') [] h = unfold intersect in tt
  All-intersect P (a ∷ as') (b ∷ bs) h = elim (Ordering-cases (cmp (key a) (key b))) [
    | inl e ↦ subst (All P) (sym (intersect_lt key a b as' bs e)) (All-intersect P as' (b ∷ bs) h.1)
    | inr (inl e) ↦
        subst (All P) (sym (intersect_eq key a b as' bs e)) (h.0, All-intersect P (a ∷ as') bs h)
    | inr (inr e) ↦
        subst (All P) (sym (intersect_gt key a b as' bs e)) (All-intersect P (a ∷ as') bs h)
  ]

  leb_refl : (k : K) → leb k k ≡ true
  leb_refl k = ground (arith, o.cmp-self k)

  pub intersect-IsSorted :
      (as' bs : List A) → IsSorted key as' → IsSorted key (intersect key as' bs)
  intersect-IsSorted [] bs h = unfold intersect in tt
  intersect-IsSorted (a ∷ as') [] h = unfold intersect in tt
  intersect-IsSorted (a ∷ as') (b ∷ bs) h = elim (Ordering-cases (cmp (key a) (key b))) [
    | inl e ↦ rw (intersect_lt key a b as' bs e) (intersect-IsSorted as' (b ∷ bs) h.1)
    | inr (inl e) ↦
        rw (intersect_eq key a b as' bs e)
          (All-intersect _ (a ∷ as') bs (leb_refl (key a), h.0), intersect-IsSorted (a ∷ as') bs h)
    | inr (inr e) ↦ rw (intersect_gt key a b as' bs e) (intersect-IsSorted (a ∷ as') bs h)
  ]
