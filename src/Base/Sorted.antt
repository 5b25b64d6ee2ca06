-- ===== src/Base/Sorted.antt =====
-- Lists in the order of a key: weakly (what `sort.Sort` leaves) and strictly (no key twice).
use cortex.Base.{◌≡◌, true, false, List, [], ◌∷◌, arith, Ord, ltb, leb, All}

module _ {ℓ} {K : Type ℓ} ⦃o : Ord K⦄ where
  pub ltb_trans : (a b c : K) → ltb a b ≡ true → ltb b c ≡ true → ltb a c ≡ true
  ltb_trans a b c h k = ground (arith, o.lt_trans a b c)

  pub leb_trans : (a b c : K) → leb a b ≡ true → leb b c ≡ true → leb a c ≡ true
  leb_trans a b c h k =
      ground (arith, o.lt_trans a b c, o.eq_of_cmp a b, o.eq_of_cmp b c, o.cmp-self a)

  pub leb_of_ltb : (a b : K) → ltb a b ≡ true → leb a b ≡ true
  leb_of_ltb a b h = ground arith

  pub leb_of_not_ltb : (a b : K) → ltb a b ≡ false → leb b a ≡ true
  leb_of_not_ltb a b h = ground (arith, o.cmp-swap a b)

module _ {ℓ κ} {A : Type ℓ} {K : Type κ} ⦃o : Ord K⦄ (key : A → K) where
  -- no key after `k` is smaller
  abbrev pub FromKey : K → List A → Type 0
  FromKey k xs = All (λ y. leb k (key y) ≡ true) xs

  abbrev pub AboveKey : K → List A → Type 0
  AboveKey k xs = All (λ y. ltb k (key y) ≡ true) xs

  abbrev pub IsSorted : List A → Type 0
  IsSorted [] = Unit
  IsSorted (x ∷ xs) = FromKey (key x) xs × IsSorted xs

  abbrev pub IsStrict : List A → Type 0
  IsStrict [] = Unit
  IsStrict (x ∷ xs) = AboveKey (key x) xs × IsStrict xs

  pub FromKey-trans : (a b : K) (xs : List A) → leb a b ≡ true → FromKey b xs → FromKey a xs
  FromKey-trans a b [] h k = tt
  FromKey-trans a b (x ∷ xs) h k = (leb_trans a b (key x) h k.0, FromKey-trans a b xs h k.1)

  pub AboveKey-trans : (a b : K) (xs : List A) → ltb a b ≡ true → AboveKey b xs → AboveKey a xs
  AboveKey-trans a b [] h k = tt
  AboveKey-trans a b (x ∷ xs) h k = (ltb_trans a b (key x) h k.0, AboveKey-trans a b xs h k.1)

  pub FromKey-of_AboveKey : (k : K) (xs : List A) → AboveKey k xs → FromKey k xs
  FromKey-of_AboveKey k [] h = tt
  FromKey-of_AboveKey k (x ∷ xs) h = (leb_of_ltb k (key x) h.0, FromKey-of_AboveKey k xs h.1)

  pub IsSorted-of_IsStrict : (xs : List A) → IsStrict xs → IsSorted xs
  IsSorted-of_IsStrict [] h = tt
  IsSorted-of_IsStrict (x ∷ xs) h =
      (FromKey-of_AboveKey (key x) xs h.0, IsSorted-of_IsStrict xs h.1)
