-- ===== src/Ingester/User/Count.antt =====
-- How many values of a map have a property.
use cortex.Base.{
  ℕ, ◌+◌, ◌≡◌, refl, sym, ap, [], ◌∷◌, Bool, true, false, Ord, ◌==◌, none, some, All, arith,
  Bool-cases, inl, inr, ==_of_ne, ne_of_==, eq_of_==, length,
}
use mathlib.Core.Option.{some-injective}
use cortex.Base.Dict
use cortex.Base.Dict.{Dict}

abbrev pub one_if : Bool → ℕ
one_if true = 1
one_if false = 0

module _ {K V : Type 0} ⦃o : Ord K⦄ where
  unfoldable pub count : (V → Bool) → Dict K V → ℕ
  count p [] = 0
  count p ((k, v) ∷ m) = one_if (p v) + count p m

  -- one entry for a key
  abbrev pub AreUnique : Dict K V → Type 0
  AreUnique [] = Unit
  AreUnique ((k, v) ∷ m) = All (λ e. (k == e.0) ≡ false) m × AreUnique m

  pub count-put :
      (p : V → Bool) (m : Dict K V) (k : K) (v : V)
      → Dict.get m k ≡ none
      → count p (Dict.put m k v) ≡ one_if (p v) + count p m
  unfolding count Dict.put Dict.get
  count-put p [] k v h = refl
  count-put p ((j, w) ∷ m) k v h = elim (Bool-cases (j == k)) [
    | inl e ↦ absurd (no (rw e at h))
    | inr e ↦ rw e (omega (arith, count-put p m k v (rw e at h)))
  ]
    where
      no : (some w) ≡ none → ⊥
      no e = cc

  All-put :
      (j : K) (m : Dict K V) (k : K) (v : V)
      → (j == k) ≡ false
      → All (λ e. (j == e.0) ≡ false) m
      → All (λ e. (j == e.0) ≡ false) (Dict.put m k v)
  unfolding Dict.put
  All-put j [] k v e h = (e, tt)
  All-put j ((i, w) ∷ m) k v e h = elim (Bool-cases (i == k)) [
    | inl q ↦ rw q (e, h.1)
    | inr q ↦ rw q (h.0, All-put j m k v e h.1)
  ]

  pub AreUnique-put : (m : Dict K V) (k : K) (v : V) → AreUnique m → AreUnique (Dict.put m k v)
  unfolding Dict.put
  AreUnique-put [] k v u = (tt, tt)
  AreUnique-put ((j, w) ∷ m) k v u = elim (Bool-cases (j == k)) [
    | inl e ↦ rw e (replace (eq_of_== j k e), u.1)
    | inr e ↦ rw e (All-put j m k v e u.0, AreUnique-put m k v u.1)
  ]
    where
      replace : j ≡ k → All (λ e. (k == e.0) ≡ false) m
      replace e = rw (sym e) u.0

  All-delete : (P : K × V → Type 0) (m : Dict K V) (k : K) → All P m → All P (Dict.delete m k)
  unfolding Dict.delete
  All-delete P [] k h = tt
  All-delete P ((j, w) ∷ m) k h = elim (Bool-cases (j == k)) [
    | inl e ↦ rw e (All-delete P m k h.1)
    | inr e ↦ rw e (h.0, All-delete P m k h.1)
  ]

  pub AreUnique-delete : (m : Dict K V) (k : K) → AreUnique m → AreUnique (Dict.delete m k)
  unfolding Dict.delete
  AreUnique-delete [] k u = tt
  AreUnique-delete ((j, w) ∷ m) k u = elim (Bool-cases (j == k)) [
    | inl e ↦ rw e (AreUnique-delete m k u.1)
    | inr e ↦ rw e (All-delete _ m k u.0, AreUnique-delete m k u.1)
  ]

  delete-absent : (m : Dict K V) (k : K) → All (λ e. (k == e.0) ≡ false) m → Dict.delete m k ≡ m
  unfolding Dict.delete
  delete-absent [] k h = refl
  delete-absent ((j, w) ∷ m) k h =
      let e : (j == k) ≡ false = ==_of_ne j k (λ q. ne_of_== k j h.0 (sym q)) in
      rw e (ap (λ r. (j, w) ∷ r) (delete-absent m k h.1))

  pub count-delete :
      (p : V → Bool) (m : Dict K V) (k : K) (v : V)
      → AreUnique m
      → Dict.get m k ≡ some v
      → one_if (p v) + count p (Dict.delete m k) ≡ count p m
  unfolding count Dict.delete Dict.get
  count-delete p [] k v u h = cc
  count-delete p ((j, w) ∷ m) k v u h = elim (Bool-cases (j == k)) [
    | inl e ↦
        let same : w ≡ v = some-injective w v (rw e at h) in
        let rest = delete-absent m k (rw (sym (eq_of_== j k e)) u.0) in rw (e, rest, same) refl
    | inr e ↦ rw e (omega (arith, count-delete p m k v u.1 (rw e at h)))
  ]

  -- all of them
  pub count-all : (m : Dict K V) → count (λ _. true) m ≡ length m
  unfolding count
  count-all [] = refl
  count-all (e ∷ m) = omega (arith, count-all m)
