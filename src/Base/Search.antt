-- ===== src/Base/Search.antt =====
-- Go's `sort.Search`, by its loop, with the plain scan that it agrees with on monotone data.
use native.Mathlib.Decide.{dec_lt}
use cortex.Base.{
  ℕ, zero, suc, ◌+◌, ◌-◌, ◌/◌, ◌≤◌, ◌<◌, ◌≡◌, refl, inl, inr, Bool, true, false, Option, none, some,
  List, [], ◌∷◌, arith, length, get_elem?, All, if◌then◌else◌, Bool-cases, ◌≢◌, ltb, nat_ord,
}

-- `for i < j { h := i + (j-i)/2; if !f(h) { i = h + 1 } else { j = h } }`. Each round makes j - i
-- smaller, so that n rounds are enough from 0 and n.
search_loop : ℕ → (ℕ → Bool) → ℕ → ℕ → ℕ
search_loop zero f i j = i
search_loop (suc fuel) f i j =
    let h = i + (j - i) / 2 in
    let right = search_loop fuel f (h + 1) j in
    let left = search_loop fuel f i h in
    let round = if f h then left else right in if ltb i j then round else i

unfoldable pub search : ℕ → (ℕ → Bool) → ℕ
unfolding search_loop
search n f = search_loop n f 0 n

-- false up to r, and true from r on, within [i, j)
abbrev IsCut : (ℕ → Bool) → ℕ → ℕ → ℕ → Type 0
IsCut f i j r =
    (i ≤ r)
    × (r ≤ j)
    × ((k : ℕ) → i ≤ k → k < r → f k ≡ false)
    × ((k : ℕ) → r ≤ k → k < j → f k ≡ true)

abbrev IsMonotone : (ℕ → Bool) → ℕ → Type 0
IsMonotone f n = (k m : ℕ) → k ≤ m → m < n → f k ≡ true → f m ≡ true

not-true : {b : Bool} → b ≡ false → b ≢ true
not-true e h = cc

IsMonotone-false :
    (f : ℕ → Bool) (n k m : ℕ) → IsMonotone f n → k ≤ m → m < n → f m ≡ false → f k ≡ false
IsMonotone-false f n k m mono h l e = elim (Bool-cases (f k)) [
  | inl t ↦ absurd (not-true e (mono k m h l t))
  | inr t ↦ t
]

module _ (f : ℕ → Bool) (n : ℕ) (mono : IsMonotone f n) {i j h r : ℕ} (hj : h < j)
    (jn : j ≤ n) where
  IsCut-left : f h ≡ true → IsCut f i h r → IsCut f i j r
  IsCut-left t c = (
    c.0,
    omega arith,
    c.2,
    λ k a b. elim (dec_lt k h) [
      | yes below ↦ c.3 k a below
      | no above ↦ mono h k (omega arith) (omega arith) t
    ],
  )

  IsCut-right : i ≤ h → f h ≡ false → IsCut f (h + 1) j r → IsCut f i j r
  IsCut-right ih t c = (
    omega arith,
    c.1,
    λ k a b. elim (dec_lt h k) [
      | yes above ↦ c.2 k (omega arith) b
      | no below ↦ IsMonotone-false f n k h mono (omega arith) (omega arith) t
    ],
    c.3,
  )

search_loop_lem :
    (fuel : ℕ) (f : ℕ → Bool) (n i j : ℕ)
    → IsMonotone f n
    → i ≤ j
    → j ≤ n
    → j - i ≤ fuel
    → IsCut f i j (search_loop fuel f i j)
unfolding search_loop
search_loop_lem zero f n i j mono ij jn h =
    (omega arith, omega arith, λ k a b. absurd (omega arith), λ k a b. absurd (omega arith))
search_loop_lem (suc fuel) f n i j mono ij jn h = elim (Bool-cases (ltb i j)) [
  | inl go ↦ elim (Bool-cases (f (i + (j - i) / 2))) [
    | inl t ↦
        rw (go, t)
          (IsCut-left f n mono (ground arith) jn t (
            search_loop_lem fuel f n i (i + (j - i) / 2) mono (ground arith) (ground arith)
              (ground arith)))
    | inr t ↦
        rw (go, t)
          (IsCut-right f n mono (ground arith) jn (ground arith) t (
            search_loop_lem fuel f n (i + (j - i) / 2 + 1) j mono (ground arith) jn (ground arith)))
  ]
  | inr stop ↦
      rw stop
        (ground arith, ground arith, λ k a b. absurd (ground arith), λ k a b. absurd (ground arith))
]

-- On a predicate that stays true once it is, `sort.Search` returns the first index at which it is true,
-- or n where there is none.
pub search_lem : (n : ℕ) (f : ℕ → Bool) → IsMonotone f n → IsCut f 0 n (search n f)
unfolding search
search_lem n f mono = search_loop_lem n f n 0 n mono (omega arith) (omega arith) (omega arith)

cut_unique : (f : ℕ → Bool) (n r s : ℕ) → IsCut f 0 n r → IsCut f 0 n s → r ≡ s
cut_unique f n r s c d = elim (dec_lt r s) [
  | yes p ↦ absurd (not-true (d.2 r (omega arith) p) (c.3 r (omega arith) (omega arith)))
  | no p ↦ elim (dec_lt s r) [
    | yes q ↦ absurd (not-true (c.2 s (omega arith) q) (d.3 s (omega arith) (omega arith)))
    | no q ↦ omega arith
  ]
]

module _ {ℓ} {A : Type ℓ} where
  abbrev at : (A → Bool) → Option A → Bool
  at p none = true
  at p (some a) = p a

  -- The callers' use: `sort.Search(len(xs), func(i int) bool { return p(xs[i]) })`. The index is always
  -- in range, so what `at` says of `none` is never used.
  unfoldable pub search_list : (A → Bool) → List A → ℕ
  unfolding search
  search_list p xs = search (length xs) (λ i. at p (get_elem? xs i))

  -- How many elements stand before the first one at which `p` holds.
  unfoldable pub first_index : (A → Bool) → List A → ℕ
  first_index p [] = 0
  first_index p (x ∷ xs) = let rest = first_index p xs in if p x then 0 else suc rest

  -- Once `p` holds, it holds of all that follow.
  abbrev pub Monotone : (A → Bool) → List A → Type ℓ
  Monotone p [] = Unit
  Monotone p (x ∷ xs) = (p x ≡ true → All (λ y. p y ≡ true) xs) × Monotone p xs

  All-at :
      (p : A → Bool) (xs : List A)
      → All (λ y. p y ≡ true) xs
      → (k : ℕ) → at p (get_elem? xs k) ≡ true
  All-at p [] h k = refl
  All-at p (x ∷ xs) h zero = h.0
  All-at p (x ∷ xs) h (suc k) = All-at p xs h.1 k

  Monotone-at :
      (p : A → Bool) (xs : List A)
      → Monotone p xs
      → IsMonotone (λ i. at p (get_elem? xs i)) (length xs)
  Monotone-at p [] m j k a b t = refl
  Monotone-at p (x ∷ xs) m zero zero a b t = t
  Monotone-at p (x ∷ xs) m zero (suc k) a b t = All-at p xs (m.0 t) k
  Monotone-at p (x ∷ xs) m (suc j) zero a b t = absurd (omega arith)
  Monotone-at p (x ∷ xs) m (suc j) (suc k) a b t =
      Monotone-at p xs m.1 j k (omega arith) (omega arith) t

  first_index-IsCut :
      (p : A → Bool) (xs : List A)
      → Monotone p xs
      → IsCut (λ i. at p (get_elem? xs i)) 0 (length xs) (first_index p xs)
  unfolding first_index
  first_index-IsCut p [] m =
      (omega arith, omega arith, λ k a b. absurd (omega arith), λ k a b. refl)
  first_index-IsCut p (x ∷ xs) m = elim (Bool-cases (p x)) [
    | inl t ↦ rw t (
      omega arith,
      omega arith,
      λ k a b. absurd (omega arith),
      λ k a b. All-at p (x ∷ xs) (t, m.0 t) k,
    )
    | inr t ↦
        let c = first_index-IsCut p xs m.1 in
        rw t (omega arith, omega (arith, c.1), before t c.2, after t c.3)
  ]
    where
      before :
          p x ≡ false
          → ((k : ℕ) → 0 ≤ k → k < first_index p xs → at p (get_elem? xs k) ≡ false)
          → (k : ℕ) → 0 ≤ k
          → k < suc (first_index p xs)
          → at p (get_elem? (x ∷ xs) k) ≡ false
      before t c zero a b = t
      before t c (suc k) a b = c k (omega arith) (omega arith)

      after :
          p x ≡ false
          → ((k : ℕ) → first_index p xs ≤ k → k < length xs → at p (get_elem? xs k) ≡ true)
          → (k : ℕ) → suc (first_index p xs) ≤ k
          → k < suc (length xs)
          → at p (get_elem? (x ∷ xs) k) ≡ true
      after t c zero a b = absurd (omega arith)
      after t c (suc k) a b = c k (omega arith) (omega arith)

  -- The binary search finds what a scan from the left finds.
  pub search_list-eq-first_index :
      (p : A → Bool) (xs : List A) → Monotone p xs → search_list p xs ≡ first_index p xs
  unfolding search_list
  search_list-eq-first_index p xs m =
      cut_unique (λ i. at p (get_elem? xs i)) (length xs) _ _
        (search_lem (length xs) _ (Monotone-at p xs m)) (first_index-IsCut p xs m)
