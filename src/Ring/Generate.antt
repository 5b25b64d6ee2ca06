-- ===== src/Ring/Generate.antt =====
-- ring/util.go, GenerateTokens. `random` stands for the generator: `random k` is what its k-th `Uint32()`
-- returns. `fuel` bounds the rounds; `none` means that it ran out.
use cortex.Base.{
  ℕ, zero, suc, ◌+◌, ◌≤◌, ◌≡◌, refl, sym, ap, ◌∙◌, List, [], ◌∷◌, ◌++◌, Bool, true, false, nat_ord,
  leb, ◌==◌, if◌then◌else◌, length, All, All-append, In, arith, Option, none, some, Bool-cases, inl,
  inr, get_elem?, length-append, All-in, eq_of_==,
}
use mathlib.Core.List.{Memᴰ}
use mathlib.Core.Path.{subst}
use mathlib.Core.Option.{some-injective}
use cortex.Base.Search.{search_list, first_index, Monotone, search_list-eq-first_index}
use cortex.Base.Sorted.{FromKey, IsSorted}
use cortex.Merge.Shuffle.{has}

-- j < len(takenTokens) && takenTokens[j] == candidate
found_at : List ℕ → ℕ → ℕ → Bool
found_at taken candidate j = elim (get_elem? taken j) [ none ↦ false | some t ↦ t == candidate ]

-- sort.Search(len(takenTokens), …) and the test after it
unfoldable pub is_taken : List ℕ → ℕ → Bool
unfolding found_at
is_taken taken candidate = found_at taken candidate (search_list (λ t. leb candidate t) taken)

-- `random k` is the k-th number that the generator draws. Each round of the loop uses one of `fuel`; `none`
-- is a loop that has not ended by then.
generate_loop : ℕ → (ℕ → ℕ) → ℕ → ℕ → List ℕ → List ℕ → Option (List ℕ)
generate_loop fuel random k zero taken tokens = some tokens
generate_loop zero random k (suc left) taken tokens = none
generate_loop (suc fuel) random k (suc left) taken tokens =
    let candidate = random k in
    let again = generate_loop fuel random (suc k) (suc left) taken tokens in
    let keep = generate_loop fuel random (suc k) left taken (tokens ++ candidate ∷ []) in
    if is_taken taken candidate then again else keep

unfoldable pub generate_tokens : ℕ → (ℕ → ℕ) → ℕ → List ℕ → Option (List ℕ)
unfolding generate_loop is_taken
generate_tokens fuel random num_tokens taken = generate_loop fuel random 0 num_tokens taken []

abbrev pub key_of : ℕ → ℕ
key_of n = n

above_all :
    (c t : ℕ) (ts : List ℕ) → leb c t ≡ true → FromKey key_of t ts → All (λ y. leb c y ≡ true) ts
above_all c t [] h s = tt
above_all c t (u ∷ ts) h s = (ground arith, above_all c t ts h s.1)

sorted-Monotone : (c : ℕ) (ts : List ℕ) → IsSorted key_of ts → Monotone (λ t. leb c t) ts
sorted-Monotone c [] s = tt
sorted-Monotone c (t ∷ ts) s = (λ h. above_all c t ts h s.0, sorted-Monotone c ts s.1)

In-rest : (c t : ℕ) (ts : List ℕ) → In c (t ∷ ts) → leb c t ≡ false → In c ts
In-rest c t ts (Memᴰ.head e) gt = absurd (ground arith)
In-rest c t ts (Memᴰ.tail i) gt = i

eq-first :
    (c t : ℕ) (ts : List ℕ) → In c (t ∷ ts) → FromKey key_of t ts → leb c t ≡ true → (t == c) ≡ true
eq-first c t ts (Memᴰ.head e) s le = ground arith
eq-first c t ts (Memᴰ.tail i) s le = ground (arith, All-in (λ y. leb t y ≡ true) ts s i)

at_place_lem :
    (c : ℕ) (ts : List ℕ)
    → In c ts
    → IsSorted key_of ts
    → found_at ts c (first_index (λ t. leb c t) ts) ≡ true
unfolding first_index found_at
at_place_lem c [] i s = elim i [ ]
at_place_lem c (t ∷ ts) i s = elim (Bool-cases (leb c t)) [
  | inl le ↦ rw (le, leb) (eq-first c t ts i s.0 le)
  | inr gt ↦ rw (gt, leb) (at_place_lem c ts (In-rest c t ts i gt) s.1)
]

-- A token that is not reported as taken is not taken, where the taken ones are sorted.
pub is_taken_sound :
    (taken : List ℕ) (c : ℕ) → IsSorted key_of taken → is_taken taken c ≡ false → ¬ In c taken
is_taken_sound taken c s h i =
    let same = search_list-eq-first_index (λ t. leb c t) taken (sorted-Monotone c taken s) in
    cc (scan same, at_place_lem c taken i s)
  where
    scan :
        search_list (λ t. leb c t) taken ≡ first_index (λ t. leb c t) taken
        → found_at taken c (first_index (λ t. leb c t) taken) ≡ false
    scan e = sym (ap (found_at taken c) e) ∙ unfold is_taken in h

In-has : (c : ℕ) (ts : List ℕ) → has key_of c ts ≡ true → In c ts
unfolding has
In-has c [] h = cc
In-has c (t ∷ ts) h = elim (Bool-cases (t == c)) [
  | inl e ↦ Memᴰ.head (sym (eq_of_== t c e))
  | inr e ↦ Memᴰ.tail (In-has c ts (rw e at h))
]

has-found_at : (c : ℕ) (ts : List ℕ) (j : ℕ) → found_at ts c j ≡ true → has key_of c ts ≡ true
unfolding has found_at
has-found_at c [] j h = cc
has-found_at c (t ∷ ts) zero h = rw h refl
has-found_at c (t ∷ ts) (suc j) h = ground (arith, has-found_at c ts j h)

-- A token is reported as taken exactly where it is one of the taken ones, which are sorted.
pub is_taken-eq-has :
    (taken : List ℕ) (c : ℕ) → IsSorted key_of taken → is_taken taken c ≡ has key_of c taken
is_taken-eq-has taken c s = elim (Bool-cases (is_taken taken c)) [
  | inl t ↦ t ∙ sym (there t)
  | inr f ↦ elim (Bool-cases (has key_of c taken)) [
    | inl h ↦ absurd (is_taken_sound taken c s f (In-has c taken h))
    | inr h ↦ f ∙ sym h
  ]
]
  where
    there : is_taken taken c ≡ true → has key_of c taken ≡ true
    there t = has-found_at c taken (search_list (λ t. leb c t) taken) (unfold is_taken in t)

generate_loop-fresh :
    (fuel : ℕ) (random : ℕ → ℕ) (k left : ℕ) (taken tokens : List ℕ) {r : List ℕ}
    → All (λ c. is_taken taken c ≡ false) tokens
    → generate_loop fuel random k left taken tokens ≡ some r
    → (length r ≡ length tokens + left) × All (λ c. is_taken taken c ≡ false) r
unfolding generate_loop
generate_loop-fresh fuel random k zero taken tokens {r} h e =
    (ground arith, subst (All (λ c. is_taken taken c ≡ false)) (some-injective tokens r e) h)
generate_loop-fresh zero random k (suc left) taken tokens h e = cc
generate_loop-fresh (suc fuel) random k (suc left) taken tokens h e =
    elim (Bool-cases (is_taken taken (random k))) [
      | inl t ↦ generate_loop-fresh fuel random (suc k) (suc left) taken tokens h (rw t at e)
      | inr f ↦
          let (n, a) =
            generate_loop-fresh fuel random (suc k) left taken (tokens ++ random k ∷ [])
              (All-append _ tokens _ h (f, tt)) (rw f at e) in
          (omega (arith, length-append tokens (random k ∷ [])), a)
    ]

-- How many of the next draws are not among the taken tokens.
unfoldable pub fresh_draws : ℕ → (ℕ → ℕ) → ℕ → List ℕ → ℕ
unfolding has
fresh_draws zero random k taken = 0
fresh_draws (suc fuel) random k taken =
    let rest = fresh_draws fuel random (suc k) taken in
    if has key_of (random k) taken then rest else suc rest

generate_loop_total :
    (fuel : ℕ) (random : ℕ → ℕ) (k left : ℕ) (taken tokens : List ℕ)
    → IsSorted key_of taken
    → left ≤ fresh_draws fuel random k taken
    → (r : List ℕ) × (generate_loop fuel random k left taken tokens ≡ some r)
unfolding generate_loop fresh_draws
generate_loop_total fuel random k zero taken tokens s h = (tokens, refl)
generate_loop_total zero random k (suc left) taken tokens s h = absurd (omega arith)
generate_loop_total (suc fuel) random k (suc left) taken tokens s h =
    let same = is_taken-eq-has taken (random k) s in
    elim (Bool-cases (has key_of (random k) taken)) [
      | inl t ↦
          rw (same ∙ t)
            (generate_loop_total fuel random (suc k) (suc left) taken tokens s (rw t at h))
      | inr f ↦ rw (same ∙ f) (
          generate_loop_total fuel random (suc k) left taken (tokens ++ random k ∷ []) s
            (more (fresh_draws fuel random (suc k) taken) (rw f at h)))
    ]
  where
    more : (n : ℕ) → suc left ≤ suc n → left ≤ n
    more n h = omega arith

None-taken :
    (taken ts : List ℕ)
    → IsSorted key_of taken
    → All (λ c. is_taken taken c ≡ false) ts
    → All (λ c. ¬ In c taken) ts
None-taken taken [] s h = tt
None-taken taken (t ∷ ts) s h = (is_taken_sound taken t s h.0, None-taken taken ts s h.1)

-- As soon as enough of the draws are not among the taken tokens, which are sorted, the generation
-- of tokens ends with as many as asked for, and none of them is among the taken ones.
pub generate_tokens_lem :
    (fuel : ℕ) (random : ℕ → ℕ) (num_tokens : ℕ) (taken : List ℕ)
    → IsSorted key_of taken
    → num_tokens ≤ fresh_draws fuel random 0 taken
    → (r : List ℕ) × (generate_tokens fuel random num_tokens taken ≡ some r)
      × (length r ≡ num_tokens)
      × All (λ c. ¬ In c taken) r
unfolding generate_tokens
generate_tokens_lem fuel random num taken s h =
    let (r, e) = generate_loop_total fuel random 0 num taken [] s h in
    let (n, f) = generate_loop-fresh fuel random 0 num taken [] tt e in
    (r, e, omega arith, None-taken taken r s f)
