-- ===== src/Ring/Replicas/Walk.antt =====
-- The loop over indices modulo the number of tokens is a recursion over the tokens from the start
-- onwards, and then those before it.
use mathlib.Core.List.{Memᴰ}
use cortex.Base.{
  ℕ, zero, suc, ◌+◌, ◌-◌, ◌%◌, ◌≤◌, ◌<◌, ◌≡◌, refl, sym, ap, List, [], ◌∷◌, ◌++◌, Bool, true, false,
  bytes_ord, nat_ord, ltb, if◌then◌else◌, Option, none, some, length, length-drop, take, drop,
  get_elem?, Result, ok, panic, All, All-take, All-drop, All-append, arith, inl, inr, ◌⊎◌,
}
use cortex.Ring.{TokenDesc, Desc}
use cortex.Ring.Lookup.{Operation, RingError, Replica, Found, visit, get_loop}

-- `left` tokens, from the one at index m on, and round again
unfoldable pub walk_from : List TokenDesc → ℕ → ℕ → List TokenDesc
walk_from tokens left m = take left (drop m tokens ++ tokens)

unfoldable pub collect : Desc → Operation → Found → List TokenDesc → Result RingError (List Replica)
collect d op f [] = ok f.ingesters
collect d op f (t ∷ ts) =
    let round : Result RingError (List Replica) = elim (visit d op t f) [
      | none ↦ panic
      | some f' ↦ collect d op f' ts
    ] in
    if ltb (length f.distinct_hosts) f.n then round else ok f.ingesters

drop-get_elem? :
    {A : Type 0} (xs : List A) (m : ℕ)
    → m < length xs
    → (x : A) × (get_elem? xs m ≡ some x) × (drop m xs ≡ x ∷ drop (suc m) xs)
drop-get_elem? [] m h = elim h [ ]
drop-get_elem? (x ∷ xs) zero h = (x, refl, refl)
drop-get_elem? (x ∷ xs) (suc m) h = drop-get_elem? xs m (omega arith)

drop-all : {A : Type 0} (xs : List A) → drop (length xs) xs ≡ []
drop-all [] = refl
drop-all (x ∷ xs) = drop-all xs

take-append_left :
    {A : Type 0} (n : ℕ) (xs ys : List A) → n ≤ length xs → take n (xs ++ ys) ≡ take n xs
take-append_left zero xs ys h = refl
take-append_left (suc n) [] ys h = absurd (omega arith)
take-append_left (suc n) (x ∷ xs) ys h = ap (λ r. x ∷ r) (take-append_left n xs ys (omega arith))

-- one step of the walk, to the index that the code goes on with
walk_from-suc :
    (tokens : List TokenDesc) (left m : ℕ)
    → m < length tokens
    → left ≤ length tokens
    → (t : TokenDesc) × (get_elem? tokens m ≡ some t)
      × (walk_from tokens (suc left) m ≡ t ∷ walk_from tokens left ((m + 1) % length tokens))
unfolding walk_from
walk_from-suc tokens left m h l =
    let (t, at, split) = drop-get_elem? tokens m h in
    (t, at, rw split (ap (λ r. t ∷ r) (next (wrap m h))))
  where
    wrap :
        (m : ℕ)
        → m < length tokens
        → ((m + 1) % length tokens ≡ suc m)
          ⊎ ((suc m ≡ length tokens) × ((m + 1) % length tokens ≡ 0))
    wrap m h = grind arith

    next :
        ((m + 1) % length tokens ≡ suc m)
          ⊎ ((suc m ≡ length tokens) × ((m + 1) % length tokens ≡ 0))
        → take left (drop (suc m) tokens ++ tokens)
          ≡ take left (drop ((m + 1) % length tokens) tokens ++ tokens)
    next (inl e) = rw e refl
    next (inr (last, e)) =
        rw (e, last, drop-all tokens) (sym (take-append_left left tokens tokens l))

rounds_eq :
    (b : Bool) (o : Option Found) (g h : Found → Result RingError (List Replica))
    (z : Result RingError (List Replica))
    → ((f : Found) → g f ≡ h f)
    → (if b then (elim o [ none ↦ panic | some f ↦ g f ]) else z)
      ≡ (if b then (elim o [ none ↦ panic | some f ↦ h f ]) else z)
rounds_eq false o g h z e = refl
rounds_eq true none g h z e = refl
rounds_eq true (some f) g h z e = e f

-- The index is taken modulo the number of tokens before it is used.
pub get_loop-eq-collect :
    (left : ℕ) (d : Desc) (op : Operation) (i : ℕ) (f : Found)
    → 0 < length d.tokens
    → left ≤ length d.tokens
    → get_loop left d op i f ≡ collect d op f (walk_from d.tokens left (i % length d.tokens))
unfolding get_loop collect
get_loop-eq-collect zero d op i f pos l = unfold walk_from in refl
get_loop-eq-collect (suc left) d op i f pos l =
    let m = i % length d.tokens in
    let (t, at, step) = walk_from-suc d.tokens left m (grind arith) (omega arith) in
    rw (at, step)
      (rounds_eq (ltb (length f.distinct_hosts) f.n) (visit d op t f)
        (λ f'. get_loop left d op (m + 1) f')
        (λ f'. collect d op f' (walk_from d.tokens left ((m + 1) % length d.tokens)))
        (ok f.ingesters) (λ f'. get_loop-eq-collect left d op (m + 1) f' pos (omega arith)))

pub All-walk_from :
    (P : TokenDesc → Type 0) (tokens : List TokenDesc) (left m : ℕ)
    → All P tokens
    → All P (walk_from tokens left m)
unfolding walk_from
All-walk_from P tokens left m h = All-take P left _ (All-append P _ _ (All-drop P m tokens h) h)

In-take :
    {A : Type 0} {a : A} (n : ℕ) (xs ys : List A)
    → length xs ≤ n
    → Memᴰ a xs
    → Memᴰ a (take n (xs ++ ys))
In-take n [] ys h i = elim i [ ]
In-take zero (x ∷ xs) ys h i = absurd (omega arith)
In-take (suc n) (x ∷ xs) ys h (Memᴰ.head e) = Memᴰ.head e
In-take (suc n) (x ∷ xs) ys h (Memᴰ.tail i) = Memᴰ.tail (In-take n xs ys (omega arith) i)

-- Either past the cut, or among those that the walk comes back to.
In-split :
    {A : Type 0} {a : A} (m : ℕ) (xs : List A)
    → Memᴰ a xs
    → Memᴰ a (drop m xs) ⊎ Memᴰ a (take (length xs - length (drop m xs)) xs)
In-split zero xs i = inl i
In-split (suc m) [] i = elim i [ ]
In-split (suc m) (x ∷ xs) (Memᴰ.head e) =
    let one : suc (length xs) - length (drop m xs) ≡ suc (length xs - length (drop m xs)) =
      omega (arith, length-drop m xs) in
    inr (rw one (Memᴰ.head e))
In-split (suc m) (x ∷ xs) (Memᴰ.tail i) =
    let one : suc (length xs) - length (drop m xs) ≡ suc (length xs - length (drop m xs)) =
      omega (arith, length-drop m xs) in
    rw one (elim (In-split m xs i) [ inl j ↦ inl j | inr j ↦ inr (Memᴰ.tail j) ])

In-append_past :
    {A : Type 0} {a : A} (ds xs : List A) (n : ℕ)
    → length ds ≤ n
    → Memᴰ a (take (n - length ds) xs)
    → Memᴰ a (take n (ds ++ xs))
In-append_past [] xs n h i = let e : n - 0 ≡ n = omega arith in rw e at i
In-append_past (d ∷ ds) xs zero h i = absurd (omega arith)
In-append_past (d ∷ ds) xs (suc n) h i =
    let e : suc n - suc (length ds) ≡ n - length ds = omega arith in
    Memᴰ.tail (In-append_past ds xs n (omega arith) (rw e at i))

pub In-walk_from :
    (tokens : List TokenDesc) (m : ℕ) {t : TokenDesc}
    → Memᴰ t tokens
    → Memᴰ t (walk_from tokens (length tokens) m)
unfolding walk_from
In-walk_from tokens m i =
    let short : length (drop m tokens) ≤ length tokens = omega (arith, length-drop m tokens) in
    elim (In-split m tokens i) [
      | inl j ↦ In-take (length tokens) (drop m tokens) tokens short j
      | inr j ↦ In-append_past (drop m tokens) tokens (length tokens) short j
    ]
