-- ===== src/Ring/Choice.antt =====
-- What the replicas of a key are: distinct, eligible, at most n, and all the eligible ones where fewer
-- than n are found.
use mathlib.Core.List.{Memᴰ}
use cortex.Base.{
  ℕ, zero, suc, ◌≤◌, ◌<◌, ◌≡◌, refl, sym, ap, ◌∙◌, List, [], ◌∷◌, true, false, Bytes, bytes_ord,
  nat_ord, ◌==◌, some, length, take, ok, All, All-take, In, arith, Bool-cases, Option-cases, inl,
  inr, eq_of_==, ==_refl, ne_of_==, ◌≢◌, ◌⊎◌, length-take,
}
use cortex.Base.Dict
use cortex.Base.Dict.{Dict}
use cortex.Ring.{IngesterDesc, TokenDesc, Desc}
use cortex.Ring.Model.{IsRing}
use cortex.Ring.Lookup.{Operation, Replica, is_skipped, contains, get_internal}
use cortex.Ring.Replicas.{walk, eligible, get_internal-eq-take}
use cortex.Ring.Replicas.Walk.{In-walk_from}

-- The replica is in the ring's map, in a state that the operation does not skip.
abbrev pub IsEligible : Dict Bytes IngesterDesc → Operation → Replica → Type 0
IsEligible m op r = (Dict.get m r.0 ≡ some r.1) × (is_skipped op r.1.state ≡ false)

-- No host stands twice.
abbrev pub IsDistinct : List Replica → Type 0
IsDistinct [] = Unit
IsDistinct (r ∷ rs) = All (λ s. r.0 ≢ s.0) rs × IsDistinct rs

eligible-IsEligible :
    (m : Dict Bytes IngesterDesc) (op : Operation) (seen : List Bytes) (ts : List TokenDesc)
    → All (IsEligible m op) (eligible m op seen ts)
unfolding eligible
eligible-IsEligible m op seen [] = tt
eligible-IsEligible m op seen (t ∷ ts) = elim (Bool-cases (contains seen t.ingester)) [
  | inl e ↦ rw e (eligible-IsEligible m op seen ts)
  | inr e ↦ elim (Option-cases (Dict.get m t.ingester)) [
    | inl g ↦ rw (e, g) (eligible-IsEligible m op (t.ingester ∷ seen) ts)
    | inr (ing, g) ↦ elim (Bool-cases (is_skipped op ing.state)) [
      | inl k ↦ rw (e, g, k) (eligible-IsEligible m op (t.ingester ∷ seen) ts)
      | inr k ↦ rw (e, g, k) ((g, k), eligible-IsEligible m op (t.ingester ∷ seen) ts)
    ]
  ]
]

-- the hosts seen do not come again
abbrev NotSeen : List Bytes → List Replica → Type 0
NotSeen seen rs = All (λ r. contains seen r.0 ≡ false) rs

contains-head : (id j : Bytes) (seen : List Bytes) → id ≡ j → contains (id ∷ seen) j ≡ true
unfolding contains
contains-head id j seen e = rw e (rw (==_refl j) refl)

NotSeen-tail :
    (id : Bytes) (seen : List Bytes) (rs : List Replica)
    → NotSeen (id ∷ seen) rs
    → NotSeen seen rs × All (λ r. id ≢ r.0) rs
unfolding contains
NotSeen-tail id seen [] h = (tt, tt)
NotSeen-tail id seen (r ∷ rs) h =
    let (a, b) = NotSeen-tail id seen rs h.1 in
    ((ground arith, a), (λ e. cc (h.0, contains-head id r.0 seen e), b))

eligible-IsDistinct :
    (m : Dict Bytes IngesterDesc) (op : Operation) (seen : List Bytes) (ts : List TokenDesc)
    → NotSeen seen (eligible m op seen ts) × IsDistinct (eligible m op seen ts)
unfolding eligible
eligible-IsDistinct m op seen [] = (tt, tt)
eligible-IsDistinct m op seen (t ∷ ts) = elim (Bool-cases (contains seen t.ingester)) [
  | inl e ↦ rw e (eligible-IsDistinct m op seen ts)
  | inr e ↦
      let (fresh, rest) = eligible-IsDistinct m op (t.ingester ∷ seen) ts in
      let (old, new) = NotSeen-tail t.ingester seen _ fresh in
      elim (Option-cases (Dict.get m t.ingester)) [
        | inl g ↦ rw (e, g) (old, rest)
        | inr (ing, g) ↦ elim (Bool-cases (is_skipped op ing.state)) [
          | inl k ↦ rw (e, g, k) (old, rest)
          | inr k ↦ rw (e, g, k) ((e, old), (new, rest))
        ]
      ]
]

In-tail :
    {t u : TokenDesc} {ts : List TokenDesc}
    → In t (u ∷ ts)
    → (u.ingester == t.ingester) ≡ false
    → In t ts
In-tail (Memᴰ.head e) ne = absurd (ne_of_== _ _ ne (ap (λ (v : TokenDesc). v.ingester) (sym e)))
In-tail (Memᴰ.tail i) ne = i

-- where the first token's host was seen, so was the host of any token that is the first
In-seen :
    {t u : TokenDesc} {ts : List TokenDesc} (seen : List Bytes)
    → In t (u ∷ ts)
    → contains seen u.ingester ≡ true
    → (contains seen t.ingester ≡ true) ⊎ In t ts
In-seen seen (Memᴰ.head e) h = inl (rw (ap (λ (v : TokenDesc). v.ingester) e) h)
In-seen seen (Memᴰ.tail i) h = inr i

contains-other :
    (id j : Bytes) (seen : List Bytes)
    → (id == j) ≡ false
    → contains (id ∷ seen) j ≡ contains seen j
unfolding contains
contains-other id j seen e = rw e refl

eligible-later :
    (m : Dict Bytes IngesterDesc) (op : Operation) (seen : List Bytes) (u : TokenDesc)
    (ts : List TokenDesc) {r : Replica}
    → contains seen u.ingester ≡ false
    → In r (eligible m op (u.ingester ∷ seen) ts)
    → In r (eligible m op seen (u ∷ ts))
unfolding eligible
eligible-later m op seen u ts new i = elim (Option-cases (Dict.get m u.ingester)) [
  | inl g ↦ rw (new, g) i
  | inr (ing, g) ↦ elim (Bool-cases (is_skipped op ing.state)) [
    | inl k ↦ rw (new, g, k) i
    | inr k ↦ rw (new, g, k) (Memᴰ.tail i)
  ]
]

module _ (m : Dict Bytes IngesterDesc) (op : Operation) (t : TokenDesc) (ing : IngesterDesc)
    (h : IsEligible m op (t.ingester, ing)) where
  -- a first token of the same host, not seen before, puts the ingester first
  In-eligible-same :
      (seen : List Bytes) (u : TokenDesc) (ts : List TokenDesc)
      → contains seen u.ingester ≡ false
      → (u.ingester == t.ingester) ≡ true
      → In (t.ingester, ing) (eligible m op seen (u ∷ ts))
  unfolding eligible
  In-eligible-same seen u ts new same =
      let e = eq_of_== u.ingester t.ingester same in
      let known : Dict.get m u.ingester ≡ some ing = rw e h.0 in
      rw (new, known, h.1) (Memᴰ.head (ap (λ (id : Bytes). (id, ing)) (sym e)))

  -- An eligible ingester with a token in the list is among the eligible ones, unless it was seen before.
  In-eligible :
      (seen : List Bytes) (ts : List TokenDesc)
      → In t ts
      → (contains seen t.ingester ≡ true) ⊎ In (t.ingester, ing) (eligible m op seen ts)
  unfolding eligible contains
  In-eligible seen [] i = elim i [ ]
  In-eligible seen (u ∷ ts) i = elim (Bool-cases (contains seen u.ingester)) [
    | inl old ↦ elim (In-seen seen i old) [
      | inl s ↦ inl s
      | inr j ↦ rw (old, eligible) (In-eligible seen ts j)
    ]
    | inr new ↦ elim (Bool-cases (u.ingester == t.ingester)) [
      | inl same ↦ inr (In-eligible-same seen u ts new same)
      | inr other ↦ elim (In-eligible (u.ingester ∷ seen) ts (In-tail i other)) [
        | inl s ↦ inl (sym (contains-other u.ingester t.ingester seen other) ∙ s)
        | inr j ↦ inr (eligible-later m op seen u ts new j)
      ]
    ]
  ]

not-contains-nil : (id : Bytes) → contains [] id ≢ true
unfolding contains
not-contains-nil id e = cc

IsDistinct-take : (n : ℕ) (rs : List Replica) → IsDistinct rs → IsDistinct (take n rs)
IsDistinct-take zero rs h = tt
IsDistinct-take (suc n) [] h = tt
IsDistinct-take (suc n) (r ∷ rs) h = (All-take _ n rs h.0, IsDistinct-take n rs h.1)

take-short : {A : Type 0} (n : ℕ) (xs : List A) → length (take n xs) < n → take n xs ≡ xs
take-short zero xs h = elim h [ ]
take-short (suc n) [] h = refl
take-short (suc n) (x ∷ xs) h = ap (λ r. x ∷ r) (take-short n xs (omega arith))

-- What a caller may rely on, of the replicas `rs` found in `d` for at most `n` of them.
pub record AreReplicas (d : Desc) (n : ℕ) (op : Operation) (rs : List Replica) : Type 0 where
  pub at_most : length rs ≤ n
  pub distinct : IsDistinct rs
  pub eligible : All (IsEligible d.ingesters op) rs
  -- where there are fewer, no eligible ingester that has a token is left out
  pub complete :
      length rs < n
      → (t : TokenDesc) (ing : IngesterDesc) → In t d.tokens
      → IsEligible d.ingesters op (t.ingester, ing)
      → In (t.ingester, ing) rs

take-AreReplicas :
    (d : Desc) (key n : ℕ) (op : Operation)
    → AreReplicas d n op (take n (eligible d.ingesters op [] (walk d.tokens key)))
take-AreReplicas d key n op =
    let all = eligible d.ingesters op [] (walk d.tokens key) in
    record {
      at_most = omega (arith, length-take n all);
      distinct = IsDistinct-take n all (eligible-IsDistinct d.ingesters op [] _).1;
      eligible = All-take _ n all (eligible-IsEligible d.ingesters op [] _);
      complete = λ short t ing i h.
          rw (take-short n all short)
            (elim (In-eligible d.ingesters op t ing h [] (walk d.tokens key)
              (unfold walk in In-walk_from d.tokens _ i)) [
                | inl seen ↦ absurd (not-contains-nil t.ingester seen)
                | inr j ↦ j
              ]);
    }

-- On a well-formed ring with a token, the lookup of a key's replicas returns, and what it returns
-- is at most n distinct ingesters, all in the ring's map and in a state that the operation
-- accepts; where there are fewer than n, every such ingester that has a token is among them.
pub get_internal-AreReplicas :
    (d : Desc) (key n : ℕ) (op : Operation)
    → IsRing d
    → 0 < length d.tokens
    → (rs : List Replica) × (get_internal d key n op ≡ ok rs) × AreReplicas d n op rs
get_internal-AreReplicas d key n op ring pos = (
  take n (eligible d.ingesters op [] (walk d.tokens key)),
  get_internal-eq-take d key n op ring pos,
  take-AreReplicas d key n op,
)
