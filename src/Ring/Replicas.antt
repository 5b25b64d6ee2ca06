-- ===== src/Ring/Replicas.antt =====
-- The lookup returns the first n distinct eligible ingesters of a walk round the ring.
pub mod Walk
use mathlib.Core.List.{append-nil, append_assoc, Memᴰ}
use cortex.Base.{
  ℕ, zero, suc, ◌+◌, ◌%◌, ◌-◌, ◌≤◌, ◌<◌, ◌≡◌, refl, sym, ap, ◌∙◌, List, [], ◌∷◌, ◌++◌, Bool, true,
  false, Bytes, bytes_ord, nat_ord, ◌==◌, ltb, leb, if◌then◌else◌, Option, none, some, length, take,
  drop, Result, ok, err, panic, All, arith, Bool-cases, Option-cases, ◌≢◌, inl, inr, is_some,
}
use cortex.Base.Int.{ℤ}
use cortex.Base.Dict
use cortex.Base.Dict.{Dict}
use cortex.Ring.{IngesterDesc, TokenDesc, Desc}
use cortex.Ring.Model.{IsRing, Knows}
use cortex.Ring.Lookup.{
  Operation, RingError, Replica, Found, visit, is_skipped, contains, search, get_loop, get_internal,
}
use Walk.{walk_from, collect, get_loop-eq-collect, All-walk_from}

-- The tokens in the order of the walk for a key.
unfoldable pub walk : List TokenDesc → ℕ → List TokenDesc
unfolding walk_from
walk tokens key = walk_from tokens (length tokens) (search tokens key)

-- The ingesters of the tokens, each once and at its first token, without those that an operation skips.
unfoldable pub eligible :
    Dict Bytes IngesterDesc → Operation → List Bytes → List TokenDesc → List Replica
eligible m op seen [] = []
eligible m op seen (t ∷ ts) =
    let again = eligible m op seen ts in
    let rest = eligible m op (t.ingester ∷ seen) ts in
    if contains seen t.ingester then again else elim (Dict.get m t.ingester) [
      | none ↦ rest
      | some ing ↦ if is_skipped op ing.state then rest else (t.ingester, ing) ∷ rest
    ]

-- what `take` leaves out of the eligible ones, from a state of the loop
abbrev still : Found → ℕ
still f = f.n - length f.distinct_hosts

take-nil : {A : Type 0} (n : ℕ) → ◌≡◌ {A = List A} (take n []) []
take-nil zero = refl
take-nil (suc n) = refl

unknown :
    (d : Desc) (t : TokenDesc)
    → Knows d.ingesters t.ingester
    → Dict.get d.ingesters t.ingester ≢ none
unknown d t h e = cc (rw e at h)

collect-eq-take :
    (d : Desc) (op : Operation) (f : Found) (ts : List TokenDesc)
    → All (λ t. Knows d.ingesters t.ingester) ts
    → collect d op f ts
      ≡ ok (f.ingesters ++ take (still f) (eligible d.ingesters op f.distinct_hosts ts))
unfolding collect eligible visit
collect-eq-take d op f [] h =
    ap ok (sym (rw (take-nil {A = Replica} (still f)) (append-nil f.ingesters)))
collect-eq-take d op f (t ∷ ts) h = elim (Bool-cases (ltb (length f.distinct_hosts) f.n)) [
  | inr full ↦
      let none_left : still f ≡ 0 = ground arith in
      rw (full, none_left) (ap ok (sym (append-nil f.ingesters)))
  | inl more ↦ elim (Bool-cases (contains f.distinct_hosts t.ingester)) [
    | inl seen ↦ rw (more, seen) (collect-eq-take d op f ts h.1)
    | inr new ↦ elim (Option-cases (Dict.get d.ingesters t.ingester)) [
      | inl gone ↦ absurd (unknown d t h.0 gone)
      | inr (ing, known) ↦ elim (Bool-cases (is_skipped op ing.state)) [
        | inl skip ↦
            let f' : Found = record f {
              n = f.n + 1;
              distinct_hosts = t.ingester ∷ f.distinct_hosts;
            } in
            let same : still f ≡ still f' = ground arith in
            rw (more, new, known, skip, same) (collect-eq-take d op f' ts h.1)
        | inr keep ↦
            let f' : Found = record f {
              distinct_hosts = t.ingester ∷ f.distinct_hosts;
              ingesters = f.ingesters ++ (t.ingester, ing) ∷ [];
            } in
            let one : still f ≡ suc (still f') = ground arith in
            rw (more, new, known, keep, one)
              (collect-eq-take d op f' ts h.1 ∙ ap ok (append_assoc f.ingesters _ _))
      ]
    ]
  ]
]

pub search-lt-length :
    (tokens : List TokenDesc) (key : ℕ) → 0 < length tokens → search tokens key < length tokens
unfolding search
search-lt-length tokens key h = ground arith

sub_zero : (n : ℕ) → n - 0 ≡ n
sub_zero n = omega arith

not_empty : (n : ℕ) → 0 < n → (n == 0) ≡ false
not_empty n h = ground arith

mod_small : (m n : ℕ) → m < n → m % n ≡ m
mod_small m n h = grind arith

-- On a well-formed ring with a token, the lookup, whose bound grows with each ingester that it
-- skips, gives the first n of the eligible ingesters met on one walk round the ring from the
-- key's place.
pub get_internal-eq-take :
    (d : Desc) (key n : ℕ) (op : Operation)
    → IsRing d
    → 0 < length d.tokens
    → get_internal d key n op ≡ ok (take n (eligible d.ingesters op [] (walk d.tokens key)))
unfolding get_internal
get_internal-eq-take d key n op ring pos =
    rw (not_empty (length d.tokens) pos, get_internal) refl
    ∙ get_loop-eq-collect (length d.tokens) d op (search d.tokens key) start pos (omega arith)
    ∙ rw (mod_small (search d.tokens key) (length d.tokens) (search-lt-length d.tokens key pos)) (
        unfold walk in
        collect-eq-take d op start _
          (All-walk_from _ d.tokens (length d.tokens) (search d.tokens key) ring.registered)
        ∙ ap (λ (k : ℕ). ok (take k (eligible d.ingesters op [] (walk d.tokens key)))) (sub_zero n))
  where
    start : Found
    start = record { n = n; distinct_hosts = []; ingesters = [] }
