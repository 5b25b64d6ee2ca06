-- ===== src/Ingester/Lifecycle/Updates.antt =====
-- What each update keeps: the ring well-formed, and the ingester in its state or a later one.
use cortex.Base.{
  ℕ, ◌≤◌, ◌≡◌, refl, List, [], ◌∷◌, Bool, true, false, Bytes, bytes_ord, Option, none, some, arith,
  inl, inr, Option-cases,
}
use mathlib.Core.Path.{subst}
use mathlib.Core.Option.{some-injective, none-ne-some}
use cortex.Base.Int.{ℤ}
use cortex.Base.Dict
use cortex.Ring.{IngesterDesc, IngesterState, active, leaving, pending, joining, Desc}
use cortex.Ring.Model.{
  Knows, IsRing, All-Knows-put, new_desc-IsRing, add_ingester-IsRing, claim_tokens-IsRing,
}
use cortex.Ingester.Lifecycle.{
  Node, Update, Cas, desc_or_new, auto_join, update_consul, claim_for, run_attempts, run_cas,
}

abbrev pub rank : IngesterState → ℕ
rank pending = 0
rank joining = 1
rank active = 2
rank leaving = 3

abbrev pub IsRingOrNone : Option Desc → Type 0
IsRingOrNone none = Unit
IsRingOrNone (some d) = IsRing d

-- the same ingester, in the same state or in a later one
abbrev pub Onward : Node → Node → Type 0
Onward n n' = (n'.id ≡ n.id) × (rank n.state ≤ rank n'.state)

module _ (f : Update) (P : Node → Type 0) (Q : Option Desc → Type 0)
    (keeps : (n : Node) (ring : Option Desc) → P n → P (f n ring).0) where
  run_attempts_keeps :
      (stale : List (Option Desc)) (written : Bool) (n : Node) (ring : Option Desc)
      → ((n : Node) (d : Desc) → P n → (f n ring).1 ≡ some d → Q (some d))
      → P n
      → Q ring
      → let r = run_attempts f stale written n ring in P r.0 × Q r.1
  unfolding run_attempts
  run_attempts_keeps [] false n ring good p q = (p, q)
  run_attempts_keeps [] true n ring good p q = elim (Option-cases (f n ring).1) [
    | inl e ↦ rw (e, run_attempts) (keeps n ring p, q)
    | inr (d, e) ↦ rw (e, run_attempts) (keeps n ring p, good n d p e)
  ]
  run_attempts_keeps (seen ∷ stale) written n ring good p q = elim (Option-cases (f n seen).1) [
    | inl e ↦ rw (e, run_attempts) (keeps n seen p, q)
    | inr (d, e) ↦
        rw (e, run_attempts)
          (run_attempts_keeps stale written (f n seen).0 ring good (keeps n seen p) q)
  ]

  pub run_cas_keeps :
      (cas : Cas) (n : Node) (ring : Option Desc)
      → ((n : Node) (d : Desc) → P n → (f n ring).1 ≡ some d → Q (some d))
      → P n
      → Q ring
      → let r = run_cas cas f n ring in P r.0 × Q r.1
  unfolding run_cas
  run_cas_keeps cas n ring good p q = run_attempts_keeps cas.stale cas.written n ring good p q

desc_or_new-IsRing : (ring : Option Desc) → IsRingOrNone ring → IsRing (desc_or_new ring)
desc_or_new-IsRing none h = new_desc-IsRing
desc_or_new-IsRing (some d) h = h

module _ (num_tokens : ℕ) (generate : ℕ → List ℕ → List ℕ) (now : ℤ) (ring : Option Desc)
    (is : IsRingOrNone ring) where
  pub auto_join-IsRing :
      (n : Node) (d : Desc) → (auto_join num_tokens generate now n ring).1 ≡ some d → IsRing d
  unfolding auto_join
  auto_join-IsRing n d h =
      subst IsRing (some-injective _ d h)
        (add_ingester-IsRing now n.id n.addr _ active (desc_or_new-IsRing ring is))

pub auto_join-Onward :
    (num_tokens : ℕ) (generate : ℕ → List ℕ → List ℕ) (now : ℤ) (from n : Node) (ring : Option Desc)
    → from.state ≡ pending
    → Onward from n
    → Onward from (auto_join num_tokens generate now n ring).0
unfolding auto_join
auto_join-Onward num_tokens generate now from n ring start h = (h.0, rw start (omega arith))

pub update_consul-same :
    (now : ℤ) (n : Node) (ring : Option Desc) → (update_consul now n ring).0 ≡ n
unfolding update_consul
update_consul-same now n ring = elim (Option-cases (Dict.get (desc_or_new ring).ingesters n.id)) [
  | inl e ↦ rw (e, update_consul) refl
  | inr (ing, e) ↦ rw (e, update_consul) refl
]

put-IsRing :
    (d : Desc) (id : Bytes) (ing : IngesterDesc)
    → IsRing d
    → IsRing (record d { ingesters = Dict.put d.ingesters id ing })
put-IsRing d id ing is = record {
  sorted = is.sorted;
  registered = All-Knows-put d.ingesters id ing d.tokens is.registered;
}

pub update_consul-IsRing :
    (now : ℤ) (n : Node) (ring : Option Desc) (d : Desc)
    → IsRingOrNone ring
    → (update_consul now n ring).1 ≡ some d
    → IsRing d
unfolding update_consul
update_consul-IsRing now n ring d is h =
    elim (Option-cases (Dict.get (desc_or_new ring).ingesters n.id)) [
      | inl e ↦
          subst IsRing (some-injective _ d (rw (e, update_consul) at h))
            (add_ingester-IsRing now n.id n.addr n.tokens n.state (desc_or_new-IsRing ring is))
      | inr (ing, e) ↦
          subst IsRing (some-injective _ d (rw (e, update_consul) at h))
            (put-IsRing (desc_or_new ring) n.id _ (desc_or_new-IsRing ring is))
    ]

pub claim_for-Onward :
    (from : Bytes) (start n : Node) (ring : Option Desc)
    → Onward start n
    → Onward start (claim_for from n ring).0
unfolding claim_for
claim_for-Onward from start n none h = h
claim_for-Onward from start n (some d) h = h

pub claim_for-IsRing :
    (from : Bytes) (n : Node) (ring : Option Desc) (d : Desc)
    → IsRingOrNone ring
    → Knows (desc_or_new ring).ingesters n.id
    → (claim_for from n ring).1 ≡ some d
    → IsRing d
unfolding claim_for
claim_for-IsRing from n none d is known h = absurd (none-ne-some d h)
claim_for-IsRing from n (some old) d is known h =
    subst IsRing (some-injective _ d h) (claim_tokens-IsRing from n.id known is)
