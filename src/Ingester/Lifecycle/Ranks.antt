-- ===== src/Ingester/Lifecycle/Ranks.antt =====
-- An ingester moves through its states in one direction, whatever consul and the other ingesters do, and
-- keeps the ring well-formed.
use cortex.Base.{
  ℕ, ◌≤◌, ◌≡◌, refl, ◌∙◌, List, [], true, Bytes, bytes_ord, Option, some, arith, inl, inr,
  Bool-cases,
}
use cortex.Base.Int.{ℤ}
use cortex.Ring.{IngesterState, active, leaving, pending, joining, Desc}
use cortex.Ring.Model.{Knows}
use cortex.Ingester.Lifecycle.{
  Node, Cas, desc_or_new, auto_join, update_consul, claim_for, allowed, run_cas, change_state,
  claim_tokens_for, Loop, stays, auto_joined, heartbeat, changed, claimed, others,
}
use cortex.Ingester.Lifecycle.Updates.{
  rank, IsRingOrNone, Onward, run_cas_keeps, auto_join-IsRing, auto_join-Onward, update_consul-same,
  update_consul-IsRing, claim_for-Onward, claim_for-IsRing,
}

Onward-refl : (n : Node) → Onward n n
Onward-refl n = (refl, omega arith)

Onward-trans : (a b c : Node) → Onward a b → Onward b c → Onward a c
Onward-trans a b c h k = (k.0 ∙ h.0, omega (arith, h.1, k.1))

-- an outcome of one event
abbrev Kept : Node → Node → Option Desc → Type 0
Kept n n' ring' = Onward n n' × IsRingOrNone ring'

heartbeat-Kept :
    (cas : Cas) (now : ℤ) (start n : Node) (ring : Option Desc)
    → Onward start n
    → IsRingOrNone ring
    → Kept start
        (run_cas cas (update_consul now) n ring).0
        (run_cas cas (update_consul now) n ring).1
heartbeat-Kept cas now start n ring on is =
    run_cas_keeps (update_consul now) (Onward start) IsRingOrNone
      (λ m r h. rw (update_consul-same now m r) h) cas n ring
      (λ m d p e. update_consul-IsRing now m ring d is e) on is

auto_joined-Kept :
    (cas : Cas) (num_tokens : ℕ) (generate : ℕ → List ℕ → List ℕ) (now : ℤ) (n : Node)
    (ring : Option Desc)
    → n.state ≡ pending
    → IsRingOrNone ring
    → Kept n
        (run_cas cas (auto_join num_tokens generate now) n ring).0
        (run_cas cas (auto_join num_tokens generate now) n ring).1
auto_joined-Kept cas num_tokens generate now n ring start is =
    run_cas_keeps (auto_join num_tokens generate now) (Onward n) IsRingOrNone
      (λ m r h. auto_join-Onward num_tokens generate now n m r start h) cas n ring
      (λ m d p e. auto_join-IsRing num_tokens generate now ring is m d e) (Onward-refl n) is

allowed-rank : (a b : IngesterState) → allowed a b ≡ true → rank a ≤ rank b
unfolding allowed
allowed-rank pending b h = omega arith
allowed-rank joining active h = omega arith
allowed-rank joining leaving h = omega arith
allowed-rank joining pending h = cc
allowed-rank joining joining h = omega arith
allowed-rank active leaving h = omega arith
allowed-rank active active h = omega arith
allowed-rank active pending h = cc
allowed-rank active joining h = cc
allowed-rank leaving active h = cc
allowed-rank leaving leaving h = omega arith
allowed-rank leaving pending h = cc
allowed-rank leaving joining h = cc

changed-Kept :
    (cas : Cas) (now : ℤ) (to : IngesterState) (n : Node) (ring : Option Desc)
    → IsRingOrNone ring
    → Kept n (change_state cas now to n ring).0 (change_state cas now to n ring).1
unfolding change_state
changed-Kept cas now to n ring is = elim (Bool-cases (allowed n.state to)) [
  | inl e ↦
      rw (e, change_state)
        (heartbeat-Kept cas now n (record n { state = to }) ring (refl, allowed-rank n.state to e)
          is)
  | inr e ↦ rw (e, change_state) (Onward-refl n, is)
]

claimed-Kept :
    (cas : Cas) (from : Bytes) (n : Node) (ring : Option Desc)
    → Knows (desc_or_new ring).ingesters n.id
    → IsRingOrNone ring
    → Kept n (claim_tokens_for cas from n ring).0 (claim_tokens_for cas from n ring).1
unfolding claim_tokens_for
claimed-Kept cas from n ring known is =
    run_cas_keeps (claim_for from) (Onward n) IsRingOrNone (claim_for-Onward from n) cas
      (record n { tokens = [] }) ring
      (λ m d p e. claim_for-IsRing from m ring d is (rw p.0 known) e) (refl, omega arith) is

Kept-trans :
    (a b c : Node) (ring ring' : Option Desc)
    → Kept a b ring
    → (IsRingOrNone ring → Kept b c ring')
    → Kept a c ring'
Kept-trans a b c ring ring' h k = (Onward-trans a b c h.0 (k h.1).0, (k h.1).1)

-- From a well-formed ring or none, through any events of an ingester's loop and well-formed
-- changes by others, with consul failing and retrying as it likes, and claims made by an ingester
-- that the ring knows: the ring stays well-formed, and the ingester keeps its id and goes through
-- its states in one direction only, from PENDING over JOINING and ACTIVE to LEAVING.
pub loop_lem :
    (n n' : Node) (ring ring' : Option Desc)
    → Loop n ring n' ring'
    → IsRingOrNone ring
    → Onward n n' × IsRingOrNone ring'
loop_lem n n' ring ring' stays is = (Onward-refl n, is)
loop_lem n n' ring ring' (auto_joined cas num_tokens generate now start rest) is =
    Kept-trans n (run_cas cas (auto_join num_tokens generate now) n ring).0 n'
      (run_cas cas (auto_join num_tokens generate now) n ring).1 ring'
      (auto_joined-Kept cas num_tokens generate now n ring start is)
      (loop_lem (run_cas cas (auto_join num_tokens generate now) n ring).0 n'
        (run_cas cas (auto_join num_tokens generate now) n ring).1 ring' rest)
loop_lem n n' ring ring' (heartbeat cas now rest) is =
    Kept-trans n (run_cas cas (update_consul now) n ring).0 n'
      (run_cas cas (update_consul now) n ring).1 ring'
      (heartbeat-Kept cas now n n ring (Onward-refl n) is)
      (loop_lem (run_cas cas (update_consul now) n ring).0 n'
        (run_cas cas (update_consul now) n ring).1 ring' rest)
loop_lem n n' ring ring' (changed cas now to rest) is =
    Kept-trans n (change_state cas now to n ring).0 n' (change_state cas now to n ring).1 ring'
      (changed-Kept cas now to n ring is)
      (loop_lem (change_state cas now to n ring).0 n' (change_state cas now to n ring).1 ring' rest)
loop_lem n n' ring ring' (claimed cas from known rest) is =
    Kept-trans n (claim_tokens_for cas from n ring).0 n' (claim_tokens_for cas from n ring).1 ring'
      (claimed-Kept cas from n ring known is)
      (loop_lem (claim_tokens_for cas from n ring).0 n' (claim_tokens_for cas from n ring).1 ring'
        rest)
loop_lem n n' ring ring' (others d good rest) is = loop_lem n n' (some d) ring' rest good
