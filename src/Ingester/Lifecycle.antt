-- ===== src/Ingester/Lifecycle.antt =====
-- ingester/ingester_lifecycle.go: an ingester's state and tokens, and the updates by which it tells the ring
-- of them. An update is the callback that it gives to CAS: from the ingester and the ring, or `none` for an
-- empty one, to the ingester that it leaves and the ring that it returns, or `none` for an error that is not
-- tried again. `now` is in seconds.
pub mod Updates
pub mod Ranks
pub mod Registered
use cortex.Base.{
  ℕ, ◌-◌, List, [], ◌∷◌, ◌++◌, Bool, true, false, not, ◌&&◌, ◌||◌, Bytes, bytes_ord, nat_ord, ◌==◌,
  if◌then◌else◌, Option, none, some, length, ◌≡◌,
}
use cortex.Base.Int.{ℤ}
use cortex.Base.Dict
use cortex.Base.Sort.{sort}
use cortex.Ring.Model.{Knows, IsRing}
use cortex.Ring.{
  IngesterState, active, leaving, pending, joining, same_state, Desc, new_desc, IngesterDesc,
  add_ingester, remove_ingester, claim_tokens, tokens_for,
}

-- what the lifecycle reads and writes of an Ingester
pub record Node : Type 0 where
  pub id : Bytes
  pub addr : Bytes
  pub state : IngesterState
  pub tokens : List ℕ

abbrev pub Update : Type 0
Update = Node → Option Desc → Node × Option Desc

-- ring.NewDesc() where the key has no value
abbrev pub desc_or_new : Option Desc → Desc
desc_or_new none = new_desc
desc_or_new (some d) = d

-- the callback of initRing
unfoldable pub init_ring : ℤ → Update
init_ring now n ring =
    let d = desc_or_new ring in
    elim (Dict.get d.ingesters n.id) [
      | none ↦ (n, some (add_ingester now n.id n.addr [] n.state d))
      | some ing ↦
          (record n { state = IngesterDesc.state ing; tokens = (tokens_for n.id d).0 }, some d)
    ]

-- The callback of autoJoin. `generate` is GenerateTokens, from how many and the tokens taken.
unfoldable pub auto_join : ℕ → (ℕ → List ℕ → List ℕ) → ℤ → Update
auto_join num_tokens generate now n ring =
    let d = desc_or_new ring in
    let owned = tokens_for n.id d in
    let new = generate (num_tokens - length owned.0) owned.1 in
    (
      record n { state = active; tokens = sort (λ t. t) (owned.0 ++ new) },
      some (add_ingester now n.id n.addr new active d),
    )

-- the callback of updateConsul
unfoldable pub update_consul : ℤ → Update
update_consul now n ring =
    let d = desc_or_new ring in
    elim (Dict.get d.ingesters n.id) [
      | none ↦ (n, some (add_ingester now n.id n.addr n.tokens n.state d))
      | some ing ↦ (
        n,
        some (record d {
          ingesters =
              Dict.put d.ingesters n.id
                (record { addr = n.addr; timestamp = now; state = n.state });
        }),
      )
    ]

-- The callback of ClaimTokensFor. Its variable `tokens` is in the place of the ingester's tokens, which are
-- set to it when CAS has returned.
unfoldable pub claim_for : Bytes → Update
claim_for from n none = (n, none)
claim_for from n (some d) =
    let claimed = claim_tokens from n.id d in (record n { tokens = claimed.1 }, some claimed.0)

-- the callback of unregister
unfoldable pub unregister : Update
unregister n none = (n, none)
unregister n (some d) = (n, some (remove_ingester n.id d))

-- "Only the following state transitions can be triggered externally"
unfoldable pub allowed : IngesterState → IngesterState → Bool
allowed from to =
    (same_state from pending && same_state to joining)
    || (same_state from pending && same_state to active)
    || (same_state from joining && same_state to active)
    || (same_state from active && same_state to leaving)

-- What consul makes of a call of CAS: the rings that its attempts before the last saw, and whether the last
-- one was written.
pub record Cas : Type 0 where
  pub stale : List (Option Desc)
  pub written : Bool

-- the ingester, the ring and whether CAS returned no error
unfoldable pub run_attempts :
    Update → List (Option Desc) → Bool → Node → Option Desc → Node × Option Desc × Bool
run_attempts f [] false n ring = (n, ring, false)
run_attempts f [] true n ring =
    let r = f n ring in elim r.1 [ none ↦ (r.0, ring, false) | some d ↦ (r.0, some d, true) ]
run_attempts f (seen ∷ stale) written n ring =
    let r = f n seen in
    elim r.1 [ none ↦ (r.0, ring, false) | some d ↦ run_attempts f stale written r.0 ring ]

unfoldable pub run_cas : Cas → Update → Node → Option Desc → Node × Option Desc × Bool
unfolding run_attempts
run_cas cas f n ring = run_attempts f cas.stale cas.written n ring

-- changeState; an error leaves all as it was
unfoldable pub change_state :
    Cas → ℤ → IngesterState → Node → Option Desc → Node × Option Desc × Bool
unfolding allowed run_cas update_consul
change_state cas now to n ring =
    let changed = run_cas cas (update_consul now) (record n { state = to }) ring in
    if allowed n.state to then changed else (n, ring, false)

-- ClaimTokensFor: whether CAS has failed is not returned
unfoldable pub claim_tokens_for : Cas → Bytes → Node → Option Desc → Node × Option Desc
unfolding run_cas claim_for
claim_tokens_for cas from n ring =
    let r = run_cas cas (claim_for from) (record n { tokens = [] }) ring in (r.0, r.1)

-- The loop, with what other ingesters do to the ring in between: the timer that joins an ingester that is
-- still PENDING, the heartbeat, and the changes and claims that other goroutines ask for.
pub data Loop : Node → Option Desc → Node → Option Desc → Type 0 where
  stays : {n : Node} {ring : Option Desc} → Loop n ring n ring
  auto_joined :
      {n n' : Node} {ring ring' : Option Desc} (cas : Cas) (num_tokens : ℕ)
      (generate : ℕ → List ℕ → List ℕ) (now : ℤ)
      → n.state ≡ pending
      → Loop
          (run_cas cas (auto_join num_tokens generate now) n ring).0
          (run_cas cas (auto_join num_tokens generate now) n ring).1
          n'
          ring'
      → Loop n ring n' ring'
  heartbeat :
      {n n' : Node} {ring ring' : Option Desc} (cas : Cas) (now : ℤ)
      → Loop
          (run_cas cas (update_consul now) n ring).0
          (run_cas cas (update_consul now) n ring).1
          n'
          ring'
      → Loop n ring n' ring'
  changed :
      {n n' : Node} {ring ring' : Option Desc} (cas : Cas) (now : ℤ) (to : IngesterState)
      → Loop (change_state cas now to n ring).0 (change_state cas now to n ring).1 n' ring'
      → Loop n ring n' ring'
  claimed :
      {n n' : Node} {ring ring' : Option Desc} (cas : Cas) (from : Bytes)
      → Knows (desc_or_new ring).ingesters n.id
      → Loop (claim_tokens_for cas from n ring).0 (claim_tokens_for cas from n ring).1 n' ring'
      → Loop n ring n' ring'
  others :
      {n n' : Node} {ring ring' : Option Desc} (d : Desc)
      → IsRing d
      → Loop n (some d) n' ring'
      → Loop n ring n' ring'
