-- ===== src/Ingester/Lifecycle/Registered.antt =====
-- An update that went through has put the ingester into the ring, as it now is.
use cortex.Base.{
  ℕ, ◌≡◌, refl, ◌∙◌, List, [], ◌∷◌, Bool, true, false, Bytes, bytes_ord, Option, none, some, inl,
  inr, Option-cases, Bool-cases, ==_refl, if◌then◌else◌,
}
use cortex.Base.Int.{ℤ}
use cortex.Base.Dict
use cortex.Base.Dict.{get-put}
use cortex.Ring.{IngesterDesc, IngesterState, active, Desc, add_ingester}
use cortex.Ingester.Lifecycle.Updates.{run_cas_keeps, update_consul-same}
use cortex.Ingester.Lifecycle.{
  Node, Update, Cas, desc_or_new, auto_join, update_consul, allowed, run_attempts, run_cas,
  change_state,
}

-- the ring has the ingester's address and state, at the time
abbrev pub Registered : ℤ → Node → Option Desc → Type 0
Registered now n none = ⊥
Registered now n (some d) =
    Dict.get d.ingesters n.id ≡ some (record { addr = n.addr; timestamp = now; state = n.state })

get-add_ingester :
    (now : ℤ) (id addr : Bytes) (tokens : List ℕ) (state : IngesterState) (d : Desc)
    → Dict.get (add_ingester now id addr tokens state d).ingesters id
      ≡ some (record { addr = addr; timestamp = now; state = state })
unfolding add_ingester
get-add_ingester now id addr tokens state d = rw (get-put d.ingesters id id _, ==_refl id) refl

auto_join-Registered :
    (num_tokens : ℕ) (generate : ℕ → List ℕ → List ℕ) (now : ℤ) (n : Node) (ring : Option Desc)
    → let r = auto_join num_tokens generate now n ring in Registered now r.0 r.1
unfolding auto_join
auto_join-Registered num_tokens generate now n ring =
    get-add_ingester now n.id n.addr _ active (desc_or_new ring)

module _ (now : ℤ) (n : Node) (ring : Option Desc) where
  abbrev d : Desc
  d = desc_or_new ring

  update_consul_new :
      Dict.get d.ingesters n.id ≡ none
      → update_consul now n ring ≡ (n, some (add_ingester now n.id n.addr n.tokens n.state d))
  unfolding update_consul
  update_consul_new e = rw (e, update_consul) refl

  abbrev own_entry : IngesterDesc
  own_entry = record { addr = n.addr; timestamp = now; state = n.state }

  update_consul_known :
      (ing : IngesterDesc)
      → Dict.get d.ingesters n.id ≡ some ing
      → update_consul now n ring
        ≡ (n, some (record d { ingesters = Dict.put d.ingesters n.id own_entry }))
  unfolding update_consul
  update_consul_known ing e = rw (e, update_consul) refl

  update_consul-Registered : let r = update_consul now n ring in Registered now r.0 r.1
  update_consul-Registered = elim (Option-cases (Dict.get d.ingesters n.id)) [
    | inl e ↦ rw (update_consul_new e) (get-add_ingester now n.id n.addr n.tokens n.state d)
    | inr (ing, e) ↦
        rw (update_consul_known ing e)
          (get-put d.ingesters n.id n.id own_entry ∙ rw (==_refl n.id) refl)
  ]

module _ (f : Update) (now : ℤ)
    (registers : (n : Node) (ring : Option Desc) → Registered now (f n ring).0 (f n ring).1) where
  pub run_attempts_written :
      (stale : List (Option Desc)) (written : Bool) (n : Node) (ring : Option Desc)
      → let r = run_attempts f stale written n ring in r.2 ≡ true → Registered now r.0 r.1
  unfolding run_attempts
  run_attempts_written [] false n ring h = cc
  run_attempts_written [] true n ring h = elim (Option-cases (f n ring).1) [
    | inl e ↦ absurd (rw e at (registers n ring))
    | inr (d, e) ↦ rw (e, run_attempts) (rw e at (registers n ring))
  ]
  run_attempts_written (seen ∷ stale) written n ring h = elim (Option-cases (f n seen).1) [
    | inl e ↦ absurd (rw e at (registers n seen))
    | inr (d, e) ↦
        rw (e, run_attempts)
          (run_attempts_written stale written (f n seen).0 ring (rw (e, run_attempts) at h))
  ]

-- Where an auto-join returns no error, the ring has the ingester as it now is, at the time.
pub auto_join_written :
    (cas : Cas) (num_tokens : ℕ) (generate : ℕ → List ℕ → List ℕ) (now : ℤ) (n : Node)
    (ring : Option Desc)
    → let r = run_cas cas (auto_join num_tokens generate now) n ring in
      r.2 ≡ true → Registered now r.0 r.1
unfolding run_cas
auto_join_written cas num_tokens generate now n ring h =
    run_attempts_written (auto_join num_tokens generate now) now
      (auto_join-Registered num_tokens generate now) cas.stale cas.written n ring h

module _ (cas : Cas) (now : ℤ) (to : IngesterState) (n : Node) (ring : Option Desc) where
  abbrev moved : Node
  moved = record n { state = to }

  change_state_allowed :
      allowed n.state to ≡ true
      → change_state cas now to n ring ≡ run_cas cas (update_consul now) moved ring
  unfolding change_state
  change_state_allowed e = rw e refl

  change_state_refused :
      allowed n.state to ≡ false → change_state cas now to n ring ≡ (n, ring, false)
  unfolding change_state
  change_state_refused e = rw e refl

  heartbeat_written :
      let r = run_cas cas (update_consul now) moved ring in r.2 ≡ true → Registered now r.0 r.1
  unfolding run_cas
  heartbeat_written h =
      run_attempts_written (update_consul now) now (update_consul-Registered now) cas.stale
        cas.written moved ring h

  heartbeat_same : (run_cas cas (update_consul now) moved ring).0 ≡ moved
  heartbeat_same =
      (run_cas_keeps (update_consul now) (λ m. m ≡ moved) (λ r. Unit)
        (λ m r h. update_consul-same now m r ∙ h) cas moved ring (λ m d p e. tt) refl tt).0

  -- A change of state takes the ingester to the new state where that is allowed, even if consul
  -- fails, and else leaves it and the ring as they were; where it returns no error it was
  -- allowed, and the ring has the ingester's address, the new state and the time.
  pub change_state_lem :
      let r = change_state cas now to n ring in
      (r.0 ≡ (if allowed n.state to then moved else n))
      × (r.2 ≡ true → (allowed n.state to ≡ true) × Registered now moved r.1)
      × (allowed n.state to ≡ false → r.1 ≡ ring)
  change_state_lem = elim (Bool-cases (allowed n.state to)) [
    | inl e ↦
        rw (change_state_allowed e, e)
          (heartbeat_same, λ h. (refl, rw heartbeat_same at (heartbeat_written h)), λ h. cc)
    | inr e ↦ rw (change_state_refused e, e) (refl, λ h. cc, λ h. refl)
  ]
