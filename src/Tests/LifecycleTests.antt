-- ===== src/Tests/LifecycleTests.antt =====
-- An ingester that joins a ring on its own, sends a heartbeat and leaves.
use cortex.Base.{
  ℕ, zero, suc, ◌≡◌, refl, [], ◌∷◌, List, Bool, true, false, bytes_ord, codes, some, none, Option,
  if◌then◌else◌,
}
use cortex.Base.Int.{pos}
use cortex.Ring.{Desc, new_desc, pending, leaving}
use cortex.Ring.Model.{new_desc-IsRing}
use cortex.Ingester.Lifecycle.{
  Node, Cas, Loop, stays, auto_joined, heartbeat, changed, others, auto_join, update_consul,
  allowed, run_cas, change_state,
}
use cortex.Ingester.Lifecycle.Updates.{Onward, IsRingOrNone}
use cortex.Ingester.Lifecycle.Ranks.{loop_lem}
use cortex.Ingester.Lifecycle.Registered.{Registered, change_state_lem}

abbrev fresh : Node
fresh = record { id = codes "a"; addr = codes "10.0.0.1"; state = pending; tokens = [] }

abbrev at_once : Cas
at_once = record { stale = []; written = true }

abbrev second_try : Cas
second_try = record { stale = some new_desc ∷ []; written = true }

abbrev numbered : ℕ → List ℕ → List ℕ
numbered zero taken = []
numbered (suc n) taken = n ∷ numbered n taken

abbrev joined : Node × Option Desc × Bool
joined = run_cas second_try (auto_join 3 numbered (pos 1)) fresh none

abbrev beaten : Node × Option Desc × Bool
beaten = run_cas at_once (update_consul (pos 2)) joined.0 (some new_desc)

abbrev left : Node × Option Desc × Bool
left = change_state at_once (pos 3) leaving beaten.0 beaten.1

-- consul is emptied between the join and the heartbeat
life : Loop fresh none left.0 left.1
life = auto_joined second_try 3 numbered (pos 1) refl (
    others new_desc new_desc-IsRing
      (heartbeat at_once (pos 2) (changed at_once (pos 3) leaving stays)))

loop_example : Onward fresh left.0 × IsRingOrNone left.1
loop_example = loop_lem fresh left.0 none left.1 life tt

change_state_example :
    let r = change_state second_try (pos 3) leaving joined.0 joined.1 in
    (r.0 ≡ (
      if allowed (joined.0).state leaving then record (joined.0) { state = leaving } else joined.0))
    × (r.2 ≡ true
        → (allowed (joined.0).state leaving ≡ true)
          × Registered (pos 3) (record (joined.0) { state = leaving }) r.1)
    × (allowed (joined.0).state leaving ≡ false → r.1 ≡ joined.1)
change_state_example = change_state_lem second_try (pos 3) leaving joined.0 joined.1
