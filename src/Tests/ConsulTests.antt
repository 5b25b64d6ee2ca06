-- ===== src/Tests/ConsulTests.antt =====
-- An update of a key in consul while another client writes the same key between its calls.
use mathlib.Core.Option.{none-ne-some}
use cortex.Base.{
  ℕ, zero, suc, ◌≤◌, ◌≡◌, refl, [], ◌∷◌, ◌++◌, false, Bytes, bytes_ord, codes, some, none, Option,
}
use cortex.Base.Dict
use cortex.Ring.Consul.{MockKv, new_mock_kv, Codec, Outcome, value, CasResult, done, kv_put, cas}
use cortex.Ring.Consul.Later.{Steps, here, wrote, IsKv}
use cortex.Ring.Consul.Round.{elapsed, Ends}
use cortex.Ring.Consul.Atomic.{cas_lem, cas_undisturbed}

abbrev plain : Codec Bytes
plain = record { encode = λ b. some b; decode = λ b. some b }

-- one more byte than there was
abbrev append_one : Option Bytes → Outcome Bytes Unit
append_one none = value (some (1 ∷ []))
append_one (some b) = value (some (b ++ 1 ∷ []))

abbrev rival : ℕ → MockKv → MockKv
rival zero m = m
rival (suc zero) m = kv_put m (codes "ring") (7 ∷ [])
rival (suc (suc t)) m = m

rival-Steps : (t : ℕ) (m : MockKv) → Steps m (rival t m)
rival-Steps zero m = here
rival-Steps (suc zero) m = wrote (codes "ring") (7 ∷ []) here
rival-Steps (suc (suc t)) m = here

new_mock_kv-IsKv : IsKv new_mock_kv
unfolding Dict.get
new_mock_kv-IsKv key p e = absurd (none-ne-some p e)

cas_example :
    (n : ℕ) × (n ≤ 20)
    × Ends plain
        (codes "ring")
        append_one
        (elapsed rival 0 n new_mock_kv)
        (cas plain (codes "ring") append_one rival (λ t. false) new_mock_kv)
cas_example =
    cas_lem plain (codes "ring") append_one rival (λ t. false) rival-Steps new_mock_kv
      new_mock_kv-IsKv

abbrev alone : ℕ → MockKv → MockKv
alone t m = m

cas_undisturbed_example :
    cas plain (codes "ring") append_one alone (λ t. false) new_mock_kv
    ≡ (kv_put new_mock_kv (codes "ring") (1 ∷ []), done)
unfolding cortex.Ring.Consul.kv_get Dict.get
cas_undisturbed_example =
    cas_undisturbed plain (codes "ring") append_one alone (λ t. false) new_mock_kv none (1 ∷ [])
      (1 ∷ []) refl refl refl refl refl refl
