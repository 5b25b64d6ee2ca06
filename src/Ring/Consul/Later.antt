-- ===== src/Ring/Consul/Later.antt =====
-- What other clients can do to the store: indices grow, and a pair that changes gets a new one.
use cortex.Base.{
  ℕ, ◌+◌, ◌≤◌, ◌<◌, ◌≡◌, refl, ◌∙◌, true, false, Bytes, bytes_ord, nat_ord, ◌==◌, Option, none,
  some, arith, inl, inr, ◌⊎◌, Bool-cases, if◌then◌else◌,
}
use mathlib.Core.Option.{some-injective}
use cortex.Base.Dict
use cortex.Base.Dict.{get-put}
use cortex.Ring.Consul.{KvPair, MockKv, modified, cas_allowed, kv_put, kv_cas}

-- any sequence of writes
pub data Steps : MockKv → MockKv → Type 0 where
  here : {m : MockKv} → Steps m m
  wrote : {m m' : MockKv} (key value : Bytes) → Steps (kv_put m key value) m' → Steps m m'
  swapped :
      {m m' : MockKv} (key value : Bytes) (index : ℕ)
      → Steps (kv_cas m key value index).0 m'
      → Steps m m'

-- no pair was modified after the current index
abbrev pub IsKv : MockKv → Type 0
IsKv m = (key : Bytes) (p : KvPair) → Dict.get m.kvps key ≡ some p → p.modify_index ≤ m.current

-- each pair is the same, or was modified since
abbrev pub Later : MockKv → MockKv → Type 0
Later m m' =
    (m.current ≤ m'.current)
    × ((key : Bytes)
        → (Dict.get m'.kvps key ≡ Dict.get m.kvps key)
          ⊎ ((p : KvPair) × (Dict.get m'.kvps key ≡ some p) × (m.current < p.modify_index)))

Later-refl : (m : MockKv) → Later m m
Later-refl m = (omega arith, λ key. inl refl)

Later-trans : (a b c : MockKv) → Later a b → Later b c → Later a c
Later-trans a b c h k = (
  omega (arith, h.0, k.0),
  λ key. elim (k.1 key) [
    | inl same ↦ elim (h.1 key) [
      | inl still ↦ inl (same ∙ still)
      | inr (p, e, new) ↦ inr (p, same ∙ e, new)
    ]
    | inr (p, e, new) ↦ inr (p, e, omega (arith, h.0, new))
  ],
)

modified_index :
    (o : Option KvPair) (value : Bytes) (index : ℕ) → (modified o value index).modify_index ≡ index
modified_index none value index = refl
modified_index (some p) value index = refl

module _ (m : MockKv) (key value : Bytes) where
  abbrev new_pair : KvPair
  new_pair = modified (Dict.get m.kvps key) value (m.current + 1)

  get-kv_put :
      (k : Bytes)
      → Dict.get (kv_put m key value).kvps k
        ≡ (if key == k then some new_pair else Dict.get m.kvps k)
  unfolding kv_put
  get-kv_put k = get-put m.kvps key k new_pair

  current-kv_put : (kv_put m key value).current ≡ m.current + 1
  unfolding kv_put
  current-kv_put = refl

  kv_put-Later : Later m (kv_put m key value)
  kv_put-Later = (
    rw current-kv_put (omega arith),
    λ k. elim (Bool-cases (key == k)) [
      | inl e ↦ inr (
        new_pair,
        rw (get-kv_put k, e) refl,
        rw (modified_index (Dict.get m.kvps key) value (m.current + 1)) (omega arith),
      )
      | inr e ↦ inl (rw (get-kv_put k, e) refl)
    ],
  )

  kv_put-IsKv : IsKv m → IsKv (kv_put m key value)
  kv_put-IsKv is k p h = elim (Bool-cases (key == k)) [
    | inl e ↦
        let same : new_pair ≡ p = some-injective _ _ (rw (get-kv_put k, e) at h) in
        rw (current-kv_put, ← same, modified_index (Dict.get m.kvps key) value (m.current + 1))
          (omega arith)
    | inr e ↦ let old = is k p (rw (get-kv_put k, e) at h) in rw current-kv_put (omega arith)
  ]

module _ (m : MockKv) (key value : Bytes) (index : ℕ) where
  kv_cas_put :
      cas_allowed (Dict.get m.kvps key) index ≡ true
      → kv_cas m key value index ≡ (kv_put m key value, true)
  unfolding kv_cas
  kv_cas_put h = rw h refl

  kv_cas_none :
      cas_allowed (Dict.get m.kvps key) index ≡ false → kv_cas m key value index ≡ (m, false)
  unfolding kv_cas
  kv_cas_none h = rw h refl

  -- a write by CAS goes through whole, or not at all
  pub kv_cas-cases :
      ((cas_allowed (Dict.get m.kvps key) index ≡ true)
        × (kv_cas m key value index ≡ (kv_put m key value, true)))
      ⊎ (kv_cas m key value index ≡ (m, false))
  kv_cas-cases = elim (Bool-cases (cas_allowed (Dict.get m.kvps key) index)) [
    | inl e ↦ inl (e, kv_cas_put e)
    | inr e ↦ inr (kv_cas_none e)
  ]

-- a valid store, later than another
abbrev pub Follows : MockKv → MockKv → Type 0
Follows m m' = IsKv m' × Later m m'

Follows_trans : (a b c : MockKv) → Follows a b → Follows b c → Follows a c
Follows_trans a b c h k = (k.0, Later-trans a b c h.1 k.1)

pub kv_put-Follows : (m : MockKv) (key value : Bytes) → IsKv m → Follows m (kv_put m key value)
kv_put-Follows m key value is = (kv_put-IsKv m key value is, kv_put-Later m key value)

pub kv_cas-Follows :
    (m : MockKv) (key value : Bytes) (index : ℕ) → IsKv m → Follows m (kv_cas m key value index).0
kv_cas-Follows m key value index is = elim (kv_cas-cases m key value index) [
  | inl (allowed, e) ↦ rw e (kv_put-Follows m key value is)
  | inr e ↦ rw e (is, Later-refl m)
]

pub Steps-Follows : (m m' : MockKv) → IsKv m → Steps m m' → Follows m m'
Steps-Follows m m' is here = (is, Later-refl m)
Steps-Follows m m' is (wrote key value rest) =
    let next = kv_put-Follows m key value is in
    Follows_trans m (kv_put m key value) m' next (Steps-Follows (kv_put m key value) m' next.0 rest)
Steps-Follows m m' is (swapped key value index rest) =
    let next = kv_cas-Follows m key value index is in
    Follows_trans m (kv_cas m key value index).0 m' next
      (Steps-Follows (kv_cas m key value index).0 m' next.0 rest)

-- An index that was current, and is still that of the pair, is of the same pair.
pub same_pair :
    (m m' : MockKv) (key : Bytes) (index : ℕ)
    → Later m m'
    → index ≤ m.current
    → cas_allowed (Dict.get m'.kvps key) index ≡ true
    → Dict.get m'.kvps key ≡ Dict.get m.kvps key
same_pair m m' key index later le h = elim (later.1 key) [
  | inl same ↦ same
  | inr (p, e, new) ↦
      let at_index : (p.modify_index == index) ≡ true = rw e at h in
      absurd (ground (arith, at_index))
]
