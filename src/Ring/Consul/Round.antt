-- ===== src/Ring/Consul/Round.antt =====
-- One round of consulClient.CAS, with other clients writing between its calls.
use cortex.Base.{
  nat_ord, ℕ, zero, suc, ◌+◌, ◌≤◌, ◌≡◌, refl, Bool, true, false, Bytes, bytes_ord, Option, none,
  some, arith, inl, inr, ◌⊎◌, Bool-cases, Option-cases,
}
use cortex.Base.Dict
use cortex.Ring.Consul.{
  MockKv, Codec, Outcome, CasResult, Attempt, again, finished, value, fail, done, gave_up, no_value,
  failed, decode_found, index_of, cas_allowed, kv_get, kv_put, attempt,
}
use cortex.Ring.Consul.Later.{Steps, IsKv, Follows, Steps-Follows, kv_cas-cases, same_pair}

Outcome-cases :
    {A E : Type 0} (o : Outcome A E)
    → ((e : E) × (retry : Bool) × (o ≡ fail e retry)) ⊎ ((out : Option A) × (o ≡ value out))
Outcome-cases (value out) = inr (out, refl)
Outcome-cases (fail e retry) = inl (e, retry, refl)

-- what the others do before the n calls from call t on
unfoldable pub elapsed : (ℕ → MockKv → MockKv) → ℕ → ℕ → MockKv → MockKv
elapsed moves t zero m = m
elapsed moves t (suc n) m = elapsed moves (t + 1) n (moves t m)

pub elapsed_add :
    (moves : ℕ → MockKv → MockKv) (t n k : ℕ) (m : MockKv)
    → elapsed moves (t + n) k (elapsed moves t n m) ≡ elapsed moves t (n + k) m
unfolding elapsed
elapsed_add moves t zero k m =
    let here : t + 0 ≡ t = omega arith in let all : 0 + k ≡ k = omega arith in rw (here, all) refl
elapsed_add moves t (suc n) k m =
    let there : t + suc n ≡ t + 1 + n = omega arith in
    let all : suc n + k ≡ suc (n + k) = omega arith in
    rw (there, all) (elapsed_add moves (t + 1) n k (moves t m))

module _ {A E : Type 0} (codec : Codec A) (key : Bytes) (f : Option A → Outcome A E) where
  -- From the first store, `done` writes what the callback makes of the value in it. Any other result leaves
  -- it.
  abbrev pub Ends : MockKv → MockKv × CasResult E → Type 0
  Ends m (m', done) =
      (old : Option A) × (new : A) × (bytes : Bytes) × (decode_found codec (kv_get m key)
        ≡ some old)
      × (f old ≡ value (some new))
      × (codec.encode new ≡ some bytes)
      × (m' ≡ kv_put m key bytes)
  Ends m (m', gave_up) = m' ≡ m
  Ends m (m', no_value) = m' ≡ m
  Ends m (m', failed e) = m' ≡ m

  module _ (moves : ℕ → MockKv → MockKv) (fails : ℕ → Bool)
      (others : (t : ℕ) (m : MockKv) → Steps m (moves t m)) where
    abbrev pub Good : ℕ → MockKv → Type 0
    Good index m = IsKv m × (index ≤ m.current)

    abbrev pub Round : ℕ → MockKv → Attempt E → Type 0
    Round t m (again t' index' m') =
        (n : ℕ) × (n ≤ 2) × (t' ≡ t + n) × (m' ≡ elapsed moves t n m) × Good index' m'
    Round t m (finished m' result) = (n : ℕ) × (n ≤ 2) × Ends (elapsed moves t n m) (m', result)

    after_one : (t : ℕ) (m : MockKv) → moves t m ≡ elapsed moves t 1 m
    unfolding elapsed
    after_one t m = refl

    after_two : (t : ℕ) (m : MockKv) → moves (t + 1) (moves t m) ≡ elapsed moves t 2 m
    unfolding elapsed
    after_two t m = refl

    module _ (t index : ℕ) (m : MockKv) (good : Good index m) where
      abbrev m1 : MockKv
      m1 = moves t m

      abbrev m2 : MockKv
      m2 = moves (t + 1) m1

      abbrev index' : ℕ
      index' = index_of index (kv_get m1 key)

      first : Follows m m1
      first = Steps-Follows m m1 good.0 (others t m)

      second : Follows m1 m2
      second = Steps-Follows m1 m2 first.0 (others (t + 1) m1)

      index_kept : index ≤ m1.current
      index_kept = omega (arith, good.1, first.1.0)

      index_current : index' ≤ m1.current
      unfolding kv_get
      index_current = elim (Option-cases (Dict.get m1.kvps key)) [
        | inl e ↦ rw e index_kept
        | inr (p, e) ↦ rw e (first.0 key p e)
      ]

      again_one : (i : ℕ) → i ≤ m1.current → Round t m (again (t + 1) i m1)
      again_one i h = (1, omega arith, refl, after_one t m, (first.0, h))

      again_two : Round t m (again (t + 2) index' m2)
      again_two = (
        2,
        omega arith,
        refl,
        after_two t m,
        (second.0, omega (arith, index_current, second.1.0)),
      )

      Round-written :
          (old : Option A) (new : A) (bytes : Bytes)
          → decode_found codec (kv_get m1 key) ≡ some old
          → f old ≡ value (some new)
          → codec.encode new ≡ some bytes
          → cas_allowed (Dict.get m2.kvps key) index' ≡ true
          → Round t m (finished (kv_put m2 key bytes) done)
      unfolding kv_get
      Round-written old new bytes found made encoded allowed =
          let same = same_pair m1 m2 key index' second.1 index_current allowed in
          (
            2,
            omega arith,
            (
              old,
              new,
              bytes,
              rw (← after_two t m, same) found,
              made,
              encoded,
              rw (← after_two t m) refl,
            ),
          )

      module _ (called : fails t ≡ false) (old : Option A)
          (found : decode_found codec (kv_get m1 key) ≡ some old) where
        Round-encoded :
            (new : A) (bytes : Bytes)
            → f old ≡ value (some new)
            → codec.encode new ≡ some bytes
            → Round t m (attempt codec key f moves fails t index m)
        unfolding attempt
        Round-encoded new bytes made encoded = elim (Bool-cases (fails (t + 1))) [
          | inl e ↦ rw (called, attempt, found, made, encoded, e) again_two
          | inr e ↦ elim (kv_cas-cases m2 key bytes index') [
            | inl (allowed, w) ↦
                rw (called, attempt, found, made, encoded, e, w)
                  (Round-written old new bytes found made encoded allowed)
            | inr w ↦ rw (called, attempt, found, made, encoded, e, w) again_two
          ]
        ]

        Round-answered : Round t m (attempt codec key f moves fails t index m)
        unfolding attempt
        Round-answered = elim (Outcome-cases (f old)) [
          | inl (e, true, made) ↦ rw (called, attempt, found, made) (again_one index' index_current)
          | inl (e, false, made) ↦ rw (called, attempt, found, made) (1, omega arith, after_one t m)
          | inr (none, made) ↦ rw (called, attempt, found, made) (1, omega arith, after_one t m)
          | inr (some new, made) ↦ elim (Option-cases (codec.encode new)) [
            | inl e ↦ rw (called, attempt, found, made, e) (again_one index' index_current)
            | inr (bytes, e) ↦ Round-encoded new bytes made e
          ]
        ]

      pub attempt-Round : Round t m (attempt codec key f moves fails t index m)
      unfolding attempt
      attempt-Round = elim (Bool-cases (fails t)) [
        | inl e ↦ rw (e, attempt) (again_one index index_kept)
        | inr e ↦ elim (Option-cases (decode_found codec (kv_get m1 key))) [
          | inl none_found ↦ rw (e, attempt, none_found) (again_one index index_kept)
          | inr (old, found) ↦ Round-answered e old found
        ]
      ]
