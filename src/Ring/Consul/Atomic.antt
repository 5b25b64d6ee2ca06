-- ===== src/Ring/Consul/Atomic.antt =====
-- consulClient.CAS, with other clients writing between its calls.
use cortex.Base.{
  ==_refl, nat_ord, ℕ, zero, suc, ◌+◌, ◌*◌, ◌≤◌, ◌≡◌, refl, Bool, true, false, Bytes, bytes_ord,
  Option, none, some, arith,
}
use cortex.Base.Dict
use cortex.Ring.Consul.{
  KvPair, MockKv, Codec, Outcome, Attempt, again, finished, value, done, decode_found, index_of,
  cas_allowed, kv_get, kv_put, kv_cas, attempt, cas_loop, cas,
}
use cortex.Ring.Consul.Round.{elapsed, elapsed_add, Ends, Good, Round, attempt-Round}
use cortex.Ring.Consul.Later.{Steps, IsKv}

module _ {A E : Type 0} (codec : Codec A) (key : Bytes) (f : Option A → Outcome A E) where
  module _ (moves : ℕ → MockKv → MockKv) (fails : ℕ → Bool)
      (others : (t : ℕ) (m : MockKv) → Steps m (moves t m)) where
    cas_loop_step :
        (retries t index : ℕ) (m : MockKv) (r : Attempt E)
        → attempt codec key f moves fails t index m ≡ r
        → cas_loop codec key f moves fails (suc retries) t index m ≡ elim r [
          | again t' index' m' ↦ cas_loop codec key f moves fails retries t' index' m'
          | finished m' result ↦ (m', result)
        ]
    unfolding cas_loop
    cas_loop_step retries t index m r h = rw (h, cas_loop) refl

    cas_loop_lem :
        (retries t index : ℕ) (m : MockKv)
        → Good codec key f moves fails others index m
        → (n : ℕ) × (n ≤ 2 * retries)
          × Ends codec key f
              (elapsed moves t n m)
              (cas_loop codec key f moves fails retries t index m)
    cas_loop_lem zero t index m good = unfold cas_loop elapsed in (0, omega arith, refl)
    cas_loop_lem (suc retries) t index m good =
        next (attempt codec key f moves fails t index m)
          (attempt-Round codec key f moves fails others t index m good)
          (cas_loop_step retries t index m _ refl) (cas_loop_lem retries)
      where
        next :
            (r : Attempt E)
            → Round codec key f moves fails others t m r
            → cas_loop codec key f moves fails (suc retries) t index m ≡ elim r [
              | again t' index' m' ↦ cas_loop codec key f moves fails retries t' index' m'
              | finished m' result ↦ (m', result)
            ]
            → ((t' index' : ℕ) (m' : MockKv)
                → Good codec key f moves fails others index' m'
                → (n : ℕ) × (n ≤ 2 * retries)
                  × Ends codec key f
                      (elapsed moves t' n m')
                      (cas_loop codec key f moves fails retries t' index' m'))
            → (n : ℕ) × (n ≤ 2 * suc retries)
              × Ends codec key f
                  (elapsed moves t n m)
                  (cas_loop codec key f moves fails (suc retries) t index m)
        next (again t' index' m') (n, le, at, there, good') step rest =
            let (k, few, ends) = rest t' index' m' good' in
            (n + k, omega arith, rw (step, ← elapsed_add moves t n k m, ← there, ← at) ends)
        next (finished m' result) (n, le, ends) step rest = (n, omega arith, rw step ends)

    -- With other clients writing any keys between the calls of a CAS, and any of its calls
    -- failing: after at most twenty calls, either CAS is done, and then its one write
    -- replaces the value that the key has at that moment by what the callback makes of that
    -- very value; or it has written nothing.
    pub cas_lem :
        (m : MockKv)
        → IsKv m
        → (n : ℕ) × (n ≤ 20)
          × Ends codec key f (elapsed moves 0 n m) (cas codec key f moves fails m)
    unfolding cas
    cas_lem m is = cas_loop_lem 10 0 0 m (is, omega arith)

  allowed_same : (index : ℕ) (o : Option KvPair) → cas_allowed o (index_of index o) ≡ true
  allowed_same index none = refl
  allowed_same index (some p) = ==_refl p.modify_index

  kv_cas_same :
      (index : ℕ) (m m' : MockKv) (bytes : Bytes)
      → kv_get m' key ≡ kv_get m key
      → kv_cas m' key bytes (index_of index (kv_get m key)) ≡ (kv_put m' key bytes, true)
  unfolding kv_cas kv_get
  kv_cas_same index m m' bytes same = rw (same, allowed_same index (Dict.get m.kvps key)) refl

  -- Where the first two calls of a CAS succeed, no other client writes the key between them,
  -- and the value decodes and the callback's answer encodes, CAS is done at its first attempt
  -- and has written that answer.
  pub cas_undisturbed :
      (moves : ℕ → MockKv → MockKv) (fails : ℕ → Bool) (m : MockKv) (old : Option A) (new : A)
      (bytes : Bytes)
      → fails 0 ≡ false
      → fails 1 ≡ false
      → let m1 = moves 0 m in
        kv_get (moves 1 m1) key ≡ kv_get m1 key
        → decode_found codec (kv_get m1 key) ≡ some old
        → f old ≡ value (some new)
        → codec.encode new ≡ some bytes
        → cas codec key f moves fails m ≡ (kv_put (moves 1 m1) key bytes, done)
  unfolding cas cas_loop attempt
  cas_undisturbed moves fails m old new bytes first second same found made encoded =
      rw
        (
          first,
          cas,
          cas_loop,
          attempt,
          found,
          made,
          encoded,
          second,
          kv_cas_same 0 (moves 0 m) (moves 1 (moves 0 m)) bytes same,
        )
        refl
