-- ===== src/Chunk/Buckets/Cover.antt =====
-- The daily buckets of an interval cover it.
use cortex.Base.{
  ℕ, zero, suc, ◌+◌, ◌-◌, ◌*◌, ◌/◌, ◌≤◌, ◌<◌, ◌≡◌, ap, ◌∙◌, Bytes, nat_ord, some, get_elem?, arith,
}
use cortex.Chunk.Buckets.{SchemaConfig, Bucket, buckets_from, day_bucket, daily_buckets}

module _ (decimal : ℕ → Bytes) where
  get_elem-buckets_from :
      (bucket : ℕ → Bucket) (left i k : ℕ)
      → k < left
      → get_elem? (buckets_from decimal bucket left i) k ≡ some (bucket (i + k))
  unfolding buckets_from
  get_elem-buckets_from bucket zero i k h = absurd (omega arith)
  get_elem-buckets_from bucket (suc left) i zero h = ap (λ j. some (bucket j)) (plus_zero i)
    where
      plus_zero : (i : ℕ) → i ≡ i + 0
      plus_zero i = omega arith
  get_elem-buckets_from bucket (suc left) i (suc k) h =
      get_elem-buckets_from bucket left (suc i) k (omega arith)
      ∙ ap (λ j. some (bucket j)) (shift i k)
    where
      shift : (i k : ℕ) → suc i + k ≡ i + suc k
      shift i k = omega arith

  -- Each time of an interval falls into the bucket of its day, which is among the interval's
  -- buckets in its place, and between the bounds that the bucket has, as offsets from the start
  -- of the day; these are in order and within the day.
  pub daily_buckets_lem :
      (cfg : SchemaConfig) (from through t : ℕ) (user metric : Bytes)
      → from ≤ t
      → t ≤ through
      → let day = t / 1000 / 86400 in
        (b : Bucket) × (get_elem?
            (daily_buckets decimal cfg from through user metric)
            (day - from / 1000 / 86400)
          ≡ some b)
        × (b.from ≤ t - day * 86400000)
        × (t - day * 86400000 ≤ b.through)
        × (b.through ≤ 86400000)
        × (day * 86400000 ≤ t)
  unfolding daily_buckets
  daily_buckets_lem cfg from through t user metric lo hi =
      let day = t / 1000 / 86400 in
      let first = from / 1000 / 86400 in
      let before : first ≤ day = omega arith in
      let at : first + (day - first) ≡ day = omega arith in
      (
        day_bucket decimal cfg from through user metric day,
        get_elem-buckets_from (day_bucket decimal cfg from through user metric)
              (through / 1000 / 86400 + 1 - first) first (day - first) (omega arith)
            ∙ ap (λ j. some (day_bucket decimal cfg from through user metric j)) at,
        unfold day_bucket in omega arith,
        unfold day_bucket in ground arith,
        unfold day_bucket in ground arith,
        omega arith,
      )
