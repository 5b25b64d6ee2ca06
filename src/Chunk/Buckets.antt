-- ===== src/Chunk/Buckets.antt =====
-- chunk/schema.go: the hourly and daily buckets of an interval, for times at or after 1970. `decimal` is
-- strconv.Itoa. The conversions to uint32 are written out.
pub mod Cover
use cortex.Base.{
  ℕ, zero, suc, ◌+◌, ◌-◌, ◌*◌, ◌/◌, ◌%◌, List, [], ◌∷◌, ◌++◌, Bool, true, false, not, Bytes,
  nat_ord, ltb, leb, ◌||◌, if◌then◌else◌, codes,
}

pub record SchemaConfig : Type 0 where
  pub use_periodic_tables : Bool
  -- in seconds
  pub periodic_table_start_at : ℕ
  pub table_period : ℕ
  pub original_table_name : Bytes
  pub table_prefix : Bytes

pub record Bucket : Type 0 where
  pub from : ℕ
  pub through : ℕ
  pub table_name : Bytes
  pub hash_key : Bytes

abbrev pub min : ℕ → ℕ → ℕ
min a b = if ltb a b then a else b

-- uint32 of the lesser of a bound and a - b, which may be negative
abbrev pub relative : ℕ → ℕ → ℕ → ℕ
relative bound a b =
    if leb b a
    then min bound (a - b) % 4294967296
    else (4294967296 - (b - a) % 4294967296) % 4294967296

module _ (decimal : ℕ → Bytes) where
  -- tableForBucket
  unfoldable pub table_for_bucket : SchemaConfig → ℕ → Bytes
  table_for_bucket cfg bucket_start =
      if not cfg.use_periodic_tables || ltb bucket_start cfg.periodic_table_start_at
      then cfg.original_table_name
      else cfg.table_prefix ++ decimal (bucket_start / cfg.table_period)

  -- the i-th bucket of hourlyBuckets: its end is taken from the start of a day
  unfoldable pub hour_bucket : SchemaConfig → ℕ → ℕ → Bytes → Bytes → ℕ → Bucket
  unfolding table_for_bucket
  hour_bucket cfg from through user metric i = record {
    from = (from - i * 3600000) % 4294967296;
    through = relative 3600000 through (i * 86400000);
    table_name = table_for_bucket cfg (i * 3600);
    hash_key = user ++ codes ":" ++ decimal i ++ codes ":" ++ metric;
  }

  -- the i-th bucket of dailyBuckets
  unfoldable pub day_bucket : SchemaConfig → ℕ → ℕ → Bytes → Bytes → ℕ → Bucket
  unfolding table_for_bucket
  day_bucket cfg from through user metric i = record {
    from = (from - i * 86400000) % 4294967296;
    through = relative 86400000 through (i * 86400000);
    table_name = table_for_bucket cfg (i * 86400);
    hash_key = user ++ codes ":d" ++ decimal i ++ codes ":" ++ metric;
  }

  -- the loop: `left` buckets from the i-th on
  unfoldable pub buckets_from : (ℕ → Bucket) → ℕ → ℕ → List Bucket
  buckets_from bucket zero i = []
  buckets_from bucket (suc left) i = bucket i ∷ buckets_from bucket left (suc i)

  unfoldable pub hourly_buckets : SchemaConfig → ℕ → ℕ → Bytes → Bytes → List Bucket
  unfolding buckets_from hour_bucket
  hourly_buckets cfg from through user metric =
      let from_hour = from / 1000 / 3600 in
      let through_hour = through / 1000 / 3600 in
      buckets_from (hour_bucket cfg from through user metric) (through_hour + 1 - from_hour)
        from_hour

  unfoldable pub daily_buckets : SchemaConfig → ℕ → ℕ → Bytes → Bytes → List Bucket
  unfolding buckets_from day_bucket
  daily_buckets cfg from through user metric =
      let from_day = from / 1000 / 86400 in
      let through_day = through / 1000 / 86400 in
      buckets_from (day_bucket cfg from through user metric) (through_day + 1 - from_day) from_day
