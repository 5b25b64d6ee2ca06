-- ===== src/Tests/ChunkTests.antt =====
-- Index entries, with a simple code in the place of base64.
use cortex.Chunk.Buckets.{SchemaConfig, Bucket, daily_buckets}
use cortex.Chunk.Buckets.Cover.{daily_buckets_lem}
use cortex.Base.{
  ℕ, zero, suc, ◌*◌, ◌≤◌, get_elem?, false, ◌+◌, ◌-◌, ◌≡◌, refl, ap, [], ◌∷◌, Bytes, bytes_ord,
  nat_ord, codes, some, ok, arith,
}
use cortex.Labels.{Metric}
use cortex.Chunk.Entries.{Base64, has_null, label_name_in_hash_key_entries, v5_entries, v6_entries}
use cortex.Chunk.Entries.Parse.{IsBase64, Reads, values_of, write_entries_lem}

shift : Bytes → Bytes
shift [] = []
shift (c ∷ cs) = (c + 1) ∷ shift cs

shift_back : Bytes → Bytes
shift_back [] = []
shift_back (c ∷ cs) = (c - 1) ∷ shift_back cs

abbrev shifted : Base64
shifted = record { encode = shift; decode = λ bs. some (shift_back bs) }

shift_back-shift : (v : Bytes) → shift_back (shift v) ≡ v
unfolding shift shift_back
shift_back-shift [] = refl
shift_back-shift (c ∷ cs) =
    let same : c + 1 - 1 ≡ c = omega arith in rw (same, shift_back-shift cs) refl

has_null-shift : (v : Bytes) → has_null (shift v) ≡ false
unfolding shift has_null
has_null-shift [] = refl
has_null-shift (c ∷ cs) = ground (arith, has_null-shift cs)

shifted-IsBase64 : IsBase64 shifted
shifted-IsBase64 = record { undone = λ v. ap some (shift_back-shift v); no_null = has_null-shift }

abbrev of_job : Metric
of_job = (codes "__name__", codes "up") ∷ (codes "job", codes "cortex") ∷ []

clean : has_null (codes "id") ≡ false
clean = unfold has_null in refl

write_entries_example :
    let all = ok (codes "id", [], false) ∷ values_of (codes "id") of_job in
    Reads shifted
      ((label_name_in_hash_key_entries shifted).get_write_entries 0 60000
        (codes "table")
        (codes "user:d1:up")
        of_job
        (codes "id"))
      all
    × Reads shifted
        ((v5_entries shifted).get_write_entries 0 60000
          (codes "table")
          (codes "user:d1:up")
          of_job
          (codes "id"))
        all
    × Reads shifted
        (v6_entries.get_write_entries 0 60000
          (codes "table")
          (codes "user:d1:up")
          of_job
          (codes "id"))
        all
write_entries_example =
    write_entries_lem shifted shifted-IsBase64 (codes "id") clean 0 60000 (codes "table")
      (codes "user:d1:up") of_job

abbrev one_table : SchemaConfig
one_table = record {
  use_periodic_tables = false;
  periodic_table_start_at = 0;
  table_period = 604800;
  original_table_name = codes "table";
  table_prefix = codes "table_";
}

-- the number in unary
tally : ℕ → Bytes
tally zero = []
tally (suc n) = 49 ∷ tally n

-- an hour around the first midnight
daily_buckets_example :
    (b : Bucket) × (get_elem?
        (daily_buckets tally one_table 84600000 88200000 (codes "user") (codes "up"))
        (1 - 0)
      ≡ some b)
    × (b.from ≤ 87000000 - 1 * 86400000)
    × (87000000 - 1 * 86400000 ≤ b.through)
    × (b.through ≤ 86400000)
    × (1 * 86400000 ≤ 87000000)
daily_buckets_example =
    daily_buckets_lem tally one_table 84600000 88200000 87000000 (codes "user") (codes "up")
      (omega arith) (omega arith)
