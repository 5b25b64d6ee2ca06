-- ===== src/Chunk/Tables/Expected.antt =====
-- The table that the schema writes to at a time is among those that the manager expects, with the throughput
-- of a table in use.
use mathlib.Core.Path.{subst}
use mathlib.Core.List.{Memᴰ}
use native.Mathlib.Decide.{dec_lt}
use native.Mathlib.Nat.{
  mul_assoc, mul-le-mul_right, div-mul-le_self, le-div_iff_mul-le, mul-div_cancel, add-mul,
}
use cortex.Base.{
  ℕ, zero, suc, ◌+◌, ◌-◌, ◌*◌, ◌/◌, ◌≤◌, ◌<◌, ◌≡◌, refl, sym, ap, List, [], ◌∷◌, ◌++◌, Bool, true,
  false, Bytes, bytes_ord, nat_ord, ltb, leb, ◌==◌, ◌&&◌, some, In, arith, inl, inr, Bool-cases,
}
use cortex.Base.Sort.{sort, In-sort}
use cortex.Chunk.Buckets.{table_for_bucket}
use cortex.Chunk.Tables.{
  TableManagerConfig, TableDescription, by_name, description, legacy_active, table_active,
  periodic_tables, calculate_expected_tables,
}

leb_of_le : {a b : ℕ} → a ≤ b → leb a b ≡ true
leb_of_le h = ground arith

ltb_of_lt : {a b : ℕ} → a < b → ltb a b ≡ true
ltb_of_lt h = ground arith

in_use : {a b : Bool} → a ≡ true → b ≡ true → (a && b) ≡ true
in_use h k = rw (h, k) refl

-- the start of the bucket of a time
abbrev pub bucket_start : ℕ → ℕ → ℕ
bucket_start width time = time / width * width

before_end : (p t : ℕ) → 0 < p → t < (t / p + 1) * p
before_end p t h = elim (dec_lt t ((t / p + 1) * p)) [
  | yes below ↦ below
  | no above ↦
      let more : t / p + 1 ≤ t / p = (le-div_iff_mul-le h).1 (omega arith) in absurd (omega arith)
]

-- A bucket that starts in a period lies in it, where the period is a number of buckets.
bucket_before :
    (width k n time : ℕ)
    → 0 < width
    → bucket_start width time < n * (k * width)
    → time < n * (k * width)
bucket_before width k n time h b = elim (dec_lt time (n * (k * width))) [
  | yes below ↦ below
  | no above ↦
      let le : n * k * width ≤ time = rw (mul_assoc n k width) (omega arith) in
      let many : n * k ≤ time / width = (le-div_iff_mul-le h).1 le in
      let start : n * (k * width) ≤ time / width * width =
        rw (← mul_assoc n k width) (mul-le-mul_right width many) in
      absurd (omega arith)
]

module _ (decimal : ℕ → Bytes) (cfg : TableManagerConfig) (now : ℕ) where
  abbrev nth_table : ℕ → TableDescription
  nth_table i = description cfg (cfg.periodic.table_prefix ++ decimal i) (table_active cfg now i)

  In-periodic_tables :
      (n i j : ℕ) → j < n → In (nth_table (i + j)) (periodic_tables decimal cfg now i n)
  unfolding periodic_tables
  In-periodic_tables zero i j h = absurd (omega arith)
  In-periodic_tables (suc n) i zero h = Memᴰ.head (ap nth_table (omega arith))
  In-periodic_tables (suc n) i (suc j) h =
      let same : i + 1 + j ≡ i + suc j = omega arith in
      Memᴰ.tail (
        subst (λ m. In (nth_table m) (periodic_tables decimal cfg now (i + 1) n)) same
          (In-periodic_tables n (i + 1) j (omega arith)))

  abbrev all_tables : List TableDescription
  all_tables =
      let period = cfg.periodic.table_period in
      let first = cfg.periodic.periodic_table_start_at / period in
      let last = (now + cfg.creation_grace_period) / period in
      description cfg cfg.periodic.original_table_name (legacy_active cfg now)
      ∷ periodic_tables decimal cfg now first (last + 1 - first)

  expected_periodic :
      cfg.periodic.use_periodic_tables ≡ true
      → 0 < cfg.periodic.table_period
      → calculate_expected_tables decimal cfg now ≡ some (sort by_name all_tables)
  unfolding calculate_expected_tables
  expected_periodic on pos =
      let positive : (cfg.periodic.table_period == 0) ≡ false = ground arith in
      rw (on, positive) refl

  expected_single :
      cfg.periodic.use_periodic_tables ≡ false
      → calculate_expected_tables decimal cfg now
        ≡ some (description cfg cfg.periodic.original_table_name true ∷ [])
  unfolding calculate_expected_tables
  expected_single off = rw off refl

  module _ (width k f time : ℕ) (width_pos : 0 < width) (period_pos : 0 < cfg.periodic.table_period)
      (whole : cfg.periodic.table_period ≡ k * width)
      (start : cfg.periodic.periodic_table_start_at ≡ f * cfg.periodic.table_period)
      (soon : time ≤ now + cfg.creation_grace_period)
      (recent : now ≤ time + cfg.max_chunk_age) where
    abbrev bucket : ℕ
    bucket = bucket_start width time

    abbrev index : ℕ
    index = bucket / cfg.periodic.table_period

    first_eq : cfg.periodic.periodic_table_start_at / cfg.periodic.table_period ≡ f
    first_eq = rw start (mul-div_cancel f period_pos)

    time_before :
        (n : ℕ) → bucket < n * cfg.periodic.table_period → time < n * cfg.periodic.table_period
    time_before n h = rw whole (bucket_before width k n time width_pos (rw whole at h))

    legacy_in_use : bucket < cfg.periodic.periodic_table_start_at → legacy_active cfg now ≡ true
    legacy_in_use h = let before = time_before f (rw start at h) in rw first_eq (ground arith)

    table_in_use : table_active cfg now index ≡ true
    table_in_use =
        let lower = div-mul-le_self bucket cfg.periodic.table_period in
        let below = div-mul-le_self time width in
        let upper =
          time_before (index + 1) (before_end cfg.periodic.table_period bucket period_pos) in
        let next = add-mul index 1 cfg.periodic.table_period in
        let started : index * cfg.periodic.table_period ≤ now + cfg.creation_grace_period =
          omega arith in
        let open_still : now
            < index * cfg.periodic.table_period
              + cfg.periodic.table_period
              + cfg.creation_grace_period
              + cfg.max_chunk_age =
          omega arith in
        in_use (leb_of_le started) (ltb_of_lt open_still)

    index_from : cfg.periodic.periodic_table_start_at ≤ bucket → f ≤ index
    index_from h = (le-div_iff_mul-le period_pos).1 (rw start at h)

    index_to : index ≤ (now + cfg.creation_grace_period) / cfg.periodic.table_period
    index_to =
        let lower = div-mul-le_self bucket cfg.periodic.table_period in
        let below = div-mul-le_self time width in (le-div_iff_mul-le period_pos).1 (omega arith)

    name_old :
        ltb bucket cfg.periodic.periodic_table_start_at ≡ true
        → table_for_bucket decimal cfg.periodic bucket ≡ cfg.periodic.original_table_name
    unfolding table_for_bucket
    name_old h = ground (arith, h)

    name_single :
        cfg.periodic.use_periodic_tables ≡ false
        → table_for_bucket decimal cfg.periodic bucket ≡ cfg.periodic.original_table_name
    unfolding table_for_bucket
    name_single h = ground (arith, h)

    name_new :
        cfg.periodic.use_periodic_tables ≡ true
        → ltb bucket cfg.periodic.periodic_table_start_at ≡ false
        → table_for_bucket decimal cfg.periodic bucket ≡ cfg.periodic.table_prefix ++ decimal index
    unfolding table_for_bucket
    name_new h k = ground (arith, h, k)

    In-new :
        ltb bucket cfg.periodic.periodic_table_start_at ≡ false → In (nth_table index) all_tables
    In-new new =
        let from = index_from (ground arith) in
        let till = index_to in
        let same : f + (index - f) ≡ index = omega arith in
        let there =
          In-periodic_tables ((now + cfg.creation_grace_period) / cfg.periodic.table_period + 1 - f)
            f (index - f) (omega arith) in
        Memᴰ.tail (rw first_eq (rw same at there))

    -- Where the period is a whole number of buckets and the start a whole number of periods:
    -- the table that the schema names for the bucket of a time, no later than the grace
    -- period from now and no earlier than the maximal age of a chunk ago, is among the
    -- expected tables, with the throughput of a table in use.
    pub expected_tables_lem :
        (tables : List TableDescription) × (calculate_expected_tables decimal cfg now ≡ some tables)
        × In (description cfg (table_for_bucket decimal cfg.periodic bucket) true) tables
    expected_tables_lem = elim (Bool-cases cfg.periodic.use_periodic_tables) [
      | inl on ↦ elim (Bool-cases (ltb bucket cfg.periodic.periodic_table_start_at)) [
        | inl old ↦ (
          _,
          expected_periodic on period_pos,
          In-sort by_name _ all_tables (
              rw (name_old old) (
                Memᴰ.head (
                  ap (description cfg cfg.periodic.original_table_name)
                    (sym (legacy_in_use (ground arith)))))),
        )
        | inr new ↦ (
          _,
          expected_periodic on period_pos,
          In-sort by_name _ all_tables (
              rw (name_new on new) (
                subst
                  (λ b.
                    In (description cfg (cfg.periodic.table_prefix ++ decimal index) b) all_tables)
                  table_in_use (In-new new))),
        )
      ]
      | inr off ↦
          (_, expected_single off, Memᴰ.head (ap (λ n. description cfg n true) (name_single off)))
    ]
