-- ===== src/Chunk/Tables.antt =====
-- chunk/table_manager.go: the tables that the index wants at a time, and the round that creates those that
-- are missing and gives the others their throughput. Times are in seconds, at or after 1970. `decimal` is
-- strconv.Itoa.
pub mod Partition
pub mod Clients
pub mod Steps
pub mod Sync
pub mod Mock
pub mod Expected
use cortex.Base.{
  ℕ, zero, suc, ◌+◌, ◌-◌, ◌*◌, ◌/◌, List, [], ◌∷◌, ◌++◌, Bool, true, false, not, Bytes, bytes_ord,
  nat_ord, int_ord, ◌==◌, ltb, leb, ◌&&◌, if◌then◌else◌, Option, none, some, ◌⊎◌, inl, inr, cmp,
  Ordering,
}
use cortex.Base.Int.{ℤ}
use cortex.Base.Sort.{sort}
use cortex.Chunk.Buckets.{SchemaConfig}

-- DynamoTableClient: each call gives what it returns in a state, and the state after it. DescribeTable gives
-- the read and the write capacity, and whether the status is ACTIVE.
pub record TableClient (E S : Type 0) : Type 0 where
  pub list_tables : S → E ⊎ List Bytes
  pub create_table : S → Bytes → ℤ → ℤ → E ⊎ S
  pub describe_table : S → Bytes → E ⊎ ((ℤ × ℤ) × Bool)
  pub update_table : S → Bytes → ℤ → ℤ → E ⊎ S

-- The period of `periodic`, and the table's names, are those that the schema reads.
pub record TableManagerConfig : Type 0 where
  pub periodic : SchemaConfig
  pub creation_grace_period : ℕ
  pub max_chunk_age : ℕ
  pub provisioned_write_throughput : ℤ
  pub provisioned_read_throughput : ℤ
  pub inactive_write_throughput : ℤ
  pub inactive_read_throughput : ℤ

pub record TableDescription : Type 0 where
  pub name : Bytes
  pub provisioned_read : ℤ
  pub provisioned_write : ℤ

-- byName's key
abbrev pub by_name : TableDescription → Bytes
by_name d = d.name

-- a description with the throughput of a table in use, or of one that is not
abbrev pub description : TableManagerConfig → Bytes → Bool → TableDescription
description cfg name active = record {
  name = name;
  provisioned_read =
      if active then cfg.provisioned_read_throughput else cfg.inactive_read_throughput;
  provisioned_write =
      if active then cfg.provisioned_write_throughput else cfg.inactive_write_throughput;
}

abbrev pub legacy_active : TableManagerConfig → ℕ → Bool
legacy_active cfg now =
    let period = cfg.periodic.table_period in
    let first = cfg.periodic.periodic_table_start_at / period in
    ltb now (first * period + cfg.creation_grace_period + cfg.max_chunk_age)

-- "within table [start - grace, end + grace)"
abbrev pub table_active : TableManagerConfig → ℕ → ℕ → Bool
table_active cfg now i =
    let period = cfg.periodic.table_period in
    leb (i * period) (now + cfg.creation_grace_period)
    && ltb now (i * period + period + cfg.creation_grace_period + cfg.max_chunk_age)

module _ (decimal : ℕ → Bytes) where
  -- the loop from table i on, for n rounds
  unfoldable pub periodic_tables : TableManagerConfig → ℕ → ℕ → ℕ → List TableDescription
  periodic_tables cfg now i zero = []
  periodic_tables cfg now i (suc n) =
      description cfg (cfg.periodic.table_prefix ++ decimal i) (table_active cfg now i)
      ∷ periodic_tables cfg now (i + 1) n

  -- `none`: it panics, on a period below one second.
  unfoldable pub calculate_expected_tables : TableManagerConfig → ℕ → Option (List TableDescription)
  unfolding periodic_tables
  calculate_expected_tables cfg now =
      let period = cfg.periodic.table_period in
      let first = cfg.periodic.periodic_table_start_at / period in
      let last = (now + cfg.creation_grace_period) / period in
      let legacy = description cfg cfg.periodic.original_table_name (legacy_active cfg now) in
      if not cfg.periodic.use_periodic_tables
      then some (description cfg cfg.periodic.original_table_name true ∷ [])
      else if period == 0
      then none
      else some (sort by_name (legacy ∷ periodic_tables cfg now first (last + 1 - first)))

-- The loop of partitionTables, on sorted lists: the tables to create, and those to check.
unfoldable pub partition :
    List TableDescription → List Bytes → List TableDescription × List TableDescription
partition [] es = ([], [])
partition (d ∷ ds) [] = (d ∷ ds, [])
partition (d ∷ ds) (e ∷ es) =
    let missing = partition ds (e ∷ es) in
    let skip = partition (d ∷ ds) es in
    let found = partition ds es in
    elim (cmp d.name e) [
      | Ordering.lt ↦ (d ∷ missing.0, missing.1)
      | Ordering.gt ↦ skip
      | Ordering.eq ↦ (found.0, d ∷ found.1)
    ]

module _ {E S : Type 0} (client : TableClient E S) where
  unfoldable pub partition_tables :
      S → List TableDescription → E ⊎ (List TableDescription × List TableDescription)
  unfolding partition
  partition_tables s ds = elim (client.list_tables s) [
    | inl e ↦ inl e
    | inr existing ↦ inr (partition ds (sort (λ name. name) existing))
  ]

  -- With an error, what was done before it stays.
  unfoldable pub create_tables : S → List TableDescription → S × Option E
  create_tables s [] = (s, none)
  create_tables s (d ∷ ds) =
      elim (client.create_table s d.name d.provisioned_read d.provisioned_write) [
        | inl e ↦ (s, some e)
        | inr s' ↦ create_tables s' ds
      ]

  -- one round of updateTables
  unfoldable pub update_one : S → TableDescription → E ⊎ S
  update_one s d = elim (client.describe_table s d.name) [
    | inl e ↦ inl e
    | inr ((read, write), active) ↦
        if not active
        then inr s
        else if (read == d.provisioned_read) && (write == d.provisioned_write)
        then inr s
        else client.update_table s d.name d.provisioned_read d.provisioned_write
  ]

  unfoldable pub update_tables : S → List TableDescription → S × Option E
  unfolding update_one
  update_tables s [] = (s, none)
  update_tables s (d ∷ ds) = elim (update_one s d) [
    | inl e ↦ (s, some e)
    | inr s' ↦ update_tables s' ds
  ]

  -- syncTables, from the expected tables on
  unfoldable pub sync_tables : S → List TableDescription → S × Option E
  unfolding partition_tables create_tables update_tables
  sync_tables s expected = elim (partition_tables s expected) [
    | inl e ↦ (s, some e)
    | inr (to_create, to_check) ↦
        let created = create_tables s to_create in
        elim created.1 [ some e ↦ (created.0, some e) | none ↦ update_tables created.0 to_check ]
  ]
