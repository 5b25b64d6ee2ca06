-- ===== src/Chunk/Tables/Mock.antt =====
-- The storage in memory (chunk/inmemory_storage_client.go) as the client of the table manager.
use mathlib.Core.Option.{some-injective}
use cortex.Base.{
  ◌≡◌, refl, List, [], ◌∷◌, Bool, true, false, Bytes, bytes_ord, ◌==◌, Option, none, some, is_some,
  arith, inl, inr, ◌⊎◌, Option-cases, if◌then◌else◌,
}
use cortex.Base.Int.{ℤ}
use cortex.Base.Dict
use cortex.Base.Dict.{Dict, get-put}
use cortex.Merge.Shuffle.{has}
use cortex.Chunk.Storage.{
  MockTable, MockStorage, StorageError, table_names, list_tables, create_table, describe_table,
  update_table,
}
use cortex.Base.Sorted.{IsStrict}
use cortex.Chunk.Tables.{TableClient, TableDescription, by_name, sync_tables}
use cortex.Chunk.Tables.Sync.{may_set, sync_tables_lem}
use cortex.Chunk.Tables.Partition.{same_name}
use cortex.Chunk.Tables.Clients.{IsTableClient, Capacities, Status}
use cortex.Chunk.Tables.Steps.{Done}

-- always ACTIVE
abbrev described : StorageError ⊎ (ℤ × ℤ) → StorageError ⊎ ((ℤ × ℤ) × Bool)
described (inl e) = inl e
described (inr c) = inr (c, true)

abbrev pub mock_client : TableClient StorageError MockStorage
mock_client = record {
  list_tables = λ s. inr (list_tables s);
  create_table = create_table;
  describe_table = λ s name. described (describe_table s name);
  update_table = update_table;
}

abbrev capacities_of : Option MockTable → Option (ℤ × ℤ)
capacities_of none = none
capacities_of (some table) = some (table.read, table.write)

abbrev pub mock_capacity : MockStorage → Capacities
mock_capacity s n = capacities_of (Dict.get s.tables n)

has-table_names :
    (m : Dict Bytes MockTable) (n : Bytes)
    → has same_name n (table_names m) ≡ is_some (capacities_of (Dict.get m n))
unfolding has table_names Dict.get
has-table_names [] n = refl
has-table_names ((name, table) ∷ m) n = ground (arith, has-table_names m n)

listed :
    (s : MockStorage) (n : Bytes) → has same_name n (list_tables s) ≡ is_some (mock_capacity s n)
unfolding list_tables
listed s n = has-table_names s.tables n

put_capacity :
    (s : MockStorage) (n : Bytes) (table : MockTable) (m : Bytes)
    → mock_capacity (record s { tables = Dict.put s.tables n table }) m
      ≡ (if n == m then some (table.read, table.write) else mock_capacity s m)
put_capacity s n table m = ground (arith, get-put s.tables n m table)

absent : (s : MockStorage) (n : Bytes) → mock_capacity s n ≡ none → Dict.get s.tables n ≡ none
absent s n h = ground arith

present :
    (s : MockStorage) (n : Bytes)
    → is_some (mock_capacity s n) ≡ true
    → (table : MockTable) × (Dict.get s.tables n ≡ some table)
present s n h = elim (Option-cases (Dict.get s.tables n)) [
  | inl e ↦
      let gone : is_some (mock_capacity s n) ≡ false = rw e refl in absurd (ground (arith, gone, h))
  | inr found ↦ found
]

create_table_ok :
    (s : MockStorage) (n : Bytes) (read write : ℤ)
    → mock_capacity s n ≡ none
    → create_table s n read write
      ≡ inr (record s {
        tables = Dict.put s.tables n (record { items = []; write = write; read = read });
      })
unfolding create_table
create_table_ok s n read write h = rw (absent s n h, create_table) refl

describe_table_ok :
    (s : MockStorage) (n : Bytes) (c : ℤ × ℤ)
    → mock_capacity s n ≡ some c
    → described (describe_table s n) ≡ inr (c, true)
unfolding describe_table
describe_table_ok s n c h = elim (Option-cases (Dict.get s.tables n)) [
  | inl e ↦ absurd (ground (arith, h))
  | inr (table, e) ↦
      let same : (table.read, table.write) ≡ c = some-injective _ _ (rw (mock_capacity, e) at h) in
      rw (e, describe_table, described, same) refl
]

update_table_ok :
    (s : MockStorage) (n : Bytes) (table : MockTable) (read write : ℤ)
    → Dict.get s.tables n ≡ some table
    → update_table s n read write
      ≡ inr
          (record s { tables = Dict.put s.tables n (record table { read = read; write = write }) })
unfolding update_table
update_table_ok s n table read write h = rw (h, update_table) refl

-- a table in memory is always ACTIVE
abbrev pub mock_active : MockStorage → Status
mock_active s n = true

pub mock_client-IsTableClient : IsTableClient mock_client mock_capacity mock_active
mock_client-IsTableClient = record {
  list_lem = λ s. (list_tables s, refl, listed s);
  create_lem =
      λ s n read write h. (_, create_table_ok s n read write h, (put_capacity s n _, λ m e. refl));
  describe_lem = describe_table_ok;
  update_lem = λ s n read write h on.
      let found = present s n h in
      (_, update_table_ok s n found.0 read write found.1, (put_capacity s n _, λ m e. refl));
}

-- A round on the storage in memory.
sync_tables_mock :
    (s : MockStorage) (ds : List TableDescription)
    → IsStrict by_name ds
    → Done mock_capacity ds
        (may_set (mock_capacity s) (mock_active s))
        s
        (sync_tables mock_client s ds)
sync_tables_mock s ds strict =
    sync_tables_lem mock_client mock_capacity mock_active mock_client-IsTableClient s ds strict
