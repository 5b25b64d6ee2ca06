-- ===== src/Tests/StorageTests.antt =====
-- The storage in memory, with one table, the table manager on it, and a week of tables.
use mathlib.Core.Option.{none-ne-some}
use cortex.Base.{ℕ, ◌≡◌, refl, [], ◌∷◌, List, In, Bytes, bytes_ord, codes, true, some, none, arith}
use cortex.Base.Int.{pos}
use cortex.Base.Dict
use cortex.Base.Dict.{Dict}
use cortex.Chunk.Entries.{IndexEntry}
use cortex.Chunk.Buckets.{table_for_bucket}
use cortex.Chunk.Storage.{
  MockTable, MockStorage, WriteRequest, new_storage, row, batch_write, query_pages,
}
use cortex.Chunk.Storage.Contents.{IsStored, HasRows, cells, put_table, put_table-IsStored}
use cortex.Chunk.Storage.Cells.{write_cells, batch_write_refines}
use cortex.Chunk.Storage.Pages.{answer, pages, query_pages_lem}
use cortex.Chunk.Tables.{
  TableManagerConfig, TableDescription, description, calculate_expected_tables,
}
use cortex.Chunk.Tables.Expected.{bucket_start, expected_tables_lem}

abbrev empty_table : MockTable
empty_table = record { items = []; write = pos 3; read = pos 3 }

new_storage-IsStored : IsStored new_storage
unfolding Dict.get
new_storage-IsStored t table e = absurd (none-ne-some table e)

empty_table-HasRows : HasRows empty_table
unfolding row Dict.get
empty_table-HasRows h = tt

abbrev one_table : MockStorage
one_table = put_table new_storage (codes "index") empty_table

one_table-IsStored : IsStored one_table
one_table-IsStored =
    put_table-IsStored new_storage (codes "index") empty_table new_storage-IsStored
      empty_table-HasRows

abbrev write_of : Bytes → Bytes → WriteRequest
write_of range value = record {
  table_name = codes "index";
  hash_value = codes "hash";
  range_value = range;
  value = value;
}

abbrev three_writes : List WriteRequest
three_writes =
    write_of (codes "b1") (codes "x")
    ∷ write_of (codes "a") (codes "y")
    ∷ write_of (codes "b1") (codes "z")
    ∷ []

batch_write_refines_example :
    let r = batch_write one_table three_writes in
    IsStored r.0 × ((cells r.0, r.1) ≡ write_cells (cells one_table) three_writes)
batch_write_refines_example = batch_write_refines three_writes one_table one_table-IsStored

abbrev written : MockStorage
written = (batch_write one_table three_writes).0

abbrev from_b : IndexEntry
from_b = record {
  table_name = codes "index";
  hash_value = codes "hash";
  range_value = [];
  value = [];
  range_value_prefix = some (codes "b");
  range_value_start = none;
}

query_pages_example : pages (query_pages written from_b) ≡ answer written from_b
query_pages_example =
    query_pages_lem written from_b (batch_write_refines three_writes one_table one_table-IsStored).0

abbrev weekly : TableManagerConfig
weekly = record {
  periodic = record {
    use_periodic_tables = true;
    periodic_table_start_at = 1209600000;
    table_period = 604800;
    original_table_name = codes "old";
    table_prefix = codes "cortex_";
  };
  creation_grace_period = 600;
  max_chunk_age = 43200;
  provisioned_write_throughput = pos 3000;
  provisioned_read_throughput = pos 300;
  inactive_write_throughput = pos 1;
  inactive_read_throughput = pos 300;
}

abbrev unit_name : ℕ → Bytes
unit_name n = n ∷ []

expected_tables_example :
    let start = bucket_start 86400 1209700000 in
    (tables : List TableDescription) × (calculate_expected_tables unit_name weekly 1209730000
      ≡ some tables)
    × In (description weekly (table_for_bucket unit_name weekly.periodic start) true) tables
expected_tables_example =
    expected_tables_lem unit_name weekly 1209730000 86400 7 2000 1209700000 (omega arith)
      (omega arith) refl refl (omega arith) (omega arith)
