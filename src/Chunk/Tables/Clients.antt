-- ===== src/Chunk/Tables/Clients.antt =====
-- The client that a round of the table manager relies on.
use cortex.Base.{
  ◌≡◌, List, Bool, true, false, Bytes, bytes_ord, int_ord, ◌==◌, Option, none, some, is_some, inr,
  if◌then◌else◌,
}
use cortex.Base.Int.{ℤ}
use cortex.Merge.Shuffle.{has}
use cortex.Chunk.Tables.{TableClient, TableDescription}
use cortex.Chunk.Tables.Partition.{same_name}

-- the capacities that a table has, where it exists
abbrev pub Capacities : Type 0
Capacities = Bytes → Option (ℤ × ℤ)

abbrev pub wanted : TableDescription → ℤ × ℤ
wanted d = (d.provisioned_read, d.provisioned_write)

-- which tables are ACTIVE
abbrev pub Status : Type 0
Status = Bytes → Bool

-- A call that sets a table's capacity, and leaves the other tables as they were. The table's own status is
-- what the client makes it.
abbrev pub SetsTable :
    {S : Type 0} → (S → Capacities) → (S → Status) → Bytes → ℤ × ℤ → S → S → Type 0
SetsTable capacity active n c s s' =
    ((m : Bytes) → capacity s' m ≡ (if n == m then some c else capacity s m))
    × ((m : Bytes) → (n == m) ≡ false → active s' m ≡ active s m)

-- A client that keeps tables by their names, each ACTIVE or not. A table that is not there can be created,
-- and one that is ACTIVE can be updated; of an update of another nothing is known.
pub record IsTableClient {E S : Type 0} (client : TableClient E S) (capacity : S → Capacities)
    (active : S → Status) : Type 0 where
  pub list_lem :
      (s : S)
      → (names : List Bytes) × (client.list_tables s ≡ inr names)
        × ((n : Bytes) → has same_name n names ≡ is_some (capacity s n))
  pub create_lem :
      (s : S) (n : Bytes) (read write : ℤ)
      → capacity s n ≡ none
      → (s' : S) × (client.create_table s n read write ≡ inr s')
        × SetsTable capacity active n (read, write) s s'
  pub describe_lem :
      (s : S) (n : Bytes) (c : ℤ × ℤ)
      → capacity s n ≡ some c
      → client.describe_table s n ≡ inr (c, active s n)
  pub update_lem :
      (s : S) (n : Bytes) (read write : ℤ)
      → is_some (capacity s n) ≡ true
      → active s n ≡ true
      → (s' : S) × (client.update_table s n read write ≡ inr s')
        × SetsTable capacity active n (read, write) s s'
