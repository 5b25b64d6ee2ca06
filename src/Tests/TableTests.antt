-- ===== src/Tests/TableTests.antt =====
-- A round of the table manager (chunk/table_manager.go) on tables of which one is not ACTIVE.
use mathlib.Core.Option.{some-injective}
use cortex.Base.{
  ◌≡◌, refl, ap, [], ◌∷◌, List, Bool, true, false, Bytes, bytes_ord, ◌==◌, Option, none, some,
  is_some, arith, codes, inl, inr, ◌⊎◌, Bool-cases, if◌then◌else◌,
}
use cortex.Base.Int.{ℤ, pos}
use cortex.Base.Dict
use cortex.Base.Dict.{Dict, get-put}
use cortex.Merge.Shuffle.{has}
use cortex.Chunk.Tables.{TableClient, TableDescription, sync_tables}
use cortex.Chunk.Tables.Partition.{same_name}
use cortex.Chunk.Tables.Clients.{IsTableClient, Capacities, Status}
use cortex.Chunk.Tables.Steps.{Done}
use cortex.Chunk.Tables.Sync.{may_set, sync_tables_lem}

data Refused : Type 0 where
  refused : Refused

-- the capacities of a table, and whether it is ACTIVE
abbrev State : Type 0
State = Dict Bytes ((ℤ × ℤ) × Bool)

names : State → List Bytes
names [] = []
names ((n, t) ∷ s) = n ∷ names s

abbrev described : Option ((ℤ × ℤ) × Bool) → Refused ⊎ ((ℤ × ℤ) × Bool)
described none = inl refused
described (some t) = inr t

-- A table that is created or updated is not ACTIVE for a while, and an update of such a table fails.
abbrev updated : State → Bytes → ℤ × ℤ → Option ((ℤ × ℤ) × Bool) → Refused ⊎ State
updated s n c none = inl refused
updated s n c (some (_, false)) = inl refused
updated s n c (some (_, true)) = inr (Dict.put s n (c, false))

abbrev created : State → Bytes → ℤ × ℤ → Option ((ℤ × ℤ) × Bool) → Refused ⊎ State
created s n c none = inr (Dict.put s n (c, false))
created s n c (some _) = inl refused

abbrev client : TableClient Refused State
client = record {
  list_tables = λ s. inr (names s);
  create_table = λ s n read write. created s n (read, write) (Dict.get s n);
  describe_table = λ s n. described (Dict.get s n);
  update_table = λ s n read write. updated s n (read, write) (Dict.get s n);
}

abbrev capacity_of : Option ((ℤ × ℤ) × Bool) → Option (ℤ × ℤ)
capacity_of none = none
capacity_of (some t) = some t.0

abbrev active_of : Option ((ℤ × ℤ) × Bool) → Bool
active_of none = false
active_of (some t) = t.1

abbrev capacity : State → Capacities
capacity s n = capacity_of (Dict.get s n)

abbrev active : State → Status
active s n = active_of (Dict.get s n)

has-names : (s : State) (n : Bytes) → has same_name n (names s) ≡ is_some (capacity s n)
unfolding has names Dict.get
has-names [] n = refl
has-names ((j, t) ∷ s) n = ground (arith, has-names s n)

put-capacity :
    (s : State) (n : Bytes) (c : ℤ × ℤ) (m : Bytes)
    → capacity (Dict.put s n (c, false)) m ≡ (if n == m then some c else capacity s m)
put-capacity s n c m = elim (Bool-cases (n == m)) [
  | inl t ↦ rw (get-put s n m (c, false), t) refl
  | inr f ↦ rw (get-put s n m (c, false), f) refl
]

put-active :
    (s : State) (n : Bytes) (c : ℤ × ℤ) (m : Bytes)
    → (n == m) ≡ false
    → active (Dict.put s n (c, false)) m ≡ active s m
put-active s n c m f = rw (get-put s n m (c, false), f) refl

create_ok :
    (s : State) (n : Bytes) (c : ℤ × ℤ) (o : Option ((ℤ × ℤ) × Bool))
    → capacity_of o ≡ none
    → created s n c o ≡ inr (Dict.put s n (c, false))
create_ok s n c none h = refl
create_ok s n c (some t) h = cc

describe_ok :
    (o : Option ((ℤ × ℤ) × Bool)) (c : ℤ × ℤ)
    → capacity_of o ≡ some c
    → described o ≡ inr (c, active_of o)
describe_ok none c h = cc
describe_ok (some t) c h = ap (λ x. inr (x, t.1)) (some-injective t.0 c h)

update_ok :
    (s : State) (n : Bytes) (c : ℤ × ℤ) (o : Option ((ℤ × ℤ) × Bool))
    → active_of o ≡ true
    → updated s n c o ≡ inr (Dict.put s n (c, false))
update_ok s n c none h = cc
update_ok s n c (some (x, true)) h = refl
update_ok s n c (some (x, false)) h = cc

client-IsTableClient : IsTableClient client capacity active
client-IsTableClient = record {
  list_lem = λ s. (names s, refl, has-names s);
  create_lem = λ s n read write h. (
    _,
    create_ok s n (read, write) (Dict.get s n) h,
    (put-capacity s n (read, write), put-active s n (read, write)),
  );
  describe_lem = λ s n c h. describe_ok (Dict.get s n) c h;
  update_lem = λ s n read write h on. (
    _,
    update_ok s n (read, write) (Dict.get s n) on,
    (put-capacity s n (read, write), put-active s n (read, write)),
  );
}

-- "b" is ACTIVE and "c" is not
abbrev two_tables : State
two_tables = (codes "b", ((pos 1, pos 1), true)) ∷ (codes "c", ((pos 2, pos 2), false)) ∷ []

abbrev table_of : Bytes → TableDescription
table_of name = record { name = name; provisioned_read = pos 5; provisioned_write = pos 7 }

abbrev expected : List TableDescription
expected = table_of (codes "a") ∷ table_of (codes "b") ∷ table_of (codes "c") ∷ []

sync_tables_example :
    Done capacity expected
      (may_set (capacity two_tables) (active two_tables))
      two_tables
      (sync_tables client two_tables expected)
sync_tables_example =
    sync_tables_lem client capacity active client-IsTableClient two_tables expected
      ((refl, (refl, tt)), ((refl, tt), (tt, tt)))
