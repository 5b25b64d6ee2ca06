-- ===== src/Chunk/Storage.antt =====
-- chunk/inmemory_storage_client.go: the tables of the index and the chunks, in memory. A call that returns
-- an error says so beside the storage that it leaves.
pub mod Rows
pub mod Contents
pub mod Cells
pub mod Pages
use cortex.Base.{
  List, [], ◌∷◌, ◌++◌, Bool, true, false, not, Bytes, bytes_ord, ◌==◌, ltb, leb, if◌then◌else◌,
  Option, none, some, length, get_elem?, take, drop, Result, ok, err, nat_ord, ◌⊎◌, inl, inr,
}
use cortex.Base.Int.{ℤ}
use cortex.Base.Dict
use cortex.Base.Dict.{Dict}
use cortex.Base.Search.{search_list}
use cortex.Chunk.Entries.{IndexEntry}

pub record MockItem : Type 0 where
  pub range_value : Bytes
  pub value : Bytes

pub record MockTable : Type 0 where
  pub items : Dict Bytes (List MockItem)
  pub write : ℤ
  pub read : ℤ

pub record MockStorage : Type 0 where
  pub tables : Dict Bytes MockTable
  pub objects : Dict Bytes Bytes

pub data StorageError : Type 0 where
  table_already_exists not_found table_not_found dupe_write : StorageError

-- NewMockStorage
abbrev pub new_storage : MockStorage
new_storage = record { tables = []; objects = [] }

-- an element of mockWriteBatch
pub record WriteRequest : Type 0 where
  pub table_name : Bytes
  pub hash_value : Bytes
  pub range_value : Bytes
  pub value : Bytes

-- mockWriteBatch.Add
unfoldable pub add_write : List WriteRequest → WriteRequest → List WriteRequest
add_write batch w = batch ++ w ∷ []

unfoldable pub table_names : Dict Bytes MockTable → List Bytes
table_names [] = []
table_names ((name, table) ∷ m) = name ∷ table_names m

unfoldable pub list_tables : MockStorage → List Bytes
unfolding table_names
list_tables s = table_names s.tables

unfoldable pub create_table : MockStorage → Bytes → ℤ → ℤ → StorageError ⊎ MockStorage
create_table s name read write = elim (Dict.get s.tables name) [
  | some table ↦ inl table_already_exists
  | none ↦ inr (record s {
    tables = Dict.put s.tables name (record { items = []; write = write; read = read });
  })
]

-- the read and the write capacity; the status is always ACTIVE
unfoldable pub describe_table : MockStorage → Bytes → StorageError ⊎ (ℤ × ℤ)
describe_table s name = elim (Dict.get s.tables name) [
  | none ↦ inl not_found
  | some table ↦ inr (table.read, table.write)
]

unfoldable pub update_table : MockStorage → Bytes → ℤ → ℤ → StorageError ⊎ MockStorage
update_table s name read write = elim (Dict.get s.tables name) [
  | none ↦ inl not_found
  | some table ↦
      inr
        (record s { tables = Dict.put s.tables name (record table { read = read; write = write }) })
]

-- the items of a row; nil where there are none
unfoldable pub row : MockTable → Bytes → List MockItem
row table hash = elim (Dict.get table.items hash) [ none ↦ [] | some items ↦ items ]

-- whether i < len(items) and items[i] has the range value
abbrev pub has_range : Bytes → Option MockItem → Bool
has_range r none = false
has_range r (some it) = MockItem.range_value it == r

-- "insert in order": `none` is the error "Dupe write"
unfoldable pub insert_item : List MockItem → MockItem → Option (List MockItem)
insert_item items new =
    let i = search_list (λ it. leb new.range_value (MockItem.range_value it)) items in
    if has_range new.range_value (get_elem? items i)
    then none
    else some (take i items ++ new ∷ drop i items)

-- one round of BatchWrite
unfoldable pub write_one : MockStorage → WriteRequest → StorageError ⊎ MockStorage
unfolding row insert_item
write_one s w = elim (Dict.get s.tables w.table_name) [
  | none ↦ inl table_not_found
  | some table ↦
      elim (insert_item (row table w.hash_value)
        (record { range_value = w.range_value; value = w.value })) [
          | none ↦ inl dupe_write
          | some items ↦ inr (record s {
            tables =
                Dict.put s.tables w.table_name
                  (record table { items = Dict.put table.items w.hash_value items });
          })
        ]
]

-- The writes before one that fails stay.
unfoldable pub batch_write : MockStorage → List WriteRequest → MockStorage × Option StorageError
unfolding write_one
batch_write s [] = (s, none)
batch_write s (w ∷ ws) = elim (write_one s w) [ inl e ↦ (s, some e) | inr s' ↦ batch_write s' ws ]

-- bytes.HasPrefix
unfoldable pub has_prefix : Bytes → Bytes → Bool
has_prefix b [] = true
has_prefix [] (p ∷ ps) = false
has_prefix (c ∷ b) (p ∷ ps) = let rest = has_prefix b ps in if c == p then rest else false

-- the two predicates of the search by a prefix
unfoldable pub prefix_from : Bytes → MockItem → Bool
unfolding has_prefix
prefix_from p it = if ltb p it.range_value then true else has_prefix it.range_value p

unfoldable pub prefix_past : Bytes → MockItem → Bool
unfolding has_prefix
prefix_past p it = if ltb it.range_value p then false else not (has_prefix it.range_value p)

-- What a query gives to the callback, in one page; `none` where it does not call it.
unfoldable pub query_items : List MockItem → IndexEntry → Option (List MockItem)
unfolding prefix_from prefix_past
query_items items entry = elim entry.range_value_prefix [
  | some p ↦
      let i = search_list (prefix_from p) items in
      let j = search_list (prefix_past p) (drop i items) in
      if j == 0 then none else some (take j (drop i items))
  | none ↦ elim entry.range_value_start [
    | some start ↦ some (drop (search_list (λ it. leb start (MockItem.range_value it)) items) items)
    | none ↦ some items
  ]
]

unfoldable pub query_pages : MockStorage → IndexEntry → Result StorageError (Option (List MockItem))
unfolding query_items
query_pages s entry = elim (Dict.get s.tables entry.table_name) [
  | none ↦ err table_not_found
  | some table ↦ elim (Dict.get (MockTable.items table) entry.hash_value) [
    | none ↦ ok none
    | some items ↦ ok (query_items items entry)
  ]
]

unfoldable pub put_chunk : MockStorage → Bytes → Bytes → MockStorage
put_chunk s key buf = record s { objects = Dict.put s.objects key buf }

unfoldable pub get_chunk : MockStorage → Bytes → Result StorageError Bytes
get_chunk s key = elim (Dict.get s.objects key) [ none ↦ err not_found | some buf ↦ ok buf ]
