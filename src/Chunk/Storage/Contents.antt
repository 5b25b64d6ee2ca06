-- ===== src/Chunk/Storage/Contents.antt =====
-- What the tables hold, as a map from a table, a hash value and a range value to a value
-- (chunk/inmemory_storage_client.go), and what putting a row or a table does to it.
use mathlib.Core.Path.{subst}
use mathlib.Core.Option.{some-injective}
use cortex.Base.{
  ◌≡◌, refl, List, Bytes, bytes_ord, ◌==◌, Option, none, some, ◌&&◌, Bool-cases, inl, inr,
  if◌then◌else◌, eq_of_==,
}
use cortex.Base.Dict
use cortex.Base.Dict.{Dict, get-put}
use cortex.Base.Sorted.{IsStrict}
use cortex.Base.Sort.{insert}
use cortex.Merge.{find}
use cortex.Chunk.Storage.{MockItem, MockTable, MockStorage, row}
use cortex.Chunk.Storage.Rows.{range_key, find-insert}

abbrev pub Cells : Type 0
Cells = Bytes → Option (Bytes → Bytes → Option Bytes)

abbrev pub value_of : Option MockItem → Option Bytes
value_of none = none
value_of (some it) = some it.value

abbrev pub cells_of : Option MockTable → Option (Bytes → Bytes → Option Bytes)
cells_of none = none
cells_of (some table) = some (λ h r. value_of (find range_key r (row table h)))

abbrev pub cells : MockStorage → Cells
cells s t = cells_of (Dict.get s.tables t)

-- each row in the order of its range values, and none of them twice
abbrev pub IsStored : MockStorage → Type 0
IsStored s =
    (t : Bytes) (table : MockTable)
    → Dict.get s.tables t ≡ some table
    → (h : Bytes) → IsStrict range_key (row table h)

abbrev pub put_row : MockTable → Bytes → List MockItem → MockTable
put_row table hash items = record table { items = Dict.put table.items hash items }

row-put_row :
    (table : MockTable) (hash : Bytes) (items : List MockItem) (h : Bytes)
    → row (put_row table hash items) h ≡ (if hash == h then items else row table h)
unfolding row
row-put_row table hash items h = elim (Bool-cases (hash == h)) [
  | inl t ↦ rw (get-put table.items hash h items, row, t) refl
  | inr t ↦ rw (get-put table.items hash h items, row, t) refl
]

abbrev pub put_table : MockStorage → Bytes → MockTable → MockStorage
put_table s name table = record s { tables = Dict.put s.tables name table }

abbrev pub HasRows : MockTable → Type 0
HasRows table = (h : Bytes) → IsStrict range_key (row table h)

pub put_row-HasRows :
    (table : MockTable) (hash : Bytes) (items : List MockItem)
    → HasRows table
    → IsStrict range_key items
    → HasRows (put_row table hash items)
put_row-HasRows table hash items rows strict h =
    rw (row-put_row table hash items h)
      (elim (Bool-cases (hash == h)) [ inl t ↦ rw t strict | inr t ↦ rw t (rows h) ])

pub put_table-IsStored :
    (s : MockStorage) (name : Bytes) (table : MockTable)
    → IsStored s
    → HasRows table
    → IsStored (put_table s name table)
put_table-IsStored s name table stored rows t tab e = elim (Bool-cases (name == t)) [
  | inl f ↦
      let same : some table ≡ some tab = rw (get-put s.tables name t table, f) at e in
      subst HasRows (some-injective table tab same) rows
  | inr f ↦ stored t tab (rw (get-put s.tables name t table, f) at e)
]

pub cells-put_table :
    (s : MockStorage) (name : Bytes) (table : MockTable) (t : Bytes)
    → cells (put_table s name table) t ≡ (if name == t then cells_of (some table) else cells s t)
cells-put_table s name table t = elim (Bool-cases (name == t)) [
  | inl e ↦ rw (get-put s.tables name t table, e) refl
  | inr e ↦ rw (get-put s.tables name t table, e) refl
]

pub value_of-insert :
    (new : MockItem) (table : MockTable) (hash h r : Bytes)
    → value_of
        (find range_key r (row (put_row table hash (insert range_key new (row table hash))) h))
      ≡ (if (hash == h) && (new.range_value == r)
          then some new.value
          else value_of (find range_key r (row table h)))
value_of-insert new table hash h r = elim (Bool-cases (hash == h)) [
  | inl e ↦ elim (Bool-cases (new.range_value == r)) [
    | inl f ↦
        rw
          (
            row-put_row table hash (insert range_key new (row table hash)) h,
            e,
            find-insert range_key new (row table hash) r,
            f,
          )
          refl
    | inr f ↦
        rw
          (
            row-put_row table hash (insert range_key new (row table hash)) h,
            e,
            find-insert range_key new (row table hash) r,
            f,
            eq_of_== hash h e,
          )
          refl
  ]
  | inr e ↦ rw (row-put_row table hash (insert range_key new (row table hash)) h, e) refl
]
