-- ===== src/Chunk/Storage/Cells.antt =====
-- What the tables hold, as a map from a table, a hash value and a range value to a value that is written
-- once; a batch writes into it one cell after the other.
use mathlib.Core.Path.{fun_ext}
use cortex.Base.{
  ◌≡◌, refl, ap, sym, List, [], ◌∷◌, Bytes, bytes_ord, ◌==◌, Option, none, some, is_some, ◌&&◌,
  Option-cases, ◌⊎◌, inl, inr, if◌then◌else◌,
}
use cortex.Base.Dict
use cortex.Base.Dict.{Dict, get-put}
use cortex.Base.Sort.{insert}
use cortex.Merge.{find}
use cortex.Chunk.Storage.{
  MockItem, MockTable, MockStorage, WriteRequest, StorageError, table_not_found, dupe_write, row,
  write_one, batch_write,
}
use cortex.Chunk.Storage.Rows.{range_key, insert_item-eq-insert, insert-IsStrict}
use cortex.Chunk.Storage.Contents.{
  Cells, value_of, cells_of, cells, IsStored, put_row, put_table, HasRows, put_row-HasRows,
  put_table-IsStored, cells-put_table, value_of-insert,
}

abbrev pub write_cell : Cells → WriteRequest → StorageError ⊎ Cells
write_cell c w = elim (c w.table_name) [
  | none ↦ inl table_not_found
  | some m ↦
      if is_some (m w.hash_value w.range_value)
      then inl dupe_write
      else inr (λ t.
        if w.table_name == t
        then some
            (λ h r. if (w.hash_value == h) && (w.range_value == r) then some w.value else m h r)
        else c t)
]

pub write_cells : Cells → List WriteRequest → Cells × Option StorageError
write_cells c [] = (c, none)
write_cells c (w ∷ ws) = elim (write_cell c w) [ inl e ↦ (c, some e) | inr c' ↦ write_cells c' ws ]

abbrev Agrees : StorageError ⊎ MockStorage → StorageError ⊎ Cells → Type 0
Agrees (inl e) (inl f) = e ≡ f
Agrees (inr s) (inr c) = IsStored s × (cells s ≡ c)
Agrees (inl e) (inr c) = ⊥
Agrees (inr s) (inl f) = ⊥

abbrev item_of : WriteRequest → MockItem
item_of w = record { range_value = w.range_value; value = w.value }

-- the storage after a write that is accepted
abbrev written : MockStorage → WriteRequest → MockTable → MockStorage
written s w table =
    put_table s w.table_name
      (put_row table w.hash_value (insert range_key (item_of w) (row table w.hash_value)))

cells-written :
    (s : MockStorage) (w : WriteRequest) (table : MockTable) (t : Bytes)
    → cells (written s w table) t ≡ (
        if w.table_name == t
        then some (λ h r.
          if (w.hash_value == h) && (w.range_value == r)
          then some w.value
          else value_of (find range_key r (row table h)))
        else cells s t)
cells-written s w table t =
    rw
      (cells-put_table s w.table_name
        (put_row table w.hash_value (insert range_key (item_of w) (row table w.hash_value))) t)
      (ap (λ m. if w.table_name == t then some m else cells s t)
        (fun_ext (λ h. fun_ext (λ r. value_of-insert (item_of w) table w.hash_value h r))))

written-IsStored :
    (s : MockStorage) (w : WriteRequest) (table : MockTable)
    → IsStored s
    → HasRows table
    → find range_key w.range_value (row table w.hash_value) ≡ none
    → IsStored (written s w table)
written-IsStored s w table stored rows free = put_table-IsStored s w.table_name _ stored (
    put_row-HasRows table w.hash_value _ rows
      (insert-IsStrict range_key (item_of w) (row table w.hash_value) free (rows w.hash_value)))

write_one-Agrees :
    (s : MockStorage) (w : WriteRequest)
    → IsStored s
    → Agrees (write_one s w) (write_cell (cells s) w)
unfolding write_one
write_one-Agrees s w stored = elim (Option-cases (Dict.get s.tables w.table_name)) [
  | inl e ↦ rw (e, write_one, write_cell, cells_of, Agrees) refl
  | inr (table, e) ↦
      let rows : HasRows table = stored w.table_name table e in
      let as_insert =
        insert_item-eq-insert (item_of w) (row table w.hash_value) (rows w.hash_value) in
      elim (Option-cases (find range_key w.range_value (row table w.hash_value))) [
        | inl free ↦
            rw (e, write_one, as_insert, free, write_cell, cells_of, value_of, Agrees)
              (written-IsStored s w table stored rows free, fun_ext (cells-written s w table))
        | inr (it, taken) ↦
            rw (e, write_one, as_insert, taken, write_cell, cells_of, value_of, Agrees) refl
      ]
]

module _ (s : MockStorage) (w : WriteRequest) (ws : List WriteRequest) where
  batch_write_err :
      (e : StorageError) → write_one s w ≡ inl e → batch_write s (w ∷ ws) ≡ (s, some e)
  unfolding batch_write
  batch_write_err e h = rw (h, batch_write) refl

  batch_write_ok :
      (s' : MockStorage) → write_one s w ≡ inr s' → batch_write s (w ∷ ws) ≡ batch_write s' ws
  unfolding batch_write
  batch_write_ok s' h = rw (h, batch_write) refl

module _ (c : Cells) (w : WriteRequest) (ws : List WriteRequest) where
  write_cells_err :
      (e : StorageError) → write_cell c w ≡ inl e → write_cells c (w ∷ ws) ≡ (c, some e)
  unfolding write_cells
  write_cells_err e h = rw (h, write_cells) refl

  write_cells_ok :
      (c' : Cells) → write_cell c w ≡ inr c' → write_cells c (w ∷ ws) ≡ write_cells c' ws
  unfolding write_cells
  write_cells_ok c' h = rw (h, write_cells) refl

-- From tables whose rows are in strict order, a batch leaves such tables, and does what writing
-- its requests one after the other does to a map from table, hash and range value to a value that
-- is written once: up to the first error, the same writes and the same error.
pub batch_write_refines :
    (ws : List WriteRequest) (s : MockStorage)
    → IsStored s
    → let r = batch_write s ws in IsStored r.0 × ((cells r.0, r.1) ≡ write_cells (cells s) ws)
unfolding batch_write write_cells
batch_write_refines [] s stored = (stored, refl)
batch_write_refines (w ∷ ws) s stored =
    step (write_one s w) (write_cell (cells s) w) refl refl (write_one-Agrees s w stored)
      (batch_write_refines ws)
  where
    step :
        (a : StorageError ⊎ MockStorage) (b : StorageError ⊎ Cells)
        → write_one s w ≡ a
        → write_cell (cells s) w ≡ b
        → Agrees a b
        → ((s' : MockStorage)
            → IsStored s'
            → let r = batch_write s' ws in
              IsStored r.0 × ((cells r.0, r.1) ≡ write_cells (cells s') ws))
        → let r = batch_write s (w ∷ ws) in
          IsStored r.0 × ((cells r.0, r.1) ≡ write_cells (cells s) (w ∷ ws))
    step (inl e) (inl f) h k agree rest =
        rw (batch_write_err s w ws e h, write_cells_err (cells s) w ws f k, agree) (stored, refl)
    step (inl e) (inr c) h k agree rest = absurd agree
    step (inr s') (inl f) h k agree rest = absurd agree
    step (inr s') (inr c) h k agree rest =
        rw (batch_write_ok s w ws s' h, write_cells_ok (cells s) w ws c k, sym agree.1)
          (rest s' agree.0)
