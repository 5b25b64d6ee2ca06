-- ===== src/Ingester/Flush.antt =====
-- ingester/ingester_flush.go: which series are flushed, and the two locked steps of flushing one, between
-- which the series takes samples. A length of time is in milliseconds, as a time is.
pub mod Keep
use cortex.Base.{
  ℕ, suc, ◌-◌, List, [], ◌∷◌, ◌++◌, Bool, true, false, ◌||◌, ◌&&◌, nat_ord, int_ord, ◌==◌, ltb, leb,
  if◌then◌else◌, Option, none, some, length, take, drop,
}
use cortex.Base.Int.{ℤ, ◌-ℤ◌}
use cortex.Ingester.Series.{ChunkDesc, MemorySeries, split_last, close_head}

pub record FlushConfig : Type 0 where
  pub max_chunk_age : ℤ
  pub max_chunk_idle : ℤ

-- shouldFlushChunk
unfoldable pub should_flush_chunk : {C : Type 0} → FlushConfig → ℤ → ChunkDesc C → Bool
unfolding ◌-ℤ◌
should_flush_chunk cfg now c =
    if ltb cfg.max_chunk_age (now -ℤ c.first_time)
    then true
    else ltb cfg.max_chunk_idle (now -ℤ c.last_time)

-- shouldFlushSeries
unfoldable pub should_flush_series : {C : Type 0} → FlushConfig → ℤ → Bool → MemorySeries C → Bool
unfolding should_flush_chunk
should_flush_series cfg now immediate s =
    if immediate || ltb 1 (length s.chunk_descs)
    then true
    else elim s.chunk_descs [ [] ↦ false | c ∷ _ ↦ should_flush_chunk cfg now c ]

-- The first locked step of flushUserSeries: the chunks to write, none where there is nothing to do, and the
-- series after it. With no chunk, cutting the last one off panics, which is `none`.
unfoldable pub flush_begin :
    {C : Type 0}
    → FlushConfig
    → ℤ
    → Bool
    → MemorySeries C
    → Option (List (ChunkDesc C) × MemorySeries C)
unfolding should_flush_series split_last close_head
flush_begin cfg now immediate s = elim (should_flush_series cfg now immediate s) [
  | false ↦ some ([], s)
  | true ↦ elim (split_last s.chunk_descs) [
    | none ↦ if immediate then some ([], close_head s) else none
    | some (front, head) ↦
        if immediate || should_flush_chunk cfg now head
        then some (s.chunk_descs, close_head s)
        else some (front, s)
  ]
]

-- The second step, after the store has taken the chunks: series.chunkDescs[len(chunks):]
unfoldable pub flush_end : {C : Type 0} → List (ChunkDesc C) → MemorySeries C → MemorySeries C
flush_end chunks s = record s { chunk_descs = drop (length chunks) s.chunk_descs }
