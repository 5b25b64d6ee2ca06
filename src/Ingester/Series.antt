-- ===== src/Ingester/Series.antt =====
-- ingester/series.go: the samples of one series in memory. A chunk and its operations are Prometheus's, and
-- are a parameter: the type `C` and a record `ChunkOps C`. An error of theirs is `none`.
pub mod Order
pub mod Range
use cortex.Base.{
  ℕ, suc, ◌+◌, ◌-◌, List, [], ◌∷◌, ◌++◌, Bool, true, false, ◌||◌, ◌&&◌, nat_ord, int_ord, ◌==◌, ltb,
  leb, if◌then◌else◌, Option, none, some, length, take, drop, Result, ok, err, panic,
}
use cortex.Base.Int.{ℤ, negsuc}
use cortex.Base.Search.{search_list}
use cortex.Labels.{Metric}
use cortex.Samples.{SamplePair}

pub record ChunkOps (C : Type 0) : Type 0 where
  -- chunk.New()
  pub new_chunk : C
  -- Chunk.Add: the chunk with the sample, or more where it was full
  pub add_sample : C → SamplePair → Option (List C)
  pub chunk_first_time : C → ℤ
  -- NewIterator().LastTimestamp()
  pub last_timestamp : C → Option ℤ
  -- chunk.RangeValues
  pub range_values : C → ℤ → ℤ → Option (List SamplePair)
  -- SampleValue.Equal
  pub same_value : ℕ → ℕ → Bool

pub record ChunkDesc (C : Type 0) : Type 0 where
  pub chunk : C
  pub first_time : ℤ
  pub last_time : ℤ

pub record MemorySeries (C : Type 0) : Type 0 where
  pub metric : Metric
  pub chunk_descs : List (ChunkDesc C)
  pub head_chunk_closed : Bool
  pub last_sample_value_set : Bool
  pub last_time : ℤ
  pub last_sample_value : ℕ

pub data SeriesError : Type 0 where
  duplicate_sample out_of_order_sample chunk_error has_chunks : SeriesError

-- model.Earliest, -2^63
abbrev pub earliest : ℤ
earliest = negsuc 9223372036854775807

abbrev pub new_memory_series : {C : Type 0} → Metric → MemorySeries C
new_memory_series m = record {
  metric = m;
  chunk_descs = [];
  head_chunk_closed = false;
  last_sample_value_set = false;
  last_time = earliest;
  last_sample_value = 0;
}

-- The slice without its last element, and that element.
unfoldable pub split_last {ℓ} : {A : Type ℓ} → List A → Option (List A × A)
split_last [] = none
split_last (x ∷ xs) = elim (split_last xs) [
  | none ↦ some ([], x)
  | some (front, y) ↦ some (x ∷ front, y)
]

module _ {C : Type 0} (ops : ChunkOps C) where
  -- The head chunk that the sample goes to, after the chunks before it: a new one where there is none or it
  -- is closed.
  unfoldable pub open_head : ℤ → MemorySeries C → List (ChunkDesc C) × ChunkDesc C
  unfolding split_last
  open_head time s =
      let new : ChunkDesc C = record {
        chunk = ops.new_chunk;
        first_time = time;
        last_time = time;
      } in
      elim (split_last s.chunk_descs) [
        | none ↦ ([], new)
        | some (front, head) ↦ if s.head_chunk_closed then (s.chunk_descs, new) else (front, head)
      ]

  -- The loop over the chunks that a full head chunk became; it stops at the first whose last time cannot be
  -- read.
  unfoldable pub append_chunks :
      List (ChunkDesc C) → List C → Option SeriesError × List (ChunkDesc C)
  append_chunks descs [] = (none, descs)
  append_chunks descs (c ∷ cs) = elim (ops.last_timestamp c) [
    | none ↦ (some chunk_error, descs)
    | some t ↦
        append_chunks
          (descs ++ record { chunk = c; first_time = ops.chunk_first_time c; last_time = t } ∷ [])
          cs
  ]

  -- The chunks after the head chunk took the sample.
  unfoldable pub replace_head :
      SamplePair
      → List (ChunkDesc C)
      → ChunkDesc C
      → Option (List C)
      → Option SeriesError × List (ChunkDesc C)
  unfolding append_chunks
  replace_head v front head none = (some chunk_error, front ++ head ∷ [])
  replace_head v front head (some (c ∷ [])) =
      (none, front ++ record head { chunk = c; last_time = v.timestamp } ∷ [])
  replace_head v front head (some []) = append_chunks front []
  replace_head v front head (some (c ∷ d ∷ cs)) = append_chunks front (c ∷ d ∷ cs)

  -- What `add` does with a sample that it does not turn away. A head chunk that was closed is not the head
  -- afterwards.
  unfoldable pub append_sample : SamplePair → MemorySeries C → Option SeriesError × MemorySeries C
  unfolding open_head replace_head
  append_sample v s =
      let (front, head) = open_head v.timestamp s in
      let (e, descs) = replace_head v front head (ops.add_sample head.chunk v) in
      (e, record s { chunk_descs = descs; head_chunk_closed = false })

  -- memorySeries.add
  unfoldable pub add : SamplePair → MemorySeries C → Option SeriesError × MemorySeries C
  unfolding append_sample
  add v s =
      if s.last_sample_value_set
        && (v.timestamp == s.last_time)
        && ops.same_value v.value s.last_sample_value
      then (none, s)
      else if v.timestamp == s.last_time
      then (some duplicate_sample, s)
      else if ltb v.timestamp s.last_time
      then (some out_of_order_sample, s)
      else append_sample v s

  -- the loop over the chunks of samplesForRange
  unfoldable pub collect_values : ℤ → ℤ → List (ChunkDesc C) → Result SeriesError (List SamplePair)
  collect_values from through [] = ok []
  collect_values from through (d ∷ ds) = elim (ops.range_values d.chunk from through) [
    | none ↦ err chunk_error
    | some vs ↦ elim (collect_values from through ds) [
      | ok ws ↦ ok (vs ++ ws)
      | err e ↦ err e
      | panic ↦ panic
    ]
  ]

  -- memorySeries.samplesForRange
  unfoldable pub samples_for_range : ℤ → ℤ → MemorySeries C → Result SeriesError (List SamplePair)
  unfolding collect_values split_last
  samples_for_range from through s =
      let descs = s.chunk_descs in
      let from_idx = search_list (λ d. ltb from d.first_time) descs in
      let through_idx = search_list (λ d. ltb through d.first_time) descs in
      let low = from_idx - 1 in
      let high = if through_idx == length descs then through_idx - 1 else through_idx in
      let values = collect_values from through (take (suc high - low) (drop low descs)) in
      elim (split_last descs) [
        | none ↦ panic
        | some (front, last) ↦
            if from_idx == length descs && ltb last.last_time from then ok [] else values
      ]

-- memorySeries.closeHead
unfoldable pub close_head : {C : Type 0} → MemorySeries C → MemorySeries C
close_head s = record s { head_chunk_closed = true }

-- memorySeries.setChunks; with no chunk to set, the last one is read out of range.
unfoldable pub set_chunks :
    {C : Type 0} → List (ChunkDesc C) → MemorySeries C → Result SeriesError (MemorySeries C)
unfolding split_last
set_chunks descs s = elim s.chunk_descs [
  | _ ∷ _ ↦ err has_chunks
  | [] ↦ elim (split_last descs) [
    | none ↦ panic
    | some (front, last) ↦
        ok (record s {
          chunk_descs = descs;
          last_sample_value_set = true;
          last_time = last.last_time;
        })
  ]
]

-- memorySeries.firstTime
pub first_time_of : {C : Type 0} → MemorySeries C → Option ℤ
first_time_of s = elim s.chunk_descs [ [] ↦ none | d ∷ ds ↦ some d.first_time ]
