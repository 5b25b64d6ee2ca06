-- ===== src/Chunk/Store/Client.antt =====
-- chunk/chunk_store.go: Put and Get. `encode` gives a chunk's buffer and its checksum, and `decode` a chunk
-- from a buffer, or `none` where they fail.
use cortex.Base.{
  ℕ, List, [], ◌∷◌, ◌++◌, Bool, true, false, not, ◌||◌, Bytes, bytes_ord, int_ord, ◌==◌, ltb,
  if◌then◌else◌, Option, none, some, Result, ok, err, panic, ◌>>=◌, filter, ◌⊎◌, inl, inr,
}
use cortex.Base.Int.{ℤ}
use cortex.Base.Dict
use cortex.Base.Sort.{sort}
use cortex.Merge.{n_way_intersect}
use cortex.Labels.{
  Metric, LabelMatcher, is_equal, split_filters_and_matchers, extract_metric_name_from_matchers,
}
use cortex.Chunk.Entries.{IndexEntry, EntryError, Base64}
use cortex.Chunk.Key.{Chunk, Format}
use cortex.Chunk.Storage.{MockStorage, batch_write, put_chunk, get_chunk}
use cortex.Chunk.Store.{
  StoreError, invalid_query, decode_failed, encode_failed, entry_error, label_error, storage_error,
  lift, Schema, by_key, calculate_dynamo_writes, lookup_entries,
}

-- !(chunk.Through < from || through < chunk.From)
abbrev pub overlaps : ℤ → ℤ → Chunk → Bool
overlaps from through c = not (ltb c.through from || ltb through c.from)

abbrev label_value : Metric → Bytes → Bytes
label_value m name = elim (Dict.get m name) [ none ↦ [] | some v ↦ v ]

unfoldable pub passes_filters : List LabelMatcher → Chunk → Bool
passes_filters [] c = true
passes_filters (f ∷ fs) c =
    let rest = passes_filters fs c in
    if f.matches (label_value c.metric f.name) then rest else false

module _ (format : Format) (base64 : Base64) (unmarshal : Bytes → Chunk → Option Chunk)
    (encode : Chunk → Option (Bytes × ℕ)) (decode : Chunk → Bytes → Option Chunk)
    (user : Bytes) where
  -- the entries to read for one matcher
  unfoldable pub matcher_entries :
      Schema → ℤ → ℤ → Bytes → LabelMatcher → Result EntryError (List IndexEntry)
  matcher_entries schema from through name m =
      if is_equal m.type
      then schema.for_label_value from through user name m.name m.value
      else schema.for_label from through user name m.name

  unfoldable pub lookup_matcher :
      MockStorage → Schema → ℤ → ℤ → Bytes → LabelMatcher → Result StoreError (List Chunk)
  unfolding matcher_entries lookup_entries
  lookup_matcher s schema from through name m =
      lift entry_error (matcher_entries schema from through name m) >>= λ entries.
      lookup_entries format base64 unmarshal user s (some m) entries

  -- the sets that the matchers' goroutines answer, or the last error
  unfoldable pub collect_sets :
      List (List Chunk)
      → Option StoreError
      → List (Result StoreError (List Chunk))
      → Result StoreError (List (List Chunk))
  collect_sets sets none [] = ok sets
  collect_sets sets (some e) [] = err e
  collect_sets sets last (ok incoming ∷ rs) = collect_sets (sets ++ incoming ∷ []) last rs
  collect_sets sets last (err e ∷ rs) = collect_sets sets (some e) rs
  collect_sets sets last (panic ∷ rs) = panic

  unfoldable pub matcher_answers :
      MockStorage
      → Schema
      → ℤ
      → ℤ
      → Bytes
      → List LabelMatcher
      → List (Result StoreError (List Chunk))
  unfolding lookup_matcher
  matcher_answers s schema from through name [] = []
  matcher_answers s schema from through name (m ∷ ms) =
      lookup_matcher s schema from through name m ∷ matcher_answers s schema from through name ms

  -- lookupMatchers, after the metric's name is known
  unfoldable pub lookup_named :
      MockStorage → Schema → ℤ → ℤ → Bytes → List LabelMatcher → Result StoreError (List Chunk)
  unfolding lookup_entries collect_sets matcher_answers n_way_intersect
  lookup_named s schema from through name [] =
      lift entry_error (schema.for_metric from through user name) >>= λ entries.
      lookup_entries format base64 unmarshal user s none entries
  lookup_named s schema from through name (m ∷ ms) =
      collect_sets [] none (matcher_answers s schema from through name (m ∷ ms)) >>= λ sets.
      ok (n_way_intersect (by_key format base64 unmarshal user) sets)

  unfoldable pub lookup_matchers :
      MockStorage → Schema → ℤ → ℤ → List LabelMatcher → Result StoreError (List Chunk)
  unfolding lookup_named extract_metric_name_from_matchers
  lookup_matchers s schema from through matchers =
      lift label_error (extract_metric_name_from_matchers matchers) >>= λ r.
      lookup_named s schema from through r.0 r.1

  -- fetchChunkData, with the first error that arrives
  unfoldable pub fetch_chunk_data : MockStorage → List Chunk → Result StoreError (List Chunk)
  unfolding get_chunk
  fetch_chunk_data s [] = ok []
  fetch_chunk_data s (c ∷ cs) =
      lift storage_error (get_chunk s (by_key format base64 unmarshal user c)) >>= λ buf.
      elim (decode c buf) [
        | none ↦ err decode_failed
        | some full ↦ fetch_chunk_data s cs >>= λ rest. ok (full ∷ rest)
      ]

  -- Get
  unfoldable pub store_get :
      MockStorage → Schema → ℤ → ℤ → List LabelMatcher → Result StoreError (List Chunk)
  unfolding split_filters_and_matchers lookup_matchers fetch_chunk_data filter sort passes_filters
  store_get s schema from through all_matchers =
      let split = split_filters_and_matchers all_matchers in
      let found = lookup_matchers s schema from through split.1 >>= λ chunks.
      fetch_chunk_data s (filter (overlaps from through) chunks) >>= λ fetched.
      ok (filter (passes_filters split.0) (sort (by_key format base64 unmarshal user) fetched)) in
      if ltb through from then err invalid_query else found

  -- The chunks with their checksums, and their buffers; `none` is an error of the encoder.
  unfoldable pub encode_all : List Chunk → Option (List (Chunk × Bytes))
  encode_all [] = some []
  encode_all (c ∷ cs) = elim (encode c) [
    | none ↦ none
    | some (buf, checksum) ↦ elim (encode_all cs) [
      | none ↦ none
      | some rest ↦ some ((record c { checksum = some checksum }, buf) ∷ rest)
    ]
  ]

  unfoldable pub put_chunks : MockStorage → List (Chunk × Bytes) → MockStorage
  unfolding put_chunk
  put_chunks s [] = s
  put_chunks s ((c, buf) ∷ cs) =
      put_chunks (put_chunk s (by_key format base64 unmarshal user c) buf) cs

  abbrev chunks_of : List (Chunk × Bytes) → List Chunk
  chunks_of [] = []
  chunks_of ((c, buf) ∷ cs) = c ∷ chunks_of cs

  -- Put: the storage that it leaves, and what it returns
  unfoldable pub store_put :
      MockStorage → Schema → List Chunk → MockStorage × Result StoreError Unit
  unfolding encode_all put_chunks calculate_dynamo_writes batch_write
  store_put s schema chunks = elim (encode_all chunks) [
    | none ↦ (s, err encode_failed)
    | some encoded ↦
        let stored = put_chunks s encoded in
        elim (calculate_dynamo_writes format base64 unmarshal user schema [] (chunks_of encoded)) [
          | ok batch ↦
              let r = batch_write stored batch in
              (r.0, elim r.1 [ none ↦ ok tt | some e ↦ err (storage_error e) ])
          | err e ↦ (stored, err e)
          | cortex.Base.panic ↦ (stored, panic)
        ]
  ]
