-- ===== src/Chunk/Store.antt =====
-- chunk/chunk_store.go: writes and lookups of the index, on the storage in memory and with no cache. The
-- goroutines of a lookup answer in any order: the lists of entries and of matchers are in that order.
-- json.Unmarshal and the decoding of a chunk's data are parameters. An empty value stands for nil.
pub mod Client
pub mod Lookup
pub mod Sets
pub mod Answer
use cortex.Base.{
  ℕ, List, [], ◌∷◌, ◌++◌, Bool, true, false, not, ◌&&◌, ◌||◌, Bytes, bytes_ord, int_ord, ◌==◌, ltb,
  if◌then◌else◌, Option, none, some, Result, ok, err, panic, ◌>>=◌, filter, ◌⊎◌, inl, inr,
}
use cortex.Base.Int.{ℤ}
use cortex.Base.Dict
use cortex.Base.Sort.{sort}
use cortex.Merge.{merge, unique, n_way_intersect}
use cortex.Labels.{
  Metric, MatchType, LabelMatcher, LabelError, is_equal, split_filters_and_matchers,
  extract_metric_name_from_metric, extract_metric_name_from_matchers,
}
use cortex.Chunk.Entries.{IndexEntry, EntryError, Base64, parse_range_value}
use cortex.Chunk.Key.{Chunk, KeyError, Format, parse_external_key, external_key}
use cortex.Chunk.Storage.{
  MockItem, MockStorage, StorageError, WriteRequest, add_write, batch_write, query_pages, put_chunk,
  get_chunk,
}

pub data StoreError : Type 0 where
  invalid_query invalid_metadata encode_failed decode_failed : StoreError
  entry_error : EntryError → StoreError
  key_error : KeyError → StoreError
  label_error : LabelError → StoreError
  storage_error : StorageError → StoreError

-- an error of another type as one of the store
abbrev pub lift : {E A : Type 0} → (E → StoreError) → Result E A → Result StoreError A
lift f (ok a) = ok a
lift f (err e) = err (f e)
lift f panic = panic

-- Schema: the entries to write for a chunk, and those to read, of a user's metric between two times
pub record Schema : Type 0 where
  pub write_entries : ℤ → ℤ → Bytes → Bytes → Metric → Bytes → Result EntryError (List IndexEntry)
  pub for_metric : ℤ → ℤ → Bytes → Bytes → Result EntryError (List IndexEntry)
  pub for_label : ℤ → ℤ → Bytes → Bytes → Bytes → Result EntryError (List IndexEntry)
  pub for_label_value : ℤ → ℤ → Bytes → Bytes → Bytes → Bytes → Result EntryError (List IndexEntry)

abbrev pub add_entries : List WriteRequest → List IndexEntry → List WriteRequest
add_entries batch [] = batch
add_entries batch (e ∷ es) =
    add_entries
      (add_write batch (record {
        table_name = e.table_name;
        hash_value = e.hash_value;
        range_value = e.range_value;
        value = e.value;
      }))
      es

-- a matcher's test; nil matches all
abbrev pub accepts : Option LabelMatcher → Bytes → Bool
accepts none value = true
accepts (some m) value = m.matches value

abbrev pub is_empty : Bytes → Bool
is_empty [] = true
is_empty (c ∷ cs) = false

module _ (format : Format) (base64 : Base64) (unmarshal : Bytes → Chunk → Option Chunk)
    (user : Bytes) where
  abbrev pub by_key : Chunk → Bytes
  by_key c = external_key format c

  -- calculateDynamoWrites
  unfoldable pub calculate_dynamo_writes :
      Schema → List WriteRequest → List Chunk → Result StoreError (List WriteRequest)
  calculate_dynamo_writes schema batch [] = ok batch
  calculate_dynamo_writes schema batch (c ∷ cs) =
      lift label_error (extract_metric_name_from_metric c.metric) >>= λ name.
      lift entry_error (schema.write_entries c.from c.through user name c.metric (by_key c))
      >>= λ es. calculate_dynamo_writes schema (add_entries batch es) cs

  -- the chunk of one item of a response
  unfoldable pub item_chunk : MockItem → Result StoreError (Chunk × Bytes)
  item_chunk it = lift entry_error (parse_range_value base64 it.range_value it.value) >>= λ r.
      lift key_error (parse_external_key format user r.0) >>= λ c.
      if r.2 && not (is_empty it.value)
      then elim (unmarshal it.value c) [
        | none ↦ err invalid_metadata
        | some full ↦ ok (record full { metadata_in_index = true }, r.1)
      ]
      else ok (c, r.1)

  -- processResponse, on the chunks so far
  unfoldable pub process_response :
      Option LabelMatcher → List Chunk → List MockItem → Result StoreError (List Chunk)
  unfolding item_chunk
  process_response matcher chunks [] = ok chunks
  process_response matcher chunks (it ∷ its) = item_chunk it >>= λ r.
      process_response matcher (if accepts matcher r.1 then chunks ++ r.0 ∷ [] else chunks) its

  -- what a query of one entry finds, as it comes
  unfoldable pub entry_chunks :
      MockStorage → Option LabelMatcher → IndexEntry → Result StoreError (List Chunk)
  unfolding process_response
  entry_chunks s matcher entry = lift storage_error (query_pages s entry) >>= λ page. elim page [
    | none ↦ ok []
    | some items ↦ process_response matcher [] items
  ]

  unfoldable pub lookup_entry :
      MockStorage → Option LabelMatcher → IndexEntry → Result StoreError (List Chunk)
  unfolding entry_chunks sort unique
  lookup_entry s matcher entry =
      entry_chunks s matcher entry >>= λ chunks. ok (unique by_key (sort by_key chunks))

  -- the loop of lookupEntries that collects the answers, with the chunks and the last error so far
  unfoldable pub collect_chunks :
      List Chunk
      → Option StoreError
      → List (Result StoreError (List Chunk))
      → Result StoreError (List Chunk)
  unfolding merge
  collect_chunks chunks none [] = ok chunks
  collect_chunks chunks (some e) [] = err e
  collect_chunks chunks last (ok incoming ∷ rs) =
      collect_chunks (merge by_key chunks incoming) last rs
  collect_chunks chunks last (err e ∷ rs) = collect_chunks chunks (some e) rs
  collect_chunks chunks last (panic ∷ rs) = panic

  unfoldable pub lookup_all :
      MockStorage → Option LabelMatcher → List IndexEntry → List (Result StoreError (List Chunk))
  unfolding lookup_entry
  lookup_all s matcher [] = []
  lookup_all s matcher (e ∷ es) = lookup_entry s matcher e ∷ lookup_all s matcher es

  unfoldable pub lookup_entries :
      MockStorage → Option LabelMatcher → List IndexEntry → Result StoreError (List Chunk)
  unfolding collect_chunks lookup_all
  lookup_entries s matcher entries = collect_chunks [] none (lookup_all s matcher entries)
