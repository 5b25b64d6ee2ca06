-- ===== src/Tests/StoreTests.antt =====
-- A chunk under its external key, in an index of one item, with numbers written in ones.
use cortex.Base.{
  ℕ, zero, suc, ◌+◌, ◌^◌, ◌<◌, ◌≡◌, refl, ap, [], ◌∷◌, List, ◌++◌, Bool, true, false, Bytes,
  bytes_ord, nat_ord, int_ord, ltb, ◌==◌, codes, some, none, Option, Result, ok, err, arith,
  if◌then◌else◌, length, All,
}
use cortex.Base.Int.{pos}
use cortex.Base.Dict
use cortex.Base.Sorted.{IsStrict, IsSorted}
use cortex.Merge.Shuffle.{has}
use cortex.Labels.{
  LabelMatcher, equal, split_filters_and_matchers, extract_metric_name_from_matchers,
}
use cortex.Chunk.Entries.{IndexEntry, Base64, build_range_key, version}
use cortex.Chunk.Key.{
  Chunk, Format, KeyError, wrong_metadata, slash, colon, has_byte, parse_external_key, external_key,
}
use cortex.Chunk.Key.Parse.{outline, parse-external_key}
use cortex.Chunk.Storage.{MockItem, MockTable, MockStorage, get_chunk}
use cortex.Chunk.Store.{Schema, by_key, entry_chunks}
use cortex.Chunk.Store.Client.{matcher_entries, lookup_matchers, lookup_named, store_get}
use cortex.Chunk.Store.Sets.{all_any, lookup_named_lem}
use cortex.Chunk.Store.Answer.{IsStoredAs, wanted, get_lem}
use cortex.Tests.InOnes.{ones, in_ones, in_ones-IsFormat, one_chunk}

parse_external_key_example :
    parse_external_key in_ones (codes "u") (external_key in_ones one_chunk) ≡ (
      if codes "u" == codes "u"
      then ok (outline in_ones in_ones-IsFormat one_chunk 1)
      else err wrong_metadata)
unfolding has_byte
parse_external_key_example =
    parse-external_key in_ones in_ones-IsFormat one_chunk 1 refl refl (omega arith) (omega arith)
      (codes "u")

abbrev plain : Base64
plain = record { encode = λ b. b; decode = λ b. some b }

abbrev no_json : Bytes → Chunk → Option Chunk
no_json value c = none

abbrev no_encoder : Chunk → Option (Bytes × ℕ)
no_encoder c = none

-- the chunk's metric is what its buffer says
abbrev full : Chunk → Chunk
full c = record c { metric = (codes "job", codes "cortex") ∷ [] }

abbrev decoder : Chunk → Bytes → Option Chunk
decoder c buf = some (full c)

abbrev key_bytes : Bytes
key_bytes = codes "u/11:+1:+111:1"

abbrev one_item : MockItem
one_item = record {
  range_value = build_range_key ([] ∷ [] ∷ key_bytes ∷ version 3 ∷ []);
  value = [];
}

abbrev store : MockStorage
store = record {
  tables =
      (
        codes "index",
        record { items = (codes "up", one_item ∷ []) ∷ []; write = pos 1; read = pos 1 },
      )
      ∷ [];
  objects = (key_bytes, []) ∷ [];
}

abbrev whole_row : IndexEntry
whole_row = record {
  table_name = codes "index";
  hash_value = codes "up";
  range_value = [];
  value = [];
  range_value_prefix = none;
  range_value_start = none;
}

abbrev one_row : Schema
one_row = record {
  write_entries = λ from through user name metric id. ok [];
  for_metric = λ from through user name. ok (whole_row ∷ []);
  for_label = λ from through user name label. ok (whole_row ∷ []);
  for_label_value = λ from through user name label value. ok (whole_row ∷ []);
}

abbrev job_is : LabelMatcher
job_is = record { type = equal; name = codes "job"; value = codes "cortex"; matches = λ v. v == [] }

row_answer :
    entry_chunks in_ones plain no_json (codes "u") store (some job_is) whole_row
    ≡ ok (one_chunk ∷ [])
unfolding entry_chunks cortex.Chunk.Store.process_response cortex.Chunk.Store.item_chunk
    cortex.Chunk.Storage.query_pages cortex.Chunk.Storage.query_items Dict.get build_range_key
    cortex.Chunk.Entries.parse_range_value cortex.Chunk.Entries.components_from
    cortex.Chunk.Entries.parse_components parse_external_key cortex.Chunk.Key.parse_new_external_key
    cortex.Chunk.Key.parse_key_parts cortex.Chunk.Key.parse_hex_parts cortex.Chunk.Key.split
    has_byte
row_answer = refl

lookup_named_example :
    (r : List Chunk) × (lookup_named in_ones plain no_json no_encoder decoder
        (codes "u")
        store
        one_row
        (pos 0)
        (pos 9)
        (codes "up")
        (job_is ∷ job_is ∷ [])
      ≡ ok r)
    × IsStrict (by_key in_ones plain no_json (codes "u")) r
    × ((k : Bytes)
        → has (by_key in_ones plain no_json (codes "u")) k r
          ≡ all_any in_ones plain no_json no_encoder decoder
              (codes "u")
              store
              one_row
              (pos 0)
              (pos 9)
              (codes "up")
              k
              (((one_chunk ∷ []) ∷ []) ∷ ((one_chunk ∷ []) ∷ []) ∷ []))
unfolding matcher_entries
lookup_named_example =
    lookup_named_lem in_ones plain no_json no_encoder decoder (codes "u") store one_row (pos 0)
      (pos 9) (codes "up") job_is (job_is ∷ [])
      (((one_chunk ∷ []) ∷ []) ∷ ((one_chunk ∷ []) ∷ []) ∷ [])
      ((whole_row ∷ [], refl, (row_answer, tt)), ((whole_row ∷ [], refl, (row_answer, tt)), tt))

abbrev name_is : LabelMatcher
name_is = record {
  type = equal;
  name = codes "__name__";
  value = codes "up";
  matches = λ v. v == codes "up";
}

abbrev any_job : LabelMatcher
any_job = record { type = equal; name = codes "job"; value = []; matches = λ v. true }

looked_up :
    lookup_matchers in_ones plain no_json no_encoder decoder
      (codes "u")
      store
      one_row
      (pos 0)
      (pos 9)
      (split_filters_and_matchers (name_is ∷ any_job ∷ [])).1
    ≡ ok (one_chunk ∷ [])
unfolding entry_chunks cortex.Chunk.Store.process_response cortex.Chunk.Store.item_chunk
    cortex.Chunk.Storage.query_pages cortex.Chunk.Storage.query_items Dict.get build_range_key
    cortex.Chunk.Entries.parse_range_value cortex.Chunk.Entries.components_from
    cortex.Chunk.Entries.parse_components parse_external_key cortex.Chunk.Key.parse_new_external_key
    cortex.Chunk.Key.parse_key_parts cortex.Chunk.Key.parse_hex_parts cortex.Chunk.Key.split
    has_byte split_filters_and_matchers lookup_matchers lookup_named
    extract_metric_name_from_matchers cortex.Chunk.Store.lookup_entries
    cortex.Chunk.Store.lookup_all cortex.Chunk.Store.collect_chunks cortex.Chunk.Store.lookup_entry
    cortex.Base.Sort.sort cortex.Merge.unique cortex.Merge.merge
looked_up = refl

one_chunk-IsStoredAs :
    IsStoredAs in_ones plain no_json no_encoder decoder (codes "u") store full one_chunk
unfolding get_chunk Dict.get external_key ones
one_chunk-IsStoredAs = ([], refl, refl, refl)

get_example :
    (r : List Chunk) × (store_get in_ones plain no_json no_encoder decoder
        (codes "u")
        store
        one_row
        (pos 0)
        (pos 9)
        (name_is ∷ any_job ∷ [])
      ≡ ok r)
    × IsSorted (by_key in_ones plain no_json (codes "u")) r
    × ((k : Bytes)
        → has (by_key in_ones plain no_json (codes "u")) k r
          ≡ wanted in_ones plain no_json no_encoder decoder
              (codes "u")
              store
              full
              (split_filters_and_matchers (name_is ∷ any_job ∷ [])).0
              (pos 0)
              (pos 9)
              k
              (one_chunk ∷ []))
get_example =
    get_lem in_ones plain no_json no_encoder decoder (codes "u") store full one_row (pos 0) (pos 9)
      (name_is ∷ any_job ∷ []) (one_chunk ∷ []) refl looked_up (one_chunk-IsStoredAs, tt)
