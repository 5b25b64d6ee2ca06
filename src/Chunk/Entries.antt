-- ===== src/Chunk/Entries.antt =====
-- chunk/schema.go: the index entries of the schemas' five versions, and the range keys in them. A hash key
-- comes from the buckets. Base64 is encoding/base64's RawStdEncoding, a parameter.
pub mod Keys
pub mod Parse
use cortex.Base.{
  ℕ, suc, ◌+◌, ◌/◌, ◌%◌, List, [], ◌∷◌, ◌++◌, Bool, true, false, Bytes, bytes_ord, nat_ord, ◌==◌,
  ltb, if◌then◌else◌, Option, none, some, Result, ok, err, panic, ◌>>=◌, codes,
}
use cortex.Labels.{Metric, metric_name_label}

-- nil and an empty slice are told apart where reads need it: `none` is nil.
pub record IndexEntry : Type 0 where
  pub table_name : Bytes
  pub hash_value : Bytes
  pub range_value : Bytes
  pub value : Bytes
  pub range_value_prefix : Option Bytes
  pub range_value_start : Option Bytes

pub data EntryError : Type 0 where
  null_byte invalid_range_value invalid_base64 unrecognised_version : EntryError

pub record Base64 : Type 0 where
  pub encode : Bytes → Bytes
  pub decode : Bytes → Option Bytes

abbrev pub version : ℕ → Bytes
version n = (48 + n) ∷ []

-- buildRangeKey: each part, and a null byte after it
unfoldable pub build_range_key : List Bytes → Bytes
build_range_key [] = []
build_range_key (s ∷ ss) = s ++ 0 ∷ build_range_key ss

hex_digit : ℕ → ℕ
hex_digit n = if ltb n 10 then 48 + n else 87 + n

-- encodeTime: a uint32, big-endian, in hexadecimal
unfoldable pub encode_time : ℕ → Bytes
unfolding hex_digit
encode_time t =
    hex_digit (t / 268435456 % 16)
    ∷ hex_digit (t / 16777216 % 16)
    ∷ hex_digit (t / 1048576 % 16)
    ∷ hex_digit (t / 65536 % 16)
    ∷ hex_digit (t / 4096 % 16)
    ∷ hex_digit (t / 256 % 16)
    ∷ hex_digit (t / 16 % 16)
    ∷ hex_digit (t % 16)
    ∷ []

-- an entry to write
abbrev pub entry : Bytes → Bytes → List Bytes → Bytes → IndexEntry
entry table hash parts value = record {
  table_name = table;
  hash_value = hash;
  range_value = build_range_key parts;
  value = value;
  range_value_prefix = none;
  range_value_start = none;
}

-- an entry to read
abbrev pub query : Bytes → Bytes → Option (List Bytes) → Option (List Bytes) → IndexEntry
query table hash prefix start = record {
  table_name = table;
  hash_value = hash;
  range_value = [];
  value = [];
  range_value_prefix = key_of prefix;
  range_value_start = key_of start;
}
  where
    key_of : Option (List Bytes) → Option Bytes
    key_of none = none
    key_of (some parts) = some (build_range_key parts)

-- hashKey + ":" + labelName
abbrev pub label_hash : Bytes → Bytes → Bytes
label_hash hash name = hash ++ codes ":" ++ name

unfoldable pub has_null : Bytes → Bool
has_null [] = false
has_null (c ∷ cs) = let rest = has_null cs in if c == 0 then true else rest

-- an entry for each label but the metric's name
unfoldable pub label_entries : (Bytes → Bytes → IndexEntry) → Metric → List IndexEntry
label_entries f [] = []
label_entries f ((name, value) ∷ labels) =
    let rest = label_entries f labels in
    if name == metric_name_label then rest else f name value ∷ rest

-- The methods of each version: the entries to write, and those to read for a metric, for one of its labels
-- and for a label's value. Times are relative to the bucket.
pub record Entries : Type 0 where
  pub get_write_entries :
      ℕ → ℕ → Bytes → Bytes → Metric → Bytes → Result EntryError (List IndexEntry)
  pub get_read_metric_entries : ℕ → ℕ → Bytes → Bytes → Result EntryError (List IndexEntry)
  pub get_read_metric_label_entries :
      ℕ → ℕ → Bytes → Bytes → Bytes → Result EntryError (List IndexEntry)
  pub get_read_metric_label_value_entries :
      ℕ → ℕ → Bytes → Bytes → Bytes → Bytes → Result EntryError (List IndexEntry)

unfoldable pub original_write : Bytes → Bytes → Bytes → Metric → Result EntryError (List IndexEntry)
original_write table hash chunk_id [] = ok []
original_write table hash chunk_id ((name, value) ∷ labels) =
    let rest = original_write table hash chunk_id labels in
    if name == metric_name_label
    then rest
    else if has_null value
    then err null_byte
    else rest >>= λ es. ok (entry table hash (name ∷ value ∷ chunk_id ∷ []) [] ∷ es)

unfoldable pub original_entries : Entries
original_entries = record {
  get_write_entries =
      λ from through table hash labels chunk_id. original_write table hash chunk_id labels;
  get_read_metric_entries = λ from through table hash. ok (query table hash none none ∷ []);
  get_read_metric_label_entries =
      λ from through table hash name. ok (query table hash (some (name ∷ [])) none ∷ []);
  get_read_metric_label_value_entries = λ from through table hash name value.
      if has_null value
      then err null_byte
      else ok (query table hash (some (name ∷ value ∷ [])) none ∷ []);
}

module _ (base64 : Base64) where
  unfoldable pub base64_entries : Entries
  unfolding original_entries
  base64_entries = record original_entries {
    get_write_entries = λ from through table hash labels chunk_id. ok (
        label_entries
          (λ name value.
            entry table hash (name ∷ base64.encode value ∷ chunk_id ∷ version 1 ∷ []) [])
          labels);
    get_read_metric_label_value_entries = λ from through table hash name value.
        ok (query table hash (some (name ∷ base64.encode value ∷ [])) none ∷ []);
  }

  unfoldable pub label_name_in_hash_key_entries : Entries
  label_name_in_hash_key_entries = record {
    get_write_entries = λ from through table hash labels chunk_id. ok (
        entry table hash ([] ∷ [] ∷ chunk_id ∷ version 2 ∷ []) []
        ∷ label_entries
            (λ name value.
              entry table (label_hash hash name)
                ([] ∷ base64.encode value ∷ chunk_id ∷ version 1 ∷ []) [])
            labels);
    get_read_metric_entries = λ from through table hash. ok (query table hash none none ∷ []);
    get_read_metric_label_entries =
        λ from through table hash name. ok (query table (label_hash hash name) none none ∷ []);
    get_read_metric_label_value_entries = λ from through table hash name value.
        ok (query table (label_hash hash name) (some ([] ∷ base64.encode value ∷ [])) none ∷ []);
  }

  unfoldable pub v5_entries : Entries
  v5_entries = record {
    get_write_entries = λ from through table hash labels chunk_id.
        let time = encode_time through in
        ok (
          entry table hash (time ∷ [] ∷ chunk_id ∷ version 3 ∷ []) []
          ∷ label_entries
              (λ name value.
                entry table (label_hash hash name)
                  (time ∷ base64.encode value ∷ chunk_id ∷ version 4 ∷ []) [])
              labels);
    get_read_metric_entries = λ from through table hash. ok (query table hash none none ∷ []);
    get_read_metric_label_entries =
        λ from through table hash name. ok (query table (label_hash hash name) none none ∷ []);
    get_read_metric_label_value_entries = λ from through table hash name value.
        ok (query table (label_hash hash name) none none ∷ []);
  }

unfoldable pub v6_entries : Entries
v6_entries = record {
  get_write_entries = λ from through table hash labels chunk_id.
      let time = encode_time through in
      ok (
        entry table hash (time ∷ [] ∷ chunk_id ∷ version 3 ∷ []) []
        ∷ label_entries
            (λ name value.
              entry table (label_hash hash name) (time ∷ [] ∷ chunk_id ∷ version 5 ∷ []) value)
            labels);
  get_read_metric_entries =
      λ from through table hash. ok (query table hash none (some (encode_time from ∷ [])) ∷ []);
  get_read_metric_label_entries = λ from through table hash name.
      ok (query table (label_hash hash name) none (some (encode_time from ∷ [])) ∷ []);
  get_read_metric_label_value_entries = λ from through table hash name value.
      ok (query table (label_hash hash name) none (some (encode_time from ∷ [])) ∷ []);
}

-- The parts of parseRangeValue: what stands before each null byte. `part` is what was read of the part
-- before the next one.
unfoldable pub components_from : Bytes → Bytes → List Bytes
components_from part [] = []
components_from part (c ∷ cs) =
    let done = components_from [] cs in
    let more = components_from (part ++ c ∷ []) cs in if c == 0 then part ∷ done else more

abbrev decoded : Base64 → Bytes → Bytes → Result EntryError (Bytes × Bytes × Bool)
decoded base64 chunk_id part = elim (base64.decode part) [
  | none ↦ err invalid_base64
  | some value ↦ ok (chunk_id, value, false)
]

-- What parseRangeValue makes of the parts: the chunk's id, the label's value, and whether the index has the
-- chunk's metadata.
unfoldable pub parse_components :
    Base64 → List Bytes → Bytes → Result EntryError (Bytes × Bytes × Bool)
parse_components base64 [] value = err invalid_range_value
parse_components base64 (a ∷ []) value = err invalid_range_value
parse_components base64 (a ∷ b ∷ []) value = err invalid_range_value
parse_components base64 (a ∷ b ∷ chunk_id ∷ []) value = ok (chunk_id, b, true)
parse_components base64 (a ∷ b ∷ chunk_id ∷ v ∷ rest) value =
    if v == version 1
    then decoded base64 chunk_id b
    else if v == version 2
    then ok (chunk_id, [], false)
    else if v == version 3
    then ok (chunk_id, [], false)
    else if v == version 4
    then decoded base64 chunk_id b
    else if v == version 5
    then ok (chunk_id, value, false)
    else err unrecognised_version

-- parseRangeValue
unfoldable pub parse_range_value : Base64 → Bytes → Bytes → Result EntryError (Bytes × Bytes × Bool)
unfolding components_from parse_components
parse_range_value base64 range_value value =
    parse_components base64 (components_from [] range_value) value
