-- ===== src/Ingester/Mapper.antt =====
-- ingester/mapper.go: fingerprints that stand for one metric each, also where the hashes of two metrics
-- collide. `equal_metric` is model.Metric's Equal. A panic is `none`.
pub mod Strings
pub mod Unique
pub mod Distinct
use cortex.Base.{
  ℕ, ◌+◌, ◌%◌, List, [], ◌∷◌, ◌++◌, Bool, true, false, Bytes, bytes_ord, nat_ord, ltb, leb,
  if◌then◌else◌, Option, none, some,
}
use cortex.Base.Dict
use cortex.Base.Dict.{Dict}
use cortex.Base.Sort.{sort}
use cortex.Labels.{Metric}
use cortex.Ingester.Series.{MemorySeries}

abbrev pub max_mapped_fp : ℕ
max_mapped_fp = 1048576

-- model.SeparatorByte
abbrev pub separator : Bytes
separator = 255 ∷ []

abbrev pub key_of : Bytes → Bytes
key_of b = b

unfoldable pub parts : Metric → List Bytes
parts [] = []
parts ((ln, lv) ∷ m) = (ln ++ separator ++ lv) ∷ parts m

-- strings.Join
unfoldable pub join : Bytes → List Bytes → Bytes
join sep [] = []
join sep (b ∷ []) = b
join sep (b ∷ c ∷ bs) = b ++ sep ++ join sep (c ∷ bs)

unfoldable pub metric_to_unique_string : Metric → Bytes
unfolding parts join sort
metric_to_unique_string m = join separator (sort key_of (parts m))

pub record FpMapper : Type 0 where
  pub highest_mapped_fp : ℕ
  pub mappings : Dict ℕ (Dict Bytes ℕ)

abbrev pub new_fp_mapper : FpMapper
new_fp_mapper = record { highest_mapped_fp = 0; mappings = [] }

-- nextMappedFP: a uint64 counter
unfoldable pub next_mapped_fp : FpMapper → Option (ℕ × FpMapper)
next_mapped_fp m =
    let mapped = (m.highest_mapped_fp + 1) % 18446744073709551616 in
    if ltb max_mapped_fp mapped
    then none
    else some (mapped, record m { highest_mapped_fp = mapped })

unfoldable pub add_mapping : ℕ → Bytes → Dict Bytes ℕ → FpMapper → Option (ℕ × FpMapper)
unfolding next_mapped_fp
add_mapping fp ms mapped_fps m = elim (next_mapped_fp m) [
  | none ↦ none
  | some (mapped, m') ↦
      some
        (mapped, record m' { mappings = Dict.put m'.mappings fp (Dict.put mapped_fps ms mapped) })
]

-- maybeAddMapping
unfoldable pub maybe_add_mapping : ℕ → Metric → FpMapper → Option (ℕ × FpMapper)
unfolding add_mapping metric_to_unique_string
maybe_add_mapping fp metric m =
    let ms = metric_to_unique_string metric in
    elim (Dict.get m.mappings fp) [
      | none ↦ add_mapping fp ms [] m
      | some mapped_fps ↦ elim (Dict.get mapped_fps ms) [
        | some mapped ↦ some (mapped, m)
        | none ↦ add_mapping fp ms mapped_fps m
      ]
    ]

-- the fingerprint where no series has it in memory
unfoldable pub mapped_or_raw : ℕ → Metric → FpMapper → ℕ
unfolding metric_to_unique_string
mapped_or_raw fp metric m = elim (Dict.get m.mappings fp) [
  | none ↦ fp
  | some mapped_fps ↦ elim (Dict.get mapped_fps (metric_to_unique_string metric)) [
    | some mapped ↦ mapped
    | none ↦ fp
  ]
]

module _ {C : Type 0} (equal_metric : Metric → Metric → Bool) where
  -- mapFP
  unfoldable pub map_fp : ℕ → Metric → Dict ℕ (MemorySeries C) → FpMapper → Option (ℕ × FpMapper)
  unfolding maybe_add_mapping mapped_or_raw
  map_fp fp metric fp_to_series m =
      let add = maybe_add_mapping fp metric m in
      if leb fp max_mapped_fp then add else elim (Dict.get fp_to_series fp) [
        | some s ↦ if equal_metric metric s.metric then some (fp, m) else add
        | none ↦ some (mapped_or_raw fp metric m, m)
      ]
