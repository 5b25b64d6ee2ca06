-- ===== src/Ingester/User.antt =====
-- ingester/user_state.go: what the ingester keeps for one user, and the limits on its series. Each operation
-- is one step here; Calls takes unlockedGet apart, where calls for other fingerprints come between.
-- `fast_fingerprint` and `equal_metric` are model.Metric's FastFingerprint and Equal. A panic is `panic`.
pub mod Count
pub mod Limits
pub mod Calls
use cortex.Base.{
  ℕ, ◌+◌, List, [], ◌∷◌, ◌++◌, Bool, true, false, Bytes, bytes_ord, nat_ord, int_ord, ◌==◌, ltb,
  leb, if◌then◌else◌, Option, none, some, length, Result, ok, err, panic, ◌>>=◌,
}
use cortex.Base.Int.{ℤ, pos, ◌+ℤ◌, ◌-ℤ◌}
use cortex.Base.Dict
use cortex.Base.Dict.{Dict}
use cortex.Labels.{
  Metric, LabelMatcher, extract_metric_name_from_metric, split_filters_and_matchers, LabelError,
  or_empty,
}
use cortex.Ingester.Index.{InvertedIndex}
use cortex.Ingester.Index
use cortex.Ingester.Mapper.{FpMapper, new_fp_mapper, map_fp}
use cortex.Ingester.Series.{MemorySeries, new_memory_series}

-- the limits of the configuration, which New makes positive
pub record UserStatesConfig : Type 0 where
  pub max_series_per_user : ℕ
  pub max_series_per_metric : ℤ

pub record UserState (C : Type 0) : Type 0 where
  pub fp_to_series : Dict ℕ (MemorySeries C)
  pub mapper : FpMapper
  pub index : InvertedIndex
  pub series_in_metric : Dict Bytes ℤ

pub data UserError : Type 0 where
  user_series_limit_exceeded metric_series_limit_exceeded no_metric_name_label : UserError

abbrev pub new_user_state : {C : Type 0} → UserState C
new_user_state = record {
  fp_to_series = [];
  mapper = new_fp_mapper;
  index = [];
  series_in_metric = [];
}

-- a missing key reads as zero
abbrev pub or_zero : Option ℤ → ℤ
or_zero none = pos 0
or_zero (some n) = n

-- canAddSeriesFor: the counts after it, or `none` where the metric has too many
unfoldable pub can_add_series_for : Bytes → UserStatesConfig → Dict Bytes ℤ → Option (Dict Bytes ℤ)
unfolding ◌+ℤ◌
can_add_series_for name cfg counts =
    let n = or_zero (Dict.get counts name) in
    if leb cfg.max_series_per_metric n then none else some (Dict.put counts name (n +ℤ pos 1))

-- the count of removeSeries
unfoldable pub remove_count : Bytes → Dict Bytes ℤ → Dict Bytes ℤ
unfolding ◌-ℤ◌
remove_count name counts =
    let n = or_zero (Dict.get counts name) -ℤ pos 1 in
    let counts' = Dict.put counts name n in if n == pos 0 then Dict.delete counts' name else counts'

module _ {C : Type 0} (fast_fingerprint : Metric → ℕ) (equal_metric : Metric → Metric → Bool) where
  -- the part of unlockedGet that makes a series
  unfoldable pub make_series :
      ℕ → Metric → UserStatesConfig → UserState C → Result UserError (ℕ × UserState C)
  unfolding can_add_series_for Index.add
  make_series fp metric cfg u =
      if leb cfg.max_series_per_user (length u.fp_to_series)
      then err user_series_limit_exceeded
      else elim (extract_metric_name_from_metric metric) [
        | err e ↦ err no_metric_name_label
        | panic ↦ panic
        | ok name ↦ elim (can_add_series_for name cfg u.series_in_metric) [
          | none ↦ err metric_series_limit_exceeded
          | some counts ↦ ok (
            fp,
            record u {
              fp_to_series = Dict.put u.fp_to_series fp (new_memory_series metric);
              index = Index.add metric fp u.index;
              series_in_metric = counts;
            },
          )
        ]
      ]

  -- unlockedGet: the series's fingerprint, and the state that has it. The mapper's new mapping stays where
  -- an error is returned: the state with it stands beside the result.
  unfoldable pub unlocked_get :
      Metric → UserStatesConfig → UserState C → UserState C × Result UserError (ℕ × UserState C)
  unfolding make_series
  unlocked_get metric cfg u =
      elim (map_fp equal_metric (fast_fingerprint metric) metric u.fp_to_series u.mapper) [
        | none ↦ (u, panic)
        | some (fp, m) ↦
            let u' : UserState C = record u { mapper = m } in
            (
              u',
              elim (Dict.get u'.fp_to_series fp) [
                | some s ↦ ok (fp, u')
                | none ↦ make_series fp metric cfg u'
              ],
            )
      ]

-- removeSeries
unfoldable pub remove_series :
    {C : Type 0} → ℕ → Metric → UserState C → Result UserError (UserState C)
unfolding remove_count Index.delete
remove_series fp metric u = elim (Index.delete metric fp u.index) [
  | none ↦ panic
  | some index ↦ elim (extract_metric_name_from_metric metric) [
    | err e ↦ panic
    | panic ↦ panic
    | ok name ↦ ok (record u {
      fp_to_series = Dict.delete u.fp_to_series fp;
      index = index;
      series_in_metric = remove_count name u.series_in_metric;
    })
  ]
]

-- the filters of forSeriesMatching
unfoldable pub passes : List LabelMatcher → Metric → Bool
passes [] metric = true
passes (f ∷ fs) metric =
    let rest = passes fs metric in
    if f.matches (or_empty (Dict.get metric f.name)) then rest else false

module _ {C R : Type 0} (E : Type 0) (callback : ℕ → MemorySeries C → R → Result E R) where
  for_series : List LabelMatcher → List ℕ → UserState C → R → Result E R
  unfolding passes
  for_series filters [] u acc = ok acc
  for_series filters (fp ∷ fps) u acc = elim (Dict.get u.fp_to_series fp) [
    | none ↦ for_series filters fps u acc
    | some s ↦ elim (passes filters s.metric) [
      | false ↦ for_series filters fps u acc
      | true ↦ elim (callback fp s acc) [
        | ok acc' ↦ for_series filters fps u acc'
        | err e ↦ err e
        | panic ↦ panic
      ]
    ]
  ]

  -- forSeriesMatching, where the callback passes on what it gathers
  unfoldable pub for_series_matching : List LabelMatcher → UserState C → R → Result E R
  unfolding for_series split_filters_and_matchers
  for_series_matching all_matchers u acc =
      let (filters, matchers) = split_filters_and_matchers all_matchers in
      for_series filters (Index.lookup matchers u.index) u acc

-- userStates: a state per user
abbrev pub UserStates : Type 0 → Type 0
UserStates C = Dict Bytes (UserState C)

has_series : {C : Type 0} → UserState C → Bool
has_series u = if length u.fp_to_series == 0 then false else true

-- gc
unfoldable pub gc : {C : Type 0} → UserStates C → UserStates C
unfolding has_series
gc [] = []
gc ((id, u) ∷ us) = let rest = gc us in if has_series u then (id, u) ∷ rest else rest

unfoldable pub num_series : {C : Type 0} → UserStates C → ℕ
num_series [] = 0
num_series ((id, u) ∷ us) = length u.fp_to_series + num_series us

-- unlockedGetOrCreate
unfoldable pub get_or_create : {C : Type 0} → Bytes → UserStates C → UserState C × UserStates C
get_or_create id us = elim (Dict.get us id) [
  | some u ↦ (u, us)
  | none ↦ (new_user_state, Dict.put us id new_user_state)
]
