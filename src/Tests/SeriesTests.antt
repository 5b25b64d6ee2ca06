-- ===== src/Tests/SeriesTests.antt =====
-- Series of chunks that are plain lists of samples.
use cortex.Base.{
  ℕ, ◌≡◌, ◌<◌, ◌≤◌, ◌+◌, if◌then◌else◌, refl, List, [], ◌∷◌, ◌++◌, nat_ord, int_ord, bytes_ord,
  codes, Bytes, Bool, true, false, ◌==◌, eq_of_==, ap, ◌&&◌, ◌⊎◌, ltb, Option, some, none, Result,
  ok, arith, length, Bool-cases, inl, inr,
}
use mathlib.Core.Option.{some-injective}
use cortex.Base.Int.{ℤ, pos}
use cortex.Base.Dict
use cortex.Base.Dict.{Dict}
use cortex.Labels.{Metric, extract_metric_name_from_metric}
use cortex.Samples.{SamplePair}
use cortex.Ingester.Series.{
  ChunkOps, ChunkDesc, MemorySeries, add, append_sample, new_memory_series, samples_for_range,
  earliest,
}
use cortex.Ingester.Series.Order.{add_all, add_any_order}
use cortex.Ingester.Series.Range.{in_range, all_samples, samples_for_range_lem}
use cortex.Ingester.Mapper.{FpMapper, max_mapped_fp, new_fp_mapper, map_fp}
use cortex.Ingester.Mapper.Unique.{IsMapper, Keeps}
use cortex.Ingester.Mapper.Strings.{IsFree, IsPlain, SameLabels}
use cortex.Ingester.Mapper.Distinct.{AreHeld, IsSeriesOf, IsMappedFor, map_fp_lem}
use cortex.Ingester.User.{UserStatesConfig, UserState, new_user_state, or_zero, remove_series}
use cortex.Ingester.User.Calls.{Calls, start_get, go_on, done, starts, goes_on}
use cortex.Ingester.User.Calls.Starts.{named}
use cortex.Ingester.User.Calls.Overlap.{overlapping_lem}
use cortex.Ingester.User.Limits.{IsUser, remove_series-IsUser}
use cortex.Ingester.Index
use cortex.Ingester.Flush.{FlushConfig, flush_begin, flush_end}
use cortex.Ingester.Flush.Keep.{IsChunkOps, flush_lem}

abbrev Plain : Type 0
Plain = List SamplePair

abbrev plain : ChunkOps Plain
plain = record {
  new_chunk = [];
  add_sample = λ c v. some ((c ++ v ∷ []) ∷ []);
  chunk_first_time = λ c. pos 0;
  last_timestamp = λ c. some (pos 0);
  range_values = λ c from through. some (in_range from through c);
  same_value = λ a b. a == b;
}

plain-IsChunkOps : IsChunkOps plain
plain-IsChunkOps = record { adds = λ c v e. cc; reads = λ c. (pos 0, refl) }

abbrev at_time : ℕ → SamplePair
at_time t = record { timestamp = pos t; value = 1 }

abbrev up : Metric
up = (codes "__name__", codes "up") ∷ []

add_any_order_example :
    add plain (at_time 2) (add_all plain (at_time 5 ∷ at_time 3 ∷ []) (new_memory_series up))
    ≡ append_sample plain
        (at_time 2)
        (add_all plain (at_time 5 ∷ at_time 3 ∷ []) (new_memory_series up))
add_any_order_example = add_any_order plain up (at_time 5 ∷ at_time 3 ∷ []) (at_time 2) refl

abbrev desc_of : ℕ → ℕ → ChunkDesc Plain
desc_of a b = record { chunk = at_time a ∷ at_time b ∷ []; first_time = pos a; last_time = pos b }

abbrev two_chunks : MemorySeries Plain
two_chunks = record (new_memory_series up) { chunk_descs = desc_of 1 4 ∷ desc_of 6 9 ∷ [] }

samples_for_range_example :
    samples_for_range plain (pos 2) (pos 7) two_chunks
    ≡ ok (in_range (pos 2) (pos 7) (all_samples (λ c. c) two_chunks.chunk_descs))
samples_for_range_example =
    samples_for_range_lem plain (λ c. c) (pos 2) (pos 7) two_chunks (λ c. refl)
      (
        (refl, ((refl, refl), ((refl, refl), tt)), (refl, tt)),
        ((refl, ((refl, refl), ((refl, refl), tt)), tt), tt),
      )
      (omega arith)

empty-IsMapper : IsMapper new_fp_mapper
unfolding Dict.get cortex.Ingester.Mapper.Unique.mapping
empty-IsMapper = record {
  below = omega arith;
  bounded = λ fp ms r e. cc;
  injective = λ fp fp' ms ms' r e e'. (cc, cc);
}

-- the same names and values in the same order
same_metric : Metric → Metric → Bool
same_metric [] [] = true
same_metric [] (e ∷ b) = false
same_metric (e ∷ a) [] = false
same_metric ((n, v) ∷ a) ((n', v') ∷ b) = (n == n') && (v == v') && same_metric a b

same_metric_eq : (a b : Metric) → same_metric a b ≡ true → a ≡ b
unfolding same_metric
same_metric_eq [] [] h = refl
same_metric_eq [] (e ∷ b) h = cc
same_metric_eq (e ∷ a) [] h = cc
same_metric_eq ((n, v) ∷ a) ((n', v') ∷ b) h =
    let name : n ≡ n' = eq_of_== n n' (ground arith) in
    let value : v ≡ v' = eq_of_== v v' (ground arith) in
    rw (name, value, same_metric_eq a b (ground arith)) refl

same_metric-SameLabels : (a b : Metric) → same_metric a b ≡ true → SameLabels a b
same_metric-SameLabels a b h name = ap (λ m. Dict.get m name) (same_metric_eq a b h)

abbrev down : Metric
down = (codes "__name__", codes "down") ∷ []

name-IsFree : IsFree (codes "__name__")
name-IsFree = (refl, (refl, (refl, (refl, (refl, (refl, (refl, (refl, tt))))))))

up-IsPlain : IsPlain up
up-IsPlain = (((name-IsFree, (refl, (refl, tt))), tt), (tt, tt))

down-IsPlain : IsPlain down
down-IsPlain = (((name-IsFree, (refl, (refl, (refl, (refl, tt))))), tt), (tt, tt))

-- another metric is in memory under the same raw fingerprint
abbrev collision : Dict ℕ (MemorySeries Plain)
collision = (2000000, new_memory_series down) ∷ []

collision-AreHeld : AreHeld new_fp_mapper collision
unfolding Dict.get
collision-AreHeld fp s e = elim (Bool-cases (2000000 == fp)) [
  | inl t ↦
      let same : new_memory_series down ≡ s = some-injective _ s (rw t at e) in
      rw (← same, ← eq_of_== 2000000 fp t) (down-IsPlain, inl (omega arith))
  | inr f ↦ absurd (none_some (rw f at e))
]
  where
    none_some : none ≡ some s → ⊥
    none_some e = cc

map_fp_example :
    (r : ℕ) × (m' : FpMapper) × (map_fp same_metric 2000000 up collision new_fp_mapper
      ≡ some (r, m'))
    × IsMapper m'
    × Keeps new_fp_mapper m'
    × AreHeld m' collision
    × AreHeld m' (Dict.put collision r (new_memory_series up))
    × IsSeriesOf up (Dict.get collision r)
    × (((r ≡ 2000000) × (max_mapped_fp < 2000000)) ⊎ IsMappedFor m' 2000000 up r)
map_fp_example =
    map_fp_lem same_metric same_metric-SameLabels collision 2000000 up up-IsPlain new_fp_mapper
      empty-IsMapper collision-AreHeld (omega arith)

abbrev small_limits : UserStatesConfig
small_limits = record { max_series_per_user = 2; max_series_per_metric = pos 1 }

-- a fingerprint for each of two metrics
abbrev print_two : Metric → ℕ
print_two m = if same_metric m up then 2000001 else 2000002

abbrev one_allowed : UserStatesConfig
one_allowed = record { max_series_per_user = 1; max_series_per_metric = pos 1 }

one_allowed-IsUser : IsUser {C = Plain} one_allowed new_user_state
unfolding Dict.get cortex.Ingester.User.Count.count
one_allowed-IsUser = record {
  unique = tt;
  counted = λ n. refl;
  within_user = omega arith;
  within_metric = λ n. refl;
}

abbrev no_calls : Calls Plain
no_calls = record { user = new_user_state; pending = [] }

abbrev both_started : Calls Plain
both_started =
    start_get print_two same_metric one_allowed down
      (start_get print_two same_metric one_allowed up no_calls)

-- Both calls see no series, and both write one.
abbrev both_written : Calls Plain
both_written = go_on print_two same_metric one_allowed 2000002 (
    go_on print_two same_metric one_allowed 2000001 (
      go_on print_two same_metric one_allowed 2000002
        (go_on print_two same_metric one_allowed 2000001 both_started)))

overshoot : length both_written.user.fp_to_series ≡ 2
unfolding same_metric Dict.get Dict.put Dict.delete start_get map_fp go_on
    extract_metric_name_from_metric
overshoot = refl

overlapping_example :
    (length both_written.user.fp_to_series + 1 ≤ 1 + 2)
    × ((name : Bytes)
        → (or_zero (Dict.get both_written.user.series_in_metric name)
            ≡ pos (named name both_written))
          × (ltb (pos 1) (pos (named name both_written)) ≡ false))
unfolding same_metric Dict.put Dict.get start_get map_fp
overlapping_example =
    overlapping_lem print_two same_metric one_allowed 2 new_user_state both_written (omega arith)
      one_allowed-IsUser
      (starts up first (
        starts down second
          (goes_on 2000001 (goes_on 2000002 (goes_on 2000001 (goes_on 2000002 done))))))
  where
    first : length no_calls.pending < 2
    first = omega arith

    second : length (start_get print_two same_metric one_allowed up no_calls).pending < 2
    second = omega arith

abbrev one_series : UserState Plain
one_series = record {
  fp_to_series = (9, new_memory_series up) ∷ [];
  mapper = new_fp_mapper;
  index = (codes "__name__", (codes "up", 9 ∷ []) ∷ []) ∷ [];
  series_in_metric = (codes "up", pos 1) ∷ [];
}

one_series-IsUser : IsUser small_limits one_series
unfolding Dict.get cortex.Ingester.User.Count.count cortex.Ingester.User.Limits.is_named
    extract_metric_name_from_metric
one_series-IsUser = record {
  unique = (tt, tt);
  counted = λ n. elim (Bool-cases (codes "up" == n)) [ inl t ↦ rw t refl | inr f ↦ rw f refl ];
  within_user = omega arith;
  within_metric =
      λ n. elim (Bool-cases (codes "up" == n)) [ inl t ↦ rw t refl | inr f ↦ rw f refl ];
}

remove_series_example :
    (u' : UserState Plain) × (remove_series 9 up one_series ≡ ok u')
    × IsUser small_limits u'
    × (Dict.get u'.fp_to_series 9 ≡ none)
remove_series_example =
    remove_series-IsUser small_limits 9 (codes "up") (new_memory_series up) one_series []
      one_series-IsUser present named deleted
  where
    present : Dict.get one_series.fp_to_series 9 ≡ some (new_memory_series up)
    present = unfold Dict.get in refl

    named : extract_metric_name_from_metric up ≡ ok (codes "up")
    named = unfold extract_metric_name_from_metric Dict.get in refl

    deleted : Index.delete up 9 one_series.index ≡ some []
    deleted =
        unfold Index.delete Index.delete_label Index.delete_fp Index.place Dict.get Dict.delete
          cortex.Base.Search.search_list in
        refl

abbrev hourly : FlushConfig
hourly = record { max_chunk_age = pos 10; max_chunk_idle = pos 100 }

flush_example :
    (add_all plain (at_time 15 ∷ []) two_chunks).chunk_descs
    ≡ (desc_of 1 4 ∷ [])
      ++ (flush_end (desc_of 1 4 ∷ []) (add_all plain (at_time 15 ∷ []) two_chunks)).chunk_descs
flush_example =
    flush_lem plain plain-IsChunkOps hourly (pos 12) false two_chunks two_chunks (desc_of 1 4 ∷ [])
      (at_time 15 ∷ []) begun (omega arith)
  where
    begun : flush_begin hourly (pos 12) false two_chunks ≡ some (desc_of 1 4 ∷ [], two_chunks)
    begun =
        unfold flush_begin cortex.Ingester.Flush.should_flush_series
          cortex.Ingester.Flush.should_flush_chunk cortex.Ingester.Series.split_last
          cortex.Base.Int.◌-ℤ◌ in
        refl
