-- ===== src/Ingester/User/Calls.antt =====
-- ingester/user_state.go, unlockedGet in the steps that other goroutines may come between: up to the check of
-- the user's limit, canAddSeriesFor under its mutex, and the writes. A call between its check and its writes
-- is under the fingerprint that it has locked.
pub mod Starts
pub mod Overlap
use cortex.Base.{
  ℕ, ◌+◌, ◌<◌, Bool, true, false, Bytes, bytes_ord, nat_ord, leb, if◌then◌else◌, Option, none, some,
  is_some, length, ok, err, panic,
}
use cortex.Base.Dict
use cortex.Base.Dict.{Dict}
use cortex.Labels.{Metric, extract_metric_name_from_metric}
use cortex.Ingester.Index
use cortex.Ingester.Mapper.{map_fp}
use cortex.Ingester.Series.{new_memory_series}
use cortex.Ingester.User.{UserStatesConfig, UserState, can_add_series_for}

-- a call that is past its check, and whether canAddSeriesFor has counted it
pub record Pending : Type 0 where
  pub metric : Metric
  pub counted : Bool

pub record Calls (C : Type 0) : Type 0 where
  pub user : UserState C
  pub pending : Dict ℕ Pending

module _ {C : Type 0} (fast_fingerprint : Metric → ℕ) (equal_metric : Metric → Metric → Bool)
    (cfg : UserStatesConfig) where
  -- With the fingerprint locked: a series that is there is returned, and with too many an error.
  unfoldable pub check_limit : ℕ → Metric → Calls C → Calls C
  check_limit fp metric c = elim (Dict.get c.user.fp_to_series fp) [
    | some s ↦ c
    | none ↦ if leb cfg.max_series_per_user (length c.user.fp_to_series) then c else record c {
      pending = Dict.put c.pending fp (record { metric = metric; counted = false });
    }
  ]

  -- A call that finds a fingerprint locked has not happened yet, but for what mapFP did.
  unfoldable pub start_get : Metric → Calls C → Calls C
  unfolding check_limit
  start_get metric c =
      if is_some (Dict.get c.pending (fast_fingerprint metric))
      then c
      else elim (map_fp equal_metric (fast_fingerprint metric) metric c.user.fp_to_series
          c.user.mapper) [
            | none ↦ c
            | some (fp, m) ↦
                let c' : Calls C = record c { user = record c.user { mapper = m } } in
                if is_some (Dict.get c.pending fp) then c' else check_limit fp metric c'
          ]

  -- the metric's name and canAddSeriesFor: a call that either refuses ends
  unfoldable pub count_pending : ℕ → Metric → Calls C → Calls C
  unfolding can_add_series_for
  count_pending fp metric c =
      let rest = Dict.delete c.pending fp in
      elim (extract_metric_name_from_metric metric) [
        | err e ↦ record c { pending = rest }
        | panic ↦ record c { pending = rest }
        | ok name ↦ elim (can_add_series_for name cfg c.user.series_in_metric) [
          | none ↦ record c { pending = rest }
          | some counts ↦ record c {
            user = record c.user { series_in_metric = counts };
            pending = Dict.put rest fp (record { metric = metric; counted = true });
          }
        ]
      ]

  -- the writes, after which the lock is the caller's
  unfoldable pub write_series : ℕ → Metric → Calls C → Calls C
  unfolding Index.add
  write_series fp metric c = record c {
    user = record c.user {
      fp_to_series = Dict.put c.user.fp_to_series fp (new_memory_series metric);
      index = Index.add metric fp c.user.index;
    };
    pending = Dict.delete c.pending fp;
  }

  -- the next step of the call that has a fingerprint
  unfoldable pub go_on : ℕ → Calls C → Calls C
  unfolding count_pending write_series
  go_on fp c = elim (Dict.get c.pending fp) [
    | none ↦ c
    | some p ↦ if p.counted then write_series fp p.metric c else count_pending fp p.metric c
  ]

  -- Calls in any order of their steps, at most k of them between their checks and their writes.
  pub data Overlapping (k : ℕ) : Calls C → Calls C → Type 0 where
    done : {c : Calls C} → Overlapping k c c
    starts :
        {c c' : Calls C} (metric : Metric)
        → length c.pending < k
        → Overlapping k (start_get metric c) c'
        → Overlapping k c c'
    goes_on : {c c' : Calls C} (fp : ℕ) → Overlapping k (go_on fp c) c' → Overlapping k c c'
