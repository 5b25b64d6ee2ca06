-- ===== src/Ingester/Series/Order.antt =====
-- The order of a series's samples in time, which `add` means to keep.
use cortex.Base.{◌≡◌, refl, List, [], ◌∷◌, true, false, nat_ord, int_ord, ltb, arith}
use cortex.Labels.{Metric}
use cortex.Samples.{SamplePair}
use cortex.Ingester.Series.{ChunkOps, MemorySeries, append_sample, add, new_memory_series, earliest}

module _ {C : Type 0} (ops : ChunkOps C) where
  -- The time of the last sample is not moved by a sample that is added: whatever happens, the series keeps
  -- the one that it had, and so its metric.
  pub add-last_time :
      (v : SamplePair) (s : MemorySeries C)
      → ((add ops v s).1.last_time ≡ s.last_time)
        × ((add ops v s).1.last_sample_value_set ≡ s.last_sample_value_set)
        × ((add ops v s).1.metric ≡ s.metric)
  unfolding add append_sample
  add-last_time v s = ground arith

  -- the series after some samples
  unfoldable pub add_all : List SamplePair → MemorySeries C → MemorySeries C
  unfolding add
  add_all [] s = s
  add_all (v ∷ vs) s = add_all vs (add ops v s).1

  add_all-last_time :
      (vs : List SamplePair) (s : MemorySeries C)
      → ((add_all vs s).last_time ≡ s.last_time)
        × ((add_all vs s).last_sample_value_set ≡ s.last_sample_value_set)
  unfolding add_all
  add_all-last_time [] s = (refl, refl)
  add_all-last_time (v ∷ vs) s =
      let (t, b, m) = add-last_time v s in
      let (t', b') = add_all-last_time vs (add ops v s).1 in (cc, cc)

  add-open :
      (v : SamplePair) (s : MemorySeries C)
      → s.last_time ≡ earliest
      → s.last_sample_value_set ≡ false
      → ltb earliest v.timestamp ≡ true
      → add ops v s ≡ append_sample ops v s
  unfolding add
  add-open v s e b h = ground arith

  -- To a series that only add has changed, in whatever order the samples came, adding a sample
  -- later than the earliest time is what is done with a sample that is not turned away.
  pub add_any_order :
      (m : Metric) (vs : List SamplePair) (v : SamplePair)
      → ltb earliest v.timestamp ≡ true
      → add ops v (add_all vs (new_memory_series m))
        ≡ append_sample ops v (add_all vs (new_memory_series m))
  add_any_order m vs v h =
      let (t, b) = add_all-last_time vs (new_memory_series m) in
      add-open v (add_all vs (new_memory_series m)) t b h
