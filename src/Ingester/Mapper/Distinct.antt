-- ===== src/Ingester/Mapper/Distinct.antt =====
-- The fingerprint that mapFP returns (ingester/mapper.go) stands for one metric among those in memory.
use cortex.Base.{
  ℕ, ◌<◌, ◌≡◌, refl, Bool, true, bytes_ord, nat_ord, Option, none, some, arith, ◌==◌, Bool-cases,
  eq_of_==, inl, inr, ◌⊎◌,
}
use mathlib.Core.Option.{some-injective}
use cortex.Base.Dict
use cortex.Base.Dict.{Dict, get-put}
use cortex.Labels.{Metric}
use cortex.Ingester.Series.{MemorySeries, new_memory_series}
use cortex.Ingester.Mapper.{FpMapper, max_mapped_fp, metric_to_unique_string, map_fp}
use cortex.Ingester.Mapper.Strings.{IsPlain, SameLabels, string-injective}
use cortex.Ingester.Mapper.Unique.{mapping, IsMapper, Keeps, IsOf, StandsFor, map_fp-StandsFor}

-- The series in memory are under fingerprints that mapFP returns: above the reserved ones, or mapped for
-- their metric.
abbrev pub AreHeld : {C : Type 0} → FpMapper → Dict ℕ (MemorySeries C) → Type 0
AreHeld m series =
    (fp : ℕ) (s : MemorySeries _)
    → Dict.get series fp ≡ some s
    → IsPlain s.metric
      × ((max_mapped_fp < fp)
          ⊎ ((raw : ℕ) × (mapping m raw (metric_to_unique_string s.metric) ≡ some fp)))

-- a series of that metric, or none
abbrev pub IsSeriesOf : {C : Type 0} → Metric → Option (MemorySeries C) → Type 0
IsSeriesOf metric none = Unit
IsSeriesOf metric (some s) = SameLabels metric s.metric

-- The fingerprint is mapped for this raw one and this metric, and for no other raw one or metric.
abbrev pub IsMappedFor : FpMapper → ℕ → Metric → ℕ → Type 0
IsMappedFor m fp metric r =
    (mapping m fp (metric_to_unique_string metric) ≡ some r)
    × ((raw : ℕ) (other : Metric)
        → IsPlain other
        → mapping m raw (metric_to_unique_string other) ≡ some r
        → (fp ≡ raw) × SameLabels metric other)

module _ {C : Type 0} (equal_metric : Metric → Metric → Bool)
    (equal_lem : (a b : Metric) → equal_metric a b ≡ true → SameLabels a b)
    (series : Dict ℕ (MemorySeries C)) (fp : ℕ) (metric : Metric) (plain : IsPlain metric) where
  mapped-IsMappedFor :
      (m : FpMapper) (r : ℕ)
      → IsMapper m
      → mapping m fp (metric_to_unique_string metric) ≡ some r
      → IsMappedFor m fp metric r
  mapped-IsMappedFor m r w e = (
    e,
    λ raw other p k.
        let (fps, strings) = w.injective fp raw _ _ r e k in
        (fps, string-injective metric other plain p strings),
  )

  held : (m m' : FpMapper) → Keeps m m' → AreHeld m series → AreHeld m' series
  held m m' keeps h k s e =
      let (p, place) = h k s e in
      (p, elim place [ inl above ↦ inl above | inr (raw, there) ↦ inr (raw, keeps _ _ _ there) ])

  mapped_series :
      (m : FpMapper) (r : ℕ)
      → IsMapper m
      → AreHeld m series
      → mapping m fp (metric_to_unique_string metric) ≡ some r
      → (o : Option (MemorySeries C)) → Dict.get series r ≡ o
      → IsSeriesOf metric o
  mapped_series m r w h e none k = tt
  mapped_series m r w h e (some s) k =
      let (p, place) = h r s k in
      elim place [
        | inl above ↦
            let (lo, hi) = w.bounded fp _ r e in
            let below = w.below in absurd (omega (arith, below, hi, above))
        | inr (raw, there) ↦ ((mapped-IsMappedFor m r w e).1 raw s.metric p there).1
      ]

  put-AreHeld :
      (m : FpMapper) (r : ℕ)
      → AreHeld m series
      → ((max_mapped_fp < r) ⊎ (mapping m fp (metric_to_unique_string metric) ≡ some r))
      → AreHeld m (Dict.put series r (new_memory_series metric))
  put-AreHeld m r h place k s e = elim (Bool-cases (r == k)) [
    | inl t ↦
        let same : new_memory_series metric ≡ s =
          some-injective _ s (rw (get-put series r k (new_memory_series metric), t) at e) in
        rw (← same, ← eq_of_== r k t)
          (plain, elim place [ inl above ↦ inl above | inr there ↦ inr (fp, there) ])
    | inr f ↦ h k s (rw (get-put series r k (new_memory_series metric), f) at e)
  ]

  raw_series :
      (o : Option (MemorySeries C))
      → Dict.get series fp ≡ o
      → IsOf equal_metric metric (Dict.get series fp)
      → IsSeriesOf metric o
  raw_series none k h = tt
  raw_series (some s) k h = equal_lem metric s.metric (rw k at h)

  -- While fewer than 2^20 fingerprints are mapped, where the series in memory are under
  -- fingerprints above the reserved ones or mapped for their metrics, no name or value has the
  -- separator 0xff, and model.Metric's Equal holds only of metrics with the same labels: mapFP
  -- does not panic, keeps what is mapped unique and as it was, and returns a fingerprint that
  -- no series in memory with other labels has. It is the raw one, above the reserved ones, or
  -- one that is from then on mapped for this raw fingerprint and the labels of this metric
  -- alone; a new series under it keeps the condition on the series in memory.
  pub map_fp_lem :
      (m : FpMapper)
      → IsMapper m
      → AreHeld m series
      → m.highest_mapped_fp < max_mapped_fp
      → (r : ℕ) × (m' : FpMapper) × (map_fp equal_metric fp metric series m ≡ some (r, m'))
        × IsMapper m'
        × Keeps m m'
        × AreHeld m' series
        × AreHeld m' (Dict.put series r (new_memory_series metric))
        × IsSeriesOf metric (Dict.get series r)
        × (((r ≡ fp) × (max_mapped_fp < fp)) ⊎ IsMappedFor m' fp metric r)
  map_fp_lem m w h room =
      let (r, m', e, w', keeps, stands) = map_fp-StandsFor fp metric m w room equal_metric series in
      let h' = held m m' keeps h in
      let (here, place) = served m' w' h' r stands in
      (
        r,
        m',
        e,
        w',
        keeps,
        h',
        put-AreHeld m' r h' (elim place [ inl raw ↦ inl (rw raw.0 raw.1) | inr is ↦ inr is.0 ]),
        here,
        place,
      )
    where
      served :
          (m' : FpMapper)
          → IsMapper m'
          → AreHeld m' series
          → (r : ℕ) → StandsFor equal_metric series m' fp metric r
          → IsSeriesOf metric (Dict.get series r)
            × (((r ≡ fp) × (max_mapped_fp < fp)) ⊎ IsMappedFor m' fp metric r)
      served m' w' h' r (inl (same, above, alone)) =
          (rw same (raw_series _ refl alone), inl (same, above))
      served m' w' h' r (inr there) =
          (mapped_series m' r w' h' there _ refl, inr (mapped-IsMappedFor m' r w' there))
