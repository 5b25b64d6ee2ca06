-- ===== src/Ingester/Mapper/Unique.antt =====
-- Mapped fingerprints are unique, and never fingerprints that stand for themselves.
use cortex.Base.{
  ◌∙◌, ℕ, ◌+◌, ◌%◌, ◌<◌, ◌≤◌, ◌≡◌, refl, sym, ap, [], Bool, true, false, ◌&&◌, Bytes, bytes_ord,
  nat_ord, ◌==◌, ltb, leb, if◌then◌else◌, Option, none, some, arith, Bool-cases, Option-cases, inl,
  inr, ◌⊎◌, eq_of_==, ==_refl,
}
use mathlib.Core.Option.{some-injective}
use cortex.Base.Dict
use cortex.Base.Dict.{Dict, get-put}
use cortex.Labels.{Metric}
use cortex.Ingester.Series.{MemorySeries}
use cortex.Ingester.Mapper.{
  FpMapper, max_mapped_fp, metric_to_unique_string, next_mapped_fp, add_mapping, maybe_add_mapping,
  mapped_or_raw, map_fp,
}

abbrev get_in : Option (Dict Bytes ℕ) → Bytes → Option ℕ
get_in none ms = none
get_in (some d) ms = Dict.get d ms

-- what stands for a metric's string under a raw fingerprint
unfoldable pub mapping : FpMapper → ℕ → Bytes → Option ℕ
mapping m fp ms = get_in (Dict.get m.mappings fp) ms

-- Each mapped fingerprint is from 1 up to the highest, and stands for one raw fingerprint and metric.
pub record IsMapper (m : FpMapper) : Type 0 where
  pub below : m.highest_mapped_fp ≤ max_mapped_fp
  pub bounded :
      (fp : ℕ) (ms : Bytes) (r : ℕ) → mapping m fp ms ≡ some r → (0 < r) × (r ≤ m.highest_mapped_fp)
  pub injective :
      (fp fp' : ℕ) (ms ms' : Bytes) (r : ℕ)
      → mapping m fp ms ≡ some r
      → mapping m fp' ms' ≡ some r
      → (fp ≡ fp') × (ms ≡ ms')

-- Nothing that was mapped is mapped otherwise afterwards.
abbrev pub Keeps : FpMapper → FpMapper → Type 0
Keeps m m' = (fp : ℕ) (ms : Bytes) (r : ℕ) → mapping m fp ms ≡ some r → mapping m' fp ms ≡ some r

abbrev with_mapping : FpMapper → ℕ → ℕ → Bytes → Dict Bytes ℕ → FpMapper
with_mapping m h fp ms d = record {
  highest_mapped_fp = h;
  mappings = Dict.put m.mappings fp (Dict.put d ms h);
}

-- the table under a raw fingerprint, empty where there is none
abbrev Holds : FpMapper → ℕ → Dict Bytes ℕ → Type 0
Holds m fp d = (ms : Bytes) → Dict.get d ms ≡ mapping m fp ms

mapping-with :
    (m : FpMapper) (h fp : ℕ) (ms : Bytes) (d : Dict Bytes ℕ) (fp' : ℕ) (ms' : Bytes)
    → Holds m fp d
    → mapping (with_mapping m h fp ms d) fp' ms'
      ≡ (if (fp == fp') && (ms == ms') then some h else mapping m fp' ms')
unfolding mapping
mapping-with m h fp ms d fp' ms' holds =
    ap (λ o. get_in o ms') (get-put m.mappings fp fp' (Dict.put d ms h))
    ∙ elim (Bool-cases (fp == fp')) [
      | inl e ↦ rw e (
          get-put d ms ms' h
          ∙ ap (λ r. if ms == ms' then some h else r)
              (holds ms' ∙ ap (λ k. mapping m k ms') (eq_of_== fp fp' e)))
      | inr e ↦ rw e refl
    ]

-- A new mapping, of a string that had none.
module _ (m : FpMapper) (fp : ℕ) (ms : Bytes) (d : Dict Bytes ℕ) (holds : Holds m fp d) where
  with_new : FpMapper
  with_new = with_mapping m (m.highest_mapped_fp + 1) fp ms d

  both_keys :
      (fp' : ℕ) (ms' : Bytes) → ((fp == fp') && (ms == ms')) ≡ true → (fp ≡ fp') × (ms ≡ ms')
  both_keys fp' ms' t = (eq_of_== fp fp' (ground arith), eq_of_== ms ms' (ground arith))

  mapping-with_new :
      (fp' : ℕ) (ms' : Bytes) (r : ℕ)
      → mapping with_new fp' ms' ≡ some r
      → ((fp ≡ fp') × (ms ≡ ms') × (r ≡ m.highest_mapped_fp + 1)) ⊎ (mapping m fp' ms' ≡ some r)
  unfolding with_new
  mapping-with_new fp' ms' r e =
      let new = mapping-with m (m.highest_mapped_fp + 1) fp ms d fp' ms' holds in
      elim (Bool-cases ((fp == fp') && (ms == ms'))) [
        | inl t ↦
            let (k, l) = both_keys fp' ms' t in
            inl (k, l, some-injective _ _ (sym e ∙ new ∙ rw t refl))
        | inr f ↦ inr (rw f at (sym new ∙ e))
      ]

  with_new-IsMapper :
      IsMapper m
      → mapping m fp ms ≡ none
      → m.highest_mapped_fp + 1 ≤ max_mapped_fp
      → IsMapper with_new
        × Keeps m with_new
        × (mapping with_new fp ms ≡ some (m.highest_mapped_fp + 1))
  unfolding with_new
  with_new-IsMapper w fresh le = (
    record {
      below = le;
      bounded = λ fp' ms' r e. elim (mapping-with_new fp' ms' r e) [
        | inl (_, _, q) ↦ (omega arith, omega arith)
        | inr k ↦ let (lo, hi) = w.bounded fp' ms' r k in (lo, omega arith)
      ];
      injective = λ fp' fp'' ms' ms'' r e e'. elim (mapping-with_new fp' ms' r e) [
        | inl (a, b, q) ↦ elim (mapping-with_new fp'' ms'' r e') [
          | inl (a', b', _) ↦ (sym a ∙ a', sym b ∙ b')
          | inr k ↦ let (lo, hi) = w.bounded fp'' ms'' r k in absurd (omega arith)
        ]
        | inr k ↦ elim (mapping-with_new fp'' ms'' r e') [
          | inl (_, _, q) ↦ let (lo, hi) = w.bounded fp' ms' r k in absurd (omega arith)
          | inr k' ↦ w.injective fp' fp'' ms' ms'' r k k'
        ]
      ];
    },
    λ fp' ms' r e.
        mapping-with m (m.highest_mapped_fp + 1) fp ms d fp' ms' holds
        ∙ elim (Bool-cases ((fp == fp') && (ms == ms'))) [
          | inl t ↦
              let (k, l) = both_keys fp' ms' t in absurd (none_some r (sym fresh ∙ rw (k, l) e))
          | inr f ↦ rw f e
        ],
    mapping-with m (m.highest_mapped_fp + 1) fp ms d fp ms holds ∙ rw (==_refl fp, ==_refl ms) refl,
  )
    where
      none_some : (r : ℕ) → ¬ (none ≡ some r)
      none_some r e = cc

next_mapped_fp-below :
    (m : FpMapper)
    → m.highest_mapped_fp < max_mapped_fp
    → next_mapped_fp m
      ≡ some (m.highest_mapped_fp + 1, record m { highest_mapped_fp = m.highest_mapped_fp + 1 })
unfolding next_mapped_fp
next_mapped_fp-below m h =
    let small : (m.highest_mapped_fp + 1) % 18446744073709551616 ≡ m.highest_mapped_fp + 1 =
      omega arith in
    let not_above : ltb max_mapped_fp (m.highest_mapped_fp + 1) ≡ false = ground arith in
    rw (small, not_above) refl

-- a series of that metric, or none
abbrev pub IsOf :
    {C : Type 0} → (Metric → Metric → Bool) → Metric → Option (MemorySeries C) → Type 0
IsOf equal metric none = Unit
IsOf equal metric (some s) = equal metric s.metric ≡ true

-- What a fingerprint is for a metric: itself, above the reserved ones, where no series of another metric has
-- it, or the one mapped for both.
abbrev pub StandsFor :
    {C : Type 0}
    → (Metric → Metric → Bool)
    → Dict ℕ (MemorySeries C)
    → FpMapper
    → ℕ
    → Metric
    → ℕ
    → Type 0
StandsFor equal series m fp metric r =
    ((r ≡ fp) × (max_mapped_fp < fp) × IsOf equal metric (Dict.get series fp))
    ⊎ (mapping m fp (metric_to_unique_string metric) ≡ some r)

module _ (fp : ℕ) (metric : Metric) (m : FpMapper) (w : IsMapper m)
    (room : m.highest_mapped_fp < max_mapped_fp) where
  abbrev or_raw : Option ℕ → ℕ
  or_raw none = fp
  or_raw (some r) = r

  abbrev Mapped : Option (ℕ × FpMapper) → Type 0
  Mapped o =
      (r : ℕ) × (m' : FpMapper) × (o ≡ some (r, m'))
      × IsMapper m'
      × Keeps m m'
      × (mapping m' fp (metric_to_unique_string metric) ≡ some r)

  mapping-get :
      (ms : Bytes) (o : Option (Dict Bytes ℕ))
      → Dict.get m.mappings fp ≡ o
      → mapping m fp ms ≡ get_in o ms
  unfolding mapping
  mapping-get ms o e = ap (λ o. get_in o ms) e

  add_mapping-Mapped :
      (d : Dict Bytes ℕ)
      → Holds m fp d
      → mapping m fp (metric_to_unique_string metric) ≡ none
      → Mapped (add_mapping fp (metric_to_unique_string metric) d m)
  unfolding add_mapping with_new
  add_mapping-Mapped d holds fresh =
      let (w', keeps, new) =
        with_new-IsMapper m fp (metric_to_unique_string metric) d holds w fresh (omega arith) in
      (
        m.highest_mapped_fp + 1,
        with_new m fp (metric_to_unique_string metric) d holds,
        rw (next_mapped_fp-below m room, add_mapping) refl,
        w',
        keeps,
        new,
      )

  maybe_add_mapping-Mapped : Mapped (maybe_add_mapping fp metric m)
  unfolding maybe_add_mapping Dict.get
  maybe_add_mapping-Mapped = elim (Option-cases (Dict.get m.mappings fp)) [
    | inl e ↦
        let absent = λ (ms : Bytes). mapping-get ms none e in
        rw (e, maybe_add_mapping) (add_mapping-Mapped [] (λ ms. sym (absent ms)) (absent _))
    | inr (d, e) ↦
        let present = λ (ms : Bytes). mapping-get ms (some d) e in
        elim (Option-cases (Dict.get d (metric_to_unique_string metric))) [
          | inl n ↦
              rw (e, maybe_add_mapping, n)
                (add_mapping-Mapped d (λ ms. sym (present ms)) (present _ ∙ n))
          | inr (r, n) ↦ rw (e, maybe_add_mapping, n) (r, m, refl, w, (λ _ _ _ k. k), present _ ∙ n)
        ]
  ]

  mapped_or_raw-eq :
      mapped_or_raw fp metric m ≡ or_raw (mapping m fp (metric_to_unique_string metric))
  unfolding mapped_or_raw
  mapped_or_raw-eq = elim (Option-cases (Dict.get m.mappings fp)) [
    | inl e ↦ (rw (e, mapped_or_raw) refl) ∙ ap or_raw (sym (mapping-get _ none e))
    | inr (d, e) ↦ elim (Option-cases (Dict.get d (metric_to_unique_string metric))) [
      | inl n ↦ (rw (e, mapped_or_raw, n) refl) ∙ ap or_raw (sym (mapping-get _ (some d) e ∙ n))
      | inr (r, n) ↦
          (rw (e, mapped_or_raw, n) refl) ∙ ap or_raw (sym (mapping-get _ (some d) e ∙ n))
    ]
  ]

  mapped_or_raw_lem :
      {C : Type 0} (equal : Metric → Metric → Bool) (series : Dict ℕ (MemorySeries C))
      → max_mapped_fp < fp
      → Dict.get series fp ≡ none
      → StandsFor equal series m fp metric (mapped_or_raw fp metric m)
  mapped_or_raw_lem equal series above absent =
      elim (Option-cases (mapping m fp (metric_to_unique_string metric))) [
        | inl n ↦ inl (mapped_or_raw-eq ∙ ap or_raw n, above, rw absent tt)
        | inr (r, n) ↦ inr (n ∙ ap some (sym (mapped_or_raw-eq ∙ ap or_raw n)))
      ]

  -- While there is room, mapFP does not panic, keeps what is mapped unique and as it was, and returns what
  -- stands for the metric.
  pub map_fp-StandsFor :
      {C : Type 0} (equal_metric : Metric → Metric → Bool) (series : Dict ℕ (MemorySeries C))
      → (r : ℕ) × (m' : FpMapper) × (map_fp equal_metric fp metric series m ≡ some (r, m'))
        × IsMapper m'
        × Keeps m m'
        × StandsFor equal_metric series m' fp metric r
  unfolding map_fp
  map_fp-StandsFor equal series =
      let (r, m', e, w', keeps, new) = maybe_add_mapping-Mapped in
      elim (Bool-cases (leb fp max_mapped_fp)) [
        | inl le ↦ (r, m', rw (le, map_fp) e, w', keeps, inr new)
        | inr gt ↦
            let above : max_mapped_fp < fp = ground arith in
            elim (Option-cases (Dict.get series fp)) [
              | inl n ↦ (
                mapped_or_raw fp metric m,
                m,
                rw (gt, map_fp, n) refl,
                w,
                (λ _ _ _ k. k),
                mapped_or_raw_lem equal series above n,
              )
              | inr (s, n) ↦ elim (Bool-cases (equal metric s.metric)) [
                | inl q ↦ (
                  fp,
                  m,
                  rw (gt, map_fp, n, q) refl,
                  w,
                  (λ _ _ _ k. k),
                  inl (refl, above, rw n q),
                )
                | inr q ↦ (r, m', rw (gt, map_fp, n, q) e, w', keeps, inr new)
              ]
            ]
      ]
