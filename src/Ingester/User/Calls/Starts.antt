-- ===== src/Ingester/User/Calls/Starts.antt =====
-- What holds between the steps of the calls of unlockedGet, and that a call's start keeps it.
use cortex.Base.{
  ℕ, ◌+◌, ◌≤◌, ◌<◌, ◌≡◌, refl, sym, ap, ◌∙◌, Bool, true, false, ◌&&◌, Bytes, bytes_ord, nat_ord,
  int_ord, ◌==◌, ltb, leb, none, some, is_some, length, arith, Bool-cases, Option-cases, inl, inr,
  eq_of_==, ==_refl,
}
use cortex.Base.Int.{ℤ, pos}
use cortex.Base.Dict
use cortex.Base.Dict.{Dict, get-put, get-delete}
use cortex.Labels.{Metric}
use cortex.Ingester.Mapper.{FpMapper, map_fp}
use cortex.Ingester.Series.{new_memory_series}
use cortex.Ingester.User.{UserStatesConfig, or_zero}
use cortex.Ingester.User.Count.{count, count-put, count-delete, count-all, AreUnique, AreUnique-put}
use cortex.Ingester.User.Limits.{is_named}
use cortex.Ingester.User.Calls.{Pending, Calls, check_limit, start_get}

-- a counted call for a series of the metric name
unfoldable pub is_pending : Bytes → Pending → Bool
unfolding is_named
is_pending name p = p.counted && is_named {C = Unit} name (new_memory_series p.metric)

-- the series of a metric name, those included that are counted and not yet written
abbrev pub named : {C : Type 0} → Bytes → Calls C → ℕ
named name c = count (is_named name) c.user.fp_to_series + count (is_pending name) c.pending

-- The counts are those of the series in memory and of the counted calls; no call is for a series in memory.
pub record IsCalls {C : Type 0} (cfg : UserStatesConfig) (k : ℕ) (c : Calls C) : Type 0 where
  pub unique : AreUnique c.user.fp_to_series
  pub locked : AreUnique c.pending
  pub apart :
      (fp : ℕ) → is_some (Dict.get c.pending fp) ≡ true → Dict.get c.user.fp_to_series fp ≡ none
  pub counted :
      (name : Bytes) → or_zero (Dict.get c.user.series_in_metric name) ≡ pos (named name c)
  pub within_metric : (name : Bytes) → ltb cfg.max_series_per_metric (pos (named name c)) ≡ false
  pub within_user : length c.user.fp_to_series + length c.pending + 1 ≤ cfg.max_series_per_user + k

module _ {V : Type 0} where
  pub length-put :
      (m : Dict ℕ V) (k : ℕ) (v : V) → Dict.get m k ≡ none → length (Dict.put m k v) ≡ 1 + length m
  length-put m k v h =
      sym (count-all (Dict.put m k v))
      ∙ count-put (λ _. true) m k v h
      ∙ ap (λ r. 1 + r) (count-all m)

  pub length-delete :
      (m : Dict ℕ V) (k : ℕ) (v : V)
      → AreUnique m
      → Dict.get m k ≡ some v
      → 1 + length (Dict.delete m k) ≡ length m
  length-delete m k v u h =
      ap (λ r. 1 + r) (sym (count-all (Dict.delete m k)))
      ∙ count-delete (λ _. true) m k v u h
      ∙ count-all m

  pub get-delete-none : (m : Dict ℕ V) (k : ℕ) → Dict.get (Dict.delete m k) k ≡ none
  get-delete-none m k = get-delete m k k ∙ rw (==_refl k) refl

  pub is_some-delete :
      (m : Dict ℕ V) (k j : ℕ)
      → is_some (Dict.get (Dict.delete m k) j) ≡ true
      → (is_some (Dict.get m j) ≡ true) × ((k == j) ≡ false)
  is_some-delete m k j h = (ground (arith, get-delete m k j), ground (arith, get-delete m k j))

pub ltb_same : (z : ℤ) (n n' : ℕ) → n' ≡ n → ltb z (pos n) ≡ false → ltb z (pos n') ≡ false
ltb_same z n n' e h = rw e h

put_same : (a b d : ℕ) → a ≡ 0 + b → d + a ≡ d + b
put_same a b d e = omega (arith, e)

module _ {C : Type 0} (fast_fingerprint : Metric → ℕ) (equal_metric : Metric → Metric → Bool)
    (cfg : UserStatesConfig) (k : ℕ) where
  with_mapper :
      (m : FpMapper) (c : Calls C)
      → IsCalls cfg k c
      → IsCalls cfg k (record c { user = record c.user { mapper = m } })
  with_mapper m c w = record {
    unique = w.unique;
    locked = w.locked;
    apart = w.apart;
    counted = w.counted;
    within_metric = w.within_metric;
    within_user = w.within_user;
  }

  checked-IsCalls :
      (fp : ℕ) (metric : Metric) (c : Calls C)
      → IsCalls cfg k c
      → Dict.get c.pending fp ≡ none
      → Dict.get c.user.fp_to_series fp ≡ none
      → length c.user.fp_to_series < cfg.max_series_per_user
      → length c.pending < k
      → IsCalls cfg k (record c {
        pending = Dict.put c.pending fp (record { metric = metric; counted = false });
      })
  unfolding is_pending
  checked-IsCalls fp metric c w free absent room few =
      let new : Pending = record { metric = metric; counted = false } in
      let same = λ (n : Bytes). put_same _ _ _ (count-put (is_pending n) c.pending fp new free) in
      record {
        unique = w.unique;
        locked = AreUnique-put c.pending fp new w.locked;
        apart = λ j h. elim (Bool-cases (fp == j)) [
          | inl t ↦ rw (← eq_of_== fp j t) absent
          | inr f ↦ w.apart j (rw (get-put c.pending fp j new, f) at h)
        ];
        counted = λ n. w.counted n ∙ ap pos (sym (same n));
        within_metric =
            λ n. ltb_same cfg.max_series_per_metric (named n c) _ (same n) (w.within_metric n);
        within_user =
            let longer = length-put c.pending fp new free in
            let before = w.within_user in omega (arith, longer, room, few, before);
      }

  check_limit-IsCalls :
      (fp : ℕ) (metric : Metric) (c : Calls C)
      → IsCalls cfg k c
      → is_some (Dict.get c.pending fp) ≡ false
      → length c.pending < k
      → IsCalls cfg k (check_limit fast_fingerprint equal_metric cfg fp metric c)
  unfolding check_limit
  check_limit-IsCalls fp metric c w free few =
      elim (Option-cases (Dict.get c.user.fp_to_series fp)) [
        | inr (s, e) ↦ rw (e, check_limit) w
        | inl e ↦ elim (Bool-cases (leb cfg.max_series_per_user (length c.user.fp_to_series))) [
          | inl t ↦ rw (e, check_limit, t) w
          | inr f ↦
              rw (e, check_limit, f)
                (checked-IsCalls fp metric c w (ground (arith, free)) e (ground arith) few)
        ]
      ]

  pub start_get-IsCalls :
      (metric : Metric) (c : Calls C)
      → IsCalls cfg k c
      → length c.pending < k
      → IsCalls cfg k (start_get fast_fingerprint equal_metric cfg metric c)
  unfolding start_get
  start_get-IsCalls metric c w few =
      elim (Bool-cases (is_some (Dict.get c.pending (fast_fingerprint metric)))) [
        | inl t ↦ rw (t, start_get) w
        | inr f ↦
            elim (Option-cases (
              map_fp equal_metric (fast_fingerprint metric) metric c.user.fp_to_series
                c.user.mapper)) [
                  | inl e ↦ rw (f, start_get, e) w
                  | inr ((fp, m), e) ↦
                      let w' = with_mapper m c w in
                      elim (Bool-cases (is_some (Dict.get c.pending fp))) [
                        | inl held ↦ rw (f, start_get, e, held) w'
                        | inr free ↦
                            rw (f, start_get, e, free) (check_limit-IsCalls fp metric _ w' free few)
                      ]
                ]
      ]
