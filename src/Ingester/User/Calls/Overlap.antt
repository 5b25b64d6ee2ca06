-- ===== src/Ingester/User/Calls/Overlap.antt =====
-- How far calls of unlockedGet that overlap go past the limits.
use cortex.Base.{
  ℕ, ◌+◌, ◌≤◌, ◌≡◌, refl, sym, ap, ◌∙◌, [], Bool, true, false, Bytes, bytes_ord, nat_ord, int_ord,
  ◌==◌, ltb, leb, some, length, ok, arith, Bool-cases, Option-cases, inl, inr, eq_of_==,
}
use cortex.Base.Int.{ℤ, pos}
use cortex.Base.Dict
use cortex.Base.Dict.{Dict, get-put, get-delete}
use cortex.Labels.{Metric, extract_metric_name_from_metric}
use cortex.Ingester.Series.{MemorySeries, new_memory_series}
use cortex.Ingester.User.{UserStatesConfig, UserState, or_zero, can_add_series_for}
use cortex.Ingester.User.Count.{
  one_if, count, count-put, count-delete, AreUnique-put, AreUnique-delete,
}
use cortex.Ingester.User.Limits.{IsUser, is_named, is_named-of, or_zero-add, Result-cases, ltb-suc}
use cortex.Ingester.User.Calls.{
  Pending, Calls, count_pending, write_series, go_on, Overlapping, done, starts, goes_on,
}
use cortex.Ingester.User.Calls.Starts.{
  is_pending, named, IsCalls, length-put, length-delete, get-delete-none, is_some-delete, ltb_same,
  start_get-IsCalls,
}

less_same : (a b d : ℕ) → 0 + b ≡ a → d + b ≡ d + a
less_same a b d e = omega (arith, e)

one_more :
    (p q : Bool) (a b x d : ℕ) → p ≡ q → 0 + b ≡ a → x ≡ one_if p + b → d + x ≡ one_if q + (d + a)
one_more p q a b x d h e f = ground (arith, h, e, f)

moved_same : (i a b x y : ℕ) → x ≡ i + a → i + y ≡ b → x + y ≡ a + b
moved_same i a b x y e f = omega (arith, e, f)

module _ {C : Type 0} (fast_fingerprint : Metric → ℕ) (equal_metric : Metric → Metric → Bool)
    (cfg : UserStatesConfig) (k : ℕ) where
  deleted-IsCalls :
      (fp : ℕ) (metric : Metric) (c : Calls C)
      → IsCalls cfg k c
      → Dict.get c.pending fp ≡ some (record { metric = metric; counted = false })
      → IsCalls cfg k (record c { pending = Dict.delete c.pending fp })
  unfolding is_pending
  deleted-IsCalls fp metric c w here =
      let same =
        λ (n : Bytes). less_same _ _ _ (count-delete (is_pending n) c.pending fp _ w.locked here) in
      record {
        unique = w.unique;
        locked = AreUnique-delete c.pending fp w.locked;
        apart = λ j h. w.apart j (is_some-delete c.pending fp j h).0;
        counted = λ n. w.counted n ∙ ap pos (sym (same n));
        within_metric =
            λ n. ltb_same cfg.max_series_per_metric (named n c) _ (same n) (w.within_metric n);
        within_user =
            let shorter = length-delete c.pending fp _ w.locked here in
            let before = w.within_user in omega (arith, shorter, before);
      }

  counted-IsCalls :
      (fp : ℕ) (metric : Metric) (name : Bytes) (counts : Dict Bytes ℤ) (c : Calls C)
      → IsCalls cfg k c
      → Dict.get c.pending fp ≡ some (record { metric = metric; counted = false })
      → extract_metric_name_from_metric metric ≡ ok name
      → can_add_series_for name cfg c.user.series_in_metric ≡ some counts
      → IsCalls cfg k (record c {
        user = record c.user { series_in_metric = counts };
        pending =
            Dict.put (Dict.delete c.pending fp) fp (record { metric = metric; counted = true });
      })
  unfolding is_pending
  counted-IsCalls fp metric name counts c w here e added =
      let new : Pending = record { metric = metric; counted = true } in
      let rest = Dict.delete c.pending fp in
      let gone = get-delete-none c.pending fp in
      let (count_eq, below) =
        or_zero-add name c.user.series_in_metric cfg (λ n. named n c) w.counted added in
      let same = λ (n : Bytes).
        one_more _ _ _ _ _ _ (is_named-of name n (new_memory_series {C = Unit} metric) e)
          (count-delete (is_pending n) c.pending fp _ w.locked here)
          (count-put (is_pending n) rest fp new gone) in
      record {
        unique = w.unique;
        locked = AreUnique-put rest fp new (AreUnique-delete c.pending fp w.locked);
        apart = λ j h. elim (Bool-cases (fp == j)) [
          | inl t ↦ rw (← eq_of_== fp j t) (w.apart fp (rw here refl))
          | inr f ↦ w.apart j (is_some-delete c.pending fp j (rw (get-put rest fp j new, f) at h)).0
        ];
        counted = λ n. count_eq n ∙ ap pos (sym (same n));
        within_metric = λ n.
            ltb_same cfg.max_series_per_metric (one_if (name == n) + named n c) _ (same n)
              (elim (Bool-cases (name == n)) [
                | inl t ↦ rw t (above n (eq_of_== name n t) below)
                | inr f ↦ rw f (
                    ltb_same cfg.max_series_per_metric (named n c) _ (omega arith)
                      (w.within_metric n))
              ]);
        within_user =
            let shorter = length-delete c.pending fp _ w.locked here in
            let longer = length-put rest fp new gone in
            let before = w.within_user in omega (arith, shorter, longer, before);
      }
    where
      above :
          (n : Bytes)
          → name ≡ n
          → leb cfg.max_series_per_metric (pos (named name c)) ≡ false
          → ltb cfg.max_series_per_metric (pos (1 + named n c)) ≡ false
      above n q h = ltb-suc cfg.max_series_per_metric (named n c) (rw q at h)

  count_pending-IsCalls :
      (fp : ℕ) (metric : Metric) (c : Calls C)
      → IsCalls cfg k c
      → Dict.get c.pending fp ≡ some (record { metric = metric; counted = false })
      → IsCalls cfg k (count_pending fast_fingerprint equal_metric cfg fp metric c)
  unfolding count_pending
  count_pending-IsCalls fp metric c w here =
      let ended = deleted-IsCalls fp metric c w here in
      elim (Result-cases (extract_metric_name_from_metric metric)) [
        | inr (inl (x, e)) ↦ rw (e, count_pending) ended
        | inr (inr e) ↦ rw (e, count_pending) ended
        | inl (name, e) ↦
            elim (Option-cases (can_add_series_for name cfg c.user.series_in_metric)) [
              | inl n ↦ rw (e, count_pending, n) ended
              | inr (counts, n) ↦
                  rw (e, count_pending, n) (counted-IsCalls fp metric name counts c w here e n)
            ]
      ]

  write_series-IsCalls :
      (fp : ℕ) (metric : Metric) (c : Calls C)
      → IsCalls cfg k c
      → Dict.get c.pending fp ≡ some (record { metric = metric; counted = true })
      → IsCalls cfg k (write_series fast_fingerprint equal_metric cfg fp metric c)
  unfolding write_series is_pending is_named
  write_series-IsCalls fp metric c w here =
      let new : MemorySeries C = new_memory_series metric in
      let absent = w.apart fp (rw here refl) in
      let same = λ (n : Bytes).
        moved_same _ _ _ _ _ (count-put (is_named n) c.user.fp_to_series fp new absent)
          (count-delete (is_pending n) c.pending fp _ w.locked here) in
      record {
        unique = AreUnique-put c.user.fp_to_series fp new w.unique;
        locked = AreUnique-delete c.pending fp w.locked;
        apart = λ j h.
            let (there, other) = is_some-delete c.pending fp j h in
            get-put c.user.fp_to_series fp j new ∙ rw other (w.apart j there);
        counted = λ n. w.counted n ∙ ap pos (sym (same n));
        within_metric =
            λ n. ltb_same cfg.max_series_per_metric (named n c) _ (same n) (w.within_metric n);
        within_user =
            let shorter = length-delete c.pending fp _ w.locked here in
            let longer = length-put c.user.fp_to_series fp new absent in
            let before = w.within_user in omega (arith, shorter, longer, before);
      }

  go_on-IsCalls :
      (fp : ℕ) (c : Calls C)
      → IsCalls cfg k c
      → IsCalls cfg k (go_on fast_fingerprint equal_metric cfg fp c)
  unfolding go_on
  go_on-IsCalls fp c w = elim (Option-cases (Dict.get c.pending fp)) [
    | inl e ↦ rw (e, go_on) w
    | inr (p, e) ↦ elim (Bool-cases p.counted) [
      | inl t ↦ rw (e, go_on, t) (write_series-IsCalls fp p.metric c w (stage p true t e))
      | inr f ↦ rw (e, go_on, f) (count_pending-IsCalls fp p.metric c w (stage p false f e))
    ]
  ]
    where
      stage :
          (p : Pending) (b : Bool)
          → p.counted ≡ b
          → Dict.get c.pending fp ≡ some p
          → Dict.get c.pending fp ≡ some (record { metric = p.metric; counted = b })
      stage p b h e = rw (← h) e

  Overlapping-IsCalls :
      (c c' : Calls C)
      → Overlapping fast_fingerprint equal_metric cfg k c c'
      → IsCalls cfg k c
      → IsCalls cfg k c'
  Overlapping-IsCalls c c' done w = w
  Overlapping-IsCalls c c' (starts metric few rest) w =
      Overlapping-IsCalls _ c' rest
        (start_get-IsCalls fast_fingerprint equal_metric cfg k metric c w few)
  Overlapping-IsCalls c c' (goes_on fp rest) w =
      Overlapping-IsCalls _ c' rest (go_on-IsCalls fp c w)

  -- From a user within the limits, through the steps of any number of calls of unlockedGet in
  -- any order, with at most k of them, one or more, between the check of the user's limit and
  -- the writes: the user has at most k - 1 series more than allowed, and for each metric name
  -- the count is that of the series in memory and of the calls that are counted and not yet
  -- written, and within the limit.
  pub overlapping_lem :
      (u : UserState C) (c : Calls C)
      → 1 ≤ k
      → IsUser cfg u
      → Overlapping fast_fingerprint equal_metric cfg k (record { user = u; pending = [] }) c
      → (length c.user.fp_to_series + 1 ≤ cfg.max_series_per_user + k)
        × ((name : Bytes)
            → (or_zero (Dict.get c.user.series_in_metric name) ≡ pos (named name c))
              × (ltb cfg.max_series_per_metric (pos (named name c)) ≡ false))
  overlapping_lem u c one w steps =
      let w' = Overlapping-IsCalls _ c steps (fresh u one w) in
      let total = w'.within_user in
      (omega (arith, total), λ name. (w'.counted name, w'.within_metric name))
    where
      fresh :
          (u : UserState C)
          → 1 ≤ k
          → IsUser cfg u
          → IsCalls cfg k (record { user = u; pending = [] })
      fresh u one w =
          unfold count in
          unfold Dict.get in
          let before = w.within_user in
          record {
            unique = w.unique;
            locked = tt;
            apart = λ fp h. cc;
            counted = λ n. w.counted n ∙ ap pos (omega arith);
            within_metric =
                λ n. ltb_same cfg.max_series_per_metric _ _ (omega arith) (w.within_metric n);
            within_user = omega (arith, before, one);
          }
