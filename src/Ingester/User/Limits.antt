-- ===== src/Ingester/User/Limits.antt =====
-- The counts that the limits on series are checked against, and the limits.
use cortex.Base.{
  ℕ, ◌+◌, ◌≤◌, ◌<◌, ◌≡◌, refl, sym, ap, ◌∙◌, Bool, true, false, Bytes, bytes_ord, nat_ord, int_ord,
  ◌==◌, ltb, leb, none, some, is_some, length, Result, ok, err, panic, arith, Bool-cases,
  Option-cases, inl, inr, ==_refl, eq_of_==, ◌⊎◌,
}
use mathlib.Core.Path.{subst}
use mathlib.Core.Option.{some-injective}
use cortex.Base.Int.{ℤ, pos, ◌+ℤ◌, ◌-ℤ◌}
use cortex.Base.Dict
use cortex.Base.Dict.{Dict, get-put, get-delete}
use cortex.Labels.{Metric, extract_metric_name_from_metric}
use cortex.Ingester.Index
use cortex.Ingester.Index.{InvertedIndex}
use cortex.Ingester.Mapper.{map_fp, FpMapper}
use cortex.Ingester.Series.{MemorySeries, new_memory_series}
use cortex.Ingester.User.{
  UserStatesConfig, UserState, UserError, or_zero, can_add_series_for, remove_count, make_series,
  unlocked_get, remove_series,
}
use cortex.Ingester.User.Count.{
  one_if, count, count-put, count-delete, count-all, AreUnique, AreUnique-put, AreUnique-delete,
}

-- a series of the metric name
unfoldable pub is_named : {C : Type 0} → Bytes → MemorySeries C → Bool
is_named name s = elim (extract_metric_name_from_metric s.metric) [
  | ok n ↦ n == name
  | err _ ↦ false
  | panic ↦ false
]

-- The counts are those of the series in memory, and within the limits.
pub record IsUser {C : Type 0} (cfg : UserStatesConfig) (u : UserState C) : Type 0 where
  pub unique : AreUnique u.fp_to_series
  pub counted :
      (name : Bytes)
      → or_zero (Dict.get u.series_in_metric name) ≡ pos (count (is_named name) u.fp_to_series)
  pub within_user : length u.fp_to_series ≤ cfg.max_series_per_user
  pub within_metric :
      (name : Bytes)
      → ltb cfg.max_series_per_metric (pos (count (is_named name) u.fp_to_series)) ≡ false

add_one : (k : ℕ) → pos k +ℤ pos 1 ≡ pos (1 + k)
unfolding ◌+ℤ◌
add_one k = ground arith

sub_one : (k : ℕ) → pos (1 + k) -ℤ pos 1 ≡ pos k
unfolding ◌-ℤ◌
sub_one k = ground arith

module _ (name : Bytes) (counts : Dict Bytes ℤ) where
  put-eq :
      (other : Bytes) (z : ℤ) (k k' : ℕ)
      → or_zero (Dict.get counts other) ≡ pos k
      → ((name == other) ≡ true → z ≡ pos k')
      → ((name == other) ≡ false → k ≡ k')
      → or_zero (Dict.get (Dict.put counts name z) other) ≡ pos k'
  put-eq other z k k' h t f =
      ap or_zero (get-put counts name other z)
      ∙ elim (Bool-cases (name == other)) [ inl e ↦ rw e (t e) | inr e ↦ rw e (h ∙ ap pos (f e)) ]

  pub or_zero-add :
      (cfg : UserStatesConfig) (n : Bytes → ℕ) {counts' : Dict Bytes ℤ}
      → ((name : Bytes) → or_zero (Dict.get counts name) ≡ pos (n name))
      → can_add_series_for name cfg counts ≡ some counts'
      → ((other : Bytes)
          → or_zero (Dict.get counts' other) ≡ pos (one_if (name == other) + n other))
        × (leb cfg.max_series_per_metric (pos (n name)) ≡ false)
  unfolding can_add_series_for
  or_zero-add cfg n {counts'} h e =
      elim (Bool-cases (leb cfg.max_series_per_metric (or_zero (Dict.get counts name)))) [
        | inl t ↦ absurd (no counts' (rw t at e))
        | inr f ↦
            let same = some-injective _ counts' (rw f at e) in
            (
              λ other.
                  subst (λ c. or_zero (Dict.get c other) ≡ pos (one_if (name == other) + n other))
                    same
                    (put-eq other _ (n other) (one_if (name == other) + n other) (h other)
                      (λ t. let q = eq_of_== name other t in rw (t, h name, q) (add_one (n other)))
                      (λ t. rw t (omega arith))),
              rw (h name) at f,
            )
      ]
    where
      no : (c : Dict Bytes ℤ) → none ≡ some c → ⊥
      no c e = cc

  or_zero-remove :
      (n n' : Bytes → ℕ)
      → ((name : Bytes) → or_zero (Dict.get counts name) ≡ pos (n name))
      → ((other : Bytes) → one_if (name == other) + n' other ≡ n other)
      → (other : Bytes) → or_zero (Dict.get (remove_count name counts) other) ≡ pos (n' other)
  unfolding remove_count
  or_zero-remove n n' h k other =
      let z = or_zero (Dict.get counts name) -ℤ pos 1 in
      let one : n name ≡ 1 + n' name = sym (k name) ∙ rw (==_refl name) refl in
      let less : z ≡ pos (n' name) =
        ap (λ a. a -ℤ pos 1) (h name ∙ ap pos one) ∙ sub_one (n' name) in
      let put : or_zero (Dict.get (Dict.put counts name z) other) ≡ pos (n' other) =
        put-eq other z (n other) (n' other) (h other)
          (λ t. less ∙ ap (λ b. pos (n' b)) (eq_of_== name other t))
          (λ t. sym (k other) ∙ rw t (omega arith)) in
      elim (Bool-cases (z == pos 0)) [
        | inr f ↦ rw f put
        | inl t ↦ rw t (
            ap or_zero (get-delete (Dict.put counts name z) name other)
            ∙ elim (Bool-cases (name == other)) [
              | inr f ↦ rw f put
              | inl e ↦
                  rw e (
                    sym (eq_of_== z (pos 0) t)
                    ∙ less
                    ∙ ap (λ b. pos (n' b)) (eq_of_== name other e))
            ])
      ]

pub Result-cases :
    {E A : Type 0} (r : Result E A)
    → ((a : A) × (r ≡ ok a)) ⊎ (((e : E) × (r ≡ err e)) ⊎ (r ≡ panic))
Result-cases (ok a) = inl (a, refl)
Result-cases (err e) = inr (inl (e, refl))
Result-cases panic = inr (inr refl)

pub is_named-of :
    {C : Type 0} (name other : Bytes) (s : MemorySeries C)
    → extract_metric_name_from_metric s.metric ≡ ok name
    → is_named other s ≡ (name == other)
unfolding is_named
is_named-of name other s e = rw (e, is_named) refl

pub ltb-suc : (z : ℤ) (a : ℕ) → leb z (pos a) ≡ false → ltb z (pos (1 + a)) ≡ false
ltb-suc z a h = ground arith

ltb-zero_add : (z : ℤ) (a : ℕ) → ltb z (pos a) ≡ false → ltb z (pos (0 + a)) ≡ false
ltb-zero_add z a h = ground arith

module _ {C : Type 0} (fast_fingerprint : Metric → ℕ) (equal_metric : Metric → Metric → Bool)
    (cfg : UserStatesConfig) where
  -- What a returned series is: one of the state's, under the fingerprint.
  abbrev pub IsServed : Result UserError (ℕ × UserState C) → Type 0
  IsServed (ok (fp, u)) = IsUser cfg u × (is_some (Dict.get u.fp_to_series fp) ≡ true)
  IsServed (err e) = Unit
  IsServed panic = Unit

  series-IsUser :
      (fp : ℕ) (name : Bytes) (metric : Metric) (u : UserState C) (index : InvertedIndex)
      (counts : Dict Bytes ℤ)
      → IsUser cfg u
      → Dict.get u.fp_to_series fp ≡ none
      → leb cfg.max_series_per_user (length u.fp_to_series) ≡ false
      → extract_metric_name_from_metric metric ≡ ok name
      → can_add_series_for name cfg u.series_in_metric ≡ some counts
      → IsUser cfg (record u {
        fp_to_series = Dict.put u.fp_to_series fp (new_memory_series metric);
        index = index;
        series_in_metric = counts;
      })
  series-IsUser fp name metric u index counts w absent room e c =
      let new : MemorySeries C = new_memory_series metric in
      let (counted, below) =
        or_zero-add name u.series_in_metric cfg (λ n. count (is_named n) u.fp_to_series) w.counted
          c in
      let put = λ (n : Bytes). count-put (is_named n) u.fp_to_series fp new absent in
      let named = λ (n : Bytes). is_named-of name n new e in
      let same =
        λ (n : Bytes). put n ∙ ap (λ b. one_if b + count (is_named n) u.fp_to_series) (named n) in
      record {
        unique = AreUnique-put u.fp_to_series fp new w.unique;
        counted = λ n. counted n ∙ ap pos (sym (same n));
        within_user = omega (arith, length-put u.fp_to_series fp new absent, not_leb _ _ room);
        within_metric = λ n. rw (same n) (elim (Bool-cases (name == n)) [
          | inl t ↦ rw t (above n (eq_of_== name n t) below)
          | inr f ↦ rw f (
              ltb-zero_add cfg.max_series_per_metric (count (is_named n) u.fp_to_series)
                (w.within_metric n))
        ]);
      }
    where
      not_leb : (a b : ℕ) → leb a b ≡ false → b < a
      not_leb a b h = ground arith

      length-put :
          (m : Dict ℕ (MemorySeries C)) (k : ℕ) (v : MemorySeries C)
          → Dict.get m k ≡ none
          → length (Dict.put m k v) ≡ 1 + length m
      length-put m k v h =
          sym (count-all (Dict.put m k v))
          ∙ count-put (λ _. true) m k v h
          ∙ ap (λ r. 1 + r) (count-all m)

      above :
          (n : Bytes)
          → name ≡ n
          → leb cfg.max_series_per_metric (pos (count (is_named name) u.fp_to_series)) ≡ false
          → ltb cfg.max_series_per_metric (pos (1 + count (is_named n) u.fp_to_series)) ≡ false
      above n q h = ltb-suc cfg.max_series_per_metric (count (is_named n) u.fp_to_series) (
          subst
            (λ b. leb cfg.max_series_per_metric (pos (count (is_named b) u.fp_to_series)) ≡ false) q
            h)

  make_series-IsServed :
      (fp : ℕ) (metric : Metric) (u : UserState C)
      → IsUser cfg u
      → Dict.get u.fp_to_series fp ≡ none
      → IsServed (make_series fast_fingerprint equal_metric fp metric cfg u)
  unfolding make_series
  make_series-IsServed fp metric u w absent =
      elim (Bool-cases (leb cfg.max_series_per_user (length u.fp_to_series))) [
        | inl t ↦ rw (t, make_series) tt
        | inr f ↦ elim (Result-cases (extract_metric_name_from_metric metric)) [
          | inl (name, e) ↦ elim (Option-cases (can_add_series_for name cfg u.series_in_metric)) [
            | inl c ↦ rw (f, make_series, e, c) tt
            | inr (counts, c) ↦
                rw (f, make_series, e, c)
                  (
                    series-IsUser fp name metric u _ counts w absent f e c,
                    ap is_some (get-put u.fp_to_series fp fp (new_memory_series metric))
                        ∙ rw (==_refl fp) refl,
                  )
          ]
          | inr (inl (x, e)) ↦ rw (f, make_series, e) tt
          | inr (inr e) ↦ rw (f, make_series, e) tt
        ]
      ]

  -- A call of unlockedGet that no other overlaps keeps the limits on the series of the user and of each
  -- metric name, and counts the series of each name right, whether it fails or not; the series that it gives
  -- is in memory.
  unlocked_get-IsUser :
      (metric : Metric) (u : UserState C)
      → IsUser cfg u
      → IsUser cfg (unlocked_get fast_fingerprint equal_metric metric cfg u).0
        × IsServed (unlocked_get fast_fingerprint equal_metric metric cfg u).1
  unfolding unlocked_get
  unlocked_get-IsUser metric u w =
      elim (Option-cases
        (map_fp equal_metric (fast_fingerprint metric) metric u.fp_to_series u.mapper)) [
          | inl e ↦ rw (e, unlocked_get) (w, tt)
          | inr ((fp, m), e) ↦
              let u' : UserState C = record u { mapper = m } in
              let w' : IsUser cfg u' = with_mapper m u w in
              elim (Option-cases (Dict.get u.fp_to_series fp)) [
                | inl n ↦ rw (e, unlocked_get, n) (w', make_series-IsServed fp metric u' w' n)
                | inr (s, n) ↦ rw (e, unlocked_get, n) (w', (w', rw n refl))
              ]
        ]
    where
      with_mapper :
          (m : FpMapper) (u : UserState C) → IsUser cfg u → IsUser cfg (record u { mapper = m })
      with_mapper m u w = record {
        unique = w.unique;
        counted = w.counted;
        within_user = w.within_user;
        within_metric = w.within_metric;
      }

module _ {C : Type 0} (cfg : UserStatesConfig) (fp : ℕ) (name : Bytes) (s : MemorySeries C)
    (u : UserState C) where
  -- Removing a series that is in memory and has a metric name, where the deletion from the
  -- index does not panic, succeeds, keeps the counts right and the limits, and leaves no series
  -- under the fingerprint.
  pub remove_series-IsUser :
      (index : InvertedIndex)
      → IsUser cfg u
      → Dict.get u.fp_to_series fp ≡ some s
      → extract_metric_name_from_metric s.metric ≡ ok name
      → Index.delete s.metric fp u.index ≡ some index
      → (u' : UserState C) × (remove_series fp s.metric u ≡ ok u')
        × IsUser cfg u'
        × (Dict.get u'.fp_to_series fp ≡ none)
  unfolding remove_series
  remove_series-IsUser index w present e i =
      let less = λ (n : Bytes).
        ap (λ b. one_if b + count (is_named n) (Dict.delete u.fp_to_series fp))
          (sym (is_named-of name n s e))
        ∙ count-delete (is_named n) u.fp_to_series fp s w.unique present in
      (
        record u {
          fp_to_series = Dict.delete u.fp_to_series fp;
          index = index;
          series_in_metric = remove_count name u.series_in_metric;
        },
        rw (i, remove_series, e) refl,
        record {
          unique = AreUnique-delete u.fp_to_series fp w.unique;
          counted =
              or_zero-remove name u.series_in_metric (λ n. count (is_named n) u.fp_to_series)
                (λ n. count (is_named n) (Dict.delete u.fp_to_series fp)) w.counted less;
          within_user = omega (
            arith,
            w.within_user,
            count-delete (λ _. true) u.fp_to_series fp s w.unique present,
            count-all u.fp_to_series,
            count-all (Dict.delete u.fp_to_series fp),
          );
          within_metric = λ n. ltb-less _ _ _ (less n) (w.within_metric n);
        },
        get-delete u.fp_to_series fp fp ∙ rw (==_refl fp) refl,
      )
    where
      ltb-less :
          (b a c : ℕ)
          → b + a ≡ c
          → ltb cfg.max_series_per_metric (pos c) ≡ false
          → ltb cfg.max_series_per_metric (pos a) ≡ false
      ltb-less b a c e h = ground arith
