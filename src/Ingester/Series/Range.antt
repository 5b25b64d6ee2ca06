-- ===== src/Ingester/Series/Range.antt =====
-- What a series has between two times: the chunks that samplesForRange leaves out have nothing there.
use cortex.Base.{
  ℕ, zero, suc, ◌+◌, ◌-◌, ◌≤◌, ◌<◌, ◌≡◌, refl, sym, ap, ◌∙◌, List, [], ◌∷◌, ◌++◌, Bool, true, false,
  ◌&&◌, nat_ord, int_ord, ◌==◌, ltb, if◌then◌else◌, some, length, take, drop, All, ok, arith,
  Bool-cases, inl, inr, ◌⊎◌,
}
use mathlib.Core.Path.{subst}
use cortex.Base.Int.{ℤ}
use cortex.Base.Search.{search_list, first_index, Monotone, search_list-eq-first_index}
use cortex.Samples.{SamplePair}
use cortex.Ingester.Series.{
  ChunkOps, ChunkDesc, MemorySeries, split_last, collect_values, samples_for_range,
}

-- the samples between two times, both included
unfoldable pub in_range : ℤ → ℤ → List SamplePair → List SamplePair
in_range from through [] = []
in_range from through (v ∷ vs) =
    let rest = in_range from through vs in
    if ltb v.timestamp from then rest else if ltb through v.timestamp then rest else v ∷ rest

List-cases : {A : Type 0} (l : List A) → (l ≡ []) ⊎ ((x : A) × (xs : List A) × (l ≡ x ∷ xs))
List-cases [] = inl refl
List-cases (x ∷ xs) = inr (x, xs, refl)

module _ {C : Type 0} (samples : C → List SamplePair) where
  -- Chunk by chunk, each later than the one before, with the times that stand in its descriptor.
  abbrev pub AreOrdered : List (ChunkDesc C) → Type 0
  AreOrdered [] = Unit
  AreOrdered (d ∷ ds) =
      ((ltb d.last_time d.first_time ≡ false)
        × All (λ v. (ltb v.timestamp d.first_time ≡ false) × (ltb d.last_time v.timestamp ≡ false))
            (samples d.chunk)
        × All (λ e. ltb d.last_time e.first_time ≡ true) ds)
      × AreOrdered ds

  abbrev pub all_samples : List (ChunkDesc C) → List SamplePair
  all_samples [] = []
  all_samples (d ∷ ds) = samples d.chunk ++ all_samples ds

in_range-append :
    (from through : ℤ) (vs ws : List SamplePair)
    → in_range from through (vs ++ ws) ≡ in_range from through vs ++ in_range from through ws
unfolding in_range
in_range-append from through [] ws = refl
in_range-append from through (v ∷ vs) ws = ground (arith, in_range-append from through vs ws)

in_range-before :
    (from through last : ℤ) (vs : List SamplePair)
    → ltb last from ≡ true
    → All (λ v. ltb last v.timestamp ≡ false) vs
    → in_range from through vs ≡ []
unfolding in_range
in_range-before from through last [] h a = refl
in_range-before from through last (v ∷ vs) h a =
    let b : ltb v.timestamp from ≡ true = ground (arith, a.0) in
    rw b (in_range-before from through last vs h a.1)

in_range-after :
    (from through first : ℤ) (vs : List SamplePair)
    → ltb through first ≡ true
    → All (λ v. ltb v.timestamp first ≡ false) vs
    → in_range from through vs ≡ []
unfolding in_range
in_range-after from through first [] h a = refl
in_range-after from through first (v ∷ vs) h a =
    let b : ltb through v.timestamp ≡ true = ground (arith, a.0) in
    ground (arith, in_range-after from through first vs h a.1)

All-map :
    {A : Type 0} {P Q : A → Type 0} (xs : List A) → ((x : A) → P x → Q x) → All P xs → All Q xs
All-map [] f h = tt
All-map (x ∷ xs) f h = (f x h.0, All-map xs f h.1)

-- Dropping at least as much leaves nothing new.
All-drop-drop :
    {A : Type 0} (P : A → Type 0) (a b c : ℕ) (xs : List A)
    → a ≤ b + c
    → All P (drop a xs)
    → All P (drop b (drop c xs))
All-drop-drop P zero zero zero xs le h = h
All-drop-drop P (suc a) zero zero xs le h = absurd (omega arith)
All-drop-drop P a (suc b) zero [] le h = tt
All-drop-drop P zero (suc b) zero (x ∷ xs) le h = All-drop-drop P zero b zero xs (omega arith) h.1
All-drop-drop P (suc a) (suc b) zero (x ∷ xs) le h = All-drop-drop P a b zero xs (omega arith) h
All-drop-drop P a zero (suc c) [] le h = tt
All-drop-drop P a (suc b) (suc c) [] le h = tt
All-drop-drop P zero b (suc c) (x ∷ xs) le h = All-drop-drop P zero b c xs (omega arith) h.1
All-drop-drop P (suc a) b (suc c) (x ∷ xs) le h = All-drop-drop P a b c xs (omega arith) h

pub split_last-step :
    {A : Type 0} (x : A) (xs front : List A) (y : A)
    → split_last xs ≡ some (front, y)
    → split_last (x ∷ xs) ≡ some (x ∷ front, y)
unfolding split_last
split_last-step x xs front y e = rw e refl

pub split_last-cons :
    {A : Type 0} (x : A) (xs : List A)
    → (front : List A) × (y : A) × (split_last (x ∷ xs) ≡ some (front, y))
split_last-cons x [] = ([], x, unfold split_last in refl)
split_last-cons x (z ∷ xs) =
    let (front, y, e) = split_last-cons z xs in (x ∷ front, y, split_last-step x (z ∷ xs) front y e)

module _ {C : Type 0} (samples : C → List SamplePair) (from through : ℤ) where
  -- the samples between the two times of all the chunks
  between : List (ChunkDesc C) → List SamplePair
  between ds = in_range from through (all_samples samples ds)

  IsOut : ChunkDesc C → Type 0
  IsOut d = in_range from through (samples d.chunk) ≡ []

  between-Out :
      (d : ChunkDesc C) (ds : List (ChunkDesc C)) → IsOut d → between (d ∷ ds) ≡ between ds
  unfolding between IsOut
  between-Out d ds o =
      in_range-append from through (samples d.chunk) (all_samples samples ds)
      ∙ ap (λ r. r ++ between ds) o

  between-nil : (ds : List (ChunkDesc C)) → All IsOut ds → between ds ≡ []
  unfolding between in_range
  between-nil [] h = refl
  between-nil (d ∷ ds) h = between-Out d ds h.0 ∙ between-nil ds h.1

  between-drop :
      (n : ℕ) (ds : List (ChunkDesc C)) → All IsOut (take n ds) → between (drop n ds) ≡ between ds
  between-drop zero ds h = refl
  between-drop (suc n) [] h = refl
  between-drop (suc n) (d ∷ ds) h = between-drop n ds h.1 ∙ sym (between-Out d ds h.0)

  between-take :
      (n : ℕ) (ds : List (ChunkDesc C)) → All IsOut (drop n ds) → between (take n ds) ≡ between ds
  unfolding between in_range
  between-take zero ds h = sym (between-nil ds h)
  between-take (suc n) [] h = refl
  between-take (suc n) (d ∷ ds) h =
      in_range-append from through (samples d.chunk) _
      ∙ ap (λ r. in_range from through (samples d.chunk) ++ r) (between-take n ds h)
      ∙ sym (in_range-append from through (samples d.chunk) _)

  IsOut-before :
      (d : ChunkDesc C) (ds : List (ChunkDesc C))
      → AreOrdered samples (d ∷ ds)
      → ltb d.last_time from ≡ true
      → IsOut d
  unfolding IsOut
  IsOut-before d ds o h =
      in_range-before from through d.last_time (samples d.chunk) h
        (All-map (samples d.chunk) (λ v k. k.1) o.0.1)

  IsOut-after :
      (d : ChunkDesc C) (ds : List (ChunkDesc C))
      → AreOrdered samples (d ∷ ds)
      → ltb through d.first_time ≡ true
      → IsOut d
  unfolding IsOut
  IsOut-after d ds o h =
      in_range-after from through d.first_time (samples d.chunk) h
        (All-map (samples d.chunk) (λ v k. k.0) o.0.1)

  ordered-Monotone :
      (time : ℤ) (ds : List (ChunkDesc C))
      → AreOrdered samples ds
      → Monotone (λ d. ltb time d.first_time) ds
  ordered-Monotone time [] o = tt
  ordered-Monotone time (d ∷ ds) o =
      (λ h. All-map ds (λ e k. ground (arith, o.0.0)) o.0.2, ordered-Monotone time ds o.1)

  -- every chunk but the last that starts by `from`
  prefix-Out :
      (n : ℕ) (ds : List (ChunkDesc C))
      → AreOrdered samples ds
      → first_index (λ d. ltb from d.first_time) ds ≡ suc n
      → All IsOut (take n ds)
  unfolding first_index
  prefix-Out zero ds o e = tt
  prefix-Out (suc n) [] o e = tt
  prefix-Out (suc n) (d ∷ []) o e = elim (Bool-cases (ltb from d.first_time)) [
    | inl h ↦ absurd (ground arith)
    | inr h ↦ absurd (ground arith)
  ]
  prefix-Out (suc n) (d ∷ f ∷ ds) o e =
      let h : ltb from d.first_time ≡ false = ground arith in
      let k : ltb from f.first_time ≡ false = ground arith in
      let late : ltb d.last_time f.first_time ≡ true = o.0.2.0 in
      let before : ltb d.last_time from ≡ true = ground arith in
      (IsOut-before d (f ∷ ds) o before, prefix-Out n (f ∷ ds) o.1 (ground arith))

  low-Out :
      (i k : ℕ) (ds : List (ChunkDesc C))
      → AreOrdered samples ds
      → first_index (λ d. ltb from d.first_time) ds ≡ i
      → k ≡ i - 1
      → All IsOut (take k ds)
  low-Out zero k ds o e q = let z : k ≡ 0 = omega arith in rw z tt
  low-Out (suc i) k ds o e q = let z : k ≡ i = omega arith in rw z (prefix-Out i ds o e)

  -- every chunk that starts after `through`
  suffix-Out :
      (ds : List (ChunkDesc C))
      → AreOrdered samples ds
      → All IsOut (drop (first_index (λ d. ltb through d.first_time) ds) ds)
  unfolding first_index
  suffix-Out [] o = tt
  suffix-Out (d ∷ ds) o = elim (Bool-cases (ltb through d.first_time)) [
    | inl h ↦ rw h (IsOut-after d ds o h, all_after d ds o h)
    | inr h ↦ rw h (suffix-Out ds o.1)
  ]
    where
      all_after :
          (d : ChunkDesc C) (ds : List (ChunkDesc C))
          → AreOrdered samples (d ∷ ds)
          → ltb through d.first_time ≡ true
          → All IsOut ds
      all_after d [] o h = tt
      all_after d (e ∷ ds) o h =
          let late : ltb d.last_time e.first_time ≡ true = o.0.2.0 in
          let after : ltb through e.first_time ≡ true = ground (arith, o.0.0) in
          (IsOut-after e ds o.1 after, all_after e ds o.1 after)

  -- a series that ends before `from`
  ended-Out :
      (d : ChunkDesc C) (ds front : List (ChunkDesc C)) (last : ChunkDesc C)
      → AreOrdered samples (d ∷ ds)
      → split_last (d ∷ ds) ≡ some (front, last)
      → ltb last.last_time from ≡ true
      → All IsOut (d ∷ ds) × (ltb d.last_time from ≡ true)
  unfolding split_last
  ended-Out d [] front last o e h =
      let same : d ≡ last = cc in
      let before : ltb d.last_time from ≡ true = rw same h in
      ((IsOut-before d [] o before, tt), before)
  ended-Out d (f ∷ ds) front last o e h =
      let (front', z, n) = split_last-cons f ds in
      let same : z ≡ last = cc (e, split_last-step d (f ∷ ds) front' z n) in
      let (rest, k) = ended-Out f ds front' z o.1 n (rw same h) in
      let late : ltb d.last_time f.first_time ≡ true = o.0.2.0 in
      let before : ltb d.last_time from ≡ true = ground (arith, o.1.0.0) in
      ((IsOut-before d (f ∷ ds) o before, rest), before)

module _ {C : Type 0} (ops : ChunkOps C) (samples : C → List SamplePair) (from through : ℤ) where
  -- Reading a chunk gives what it has between the two times.
  abbrev pub ReadsRange : Type 0
  ReadsRange = (c : C) → ops.range_values c from through ≡ some (in_range from through (samples c))

  collect_values-between :
      (ds : List (ChunkDesc C))
      → ReadsRange
      → collect_values ops from through ds ≡ ok (between samples from through ds)
  unfolding collect_values between in_range
  collect_values-between [] reads = refl
  collect_values-between (d ∷ ds) reads =
      rw (reads d.chunk, collect_values, collect_values-between ds reads)
        (ap ok (sym (in_range-append from through (samples d.chunk) (all_samples samples ds))))

  middle-between :
      (ds : List (ChunkDesc C)) (low high : ℕ)
      → AreOrdered samples ds
      → low ≡ first_index (λ d. ltb from d.first_time) ds - 1
      → first_index (λ d. ltb through d.first_time) ds ≤ suc high
      → between samples from through (take (suc high - low) (drop low ds))
        ≡ between samples from through ds
  middle-between ds low high o e h =
      between-take samples from through (suc high - low) (drop low ds) (
        All-drop-drop _ (first_index (λ d. ltb through d.first_time) ds) (suc high - low) low ds
          (omega arith) (suffix-Out samples from through ds o))
      ∙ between-drop samples from through low ds (low-Out samples from through _ low ds o refl e)

  high_of : ℕ → ℕ → ℕ
  high_of t n = if t == n then t - 1 else t

  high_of-le : (t n : ℕ) → t ≤ suc (high_of t n)
  unfolding high_of
  high_of-le t n = ground arith

  samples_for_range-step :
      (s : MemorySeries C) (front : List (ChunkDesc C)) (last : ChunkDesc C)
      → split_last s.chunk_descs ≡ some (front, last)
      → let i = search_list (λ d. ltb from d.first_time) s.chunk_descs in
        let j = search_list (λ d. ltb through d.first_time) s.chunk_descs in
        let n = length s.chunk_descs in
        samples_for_range ops from through s ≡ (
          if (i == n) && ltb last.last_time from
          then ok []
          else collect_values ops from through
              (take (suc (high_of j n) - (i - 1)) (drop (i - 1) s.chunk_descs)))
  unfolding samples_for_range high_of
  samples_for_range-step s front last e = rw (e, samples_for_range) refl

  ended_of : (b c : Bool) → (b && c) ≡ true → c ≡ true
  ended_of b c h = ground arith

  range-nonempty :
      (s : MemorySeries C) (d : ChunkDesc C) (ds : List (ChunkDesc C))
      → s.chunk_descs ≡ d ∷ ds
      → ReadsRange
      → AreOrdered samples s.chunk_descs
      → samples_for_range ops from through s ≡ ok (between samples from through s.chunk_descs)
  range-nonempty s d ds e reads o =
      let (front, last, l) = split_last-cons d ds in
      let l' : split_last s.chunk_descs ≡ some (front, last) = rw e l in
      let i = search_list (λ d. ltb from d.first_time) s.chunk_descs in
      let j = search_list (λ d. ltb through d.first_time) s.chunk_descs in
      let n = length s.chunk_descs in
      let i-scan =
        search_list-eq-first_index (λ d. ltb from d.first_time) s.chunk_descs
          (ordered-Monotone samples from through from s.chunk_descs o) in
      let j-scan =
        search_list-eq-first_index (λ d. ltb through d.first_time) s.chunk_descs
          (ordered-Monotone samples from through through s.chunk_descs o) in
      samples_for_range-step s front last l'
      ∙ elim (Bool-cases ((i == n) && ltb last.last_time from)) [
        | inl t ↦ rw t (
            ap ok (
              sym (
                between-nil samples from through s.chunk_descs (
                  subst (All (IsOut samples from through)) (sym e)
                    (ended-Out samples from through d ds front last (subst (AreOrdered samples) e o)
                      l (ended_of _ _ t)).0))))
        | inr f ↦ rw f (
            collect_values-between _ reads
            ∙ ap ok (
                middle-between s.chunk_descs (i - 1) (high_of j n) o (ap (λ k. k - 1) i-scan)
                  (subst (λ k. k ≤ suc (high_of j n)) j-scan (high_of-le j n))))
      ]

  -- With at least one chunk, the chunks in order, one after the other in time, and reading a
  -- chunk giving what it has between two times, samplesForRange returns all that the series has
  -- between the two times, in order.
  pub samples_for_range_lem :
      (s : MemorySeries C)
      → ReadsRange
      → AreOrdered samples s.chunk_descs
      → 0 < length s.chunk_descs
      → samples_for_range ops from through s
        ≡ ok (in_range from through (all_samples samples s.chunk_descs))
  unfolding between
  samples_for_range_lem s reads o pos = elim (List-cases s.chunk_descs) [
    | inl e ↦ absurd (no_chunk s.chunk_descs e pos)
    | inr (d, ds, e) ↦ range-nonempty s d ds e reads o
  ]
    where
      no_chunk : (l : List (ChunkDesc C)) → l ≡ [] → 0 < length l → ⊥
      no_chunk l e h = ground (arith, e)
