-- ===== src/Ingester/Flush/Keep.antt =====
-- No chunk is changed or lost while it is being flushed.
use cortex.Base.{
  ◌<◌, ◌≡◌, refl, sym, ap, ◌∙◌, List, [], ◌∷◌, ◌++◌, Bool, true, ◌||◌, ◌&&◌, nat_ord, int_ord, ◌==◌,
  ltb, Option, none, some, length, drop, arith, Bool-cases, Option-cases, inl, inr, ◌⊎◌,
}
use mathlib.Core.List.{append-nil, append_assoc}
use mathlib.Core.Path.{subst}
use mathlib.Core.Option.{some-injective}
use cortex.Base.Int.{ℤ}
use cortex.Samples.{SamplePair}
use cortex.Ingester.Series.{
  close_head, ChunkOps, ChunkDesc, MemorySeries, split_last, open_head, append_chunks, replace_head,
  append_sample, add,
}
use cortex.Ingester.Series.Range.{split_last-cons, split_last-step}
use cortex.Ingester.Series.Order.{add_all}
use cortex.Ingester.Flush.{
  FlushConfig, flush_begin, flush_end, should_flush_series, should_flush_chunk,
}

split_last-append :
    {A : Type 0} (xs ys front : List A) (y : A)
    → split_last ys ≡ some (front, y)
    → split_last (xs ++ ys) ≡ some (xs ++ front, y)
unfolding split_last
split_last-append [] ys front y e = e
split_last-append (x ∷ xs) ys front y e =
    split_last-step x (xs ++ ys) (xs ++ front) y (split_last-append xs ys front y e)

last_unique :
    {A : Type 0} (xs : List A) {f g : List A} {y z : A}
    → split_last xs ≡ some (f, y)
    → split_last xs ≡ some (g, z)
    → g ++ z ∷ [] ≡ f ++ y ∷ []
last_unique xs e k = cc (e, k)

split_last-front :
    {A : Type 0} (x : A) (xs : List A)
    → (f : List A) × (y : A) × (split_last (x ∷ xs) ≡ some (f, y)) × (x ∷ xs ≡ f ++ y ∷ [])
split_last-front x [] = ([], x, unfold split_last in refl, refl)
split_last-front x (z ∷ xs) =
    let (f, y, e, q) = split_last-front z xs in
    (x ∷ f, y, split_last-step x (z ∷ xs) f y e, ap (λ l. x ∷ l) q)

split_last_sound :
    {A : Type 0} (xs front : List A) (y : A)
    → split_last xs ≡ some (front, y)
    → xs ≡ front ++ y ∷ []
unfolding split_last
split_last_sound {A} [] front y e = absurd (clash e)
  where
    clash : {r : List A × A} → ¬ (none ≡ some r)
    clash e = cc
split_last_sound (x ∷ xs) front y e =
    let (f, z, k, q) = split_last-front x xs in q ∙ last_unique (x ∷ xs) e k

drop-append : {A : Type 0} (xs ys : List A) → drop (length xs) (xs ++ ys) ≡ ys
drop-append [] ys = refl
drop-append (x ∷ xs) ys = drop-append xs ys

-- What Prometheus promises of chunks: a sample gives at least one chunk, and each has a last time.
pub record IsChunkOps {C : Type 0} (ops : ChunkOps C) : Type 0 where
  pub adds : (c : C) (v : SamplePair) → ¬ (ops.add_sample c v ≡ some [])
  pub reads : (c : C) → (t : ℤ) × (ops.last_timestamp c ≡ some t)

module _ {C : Type 0} (ops : ChunkOps C) (good : IsChunkOps ops) where
  append_chunks-front :
      (descs : List (ChunkDesc C)) (cs : List C)
      → (extra : List (ChunkDesc C)) × ((append_chunks ops descs cs).1 ≡ descs ++ extra)
  unfolding append_chunks
  append_chunks-front descs [] = ([], sym (append-nil descs))
  append_chunks-front descs (c ∷ cs) =
      let (t, e) = good.reads c in
      let d : ChunkDesc C = record {
        chunk = c;
        first_time = ops.chunk_first_time c;
        last_time = t;
      } in
      let (extra, q) = append_chunks-front (descs ++ d ∷ []) cs in
      (d ∷ extra, rw (e, append_chunks) (q ∙ append_assoc descs (d ∷ []) extra))

  replace_head-front :
      (v : SamplePair) (front : List (ChunkDesc C)) (head : ChunkDesc C) (o : Option (List C))
      → ¬ (o ≡ some [])
      → (x : ChunkDesc C) × (more : List (ChunkDesc C)) × ((replace_head ops v front head o).1
          ≡ front ++ x ∷ more)
  unfolding replace_head append_chunks
  replace_head-front v front head none some_chunk = (head, [], refl)
  replace_head-front v front head (some []) some_chunk = absurd (some_chunk refl)
  replace_head-front v front head (some (c ∷ [])) some_chunk =
      (record head { chunk = c; last_time = v.timestamp }, [], refl)
  replace_head-front v front head (some (c ∷ d ∷ cs)) some_chunk =
      let (t, e) = good.reads c in
      let new : ChunkDesc C = record {
        chunk = c;
        first_time = ops.chunk_first_time c;
        last_time = t;
      } in
      let (extra, q) = append_chunks-front (front ++ new ∷ []) (d ∷ cs) in
      (new, extra, rw (e, append_chunks) (q ∙ append_assoc front (new ∷ []) extra))

  -- The series still begins with the chunks, and adding does not reach them: others follow, or the head
  -- chunk is closed.
  pub IsKept : List (ChunkDesc C) → MemorySeries C → Type 0
  IsKept chunks s =
      ((s.chunk_descs ≡ chunks) × (s.head_chunk_closed ≡ true))
      ⊎ ((x : ChunkDesc C) × (more : List (ChunkDesc C)) × (s.chunk_descs ≡ chunks ++ x ∷ more))

  open_head-front :
      (time : ℤ) (chunks : List (ChunkDesc C)) (s : MemorySeries C)
      → IsKept chunks s
      → (between : List (ChunkDesc C)) × ((open_head ops time s).0 ≡ chunks ++ between)
  unfolding open_head IsKept
  open_head-front time chunks s (inl (e, c)) = elim (Option-cases (split_last s.chunk_descs)) [
    | inl n ↦ ([], rw (n, open_head) (empty s.chunk_descs n e))
    | inr ((front, y), n) ↦ ([], rw (n, open_head, c) (e ∙ sym (append-nil chunks)))
  ]
    where
      empty : (l : List (ChunkDesc C)) → split_last l ≡ none → l ≡ chunks → [] ≡ chunks ++ []
      empty [] n e = rw (sym e) refl
      empty (x ∷ l) n e = let (f, y, q) = split_last-cons x l in absurd (clash (sym q ∙ n))
        where
          clash : {A : Type 0} {a : A} → ¬ (some a ≡ none)
          clash e = cc
  open_head-front time chunks s (inr (x, more, e)) =
      let (f, y, q) = split_last-cons x more in
      let n : split_last s.chunk_descs ≡ some (chunks ++ f, y) =
        rw e (split_last-append chunks (x ∷ more) f y q) in
      elim (Bool-cases s.head_chunk_closed) [
        | inl c ↦ (x ∷ more, rw (n, open_head, c) e)
        | inr c ↦ (f, rw (n, open_head, c) refl)
      ]

  add-cases :
      (v : SamplePair) (s : MemorySeries C)
      → ((add ops v s).1 ≡ s) ⊎ ((add ops v s).1 ≡ (append_sample ops v s).1)
  unfolding add
  add-cases v s =
      elim (Bool-cases (
        s.last_sample_value_set
        && (v.timestamp == s.last_time)
        && ops.same_value v.value s.last_sample_value)) [
          | inl t ↦ rw (t, add) (inl refl)
          | inr f ↦ elim (Bool-cases (v.timestamp == s.last_time)) [
            | inl t ↦ rw (f, add, t) (inl refl)
            | inr g ↦ elim (Bool-cases (ltb v.timestamp s.last_time)) [
              | inl t ↦ rw (f, add, g, t) (inl refl)
              | inr h ↦ rw (f, add, g, h) (inr refl)
            ]
          ]
        ]

  add-IsKept :
      (v : SamplePair) (chunks : List (ChunkDesc C)) (s : MemorySeries C)
      → IsKept chunks s
      → IsKept chunks (add ops v s).1
  unfolding append_sample IsKept
  add-IsKept v chunks s k =
      let (between, q) = open_head-front v.timestamp chunks s k in
      let (x, more, r) =
        replace_head-front v (open_head ops v.timestamp s).0 (open_head ops v.timestamp s).1 _
          (good.adds (open_head ops v.timestamp s).1.chunk v) in
      let kept : IsKept chunks (append_sample ops v s).1 =
        inr (after between x more (r ∙ ap (λ l. l ++ x ∷ more) q)) in
      elim (add-cases v s) [
        | inl e ↦ subst (IsKept chunks) (sym e) k
        | inr e ↦ subst (IsKept chunks) (sym e) kept
      ]
    where
      after :
          {l : List (ChunkDesc C)} (between : List (ChunkDesc C)) (x : ChunkDesc C)
          (more : List (ChunkDesc C))
          → l ≡ (chunks ++ between) ++ x ∷ more
          → (y : ChunkDesc C) × (rest : List (ChunkDesc C)) × (l ≡ chunks ++ y ∷ rest)
      after [] x more e = (x, more, e ∙ append_assoc chunks [] (x ∷ more))
      after (b ∷ bs) x more e = (b, bs ++ x ∷ more, e ∙ append_assoc chunks (b ∷ bs) (x ∷ more))

  add_all-IsKept :
      (vs : List SamplePair) (chunks : List (ChunkDesc C)) (s : MemorySeries C)
      → IsKept chunks s
      → IsKept chunks (add_all ops vs s)
  unfolding add_all
  add_all-IsKept [] chunks s k = k
  add_all-IsKept (v ∷ vs) chunks s k = add_all-IsKept vs chunks _ (add-IsKept v chunks s k)

  kept-flush_end :
      (chunks : List (ChunkDesc C)) (s : MemorySeries C)
      → IsKept chunks s
      → s.chunk_descs ≡ chunks ++ (flush_end chunks s).chunk_descs
  unfolding IsKept flush_end
  kept-flush_end chunks s (inl (e, c)) = rest [] (e ∙ sym (append-nil chunks))
    where
      rest :
          (r : List (ChunkDesc C))
          → s.chunk_descs ≡ chunks ++ r
          → s.chunk_descs ≡ chunks ++ drop (length chunks) s.chunk_descs
      rest r e =
          e ∙ ap (λ l. chunks ++ l) (sym (ap (drop (length chunks)) e ∙ drop-append chunks r))
  kept-flush_end chunks s (inr (x, more, e)) =
      e ∙ ap (λ l. chunks ++ l) (sym (ap (drop (length chunks)) e ∙ drop-append chunks (x ∷ more)))

  flush_begin-IsKept :
      (cfg : FlushConfig) (now : ℤ) (immediate : Bool) (s s' : MemorySeries C)
      (chunks : List (ChunkDesc C))
      → flush_begin cfg now immediate s ≡ some (chunks, s')
      → 0 < length chunks
      → IsKept chunks s'
  unfolding IsKept flush_begin close_head
  flush_begin-IsKept cfg now immediate s s' chunks e pos =
      elim (Bool-cases (should_flush_series cfg now immediate s)) [
        | inr f ↦ absurd (nothing s (rw (f, flush_begin) at e))
        | inl t ↦ elim (Option-cases (split_last s.chunk_descs)) [
          | inl n ↦ elim (Bool-cases immediate) [
            | inl now' ↦ absurd (nothing (close_head s) (rw (t, flush_begin, n, now') at e))
            | inr later ↦ absurd (clash (rw (t, flush_begin, n, later) at e))
          ]
          | inr ((front, head), n) ↦
              elim (Bool-cases (immediate || should_flush_chunk cfg now head)) [
                | inl all ↦
                    subst (λ r. IsKept r.0 r.1)
                      (some-injective _ _ (rw (t, flush_begin, n, all) at e)) (inl (refl, refl))
                | inr some' ↦
                    subst (λ r. IsKept r.0 r.1)
                      (some-injective _ _ (rw (t, flush_begin, n, some') at e))
                      (inr (head, [], split_last_sound s.chunk_descs front head n))
              ]
        ]
      ]
    where
      Step : Type 0
      Step = List (ChunkDesc C) × MemorySeries C

      nothing : (u : MemorySeries C) → ◌≡◌ {A = Option Step} (some ([], u)) (some (chunks, s')) → ⊥
      nothing u e =
          let none_left : 0 ≡ length chunks = ap (λ r. length r.0) (some-injective _ _ e) in
          omega arith

      clash : ◌≡◌ {A = Option Step} none (some (chunks, s')) → ⊥
      clash e = cc

  -- Whatever samples a series takes between the two locked steps of its flush, where the first
  -- found chunks to write and Prometheus's chunks keep their promises: after the second step,
  -- the chunks written and those left are all the chunks that the series had.
  pub flush_lem :
      (cfg : FlushConfig) (now : ℤ) (immediate : Bool) (s s' : MemorySeries C)
      (chunks : List (ChunkDesc C)) (vs : List SamplePair)
      → flush_begin cfg now immediate s ≡ some (chunks, s')
      → 0 < length chunks
      → (add_all ops vs s').chunk_descs
        ≡ chunks ++ (flush_end chunks (add_all ops vs s')).chunk_descs
  flush_lem cfg now immediate s s' chunks vs e pos =
      kept-flush_end chunks (add_all ops vs s')
        (add_all-IsKept vs chunks s' (flush_begin-IsKept cfg now immediate s s' chunks e pos))
