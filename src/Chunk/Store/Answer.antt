-- ===== src/Chunk/Store/Answer.antt =====
-- What Get returns of the chunks that the index knows.
use cortex.Base.{
  ◌≡◌, refl, sym, ◌∙◌, List, [], ◌∷◌, map, Bool, true, false, ◌||◌, ◌&&◌, Bytes, bytes_ord, int_ord,
  ltb, leb, ◌==◌, Option, some, ok, All, arith, filter, Bool-cases, inl, inr, ℕ, Ord,
}
use cortex.Base.Int.{ℤ}
use cortex.Base.Sorted.{IsSorted}
use cortex.Base.Sort.{insert, sort, sort-IsSorted}
use cortex.Base.Cuts.{All-filter}
use cortex.Merge.Shuffle.{has}
use cortex.Labels.{LabelMatcher, split_filters_and_matchers, satisfies}
use cortex.Chunk.Entries.{Base64}
use cortex.Chunk.Key.{Chunk, Format}
use cortex.Chunk.Storage.{MockStorage, get_chunk}
use cortex.Chunk.Store.{Schema, by_key}
use cortex.Chunk.Store.Client.{
  lookup_matchers, fetch_chunk_data, store_get, passes_filters, overlaps,
}

module _ {ℓ κ} {A : Type ℓ} {K : Type κ} ⦃o : Ord K⦄ (key : A → K) where
  IsSorted-filter : (p : A → Bool) (xs : List A) → IsSorted key xs → IsSorted key (filter p xs)
  unfolding filter
  IsSorted-filter p [] h = tt
  IsSorted-filter p (x ∷ xs) h = elim (Bool-cases (p x)) [
    | inl t ↦ rw t (All-filter (λ y. leb (key x) (key y) ≡ true) p xs h.0, IsSorted-filter p xs h.1)
    | inr t ↦ rw t (IsSorted-filter p xs h.1)
  ]

  has-filter-insert :
      (p : A → Bool) (k : K) (x : A) (xs : List A)
      → has key k (filter p (insert key x xs)) ≡ ((p x && (key x == k)) || has key k (filter p xs))
  unfolding has filter insert
  has-filter-insert p k x [] = ground arith
  has-filter-insert p k x (y ∷ ys) = ground (arith, has-filter-insert p k x ys)

  has-filter-sort :
      (p : A → Bool) (k : K) (xs : List A)
      → has key k (filter p (sort key xs)) ≡ has key k (filter p xs)
  unfolding has filter sort
  has-filter-sort p k [] = refl
  has-filter-sort p k (x ∷ xs) =
      ground (arith, has-filter-insert p k x (sort key xs), has-filter-sort p k xs)

-- the chunk has a time from the first to the last
abbrev pub within : ℤ → ℤ → Chunk → Bool
within from through c = leb from c.through && leb c.from through

overlaps_lem : (from through : ℤ) (c : Chunk) → overlaps from through c ≡ within from through c
overlaps_lem from through c =
    ground (arith, int_ord.cmp-swap from c.through, int_ord.cmp-swap through c.from)

passes_filters_lem :
    (filters : List LabelMatcher) (c : Chunk)
    → passes_filters filters c ≡ satisfies c.metric filters
unfolding passes_filters satisfies
passes_filters_lem [] c = refl
passes_filters_lem (f ∷ fs) c = ground (arith, passes_filters_lem fs c)

module _ (format : Format) (base64 : Base64) (unmarshal : Bytes → Chunk → Option Chunk)
    (encode : Chunk → Option (Bytes × ℕ)) (decode : Chunk → Bytes → Option Chunk) (user : Bytes)
    (s : MockStorage) (full : Chunk → Chunk) where
  abbrev key : Chunk → Bytes
  key = by_key format base64 unmarshal user

  -- The storage has the chunk, and decodes it to its full form, under the same key.
  abbrev pub IsStoredAs : Chunk → Type 0
  IsStoredAs c =
      (buf : Bytes) × (get_chunk s (key c) ≡ ok buf)
      × (decode c buf ≡ some (full c))
      × (key (full c) ≡ key c)

  -- a chunk with the key that overlaps the times and whose full form satisfies the filters
  abbrev pub wanted : List LabelMatcher → ℤ → ℤ → Bytes → List Chunk → Bool
  wanted filters from through k [] = false
  wanted filters from through k (c ∷ cs) =
      (within from through c && satisfies (full c).metric filters && (key c == k))
      || wanted filters from through k cs

  fetch-map :
      (cs : List Chunk)
      → All IsStoredAs cs
      → fetch_chunk_data format base64 unmarshal encode decode user s cs ≡ ok (map full cs)
  unfolding fetch_chunk_data
  fetch-map [] h = refl
  fetch-map (c ∷ cs) h = rw (h.0.1, h.0.2, fetch-map cs h.1) refl

  has-wanted :
      (filters : List LabelMatcher) (from through : ℤ) (k : Bytes) (cs : List Chunk)
      → All IsStoredAs cs
      → has key k (filter (passes_filters filters) (map full (filter (overlaps from through) cs)))
        ≡ wanted filters from through k cs
  unfolding has filter
  has-wanted filters from through k [] h = refl
  has-wanted filters from through k (c ∷ cs) h =
      let rest = has-wanted filters from through k cs h.1 in
      let time = overlaps_lem from through c in
      let labels = passes_filters_lem filters (full c) in
      elim (Bool-cases (overlaps from through c)) [
        | inl t ↦ elim (Bool-cases (passes_filters filters (full c))) [
          | inl u ↦ elim (Bool-cases (key c == k)) [
            | inl v ↦ rw (t, u, sym time ∙ t, sym labels ∙ u, h.0.3, v) refl
            | inr v ↦ rw (t, u, sym time ∙ t, sym labels ∙ u, h.0.3, v) rest
          ]
          | inr u ↦ rw (t, u, sym time ∙ t, sym labels ∙ u) rest
        ]
        | inr t ↦ rw (t, sym time ∙ t) rest
      ]

  get_ok :
      (schema : Schema) (from through : ℤ) (ms : List LabelMatcher) (cs : List Chunk)
      → ltb through from ≡ false
      → lookup_matchers format base64 unmarshal encode decode user s schema from through
          (split_filters_and_matchers ms).1
        ≡ ok cs
      → All IsStoredAs cs
      → store_get format base64 unmarshal encode decode user s schema from through ms
        ≡ ok (
            filter
              (passes_filters (split_filters_and_matchers ms).0)
              (sort key (map full (filter (overlaps from through) cs))))
  unfolding store_get
  get_ok schema from through ms cs order found stored =
      rw
        (
          order,
          found,
          fetch-map (filter (overlaps from through) cs)
              (All-filter IsStoredAs (overlaps from through) cs stored),
        )
        refl

  -- Where the times are in order, the lookup with the query's matchers finds some chunks, and
  -- the storage has each of them and decodes it under the same key: Get succeeds, in the order
  -- of the external keys, and has a key exactly if one of those chunks has it, ends no earlier
  -- than the query starts, starts no later than the query ends, and its decoded form's metric
  -- satisfies the filters.
  pub get_lem :
      (schema : Schema) (from through : ℤ) (ms : List LabelMatcher) (cs : List Chunk)
      → ltb through from ≡ false
      → lookup_matchers format base64 unmarshal encode decode user s schema from through
          (split_filters_and_matchers ms).1
        ≡ ok cs
      → All IsStoredAs cs
      → (r : List Chunk) × (store_get format base64 unmarshal encode decode user s schema from
            through ms
          ≡ ok r)
        × IsSorted key r
        × ((k : Bytes) → has key k r ≡ wanted (split_filters_and_matchers ms).0 from through k cs)
  get_lem schema from through ms cs order found stored =
      let p = passes_filters (split_filters_and_matchers ms).0 in
      let fetched = map full (filter (overlaps from through) cs) in
      (
        filter p (sort key fetched),
        get_ok schema from through ms cs order found stored,
        IsSorted-filter key p (sort key fetched) (sort-IsSorted key fetched),
        λ k.
            has-filter-sort key p k fetched
            ∙ has-wanted (split_filters_and_matchers ms).0 from through k cs stored,
      )
