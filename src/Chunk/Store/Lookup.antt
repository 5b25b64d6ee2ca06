-- ===== src/Chunk/Store/Lookup.antt =====
-- What the lookups of the store find, by the chunks that the storage answers each entry with.
use cortex.Base.{
  ◌≡◌, refl, ap, ◌∙◌, List, [], ◌∷◌, ◌||◌, Bytes, bytes_ord, Option, none, Result, ok, arith,
}
use cortex.Base.Sorted.{IsStrict}
use cortex.Base.Sort.{sort, sort-IsSorted}
use cortex.Merge.{merge, unique}
use cortex.Merge.Union.{merge-IsStrict}
use cortex.Merge.Unique.{unique-IsStrict}
use cortex.Merge.Shuffle.{has}
use cortex.Merge.Tests.{has-sort, has-unique, has-merge, any_has}
use cortex.Labels.{LabelMatcher}
use cortex.Chunk.Entries.{IndexEntry, Base64}
use cortex.Chunk.Key.{Chunk, Format}
use cortex.Chunk.Storage.{MockStorage}
use cortex.Chunk.Store.{
  StoreError, by_key, entry_chunks, lookup_entry, collect_chunks, lookup_all, lookup_entries,
}

module _ (format : Format) (base64 : Base64) (unmarshal : Bytes → Chunk → Option Chunk)
    (user : Bytes) where
  abbrev key : Chunk → Bytes
  key = by_key format base64 unmarshal user

  -- The storage answers each entry with the chunks of one list, as they come.
  abbrev pub Answers :
      MockStorage → Option LabelMatcher → List IndexEntry → List (List Chunk) → Type 0
  Answers s matcher [] [] = Unit
  Answers s matcher [] (cs ∷ css) = ⊥
  Answers s matcher (e ∷ es) [] = ⊥
  Answers s matcher (e ∷ es) (cs ∷ css) =
      (entry_chunks format base64 unmarshal user s matcher e ≡ ok cs) × Answers s matcher es css

  abbrev tidy : List Chunk → List Chunk
  tidy cs = unique key (sort key cs)

  tidy-IsStrict : (cs : List Chunk) → IsStrict key (tidy cs)
  tidy-IsStrict cs = unique-IsStrict key (sort key cs) (sort-IsSorted key cs)

  has-tidy : (k : Bytes) (cs : List Chunk) → has key k (tidy cs) ≡ has key k cs
  has-tidy k cs = has-unique key k (sort key cs) ∙ has-sort key k cs

  abbrev tidied : List (List Chunk) → List (Result StoreError (List Chunk))
  tidied [] = []
  tidied (cs ∷ css) = ok (tidy cs) ∷ tidied css

  lookup_all-tidied :
      (s : MockStorage) (matcher : Option LabelMatcher) (entries : List IndexEntry)
      (css : List (List Chunk))
      → Answers s matcher entries css
      → lookup_all format base64 unmarshal user s matcher entries ≡ tidied css
  unfolding lookup_all lookup_entry
  lookup_all-tidied s matcher [] [] h = refl
  lookup_all-tidied s matcher [] (cs ∷ css) h = absurd h
  lookup_all-tidied s matcher (e ∷ es) [] h = absurd h
  lookup_all-tidied s matcher (e ∷ es) (cs ∷ css) h =
      rw h.0 (ap (λ r. ok (tidy cs) ∷ r) (lookup_all-tidied s matcher es css h.1))

  -- A set in strict order of the keys, with a chunk of each key that one of the lists has.
  abbrev pub IsUnion : List (List Chunk) → List Chunk → Type 0
  IsUnion css cs = IsStrict key cs × ((k : Bytes) → has key k cs ≡ any_has key k css)

  collect_chunks_step :
      (acc cs : List Chunk) (rs : List (Result StoreError (List Chunk)))
      → collect_chunks format base64 unmarshal user acc none (ok cs ∷ rs)
        ≡ collect_chunks format base64 unmarshal user (merge key acc cs) none rs
  unfolding collect_chunks
  collect_chunks_step acc cs rs = refl

  collect_chunks-IsUnion :
      (css : List (List Chunk)) (acc : List Chunk)
      → IsStrict key acc
      → (r : List Chunk) × (collect_chunks format base64 unmarshal user acc none (tidied css)
          ≡ ok r)
        × IsStrict key r
        × ((k : Bytes) → has key k r ≡ (has key k acc || any_has key k css))
  collect_chunks-IsUnion [] acc s = unfold collect_chunks in (acc, refl, s, λ k. ground arith)
  collect_chunks-IsUnion (cs ∷ css) acc s =
      let (r, e, strict, found) =
        collect_chunks-IsUnion css (merge key acc (tidy cs))
          (merge-IsStrict key acc (tidy cs) s (tidy-IsStrict cs)) in
      (
        r,
        collect_chunks_step acc (tidy cs) (tidied css) ∙ e,
        strict,
        λ k.
            ground
              (arith, found k, has-merge key k acc (tidy cs) s (tidy-IsStrict cs), has-tidy k cs),
      )

  pub lookup_entries_lem :
      (s : MockStorage) (matcher : Option LabelMatcher) (entries : List IndexEntry)
      (css : List (List Chunk))
      → Answers s matcher entries css
      → (r : List Chunk) × (lookup_entries format base64 unmarshal user s matcher entries ≡ ok r)
        × IsUnion css r
  unfolding lookup_entries has
  lookup_entries_lem s matcher entries css h =
      let (r, e, strict, found) = collect_chunks-IsUnion css [] tt in
      (r, rw (lookup_all-tidied s matcher entries css h) e, (strict, λ k. found k))
