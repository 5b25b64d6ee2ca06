-- ===== src/Chunk/Store/Sets.antt =====
-- What a lookup with matchers finds.
use mathlib.Core.List.{append-nil, append_assoc}
use cortex.Base.{
  ◌≡◌, refl, sym, ap, ◌∙◌, List, [], ◌∷◌, ◌++◌, Bool, true, ◌&&◌, Bytes, bytes_ord, int_ord, Option,
  none, some, Result, ok, All, ℕ,
}
use cortex.Base.Int.{ℤ}
use cortex.Base.Sorted.{IsStrict}
use cortex.Merge.{n_way_intersect}
use cortex.Merge.Shuffle.{has}
use cortex.Merge.Tests.{any_has, all_have, has-n_way_intersect}
use cortex.Merge.Intersection.{find-n_way_intersect}
use cortex.Labels.{LabelMatcher}
use cortex.Chunk.Entries.{IndexEntry, Base64}
use cortex.Chunk.Key.{Chunk, Format}
use cortex.Chunk.Storage.{MockStorage}
use cortex.Chunk.Store.{StoreError, Schema, by_key}
use cortex.Chunk.Store.Client.{
  matcher_entries, lookup_matcher, collect_sets, matcher_answers, lookup_named,
}
use cortex.Chunk.Store.Lookup.{Answers, IsUnion, lookup_entries_lem}

module _ (format : Format) (base64 : Base64) (unmarshal : Bytes → Chunk → Option Chunk)
    (encode : Chunk → Option (Bytes × ℕ)) (decode : Chunk → Bytes → Option Chunk) (user : Bytes)
    (s : MockStorage) (schema : Schema) (from through : ℤ) (name : Bytes) where
  abbrev key : Chunk → Bytes
  key = by_key format base64 unmarshal user

  -- The storage answers the entries of each matcher with the chunks of some lists.
  abbrev pub Answered : List LabelMatcher → List (List (List Chunk)) → Type 0
  Answered [] [] = Unit
  Answered [] (css ∷ csss) = ⊥
  Answered (m ∷ ms) [] = ⊥
  Answered (m ∷ ms) (css ∷ csss) =
      ((es : List IndexEntry) × (matcher_entries format base64 unmarshal encode decode user schema
            from through name m
          ≡ ok es)
        × Answers format base64 unmarshal user s (some m) es css)
      × Answered ms csss

  -- each matcher's lists have a chunk of the key
  abbrev pub all_any : Bytes → List (List (List Chunk)) → Bool
  all_any k [] = true
  all_any k (css ∷ csss) = any_has key k css && all_any k csss

  abbrev answers : List (List Chunk) → List (Result StoreError (List Chunk))
  answers [] = []
  answers (cs ∷ css) = ok cs ∷ answers css

  lookup_matcher_lem :
      (m : LabelMatcher) (css : List (List Chunk)) (es : List IndexEntry)
      → matcher_entries format base64 unmarshal encode decode user schema from through name m
        ≡ ok es
      → Answers format base64 unmarshal user s (some m) es css
      → (r : List Chunk) × (lookup_matcher format base64 unmarshal encode decode user s schema from
            through name m
          ≡ ok r)
        × IsUnion format base64 unmarshal user css r
  unfolding lookup_matcher
  lookup_matcher_lem m css es h a =
      let (r, e, union) = lookup_entries_lem format base64 unmarshal user s (some m) es css a in
      (r, rw h e, union)

  matcher_answers_lem :
      (ms : List LabelMatcher) (csss : List (List (List Chunk)))
      → Answered ms csss
      → (sets : List (List Chunk)) × (matcher_answers format base64 unmarshal encode decode user s
            schema from through name ms
          ≡ answers sets)
        × All (IsStrict key) sets
        × ((k : Bytes) → all_have key k sets ≡ all_any k csss)
  unfolding matcher_answers
  matcher_answers_lem [] [] h = ([], refl, tt, λ k. refl)
  matcher_answers_lem [] (css ∷ csss) h = absurd h
  matcher_answers_lem (m ∷ ms) [] h = absurd h
  matcher_answers_lem (m ∷ ms) (css ∷ csss) h =
      let (r, e, union) = lookup_matcher_lem m css h.0.0 h.0.1 h.0.2 in
      let (sets, f, strict, found) = matcher_answers_lem ms csss h.1 in
      (r ∷ sets, rw (e, f) refl, (union.0, strict), λ k. rw (union.1 k, found k) refl)

  collect_sets-answers :
      (sets acc : List (List Chunk))
      → collect_sets format base64 unmarshal encode decode user acc none (answers sets)
        ≡ ok (acc ++ sets)
  unfolding collect_sets
  collect_sets-answers [] acc = ap ok (sym (append-nil acc))
  collect_sets-answers (cs ∷ sets) acc =
      collect_sets-answers sets (acc ++ cs ∷ []) ∙ ap ok (append_assoc acc (cs ∷ []) sets)

  matcher_answers_step :
      (m : LabelMatcher) (ms : List LabelMatcher) (r : List Chunk) (sets : List (List Chunk))
      → lookup_matcher format base64 unmarshal encode decode user s schema from through name m
        ≡ ok r
      → matcher_answers format base64 unmarshal encode decode user s schema from through name ms
        ≡ answers sets
      → matcher_answers format base64 unmarshal encode decode user s schema from through name
          (m ∷ ms)
        ≡ answers (r ∷ sets)
  unfolding matcher_answers
  matcher_answers_step m ms r sets e f = rw (e, f) refl

  lookup_named-sets :
      (m : LabelMatcher) (ms : List LabelMatcher) (sets : List (List Chunk))
      → matcher_answers format base64 unmarshal encode decode user s schema from through name
          (m ∷ ms)
        ≡ answers sets
      → lookup_named format base64 unmarshal encode decode user s schema from through name (m ∷ ms)
        ≡ ok (n_way_intersect key sets)
  unfolding lookup_named
  lookup_named-sets m ms sets e = rw (e, collect_sets-answers sets []) refl

  -- Where the storage answers all entries of each matcher, a lookup with one matcher or more
  -- succeeds, in strict order of the external keys, and has a key exactly if for each matcher
  -- the answer to one of its entries has it.
  pub lookup_named_lem :
      (m : LabelMatcher) (ms : List LabelMatcher) (csss : List (List (List Chunk)))
      → Answered (m ∷ ms) csss
      → (r : List Chunk) × (lookup_named format base64 unmarshal encode decode user s schema from
            through name
            (m ∷ ms)
          ≡ ok r)
        × IsStrict key r
        × ((k : Bytes) → has key k r ≡ all_any k csss)
  lookup_named_lem m ms [] h = absurd h
  lookup_named_lem m ms (css ∷ csss) h =
      let (r, e, union) = lookup_matcher_lem m css h.0.0 h.0.1 h.0.2 in
      let (sets, f, strict, found) = matcher_answers_lem ms csss h.1 in
      (
        n_way_intersect key (r ∷ sets),
        lookup_named-sets m ms (r ∷ sets) (matcher_answers_step m ms r sets e f),
        (find-n_way_intersect key [] (r ∷ sets) (union.0, strict)).0,
        λ k. has-n_way_intersect key k r sets (union.0, strict) ∙ rw (union.1 k, found k) refl,
      )
