-- ===== src/Ingester/Index/Lookup.antt =====
-- What a lookup finds.
use cortex.Base.{
  ℕ, ◌≡◌, refl, List, [], ◌∷◌, Bool, true, false, nat_ord, bytes_ord, Bytes, ◌==◌, ◌||◌, ◌&&◌,
  Option, none, some, All, arith, Bool-cases, Option-cases, inl, inr,
}
use mathlib.Core.Path.{subst}
use mathlib.Core.Option.{some-injective}
use cortex.Base.Dict
use cortex.Base.Dict.{Dict}
use cortex.Base.Sorted.{IsSorted}
use cortex.Merge.{shuffle, intersect}
use cortex.Merge.Shuffle.{has, has-shuffle, shuffle-IsSorted, has-intersect, intersect-IsSorted}
use cortex.Labels.{LabelMatcher}
use cortex.Ingester.Index.{
  fingerprint, Values, InvertedIndex, to_intersect, lookup_from, lookup, intersect_nil,
}

abbrev pub AreSorted : Values → Type 0
AreSorted values = All (λ e. IsSorted fingerprint e.1) values

-- Every list of the index is sorted.
abbrev pub IsIndex : InvertedIndex → Type 0
IsIndex idx = All (λ e. AreSorted e.1) idx

-- some value that matches has the fingerprint
unfoldable pub posted : (Bytes → Bool) → ℕ → Values → Bool
posted matches fp [] = false
posted matches fp ((value, fps) ∷ values) =
    (matches value && has fingerprint fp fps) || posted matches fp values

unfoldable pub posted_for : LabelMatcher → ℕ → InvertedIndex → Bool
unfolding posted
posted_for m fp idx = elim (Dict.get idx m.name) [
  | none ↦ false
  | some values ↦ posted m.matches fp values
]

-- each matcher has the fingerprint under a value of its label that it matches
unfoldable pub posted_for_all : List LabelMatcher → ℕ → InvertedIndex → Bool
posted_for_all [] fp idx = true
posted_for_all (m ∷ ms) fp idx = posted_for m fp idx && posted_for_all ms fp idx

to_intersect_lem :
    (matches : Bytes → Bool) (values : Values) (acc : List ℕ)
    → AreSorted values
    → IsSorted fingerprint acc
    → IsSorted fingerprint (to_intersect matches values acc)
      × ((fp : ℕ)
          → has fingerprint fp (to_intersect matches values acc)
            ≡ (has fingerprint fp acc || posted matches fp values))
unfolding to_intersect posted
to_intersect_lem matches [] acc h s = (s, λ fp. ground arith)
to_intersect_lem matches ((value, fps) ∷ values) acc h s = elim (Bool-cases (matches value)) [
  | inl e ↦
      let (sorted, keys) =
        to_intersect_lem matches values (shuffle fingerprint acc fps) h.1
          (shuffle-IsSorted fingerprint acc fps s h.0) in
      rw e (sorted, λ fp. ground (arith, keys fp, has-shuffle fingerprint fp acc fps))
  | inr e ↦ rw e (to_intersect_lem matches values acc h.1 s)
]

get-AreSorted :
    (idx : InvertedIndex) (name : Bytes) {values : Values}
    → IsIndex idx
    → Dict.get idx name ≡ some values
    → AreSorted values
unfolding Dict.get
get-AreSorted [] name h e = cc
get-AreSorted ((n, v) ∷ idx) name h e = elim (Bool-cases (n == name)) [
  | inl s ↦ subst AreSorted (some-injective _ _ (rw s at e)) h.0
  | inr s ↦ get-AreSorted idx name h.1 (rw s at e)
]

has-nil : (fp : ℕ) → has fingerprint fp [] ≡ false
unfolding has
has-nil fp = refl

-- the early return where nothing is left
go_on : List LabelMatcher → InvertedIndex → List ℕ → List ℕ
go_on ms idx both = elim both [ [] ↦ [] | f ∷ r ↦ lookup_from (some (f ∷ r)) ms idx ]

go_on_lem :
    (fp : ℕ) (ms : List LabelMatcher) (idx : InvertedIndex) (both : List ℕ)
    → has fingerprint fp (lookup_from (some both) ms idx)
      ≡ (has fingerprint fp both && posted_for_all ms fp idx)
    → has fingerprint fp (go_on ms idx both) ≡ (has fingerprint fp both && posted_for_all ms fp idx)
unfolding go_on has
go_on_lem fp ms idx [] e = refl
go_on_lem fp ms idx (f ∷ r) e = e

module _ (i : Option (List ℕ)) (m : LabelMatcher) (ms : List LabelMatcher)
    (idx : InvertedIndex) where
  lookup_from-none : Dict.get idx m.name ≡ none → lookup_from i (m ∷ ms) idx ≡ []
  unfolding lookup_from
  lookup_from-none e = rw (e, lookup_from)

  lookup_from-some :
      (values : Values)
      → Dict.get idx m.name ≡ some values
      → lookup_from i (m ∷ ms) idx
        ≡ go_on ms idx (intersect_nil i (to_intersect m.matches values []))
  unfolding lookup_from go_on
  lookup_from-some values e = rw (e, lookup_from)

module _ (fp : ℕ) (m : LabelMatcher) (ms : List LabelMatcher) (idx : InvertedIndex) where
  posted_for_all-none : Dict.get idx m.name ≡ none → posted_for_all (m ∷ ms) fp idx ≡ false
  unfolding posted_for_all posted_for
  posted_for_all-none e = rw (e, posted_for) refl

  posted_for_all-some :
      (values : Values)
      → Dict.get idx m.name ≡ some values
      → posted_for_all (m ∷ ms) fp idx ≡ (posted m.matches fp values && posted_for_all ms fp idx)
  unfolding posted_for_all posted_for
  posted_for_all-some values e = rw (e, posted_for) refl

lookup_from_lem :
    (fp : ℕ) (idx : InvertedIndex) (l : List ℕ) (ms : List LabelMatcher)
    → IsIndex idx
    → IsSorted fingerprint l
    → has fingerprint fp (lookup_from (some l) ms idx)
      ≡ (has fingerprint fp l && posted_for_all ms fp idx)
unfolding intersect_nil
lookup_from_lem fp idx l [] h s = unfold lookup_from posted_for_all in ground arith
lookup_from_lem fp idx l (m ∷ ms) h s = elim (Option-cases (Dict.get idx m.name)) [
  | inl e ↦
      rw (lookup_from-none (some l) m ms idx e, has-nil fp, posted_for_all-none fp m ms idx e)
        (ground arith)
  | inr (values, e) ↦
      let (sorted, keys) = to_intersect_lem m.matches values [] (get-AreSorted idx m.name h e) tt in
      let fps = to_intersect m.matches values [] in
      let both = intersect fingerprint l fps in
      let rest =
        go_on_lem fp ms idx both
          (lookup_from_lem fp idx both ms h (intersect-IsSorted fingerprint l fps s)) in
      rw (lookup_from-some (some l) m ms idx values e, posted_for_all-some fp m ms idx values e)
        (ground (arith, rest, has-intersect fingerprint fp l fps s sorted, keys fp, has-nil fp))
]

lookup_from_nil_lem :
    (fp : ℕ) (m : LabelMatcher) (ms : List LabelMatcher) (idx : InvertedIndex)
    → IsIndex idx
    → has fingerprint fp (lookup_from none (m ∷ ms) idx) ≡ posted_for_all (m ∷ ms) fp idx
unfolding intersect_nil
lookup_from_nil_lem fp m ms idx h = elim (Option-cases (Dict.get idx m.name)) [
  | inl e ↦
      rw (lookup_from-none none m ms idx e, has-nil fp, posted_for_all-none fp m ms idx e) refl
  | inr (values, e) ↦
      let (sorted, keys) = to_intersect_lem m.matches values [] (get-AreSorted idx m.name h e) tt in
      let fps = to_intersect m.matches values [] in
      let rest = go_on_lem fp ms idx fps (lookup_from_lem fp idx fps ms h sorted) in
      rw (lookup_from-some none m ms idx values e, posted_for_all-some fp m ms idx values e)
        (ground (arith, rest, keys fp, has-nil fp))
]

-- On an index whose lists are sorted, a lookup with a matcher finds a fingerprint exactly when
-- every matcher has it under a value of its label that it matches; a lookup with no matcher finds
-- nothing.
pub has-lookup :
    (fp : ℕ) (m : LabelMatcher) (ms : List LabelMatcher) (idx : InvertedIndex)
    → IsIndex idx
    → (has fingerprint fp (lookup (m ∷ ms) idx) ≡ posted_for_all (m ∷ ms) fp idx)
      × (lookup [] idx ≡ [])
has-lookup fp m ms idx h =
    (unfold lookup in lookup_from_nil_lem fp m ms idx h, unfold lookup in refl)
