-- ===== src/Ingester/Index.antt =====
-- ingester/index.go: for each label name and value the sorted fingerprints of the series that have them.
-- A fingerprint is a uint64, and stands for itself as a key.
pub mod Place
pub mod Lookup
use cortex.Base.{
  ℕ, suc, ◌+◌, ◌≡◌, refl, List, [], ◌∷◌, ◌++◌, Bool, true, false, Bytes, bytes_ord, nat_ord, ◌==◌,
  ltb, leb, if◌then◌else◌, Option, none, some, length, take, drop,
}
use cortex.Base.Dict
use cortex.Base.Dict.{Dict}
use cortex.Base.Search.{search_list}
use cortex.Labels.{Metric, LabelMatcher}
use cortex.Merge.{shuffle, intersect}

abbrev pub fingerprint : ℕ → ℕ
fingerprint fp = fp

abbrev pub Values : Type 0
Values = Dict Bytes (List ℕ)

abbrev pub InvertedIndex : Type 0
InvertedIndex = Dict Bytes Values

-- a missing entry of a map reads as the zero value, an empty map or slice
abbrev pub or_nil {ℓ} : {A : Type ℓ} → Option (List A) → List A
or_nil none = []
or_nil (some l) = l

-- The place of a fingerprint: the first one that is not smaller.
unfoldable pub place : ℕ → List ℕ → ℕ
place fp fps = search_list (λ f. leb fp f) fps

-- fingerprints = append(fingerprints, 0); copy(fingerprints[j+1:], fingerprints[j:]); fingerprints[j] = fp
unfoldable pub insert_fp : ℕ → List ℕ → List ℕ
unfolding place
insert_fp fp fps = let j = place fp fps in take j fps ++ fp ∷ drop j fps

unfoldable pub add_label : ℕ → Bytes → Bytes → InvertedIndex → InvertedIndex
unfolding insert_fp
add_label fp name value idx =
    let values = or_nil (Dict.get idx name) in
    Dict.put idx name (Dict.put values value (insert_fp fp (or_nil (Dict.get values value))))

unfoldable pub add : Metric → ℕ → InvertedIndex → InvertedIndex
unfolding add_label
add [] fp idx = idx
add ((name, value) ∷ metric) fp idx = add metric fp (add_label fp name value idx)

-- fingerprints[:j+copy(fingerprints[j:], fingerprints[j+1:])]; slicing past the end is a panic, `none`.
unfoldable pub delete_fp : ℕ → List ℕ → Option (List ℕ)
unfolding place
delete_fp fp fps =
    let j = place fp fps in
    if ltb j (length fps) then some (take j fps ++ drop (suc j) fps) else none

abbrev put_or_delete : Dict Bytes (List ℕ) → Bytes → List ℕ → Dict Bytes (List ℕ)
put_or_delete values value [] = Dict.delete values value
put_or_delete values value (f ∷ fps) = Dict.put values value (f ∷ fps)

abbrev put_or_delete_values : InvertedIndex → Bytes → Values → InvertedIndex
put_or_delete_values idx name [] = Dict.delete idx name
put_or_delete_values idx name (v ∷ values) = Dict.put idx name (v ∷ values)

unfoldable pub delete_label : ℕ → Bytes → Bytes → InvertedIndex → Option InvertedIndex
unfolding delete_fp
delete_label fp name value idx = elim (Dict.get idx name) [
  | none ↦ some idx
  | some values ↦ elim (Dict.get values value) [
    | none ↦ some idx
    | some fps ↦ elim (delete_fp fp fps) [
      | none ↦ none
      | some fps' ↦ some (put_or_delete_values idx name (put_or_delete values value fps'))
    ]
  ]
]

unfoldable pub delete : Metric → ℕ → InvertedIndex → Option InvertedIndex
unfolding delete_label
delete [] fp idx = some idx
delete ((name, value) ∷ metric) fp idx = elim (delete_label fp name value idx) [
  | none ↦ none
  | some idx' ↦ delete metric fp idx'
]

-- The fingerprints of the values that a matcher matches.
unfoldable pub to_intersect : (Bytes → Bool) → Values → List ℕ → List ℕ
to_intersect matches [] acc = acc
to_intersect matches ((value, fps) ∷ values) acc =
    to_intersect matches values (if matches value then shuffle fingerprint acc fps else acc)

-- intersect, where `none` is the nil slice
unfoldable pub intersect_nil : Option (List ℕ) → List ℕ → List ℕ
intersect_nil none fps = fps
intersect_nil (some l) fps = intersect fingerprint l fps

-- The loop over the matchers. `none` is the nil slice, which the first round finds.
unfoldable pub lookup_from : Option (List ℕ) → List LabelMatcher → InvertedIndex → List ℕ
unfolding to_intersect intersect_nil
lookup_from intersection [] idx = or_nil intersection
lookup_from intersection (m ∷ ms) idx = elim (Dict.get idx m.name) [
  | none ↦ []
  | some values ↦ elim (intersect_nil intersection (to_intersect m.matches values [])) [
    | [] ↦ []
    | f ∷ r ↦ lookup_from (some (f ∷ r)) ms idx
  ]
]

unfoldable pub lookup : List LabelMatcher → InvertedIndex → List ℕ
unfolding lookup_from
lookup [] idx = []
lookup (m ∷ ms) idx = lookup_from none (m ∷ ms) idx

label_values : Values → List Bytes
label_values [] = []
label_values ((value, fps) ∷ values) = value ∷ label_values values

-- lookupLabelValues
unfoldable pub lookup_label_values : Bytes → InvertedIndex → List Bytes
unfolding label_values
lookup_label_values name idx = elim (Dict.get idx name) [
  | none ↦ []
  | some values ↦ label_values values
]
