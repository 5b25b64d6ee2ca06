-- ===== src/Labels.antt =====
-- util/matchers.go: metrics, label matchers, and how a query's matchers are taken apart. A matcher of the
-- Prometheus library is its type, name and value with the function that its `Match` method is.
use cortex.Base.{
  ◌≡◌, refl, List, [], ◌∷◌, ◌++◌, Bool, true, false, Bytes, bytes_ord, ◌==◌, if◌then◌else◌, codes,
  Result, ok, err, panic, All, arith, Option, none, some, is_some, ◌&&◌, Bool-cases, Option-cases,
  inl, inr,
}
use cortex.Base.Dict
use cortex.Base.Dict.{Dict}

-- model.Metric
abbrev pub Metric : Type 0
Metric = Dict Bytes Bytes

abbrev pub metric_name_label : Bytes
metric_name_label = codes "__name__"

pub data MatchType : Type 0 where
  equal not_equal regex_match regex_no_match : MatchType

pub record LabelMatcher : Type 0 where
  pub type : MatchType
  pub name : Bytes
  pub value : Bytes
  pub matches : Bytes → Bool

pub data LabelError : Type 0 where
  no_metric_name must_be_equality no_name_matcher : LabelError

-- SplitFiltersAndMatchers: (filters, matchers)
unfoldable pub split_filters_and_matchers :
    List LabelMatcher → List LabelMatcher × List LabelMatcher
split_filters_and_matchers [] = ([], [])
split_filters_and_matchers (m ∷ ms) =
    let (filters, matchers) = split_filters_and_matchers ms in
    if m.matches [] then (m ∷ filters, matchers) else (filters, m ∷ matchers)

-- ExtractMetricNameFromMetric
unfoldable pub extract_metric_name_from_metric : Metric → Result LabelError Bytes
extract_metric_name_from_metric m = elim (Dict.get m metric_name_label) [
  | none ↦ err no_metric_name
  | some v ↦ ok v
]

abbrev pub is_equal : MatchType → Bool
is_equal equal = true
is_equal _ = false

-- The loop of ExtractMetricNameFromMatchers; `before` is matchers[:i].
extract_from : List LabelMatcher → List LabelMatcher → Result LabelError (Bytes × List LabelMatcher)
extract_from before [] = err no_name_matcher
extract_from before (m ∷ ms) =
    let next = extract_from (before ++ m ∷ []) ms in
    let found : Result LabelError (Bytes × List LabelMatcher) =
      if is_equal m.type then ok (m.value, before ++ ms) else err must_be_equality in
    if m.name == metric_name_label then found else next

-- The slice for the rest is made with len(matchers) - 1 elements, and `make` panics on a negative length.
unfoldable pub extract_metric_name_from_matchers :
    List LabelMatcher → Result LabelError (Bytes × List LabelMatcher)
unfolding extract_from
extract_metric_name_from_matchers [] = panic
extract_metric_name_from_matchers (m ∷ ms) = extract_from [] (m ∷ ms)

split-matchers-nil :
    (ms : List LabelMatcher)
    → All (λ m. m.matches [] ≡ true) ms
    → (split_filters_and_matchers ms).1 ≡ []
unfolding split_filters_and_matchers
split-matchers-nil [] h = refl
split-matchers-nil (m ∷ ms) h = rw h.0 (split-matchers-nil ms h.1)

-- Where every matcher of a query matches the empty value, no matcher is left to take the metric's
-- name from, and taking it panics.
pub extract-split_panics :
    (ms : List LabelMatcher)
    → All (λ m. m.matches [] ≡ true) ms
    → extract_metric_name_from_matchers (split_filters_and_matchers ms).1 ≡ panic
unfolding extract_metric_name_from_matchers
extract-split_panics ms h = rw (split-matchers-nil ms h)

-- A metric's labels satisfy all of some matchers; a missing label reads as the empty value.
abbrev pub or_empty : Option Bytes → Bytes
or_empty none = []
or_empty (some v) = v

unfoldable pub satisfies : Metric → List LabelMatcher → Bool
satisfies metric [] = true
satisfies metric (m ∷ ms) =
    let rest = satisfies metric ms in
    if m.matches (or_empty (Dict.get metric m.name)) then rest else false

-- the metric has a value for each matcher's label
unfoldable pub has_labels : Metric → List LabelMatcher → Bool
has_labels metric [] = true
has_labels metric (m ∷ ms) = is_some (Dict.get metric m.name) && has_labels metric ms

-- Filters match the empty value.
pub split-filters :
    (ms : List LabelMatcher) → All (λ f. f.matches [] ≡ true) (split_filters_and_matchers ms).0
unfolding split_filters_and_matchers
split-filters [] = tt
split-filters (m ∷ ms) = elim (Bool-cases (m.matches [])) [
  | inl t ↦ rw t (t, split-filters ms)
  | inr t ↦ rw t (split-filters ms)
]

pub split-matchers :
    (ms : List LabelMatcher) → All (λ m. m.matches [] ≡ false) (split_filters_and_matchers ms).1
unfolding split_filters_and_matchers
split-matchers [] = tt
split-matchers (m ∷ ms) = elim (Bool-cases (m.matches [])) [
  | inl t ↦ rw t (split-matchers ms)
  | inr t ↦ rw t (t, split-matchers ms)
]

-- A metric that satisfies matchers that do not match the empty value has their labels.
has_labels_lem :
    (metric : Metric) (ms : List LabelMatcher)
    → All (λ m. m.matches [] ≡ false) ms
    → (has_labels metric ms && satisfies metric ms) ≡ satisfies metric ms
unfolding has_labels satisfies
has_labels_lem metric [] h = refl
has_labels_lem metric (m ∷ ms) h = elim (Option-cases (Dict.get metric m.name)) [
  | inl e ↦ rw (e, h.0) refl
  | inr (v, e) ↦ rw e (ground (arith, has_labels_lem metric ms h.1))
]

satisfies-parts :
    (metric : Metric) (ms : List LabelMatcher)
    → satisfies metric ms ≡ (
        satisfies metric (split_filters_and_matchers ms).0
        && satisfies metric (split_filters_and_matchers ms).1)
unfolding satisfies split_filters_and_matchers
satisfies-parts metric [] = refl
satisfies-parts metric (m ∷ ms) = ground (arith, satisfies-parts metric ms)

-- Of the filters and matchers that a query's matchers are split into, each filter matches the
-- empty value and no matcher does; and a metric satisfies all of the query's matchers exactly
-- when it has the labels of the matchers and satisfies them and the filters.
pub satisfies-split :
    (metric : Metric) (ms : List LabelMatcher)
    → let (filters, matchers) = split_filters_and_matchers ms in
      All (λ f. f.matches [] ≡ true) filters
      × All (λ m. m.matches [] ≡ false) matchers
      × (satisfies metric ms
          ≡ (has_labels metric matchers && satisfies metric matchers && satisfies metric filters))
satisfies-split metric ms = (
  split-filters ms,
  split-matchers ms,
  ground (
    arith,
    satisfies-parts metric ms,
    has_labels_lem metric (split_filters_and_matchers ms).1 (split-matchers ms),
  ),
)
