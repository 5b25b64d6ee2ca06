-- ===== src/Tests/MergeTests.antt =====
-- Samples and label matchers.
use cortex.Base.{
  All, ◌&&◌, ◌≡◌, refl, List, [], ◌∷◌, int_ord, bytes_ord, codes, true, ◌==◌, panic, false, nat_ord,
}
use cortex.Base.Int.{ℤ, pos, negsuc}
use cortex.Base.Sorted.{IsStrict}
use cortex.Merge.{find}
use cortex.Merge.Union.{or_else}
use cortex.Samples.{SamplePair, timestamp_of, merge_samples, merge_samples_lem}
use cortex.Labels.{
  LabelMatcher, Metric, equal, satisfies, has_labels, satisfies-split, split_filters_and_matchers,
  extract_metric_name_from_matchers, extract-split_panics,
}

abbrev early : List SamplePair
early = record { timestamp = negsuc 4; value = 1 } ∷ record { timestamp = pos 7; value = 2 } ∷ []

abbrev late : List SamplePair
late = record { timestamp = pos 7; value = 3 } ∷ record { timestamp = pos 9; value = 4 } ∷ []

merge_samples_example :
    IsStrict timestamp_of (merge_samples early late)
    × ((t : ℤ)
        → find timestamp_of t (merge_samples early late)
          ≡ or_else (find timestamp_of t early) (find timestamp_of t late))
merge_samples_example = merge_samples_lem early late ((refl, tt), (tt, tt)) ((refl, tt), (tt, tt))

-- a matcher that the empty value satisfies too
abbrev anything : LabelMatcher
anything = record { type = equal; name = codes "job"; value = []; matches = λ v. true }

abbrev is_cortex : LabelMatcher
is_cortex = record {
  type = equal;
  name = codes "app";
  value = codes "cortex";
  matches = λ v. v == codes "cortex";
}

abbrev some_metric : Metric
some_metric = (codes "__name__", codes "up") ∷ (codes "app", codes "cortex") ∷ []

extract-split_panics_example :
    extract_metric_name_from_matchers (split_filters_and_matchers (anything ∷ [])).1 ≡ panic
extract-split_panics_example = extract-split_panics (anything ∷ []) (refl, tt)

satisfies-split_example :
    let (filters, matchers) = split_filters_and_matchers (anything ∷ is_cortex ∷ []) in
    All (λ f. f.matches [] ≡ true) filters
    × All (λ m. m.matches [] ≡ false) matchers
    × (satisfies some_metric (anything ∷ is_cortex ∷ []) ≡ (
        has_labels some_metric matchers
        && satisfies some_metric matchers
        && satisfies some_metric filters))
satisfies-split_example = satisfies-split some_metric (anything ∷ is_cortex ∷ [])
