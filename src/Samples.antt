-- ===== src/Samples.antt =====
-- util/util.go, MergeSamples: two sorted slices of samples into one. A timestamp is an int64 and a value a
-- float64, kept as its 64 bits.
use cortex.Base.{ℕ, ◌≡◌, List, int_ord}
use cortex.Base.Int.{ℤ}
use cortex.Base.Sorted.{IsStrict}
use cortex.Merge.{merge, find}
use cortex.Merge.Union.{or_else, merge-IsStrict, find-merge}

pub record SamplePair : Type 0 where
  pub timestamp : ℤ
  pub value : ℕ

abbrev pub timestamp_of : SamplePair → ℤ
timestamp_of s = s.timestamp

-- MergeSamples
unfoldable pub merge_samples : List SamplePair → List SamplePair → List SamplePair
unfolding merge
merge_samples a b = merge timestamp_of a b

-- Two slices of samples in strict order of time merge to one in strict order, which has at each
-- time the sample of the left slice, or where that has none the one of the right slice.
pub merge_samples_lem :
    (a b : List SamplePair)
    → IsStrict timestamp_of a
    → IsStrict timestamp_of b
    → IsStrict timestamp_of (merge_samples a b)
      × ((t : ℤ)
          → find timestamp_of t (merge_samples a b)
            ≡ or_else (find timestamp_of t a) (find timestamp_of t b))
unfolding merge_samples
merge_samples_lem a b h k =
    (merge-IsStrict timestamp_of a b h k, λ t. find-merge timestamp_of t a b h k)
