-- ===== src/Compat.antt =====
-- util/compat.go: the messages between the services (cortex.proto), to and from the types of Prometheus. A
-- value is a float64, kept as its 64 bits, and a time an int64 in milliseconds. `new_matcher` is
-- Prometheus's NewLabelMatcher, with `none` for an expression that does not compile.
pub mod RoundTrips
use cortex.Base.{ℕ, zero, suc, List, [], ◌∷◌, ◌++◌, map, Bytes, bytes_ord, Option, none, some}
use cortex.Base.Int.{ℤ}
use cortex.Base.Dict
use cortex.Base.Dict.{Dict}
use cortex.Labels.{Metric, MatchType, equal, not_equal, regex_match, regex_no_match, LabelMatcher}
use cortex.Samples.{SamplePair}

pub record LabelPair : Type 0 where
  pub name : Bytes
  pub value : Bytes

pub record WireSample : Type 0 where
  pub value : ℕ
  pub timestamp_ms : ℤ

pub record TimeSeries : Type 0 where
  pub labels : List LabelPair
  pub samples : List WireSample

-- model.Sample
pub record Sample : Type 0 where
  pub metric : Metric
  pub value : ℕ
  pub timestamp : ℤ

-- model.SampleStream; a Matrix is a list of them
pub record SampleStream : Type 0 where
  pub metric : Metric
  pub values : List SamplePair

-- a matcher of cortex.proto, whose type is the number of MatchType
pub record WireMatcher : Type 0 where
  pub type : ℕ
  pub name : Bytes
  pub value : Bytes

-- QueryRequest, or MetricsForLabelMatchersRequest with its sets of matchers
pub record WireQuery {ℓ} (M : Type ℓ) : Type ℓ where
  pub start_timestamp_ms : ℤ
  pub end_timestamp_ms : ℤ
  pub matchers : M

unfoldable pub to_label_pairs : Metric → List LabelPair
to_label_pairs [] = []
to_label_pairs ((name, value) ∷ m) = record { name = name; value = value } ∷ to_label_pairs m

-- the loop of FromLabelPairs, on the map so far
unfoldable pub add_labels : Metric → List LabelPair → Metric
add_labels m [] = m
add_labels m (l ∷ ls) = add_labels (Dict.put m l.name l.value) ls

unfoldable pub from_label_pairs : List LabelPair → Metric
unfolding add_labels
from_label_pairs ls = add_labels [] ls

-- the samples of one time series
unfoldable pub series_samples : List LabelPair → List WireSample → List Sample
unfolding from_label_pairs
series_samples labels [] = []
series_samples labels (s ∷ ss) =
    record { metric = from_label_pairs labels; value = s.value; timestamp = s.timestamp_ms }
    ∷ series_samples labels ss

-- FromWriteRequest and ToWriteRequest, of which the message has the time series only
unfoldable pub from_write_request : List TimeSeries → List Sample
unfolding series_samples
from_write_request [] = []
from_write_request (ts ∷ tss) = series_samples ts.labels ts.samples ++ from_write_request tss

unfoldable pub to_write_request : List Sample → List TimeSeries
unfolding to_label_pairs
to_write_request [] = []
to_write_request (s ∷ ss) =
    record {
      labels = to_label_pairs s.metric;
      samples = record { value = s.value; timestamp_ms = s.timestamp } ∷ [];
    }
    ∷ to_write_request ss

abbrev pub wire_sample : SamplePair → WireSample
wire_sample s = record { value = s.value; timestamp_ms = s.timestamp }

abbrev pub sample_pair : WireSample → SamplePair
sample_pair s = record { timestamp = s.timestamp_ms; value = s.value }

unfoldable pub to_query_response : List SampleStream → List TimeSeries
unfolding to_label_pairs
to_query_response [] = []
to_query_response (ss ∷ m) =
    record { labels = to_label_pairs ss.metric; samples = map wire_sample ss.values }
    ∷ to_query_response m

unfoldable pub from_query_response : List TimeSeries → List SampleStream
unfolding from_label_pairs
from_query_response [] = []
from_query_response (ts ∷ tss) =
    record { metric = from_label_pairs ts.labels; values = map sample_pair ts.samples }
    ∷ from_query_response tss

unfoldable pub to_metrics_response : List Metric → List (List LabelPair)
unfolding to_label_pairs
to_metrics_response ms = map to_label_pairs ms

unfoldable pub from_metrics_response : List (List LabelPair) → List Metric
unfolding from_label_pairs
from_metrics_response ms = map from_label_pairs ms

abbrev pub wire_type : MatchType → ℕ
wire_type equal = 0
wire_type not_equal = 1
wire_type regex_match = 2
wire_type regex_no_match = 3

-- `none` is the error "invalid matcher type"
abbrev pub match_type : ℕ → Option MatchType
match_type zero = some equal
match_type (suc zero) = some not_equal
match_type (suc (suc zero)) = some regex_match
match_type (suc (suc (suc zero))) = some regex_no_match
match_type (suc (suc (suc (suc n)))) = none

infixl 5 ◌>>=◌
abbrev ◌>>=◌ {ℓ κ} : {A : Type ℓ} {B : Type κ} → Option A → (A → Option B) → Option B
none >>= f = none
some a >>= f = f a

unfoldable pub to_label_matchers : List LabelMatcher → List WireMatcher
to_label_matchers [] = []
to_label_matchers (m ∷ ms) =
    record { type = wire_type m.type; name = m.name; value = m.value } ∷ to_label_matchers ms

module _ (new_matcher : MatchType → Bytes → Bytes → Option LabelMatcher) where
  unfoldable pub from_label_matchers : List WireMatcher → Option (List LabelMatcher)
  from_label_matchers [] = some []
  from_label_matchers (m ∷ ms) = do
    t ← match_type m.type
    l ← new_matcher t m.name m.value
    ls ← from_label_matchers ms
    some (l ∷ ls)

  unfoldable pub from_matcher_sets : List (List WireMatcher) → Option (List (List LabelMatcher))
  unfolding from_label_matchers
  from_matcher_sets [] = some []
  from_matcher_sets (ms ∷ mss) = do
    ls ← from_label_matchers ms
    lss ← from_matcher_sets mss
    some (ls ∷ lss)

unfoldable pub to_query_request : ℤ → ℤ → List LabelMatcher → WireQuery (List WireMatcher)
unfolding to_label_matchers
to_query_request from to ms = record {
  start_timestamp_ms = from;
  end_timestamp_ms = to;
  matchers = to_label_matchers ms;
}

unfoldable pub to_metrics_request :
    ℤ → ℤ → List (List LabelMatcher) → WireQuery (List (List WireMatcher))
unfolding to_label_matchers
to_metrics_request from to mss = record {
  start_timestamp_ms = from;
  end_timestamp_ms = to;
  matchers = map to_label_matchers mss;
}

module _ (new_matcher : MatchType → Bytes → Bytes → Option LabelMatcher) where
  unfoldable pub from_query_request :
      WireQuery (List WireMatcher) → Option (ℤ × ℤ × List LabelMatcher)
  unfolding from_label_matchers
  from_query_request req = do
    ms ← from_label_matchers new_matcher req.matchers
    some (req.start_timestamp_ms, req.end_timestamp_ms, ms)

  unfoldable pub from_metrics_request :
      WireQuery (List (List WireMatcher)) → Option (ℤ × ℤ × List (List LabelMatcher))
  unfolding from_matcher_sets
  from_metrics_request req = do
    mss ← from_matcher_sets new_matcher req.matchers
    some (req.start_timestamp_ms, req.end_timestamp_ms, mss)
