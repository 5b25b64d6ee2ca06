-- ===== src/Compat/RoundTrips.antt =====
-- What one service packs, another unpacks.
use mathlib.Core.List.{append-nil, append_assoc, map-map, map-id}
use cortex.Base.{
  ◌≡◌, refl, sym, ap, ◌∙◌, List, [], ◌∷◌, ◌++◌, map, All, All-append, false, Bytes, bytes_ord, ◌==◌,
  Option, some,
}
use cortex.Base.Int.{ℤ}
use cortex.Base.Dict
use cortex.Base.Dict.{Dict}
use cortex.Labels.{Metric, MatchType, equal, not_equal, regex_match, regex_no_match, LabelMatcher}
use cortex.Compat.{
  Sample, SampleStream, to_label_pairs, add_labels, from_label_pairs, series_samples,
  from_write_request, to_write_request, wire_sample, sample_pair, to_query_response,
  from_query_response, to_metrics_response, from_metrics_response, wire_type, match_type,
  to_label_matchers, from_label_matchers, from_matcher_sets, to_query_request, from_query_request,
  to_metrics_request, from_metrics_request,
}
use cortex.Ingester.User.Count.{AreUnique}

-- no key of the second metric is one of the first
abbrev Apart : Metric → Metric → Type 0
Apart m [] = Unit
Apart m ((name, value) ∷ ls) = All (λ e. (e.0 == name) ≡ false) m × Apart m ls

put_new :
    (m : Metric) (k v : Bytes) → All (λ e. (e.0 == k) ≡ false) m → Dict.put m k v ≡ m ++ (k, v) ∷ []
unfolding Dict.put
put_new [] k v h = refl
put_new ((j, w) ∷ m) k v h = rw h.0 (ap (λ r. (j, w) ∷ r) (put_new m k v h.1))

Apart-snoc :
    (m ls : Metric) (k v : Bytes)
    → Apart m ls
    → All (λ e. (k == e.0) ≡ false) ls
    → Apart (m ++ (k, v) ∷ []) ls
Apart-snoc m [] k v a h = tt
Apart-snoc m ((j, w) ∷ ls) k v a h = (
  All-append (λ e. (e.0 == j) ≡ false) m ((k, v) ∷ []) a.0 (h.0, tt),
  Apart-snoc m ls k v a.1 h.1,
)

Apart-nil : (ls : Metric) → Apart [] ls
Apart-nil [] = tt
Apart-nil ((k, v) ∷ ls) = (tt, Apart-nil ls)

add_labels-to_label_pairs :
    (m ls : Metric) → Apart m ls → AreUnique ls → add_labels m (to_label_pairs ls) ≡ m ++ ls
unfolding add_labels to_label_pairs
add_labels-to_label_pairs m [] a u = sym (append-nil m)
add_labels-to_label_pairs m ((k, v) ∷ ls) a u =
    ap (λ x. add_labels x (to_label_pairs ls)) (put_new m k v a.0)
    ∙ add_labels-to_label_pairs (m ++ (k, v) ∷ []) ls (Apart-snoc m ls k v a.1 u.0) u.1
    ∙ append_assoc m ((k, v) ∷ []) ls

from-to_label_pairs : (m : Metric) → AreUnique m → from_label_pairs (to_label_pairs m) ≡ m
unfolding from_label_pairs
from-to_label_pairs m u = add_labels-to_label_pairs [] m (Apart-nil m) u

from-to_write_request :
    (ss : List Sample)
    → All (λ s. AreUnique (Sample.metric s)) ss
    → from_write_request (to_write_request ss) ≡ ss
unfolding from_write_request to_write_request series_samples
from-to_write_request [] u = refl
from-to_write_request (s ∷ ss) u =
    rw (from-to_label_pairs s.metric u.0, from-to_write_request ss u.1) refl

from-to_query_response :
    (m : List SampleStream)
    → All (λ ss. AreUnique (SampleStream.metric ss)) m
    → from_query_response (to_query_response m) ≡ m
unfolding from_query_response to_query_response
from-to_query_response [] u = refl
from-to_query_response (ss ∷ m) u =
    rw
      (
        from-to_label_pairs ss.metric u.0,
        from-to_query_response m u.1,
        map-map sample_pair wire_sample ss.values,
        map-id ss.values,
      )
      refl

from-to_metrics_response :
    (ms : List Metric) → All AreUnique ms → from_metrics_response (to_metrics_response ms) ≡ ms
unfolding from_metrics_response to_metrics_response
from-to_metrics_response [] u = refl
from-to_metrics_response (m ∷ ms) u =
    rw (from-to_label_pairs m u.0) (ap (λ r. m ∷ r) (from-to_metrics_response ms u.1))

-- Samples, series and metrics, with no label twice in a metric, come out of the messages of a
-- write, a query's answer and a list of metrics as they were packed.
pub data_round_trips :
    (ss : List Sample) (matrix : List SampleStream) (metrics : List Metric)
    → All (λ s. AreUnique (Sample.metric s)) ss
    → All (λ s. AreUnique (SampleStream.metric s)) matrix
    → All AreUnique metrics
    → (from_write_request (to_write_request ss) ≡ ss)
      × (from_query_response (to_query_response matrix) ≡ matrix)
      × (from_metrics_response (to_metrics_response metrics) ≡ metrics)
data_round_trips ss matrix metrics u v w = (
  from-to_write_request ss u,
  from-to_query_response matrix v,
  from-to_metrics_response metrics w,
)

module _ (new_matcher : MatchType → Bytes → Bytes → Option LabelMatcher) where
  -- a matcher as NewLabelMatcher makes it from its type, name and value
  abbrev pub Made : LabelMatcher → Type 0
  Made m = new_matcher m.type m.name m.value ≡ some m

  match-wire_type : (t : MatchType) → match_type (wire_type t) ≡ some t
  match-wire_type equal = refl
  match-wire_type not_equal = refl
  match-wire_type regex_match = refl
  match-wire_type regex_no_match = refl

  from-to_label_matchers :
      (ms : List LabelMatcher)
      → All Made ms
      → from_label_matchers new_matcher (to_label_matchers ms) ≡ some ms
  unfolding from_label_matchers to_label_matchers
  from-to_label_matchers [] h = refl
  from-to_label_matchers (m ∷ ms) h =
      rw (match-wire_type m.type, h.0, from-to_label_matchers ms h.1) refl

  from-to_matcher_sets :
      (mss : List (List LabelMatcher))
      → All (All Made) mss
      → from_matcher_sets new_matcher (map to_label_matchers mss) ≡ some mss
  unfolding from_matcher_sets
  from-to_matcher_sets [] h = refl
  from-to_matcher_sets (ms ∷ mss) h =
      rw (from-to_label_matchers ms h.0, from-to_matcher_sets mss h.1) refl

  -- The requests of a query, and of the metrics for sets of matchers, unpack to the times and
  -- matchers that they were packed from, where each matcher is what the library makes of its
  -- type, name and value.
  pub request_round_trips :
      (from to : ℤ) (ms : List LabelMatcher) (mss : List (List LabelMatcher))
      → All Made ms
      → All (All Made) mss
      → (from_query_request new_matcher (to_query_request from to ms) ≡ some (from, to, ms))
        × (from_metrics_request new_matcher (to_metrics_request from to mss) ≡ some (from, to, mss))
  unfolding from_query_request to_query_request from_metrics_request to_metrics_request
  request_round_trips from to ms mss h k =
      (rw (from-to_label_matchers ms h) refl, rw (from-to_matcher_sets mss k) refl)
