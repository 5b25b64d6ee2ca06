-- ===== src/Tests/CompatTests.antt =====
-- A metric with its samples and the matchers of a query, packed and unpacked, and a valid metric.
use cortex.Base.{◌≡◌, refl, [], ◌∷◌, All, false, Bytes, bytes_ord, codes, some, none, Option, ◌==◌}
use cortex.Base.Int.{pos}
use cortex.Labels.{Metric, MatchType, equal, LabelMatcher}
use cortex.Chunk.Entries.{has_null}
use cortex.Compat.{
  Sample, SampleStream, from_write_request, to_write_request, to_query_response,
  from_query_response, to_metrics_response, from_metrics_response, to_query_request,
  from_query_request, to_metrics_request, from_metrics_request,
}
use cortex.Compat.RoundTrips.{data_round_trips, request_round_trips}
use cortex.Validate.{validate_sample, IsSample, validate_sample_lem}

abbrev of_job : Metric
of_job = (codes "__name__", codes "up") ∷ (codes "job", codes "cortex") ∷ []

abbrev one_sample : Sample
one_sample = record { metric = of_job; value = 1; timestamp = pos 60000 }

abbrev one_stream : SampleStream
one_stream = record { metric = of_job; values = record { timestamp = pos 5; value = 2 } ∷ [] }

data_round_trips_example :
    (from_write_request (to_write_request (one_sample ∷ [])) ≡ one_sample ∷ [])
    × (from_query_response (to_query_response (one_stream ∷ [])) ≡ one_stream ∷ [])
    × (from_metrics_response (to_metrics_response (of_job ∷ [])) ≡ of_job ∷ [])
data_round_trips_example =
    data_round_trips (one_sample ∷ []) (one_stream ∷ []) (of_job ∷ []) (((refl, tt), (tt, tt)), tt)
      (((refl, tt), (tt, tt)), tt) (((refl, tt), (tt, tt)), tt)

abbrev exact : MatchType → Bytes → Bytes → Option LabelMatcher
exact type name value =
    some (record { type = type; name = name; value = value; matches = λ v. v == value })

abbrev job_is : LabelMatcher
job_is = record {
  type = equal;
  name = codes "job";
  value = codes "cortex";
  matches = λ v. v == codes "cortex";
}

request_round_trips_example :
    (from_query_request exact (to_query_request (pos 0) (pos 9) (job_is ∷ []))
      ≡ some (pos 0, pos 9, job_is ∷ []))
    × (from_metrics_request exact (to_metrics_request (pos 0) (pos 9) ((job_is ∷ []) ∷ []))
        ≡ some (pos 0, pos 9, (job_is ∷ []) ∷ []))
request_round_trips_example =
    request_round_trips exact (pos 0) (pos 9) (job_is ∷ []) ((job_is ∷ []) ∷ []) (refl, tt)
      ((refl, tt), tt)

validate_sample_example :
    (validate_sample of_job ≡ none
      → (name : Bytes) × IsSample of_job name
        × (has_null name ≡ false)
        × All (λ l. has_null l.0 ≡ false) of_job)
    × ((name : Bytes) → IsSample of_job name → validate_sample of_job ≡ none)
validate_sample_example = validate_sample_lem of_job
