-- ===== src/Tests/DistributorTests.antt =====
-- Writes and queries with three replicas.
use cortex.Base.{
  ℕ, ◌+◌, ◌≤◌, ◌≡◌, refl, List, [], ◌∷◌, Bool, true, false, codes, none, some, Result, arith,
  if◌then◌else◌,
}
use cortex.Base.Int.{pos}
use cortex.Base.Dict.{Dict}
use cortex.Labels.{Metric}
use cortex.Distributor.{PushTracker, new_push_tracker, send_samples}
use cortex.Distributor.Quorum.{trackers_of, replies, push_unanswered}
use cortex.Distributor.Replies.{taken, refused, all_reached, any_lost, send_samples_lem}
use cortex.Distributor.Query.{
  SampleStream, QueryError, query_ingesters, IsOutcome, query_ingesters_lem,
}

-- two samples: the first has a quorum, the second one success and one failure
abbrev some_replies : List (ℕ × Bool)
some_replies = (0, true) ∷ (1, false) ∷ (1, true) ∷ (0, true) ∷ []

abbrev after_some : PushTracker
after_some = send_samples some_replies (new_push_tracker (trackers_of (3 ∷ 3 ∷ [])))

send_samples_example :
    (after_some.done_sent ≡ (if all_reached 0 (3 ∷ 3 ∷ []) some_replies then 1 else 0))
    × (after_some.err_sent ≡ (if any_lost 0 (3 ∷ 3 ∷ []) some_replies then 1 else 0))
    × (after_some.done_sent + after_some.err_sent ≤ 1)
unfolding taken refused
send_samples_example = send_samples_lem 3 (3 ∷ []) some_replies (omega arith, (omega arith, tt))

-- two of three replicas are alive, and one of them refuses
push_unanswered_example :
    let p = send_samples (replies (true ∷ false ∷ [])) (new_push_tracker (trackers_of (3 ∷ []))) in
    (p.done_sent ≡ 0) × (p.err_sent ≡ 0)
push_unanswered_example = push_unanswered 3 (true ∷ false ∷ []) (omega arith) (omega arith)

abbrev stream : ℕ → SampleStream
stream t = record {
  metric = (codes "__name__", codes "up") ∷ [];
  values = record { timestamp = pos t; value = 1 } ∷ [];
}

abbrev one_print : Metric → ℕ
one_print m = 5

query_ingesters_example :
    (r : Result QueryError (Dict ℕ SampleStream)) × (query_ingesters one_print 3
        (some (stream 3 ∷ []) ∷ none ∷ some (stream 2 ∷ []) ∷ [])
      ≡ some r)
    × IsOutcome one_print 2 (some (stream 3 ∷ []) ∷ none ∷ some (stream 2 ∷ []) ∷ []) r
query_ingesters_example =
    query_ingesters_lem one_print 3 (some (stream 3 ∷ []) ∷ none ∷ some (stream 2 ∷ []) ∷ [])
      (omega arith) refl (((tt, tt), tt), (((tt, tt), tt), tt))
