-- ===== src/Distributor.antt =====
-- distributor/distributor.go: a write goes to the replicas of each sample, and is answered when enough of
-- them have replied. The replies come in any order: a run is a list of them.
pub mod Quorum
pub mod Replies
pub mod Query
use cortex.Base.{
  ℕ, zero, suc, ◌+◌, ◌-◌, ◌/◌, List, [], ◌∷◌, ◌++◌, Bool, true, false, not, Bytes, bytes_ord,
  nat_ord, int_ord, ◌==◌, ltb, leb, if◌then◌else◌, Option, none, some, length, Result, ok, err,
  panic,
}
use cortex.Base.Int.{ℤ}
use cortex.Base.Dict
use cortex.Base.Dict.{Dict}
use cortex.Labels.{metric_name_label}
use cortex.Ring.{is_expired}
use cortex.Ring.Lookup.{Replica}

-- tokenForLabels: `token_for` is the hash of the user and the metric name
unfoldable pub token_for_labels : (Bytes → Bytes → ℕ) → Bytes → Dict Bytes Bytes → Option ℕ
token_for_labels token_for user [] = none
token_for_labels token_for user ((name, value) ∷ labels) =
    let rest = token_for_labels token_for user labels in
    if name == metric_name_label then some (token_for user value) else rest

pub record SampleTracker : Type 0 where
  pub min_success : ℕ
  pub max_failures : ℕ
  pub succeeded : ℕ
  pub failed : ℕ

-- A quorum of n replicas is n / 2 + 1. With no replica at all, Push returns before it uses the tracker.
unfoldable pub new_sample_tracker : ℕ → SampleTracker
new_sample_tracker n = record {
  min_success = n / 2 + 1;
  max_failures = n - (n / 2 + 1);
  succeeded = 0;
  failed = 0;
}

-- the replicas that have sent a heartbeat lately
unfoldable pub live_ingesters : ℤ → ℤ → List Replica → List Replica
unfolding is_expired
live_ingesters now timeout [] = []
live_ingesters now timeout ((id, ing) ∷ rs) =
    let rest = live_ingesters now timeout rs in
    if is_expired now timeout ing then rest else (id, ing) ∷ rest

-- What Push makes of the replicas of its samples: for each sample a tracker and the live replicas, or `none`
-- where a sample has too few of those.
unfoldable pub plan_push :
    ℤ → ℤ → List (List Replica) → Option (List (SampleTracker × List Replica))
unfolding new_sample_tracker live_ingesters
plan_push now timeout [] = some []
plan_push now timeout (rs ∷ rss) =
    let t = new_sample_tracker (length rs) in
    let live = live_ingesters now timeout rs in
    let rest : Option (List (SampleTracker × List Replica)) = elim (plan_push now timeout rss) [
      | none ↦ none
      | some plan ↦ some ((t, live) ∷ plan)
    ] in
    if ltb (length live) t.min_success then none else rest

-- The counters that the sending goroutines share, and how often each channel was written to.
-- `samples_pending` is 0 where the code's is 0 or below.
pub record PushTracker : Type 0 where
  pub samples : List SampleTracker
  pub samples_pending : ℕ
  pub samples_failed : ℕ
  pub done_sent : ℕ
  pub err_sent : ℕ

abbrev pub new_push_tracker : List SampleTracker → PushTracker
new_push_tracker ts = record {
  samples = ts;
  samples_pending = length ts;
  samples_failed = 0;
  done_sent = 0;
  err_sent = 0;
}

-- A success for the i-th sample, and whether it is the one that makes a quorum.
unfoldable pub add_success : ℕ → List SampleTracker → List SampleTracker × Bool
add_success i [] = ([], false)
add_success zero (t ∷ ts) =
    (record t { succeeded = t.succeeded + 1 } ∷ ts, t.succeeded + 1 == t.min_success)
add_success (suc i) (t ∷ ts) = let (ts', hit) = add_success i ts in (t ∷ ts', hit)

-- A failure for the i-th sample, and whether it is one too many.
unfoldable pub add_failure : ℕ → List SampleTracker → List SampleTracker × Bool
add_failure i [] = ([], false)
add_failure zero (t ∷ ts) =
    (record t { failed = t.failed + 1 } ∷ ts, not (leb (t.failed + 1) t.max_failures))
add_failure (suc i) (t ∷ ts) = let (ts', hit) = add_failure i ts in (t ∷ ts', hit)

-- One round of the loop of sendSamples: a sample, and whether its ingester took it.
unfoldable pub send_sample : ℕ × Bool → PushTracker → PushTracker
unfolding add_success add_failure
send_sample (i, true) p =
    let (ts, hit) = add_success i p.samples in
    if hit
    then record p {
      samples = ts;
      samples_pending = p.samples_pending - 1;
      done_sent = if p.samples_pending == 1 then p.done_sent + 1 else p.done_sent;
    }
    else record p { samples = ts }
send_sample (i, false) p =
    let (ts, hit) = add_failure i p.samples in
    if hit
    then record p {
      samples = ts;
      samples_failed = p.samples_failed + 1;
      err_sent = if p.samples_failed + 1 == 1 then p.err_sent + 1 else p.err_sent;
    }
    else record p { samples = ts }

-- the rounds of all the goroutines, in the order in which they happen
unfoldable pub send_samples : List (ℕ × Bool) → PushTracker → PushTracker
unfolding send_sample
send_samples [] p = p
send_samples (r ∷ rs) p = send_samples rs (send_sample r p)
