-- ===== src/Distributor/Quorum.antt =====
-- When a write is answered, and with what.
use cortex.Base.{
  ℕ, zero, suc, ◌+◌, ◌-◌, ◌/◌, ◌≤◌, ◌<◌, ◌≡◌, refl, sym, ap, ◌∙◌, List, [], ◌∷◌, Bool, true, false,
  not, nat_ord, ◌==◌, ltb, if◌then◌else◌, length, arith, Bool-cases, inl, inr,
}
use cortex.Distributor.{
  SampleTracker, PushTracker, new_sample_tracker, new_push_tracker, add_success, add_failure,
  send_sample, send_samples,
}

abbrev pub bit : Bool → ℕ
bit true = 1
bit false = 0

-- how many samples have no quorum yet
unfoldable pub waiting : List SampleTracker → ℕ
waiting [] = 0
waiting (t ∷ ts) = bit (ltb t.succeeded t.min_success) + waiting ts

-- how many failures there are beyond those allowed
unfoldable pub excess : List SampleTracker → ℕ
excess [] = 0
excess (t ∷ ts) = (t.failed - t.max_failures) + excess ts

-- The counters are what the trackers say; `done` was sent once if all samples have a quorum, and `err` once
-- if a sample has too many failures.
pub record IsPush (p : PushTracker) : Type 0 where
  pub pending : p.samples_pending ≡ waiting p.samples
  pub failures : p.samples_failed ≡ excess p.samples
  pub done_once : p.done_sent ≡ (if waiting p.samples == 0 then 1 else 0)
  pub err_once : p.err_sent ≡ (if excess p.samples == 0 then 0 else 1)

add_success_lem :
    (i : ℕ) (ts : List SampleTracker)
    → (bit (add_success i ts).1 + waiting (add_success i ts).0 ≡ waiting ts)
      × (excess (add_success i ts).0 ≡ excess ts)
unfolding add_success waiting excess
add_success_lem i [] = (refl, refl)
add_success_lem zero (t ∷ ts) = (ground arith, refl)
add_success_lem (suc i) (t ∷ ts) = let (a, b) = add_success_lem i ts in (omega arith, omega arith)

add_failure_lem :
    (i : ℕ) (ts : List SampleTracker)
    → (waiting (add_failure i ts).0 ≡ waiting ts)
      × (excess (add_failure i ts).0 ≡ bit (add_failure i ts).1 + excess ts)
unfolding add_failure waiting excess
add_failure_lem i [] = (refl, refl)
add_failure_lem zero (t ∷ ts) = (refl, ground arith)
add_failure_lem (suc i) (t ∷ ts) = let (a, b) = add_failure_lem i ts in (omega arith, omega arith)

send_sample-IsPush : (r : ℕ × Bool) (p : PushTracker) → IsPush p → IsPush (send_sample r p)
unfolding send_sample
send_sample-IsPush (i, true) p w = elim (Bool-cases (add_success i p.samples).1) [
  | inl e ↦
      let (a, b) = add_success_lem i p.samples in
      let less : 1 + waiting (add_success i p.samples).0 ≡ waiting p.samples = rw e at a in
      rw e (record {
        pending = omega (arith, less, w.pending);
        failures = w.failures ∙ sym b;
        done_once = ground (arith, less, w.pending, w.done_once);
        err_once = rw b w.err_once;
      })
  | inr e ↦
      let (a, b) = add_success_lem i p.samples in
      let same : waiting p.samples ≡ waiting (add_success i p.samples).0 =
        sym (rw e at a) ∙ omega arith in
      rw e (record {
        pending = w.pending ∙ same;
        failures = w.failures ∙ sym b;
        done_once = rw (sym same) w.done_once;
        err_once = rw b w.err_once;
      })
]
send_sample-IsPush (i, false) p w = elim (Bool-cases (add_failure i p.samples).1) [
  | inl e ↦
      let (a, b) = add_failure_lem i p.samples in
      let more : excess (add_failure i p.samples).0 ≡ 1 + excess p.samples = rw e at b in
      rw e (record {
        pending = w.pending ∙ sym a;
        failures = omega (arith, more, w.failures);
        done_once = rw a w.done_once;
        err_once = ground (arith, more, w.failures, w.err_once);
      })
  | inr e ↦
      let (a, b) = add_failure_lem i p.samples in
      let same : excess (add_failure i p.samples).0 ≡ excess p.samples =
        (rw e at b) ∙ omega arith in
      rw e (record {
        pending = w.pending ∙ sym a;
        failures = w.failures ∙ sym same;
        done_once = rw a w.done_once;
        err_once = rw same w.err_once;
      })
]

pub send_samples-IsPush :
    (rs : List (ℕ × Bool)) (p : PushTracker) → IsPush p → IsPush (send_samples rs p)
unfolding send_samples
send_samples-IsPush [] p w = w
send_samples-IsPush (r ∷ rs) p w =
    send_samples-IsPush rs (send_sample r p) (send_sample-IsPush r p w)

-- the trackers of samples with so many replicas each
abbrev pub trackers_of : List ℕ → List SampleTracker
trackers_of [] = []
trackers_of (n ∷ ns) = new_sample_tracker n ∷ trackers_of ns

trackers_of-fresh :
    (ns : List ℕ)
    → (waiting (trackers_of ns) ≡ length (trackers_of ns)) × (excess (trackers_of ns) ≡ 0)
unfolding waiting excess new_sample_tracker
trackers_of-fresh [] = (refl, refl)
trackers_of-fresh (n ∷ ns) = let (a, b) = trackers_of-fresh ns in (ground arith, omega arith)

pub fresh-IsPush :
    (ns : List ℕ) → 0 < length (trackers_of ns) → IsPush (new_push_tracker (trackers_of ns))
fresh-IsPush ns h =
    let (a, b) = trackers_of-fresh ns in
    record { pending = sym a; failures = sym b; done_once = ground arith; err_once = ground arith }

-- the replies of a write of one sample
abbrev pub replies : List Bool → List (ℕ × Bool)
replies [] = []
replies (b ∷ bs) = (0, b) ∷ replies bs

abbrev pub successes : List Bool → ℕ
successes [] = 0
successes (b ∷ bs) = bit b + successes bs

abbrev pub refusals : List Bool → ℕ
refusals [] = 0
refusals (b ∷ bs) = bit (not b) + refusals bs

pub send_sample-success :
    (i : ℕ) (p : PushTracker) → (send_sample (i, true) p).samples ≡ (add_success i p.samples).0
unfolding send_sample
send_sample-success i p = elim (Bool-cases (add_success i p.samples).1) [
  | inl e ↦ rw e refl
  | inr e ↦ rw e refl
]

pub send_sample-failure :
    (i : ℕ) (p : PushTracker) → (send_sample (i, false) p).samples ≡ (add_failure i p.samples).0
unfolding send_sample
send_sample-failure i p = elim (Bool-cases (add_failure i p.samples).1) [
  | inl e ↦ rw e refl
  | inr e ↦ rw e refl
]

-- one sample of n replicas, with so many successes and failures
record HasReplies (n s f : ℕ) (p : PushTracker) : Type 0 where
  tracker : SampleTracker
  only : p.samples ≡ tracker ∷ []
  quorum : tracker.min_success ≡ n / 2 + 1
  allowed : tracker.max_failures ≡ n - (n / 2 + 1)
  taken : tracker.succeeded ≡ s
  refused : tracker.failed ≡ f

send_samples-HasReplies :
    (n s f : ℕ) (bs : List Bool) (p : PushTracker)
    → HasReplies n s f p
    → HasReplies n (s + successes bs) (f + refusals bs) (send_samples (replies bs) p)
unfolding send_samples add_success add_failure
send_samples-HasReplies n s f [] p h = record {
  tracker = h.tracker;
  only = h.only;
  quorum = h.quorum;
  allowed = h.allowed;
  taken = omega (arith, h.taken);
  refused = omega (arith, h.refused);
}
send_samples-HasReplies n s f (true ∷ bs) p h =
    let next : HasReplies n (s + 1) f (send_sample (0, true) p) = record {
      tracker = record h.tracker { succeeded = h.tracker.succeeded + 1 };
      only = send_sample-success 0 p ∙ ap (λ ts. (add_success 0 ts).0) h.only;
      quorum = h.quorum;
      allowed = h.allowed;
      taken = ap (λ k. k + 1) h.taken;
      refused = h.refused;
    } in
    recount (s + 1 + successes bs) (f + refusals bs) (omega arith) (omega arith)
      (send_samples-HasReplies n (s + 1) f bs (send_sample (0, true) p) next)
  where
    recount :
        (a b : ℕ) {q : PushTracker}
        → a ≡ s + (1 + successes bs)
        → b ≡ f + (0 + refusals bs)
        → HasReplies n a b q
        → HasReplies n (s + (1 + successes bs)) (f + (0 + refusals bs)) q
    recount a b x y r = rw (sym x, sym y) r
send_samples-HasReplies n s f (false ∷ bs) p h =
    let next : HasReplies n s (f + 1) (send_sample (0, false) p) = record {
      tracker = record h.tracker { failed = h.tracker.failed + 1 };
      only = send_sample-failure 0 p ∙ ap (λ ts. (add_failure 0 ts).0) h.only;
      quorum = h.quorum;
      allowed = h.allowed;
      taken = h.taken;
      refused = ap (λ k. k + 1) h.refused;
    } in
    recount (s + successes bs) (f + 1 + refusals bs) (omega arith) (omega arith)
      (send_samples-HasReplies n s (f + 1) bs (send_sample (0, false) p) next)
  where
    recount :
        (a b : ℕ) {q : PushTracker}
        → a ≡ s + (0 + successes bs)
        → b ≡ f + (1 + refusals bs)
        → HasReplies n a b q
        → HasReplies n (s + (0 + successes bs)) (f + (1 + refusals bs)) q
    recount a b x y r = rw (sym x, sym y) r

unanswered :
    (n s f : ℕ) (p : PushTracker)
    → IsPush p
    → HasReplies n s f p
    → s < n / 2 + 1
    → f ≤ n - (n / 2 + 1)
    → (p.done_sent ≡ 0) × (p.err_sent ≡ 0)
unanswered n s f p w h less few =
    let one : waiting p.samples ≡ 1 =
      ap waiting h.only ∙ waits h.tracker (rw (h.taken, h.quorum) less) in
    let zero : excess p.samples ≡ 0 =
      ap excess h.only ∙ none_over h.tracker (rw (h.refused, h.allowed) few) in
    (ground (arith, w.done_once, one), ground (arith, w.err_once, zero))
  where
    waits : (t : SampleTracker) → t.succeeded < t.min_success → waiting (t ∷ []) ≡ 1
    waits t h = unfold waiting in ground arith

    none_over : (t : SampleTracker) → t.failed ≤ t.max_failures → excess (t ∷ []) ≡ 0
    none_over t h = unfold excess in omega arith

-- A write of one sample of n replicas that gets fewer successes than a quorum, and no more
-- failures than those allowed of n replicas, is not answered, neither with success nor with an
-- error.
pub push_unanswered :
    (n : ℕ) (bs : List Bool)
    → successes bs < n / 2 + 1
    → refusals bs ≤ n - (n / 2 + 1)
    → let p = send_samples (replies bs) (new_push_tracker (trackers_of (n ∷ []))) in
      (p.done_sent ≡ 0) × (p.err_sent ≡ 0)
unfolding new_sample_tracker
push_unanswered n bs less few =
    let start = new_push_tracker (trackers_of (n ∷ [])) in
    let none_yet : HasReplies n 0 0 start = record {
      tracker = new_sample_tracker n;
      only = refl;
      quorum = refl;
      allowed = refl;
      taken = refl;
      refused = refl;
    } in
    unanswered n (0 + successes bs) (0 + refusals bs) (send_samples (replies bs) start)
      (send_samples-IsPush (replies bs) start (fresh-IsPush (n ∷ []) (omega arith)))
      (send_samples-HasReplies n 0 0 bs start none_yet) (omega arith) (omega arith)
