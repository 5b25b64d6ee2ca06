-- ===== src/Distributor/Replies.antt =====
-- What a write of several samples is answered, told by the replies (distributor/distributor.go, sendSamples).
use cortex.Base.{
  ℕ, zero, suc, ◌+◌, ◌-◌, ◌/◌, ◌≤◌, ◌<◌, ◌≡◌, refl, sym, ap, ◌∙◌, List, [], ◌∷◌, Bool, true, false,
  not, ◌&&◌, ◌||◌, nat_ord, ◌==◌, ltb, leb, if◌then◌else◌, arith, Bool-cases, inl, inr,
}
use cortex.Distributor.{
  SampleTracker, PushTracker, new_sample_tracker, new_push_tracker, add_success, add_failure,
  send_sample, send_samples,
}
use cortex.Distributor.Quorum.{
  bit, waiting, excess, trackers_of, fresh-IsPush, send_samples-IsPush, send_sample-success,
  send_sample-failure,
}

-- how many ingesters took the i-th sample, and how many refused it
unfoldable pub taken : ℕ → List (ℕ × Bool) → ℕ
taken i [] = 0
taken i ((j, took) ∷ rs) = bit ((i == j) && took) + taken i rs

unfoldable pub refused : ℕ → List (ℕ × Bool) → ℕ
refused i [] = 0
refused i ((j, took) ∷ rs) = bit ((i == j) && not took) + refused i rs

-- Of samples from the i-th on, with so many replicas each: more than half of the replicas of each took it.
unfoldable pub all_reached : ℕ → List ℕ → List (ℕ × Bool) → Bool
unfolding taken
all_reached i [] rs = true
all_reached i (n ∷ ns) rs = leb (n / 2 + 1) (taken i rs) && all_reached (suc i) ns rs

-- So many replicas of one of them refused it that those left are no quorum.
unfoldable pub any_lost : ℕ → List ℕ → List (ℕ × Bool) → Bool
unfolding refused
any_lost i [] rs = false
any_lost i (n ∷ ns) rs = ltb (n - (n / 2 + 1)) (refused i rs) || any_lost (suc i) ns rs

-- No sample has more replies than replicas.
abbrev pub AreReplies : ℕ → List ℕ → List (ℕ × Bool) → Type 0
AreReplies i [] rs = Unit
AreReplies i (n ∷ ns) rs = (taken i rs + refused i rs ≤ n) × AreReplies (suc i) ns rs

-- the trackers with the replies counted in
plus : ℕ → List SampleTracker → List (ℕ × Bool) → List SampleTracker
plus i [] rs = []
plus i (t ∷ ts) rs =
    record t { succeeded = t.succeeded + taken i rs; failed = t.failed + refused i rs }
    ∷ plus (suc i) ts rs

abbrev tracker : ℕ → ℕ → ℕ → ℕ → SampleTracker
tracker a b s f = record { min_success = a; max_failures = b; succeeded = s; failed = f }

tracker_eq :
    (a b s s' f f' : ℕ) (ts us : List SampleTracker)
    → s ≡ s'
    → f ≡ f'
    → ts ≡ us
    → tracker a b s f ∷ ts ≡ tracker a b s' f' ∷ us
tracker_eq a b s s' f f' ts us e g h = rw (e, g, h) refl

plus-skip :
    (k : ℕ) (took : Bool) (rs : List (ℕ × Bool)) (i : ℕ) (ts : List SampleTracker)
    → k < i
    → plus i ts ((k, took) ∷ rs) ≡ plus i ts rs
unfolding plus taken refused
plus-skip k took rs i [] h = refl
plus-skip k took rs i (t ∷ ts) h =
    let other : (i == k) ≡ false = ground arith in
    rw other (
      tracker_eq t.min_success t.max_failures _ _ _ _ _ _ (omega arith) (omega arith)
        (plus-skip k took rs (suc i) ts (omega arith)))

plus-add_success :
    (rs : List (ℕ × Bool)) (k i j : ℕ) (ts : List SampleTracker)
    → k ≡ i + j
    → plus i (add_success j ts).0 rs ≡ plus i ts ((k, true) ∷ rs)
unfolding plus taken refused add_success
plus-add_success rs k i j [] e = refl
plus-add_success rs k i zero (t ∷ ts) e =
    let same : (i == k) ≡ true = ground arith in
    rw same (
      tracker_eq t.min_success t.max_failures _ _ _ _ _ _ (omega arith) (omega arith)
        (sym (plus-skip k true rs (suc i) ts (omega arith))))
plus-add_success rs k i (suc j) (t ∷ ts) e =
    let other : (i == k) ≡ false = ground arith in
    rw other (
      tracker_eq t.min_success t.max_failures _ _ _ _ _ _ (omega arith) (omega arith)
        (plus-add_success rs k (suc i) j ts (omega arith)))

plus-add_failure :
    (rs : List (ℕ × Bool)) (k i j : ℕ) (ts : List SampleTracker)
    → k ≡ i + j
    → plus i (add_failure j ts).0 rs ≡ plus i ts ((k, false) ∷ rs)
unfolding plus taken refused add_failure
plus-add_failure rs k i j [] e = refl
plus-add_failure rs k i zero (t ∷ ts) e =
    let same : (i == k) ≡ true = ground arith in
    rw same (
      tracker_eq t.min_success t.max_failures _ _ _ _ _ _ (omega arith) (omega arith)
        (sym (plus-skip k false rs (suc i) ts (omega arith))))
plus-add_failure rs k i (suc j) (t ∷ ts) e =
    let other : (i == k) ≡ false = ground arith in
    rw other (
      tracker_eq t.min_success t.max_failures _ _ _ _ _ _ (omega arith) (omega arith)
        (plus-add_failure rs k (suc i) j ts (omega arith)))

plus_nil : (i : ℕ) (ts : List SampleTracker) → plus i ts [] ≡ ts
unfolding plus taken refused
plus_nil i [] = refl
plus_nil i (t ∷ ts) =
    tracker_eq t.min_success t.max_failures _ _ _ _ _ _ (omega arith) (omega arith)
      (plus_nil (suc i) ts)

-- Each reply is counted for its own sample.
samples-send_samples :
    (rs : List (ℕ × Bool)) (p : PushTracker) → (send_samples rs p).samples ≡ plus 0 p.samples rs
unfolding send_samples
samples-send_samples [] p = sym (plus_nil 0 p.samples)
samples-send_samples ((j, true) ∷ rs) p =
    samples-send_samples rs (send_sample (j, true) p)
    ∙ ap (λ ts. plus 0 ts rs) (send_sample-success j p)
    ∙ plus-add_success rs j 0 j p.samples (omega arith)
samples-send_samples ((j, false) ∷ rs) p =
    samples-send_samples rs (send_sample (j, false) p)
    ∙ ap (λ ts. plus 0 ts rs) (send_sample-failure j p)
    ∙ plus-add_failure rs j 0 j p.samples (omega arith)

waiting-plus :
    (i : ℕ) (ns : List ℕ) (rs : List (ℕ × Bool))
    → (waiting (plus i (trackers_of ns) rs) == 0) ≡ all_reached i ns rs
unfolding waiting plus all_reached new_sample_tracker
waiting-plus i [] rs = refl
waiting-plus i (n ∷ ns) rs = ground (arith, waiting-plus (suc i) ns rs)

excess-plus :
    (i : ℕ) (ns : List ℕ) (rs : List (ℕ × Bool))
    → (excess (plus i (trackers_of ns) rs) == 0) ≡ not (any_lost i ns rs)
unfolding excess plus any_lost new_sample_tracker
excess-plus i [] rs = refl
excess-plus i (n ∷ ns) rs = ground (arith, excess-plus (suc i) ns rs)

not_both :
    (i n : ℕ) (ns : List ℕ) (rs : List (ℕ × Bool))
    → AreReplies i (n ∷ ns) rs
    → all_reached i (n ∷ ns) rs ≡ true
    → any_lost i (n ∷ ns) rs ≡ false
unfolding all_reached any_lost
not_both i n [] rs h r = ground (arith, h.0)
not_both i n (m ∷ ns) rs h r = ground (arith, h.0, not_both (suc i) m ns rs h.1)

-- For a write of at least one sample, and any order of the replies, no more for a sample than it
-- has replicas: done is sent once if each sample was taken by n / 2 + 1 of its n replicas and
-- else not at all; err is sent once if one sample was refused by more than n - (n / 2 + 1) of its
-- n replicas and else not at all; and never both.
pub send_samples_lem :
    (n : ℕ) (ns : List ℕ) (rs : List (ℕ × Bool))
    → AreReplies 0 (n ∷ ns) rs
    → let p = send_samples rs (new_push_tracker (trackers_of (n ∷ ns))) in
      (p.done_sent ≡ (if all_reached 0 (n ∷ ns) rs then 1 else 0))
      × (p.err_sent ≡ (if any_lost 0 (n ∷ ns) rs then 1 else 0))
      × (p.done_sent + p.err_sent ≤ 1)
send_samples_lem n ns rs h =
    let start = new_push_tracker (trackers_of (n ∷ ns)) in
    let w = send_samples-IsPush rs start (fresh-IsPush (n ∷ ns) (omega arith)) in
    let counted = samples-send_samples rs start in
    let done : (send_samples rs start).done_sent ≡ (if all_reached 0 (n ∷ ns) rs then 1 else 0) =
      w.done_once
      ∙ ap (λ b. if b then 1 else 0)
          (ap (λ ts. waiting ts == 0) counted ∙ waiting-plus 0 (n ∷ ns) rs) in
    let lost : (send_samples rs start).err_sent ≡ (if any_lost 0 (n ∷ ns) rs then 1 else 0) =
      w.err_once
      ∙ ap (λ b. if b then 0 else 1) (ap (λ ts. excess ts == 0) counted ∙ excess-plus 0 (n ∷ ns) rs)
      ∙ negated (any_lost 0 (n ∷ ns) rs) in
    (
      done,
      lost,
      elim (Bool-cases (all_reached 0 (n ∷ ns) rs)) [
        | inl t ↦ ground (arith, done, lost, not_both 0 n ns rs h t)
        | inr f ↦ ground (arith, done, lost)
      ],
    )
  where
    negated : (b : Bool) → ◌≡◌ {A = ℕ} (if not b then 0 else 1) (if b then 1 else 0)
    negated true = refl
    negated false = refl
