-- ===== src/Distributor/Query.antt =====
-- distributor/distributor.go, queryIngesters: a query goes to all replicas, and the answers of a quorum are
-- merged, series by series. The replies are in the order in which they arrive, and an error is `none`.
-- `fingerprint_of` is model.Metric's Fingerprint.
use cortex.Base.{
  ℕ, zero, suc, ◌+◌, ◌-◌, ◌/◌, ◌≤◌, ◌<◌, ◌≡◌, refl, List, [], ◌∷◌, false, nat_ord, int_ord, ◌==◌,
  ltb, if◌then◌else◌, Option, none, some, length, Result, ok, err, panic, All, arith, Bool-cases,
  Option-cases, inl, inr,
}
use mathlib.Core.Path.{subst}
use mathlib.Core.Option.{some-injective}
use cortex.Base.Dict
use cortex.Base.Dict.{Dict}
use cortex.Base.Sorted.{IsStrict}
use cortex.Labels.{Metric}
use cortex.Samples.{SamplePair, timestamp_of, merge_samples, merge_samples_lem}

pub record SampleStream : Type 0 where
  pub metric : Metric
  pub values : List SamplePair

abbrev pub Matrix : Type 0
Matrix = List SampleStream

pub data QueryError : Type 0 where
  query_failed : QueryError

module _ (fingerprint_of : Metric → ℕ) where
  -- the loop over the series of one reply
  unfoldable pub add_matrix : Matrix → Dict ℕ SampleStream → Dict ℕ SampleStream
  unfolding merge_samples
  add_matrix [] acc = acc
  add_matrix (ss ∷ m) acc =
      let fp = fingerprint_of ss.metric in
      let mss : SampleStream = elim (Dict.get acc fp) [
        | none ↦ record { metric = ss.metric; values = merge_samples [] ss.values }
        | some old ↦ record old { values = merge_samples old.values ss.values }
      ] in
      add_matrix m (Dict.put acc fp mss)

  -- The loop until `left` more replies are in; `allowed` is how many more may fail. `none` is that it waits
  -- for ever.
  unfoldable pub gather :
      ℕ
      → ℕ
      → List (Option Matrix)
      → Dict ℕ SampleStream
      → Option (Result QueryError (Dict ℕ SampleStream))
  unfolding add_matrix
  gather zero allowed replies acc = some (ok acc)
  gather (suc left) allowed [] acc = none
  gather (suc left) allowed (some m ∷ replies) acc = gather left allowed replies (add_matrix m acc)
  gather (suc left) zero (none ∷ replies) acc = some (err query_failed)
  gather (suc left) (suc allowed) (none ∷ replies) acc = gather (suc left) allowed replies acc

  -- queryIngesters on n ingesters
  unfoldable pub query_ingesters :
      ℕ → List (Option Matrix) → Option (Result QueryError (Dict ℕ SampleStream))
  unfolding gather
  query_ingesters n replies =
      let min_success = n / 2 + 1 in
      if ltb n min_success
      then some (err query_failed)
      else gather min_success (n - min_success) replies []

  -- every series in strict order of time
  abbrev pub AreStrict : Dict ℕ SampleStream → Type 0
  AreStrict acc = All (λ e. IsStrict timestamp_of (e.1.values)) acc

  abbrev pub AreReplies : List (Option Matrix) → Type 0
  AreReplies [] = Unit
  AreReplies (none ∷ rs) = AreReplies rs
  AreReplies (some m ∷ rs) = All (λ ss. IsStrict timestamp_of (ss.values)) m × AreReplies rs

  put-AreStrict :
      (acc : Dict ℕ SampleStream) (fp : ℕ) (ss : SampleStream)
      → AreStrict acc
      → IsStrict timestamp_of ss.values
      → AreStrict (Dict.put acc fp ss)
  unfolding Dict.put
  put-AreStrict [] fp ss a s = (s, tt)
  put-AreStrict ((k, v) ∷ acc) fp ss a s = elim (Bool-cases (k == fp)) [
    | inl e ↦ rw e (s, a.1)
    | inr e ↦ rw e (a.0, put-AreStrict acc fp ss a.1 s)
  ]

  get-AreStrict :
      (acc : Dict ℕ SampleStream) (fp : ℕ) (ss : SampleStream)
      → AreStrict acc
      → Dict.get acc fp ≡ some ss
      → IsStrict timestamp_of ss.values
  unfolding Dict.get
  get-AreStrict [] fp ss a e = cc
  get-AreStrict ((k, v) ∷ acc) fp ss a e = elim (Bool-cases (k == fp)) [
    | inl q ↦ subst (λ x. IsStrict timestamp_of x.values) (some-injective v ss (rw q at e)) a.0
    | inr q ↦ get-AreStrict acc fp ss a.1 (rw q at e)
  ]

  add_matrix-AreStrict :
      (m : Matrix) (acc : Dict ℕ SampleStream)
      → All (λ ss. IsStrict timestamp_of (ss.values)) m
      → AreStrict acc
      → AreStrict (add_matrix m acc)
  unfolding add_matrix
  add_matrix-AreStrict [] acc h a = a
  add_matrix-AreStrict (ss ∷ m) acc h a =
      elim (Option-cases (Dict.get acc (fingerprint_of ss.metric))) [
        | inl e ↦ rw e (
            add_matrix-AreStrict m _ h.1
              (put-AreStrict acc _ _ a (merge_samples_lem [] ss.values tt h.0).0))
        | inr (old, e) ↦ rw e (
            add_matrix-AreStrict m _ h.1 (
              put-AreStrict acc _ _ a
                (merge_samples_lem old.values ss.values (get-AreStrict acc _ old a e) h.0).0))
      ]

  -- the outcome: an answer where enough replies are answers, and an error where they are not
  abbrev pub answers : List (Option Matrix) → ℕ
  answers [] = 0
  answers (none ∷ rs) = answers rs
  answers (some m ∷ rs) = 1 + answers rs

  -- What a query may be answered with, where `left` answers are wanted: those series in strict order of time
  -- where so many replies are answers, and an error where they are not.
  abbrev pub IsOutcome : ℕ → List (Option Matrix) → Result QueryError (Dict ℕ SampleStream) → Type 0
  IsOutcome left replies (ok acc) = (left ≤ answers replies) × AreStrict acc
  IsOutcome left replies (err e) = answers replies < left
  IsOutcome left replies panic = ⊥

  answers-le-length : (rs : List (Option Matrix)) → answers rs ≤ length rs
  answers-le-length [] = omega arith
  answers-le-length (none ∷ rs) = omega (arith, answers-le-length rs)
  answers-le-length (some m ∷ rs) = omega (arith, answers-le-length rs)

  more_left :
      (left : ℕ) (m : Matrix) (rs : List (Option Matrix))
      (r : Result QueryError (Dict ℕ SampleStream))
      → IsOutcome left rs r
      → IsOutcome (suc left) (some m ∷ rs) r
  more_left left m rs (ok acc) h = (omega (arith, h.0), h.1)
  more_left left m rs (err e) h = omega arith
  more_left left m rs panic h = h

  same_left :
      (left : ℕ) (rs : List (Option Matrix)) (r : Result QueryError (Dict ℕ SampleStream))
      → IsOutcome left rs r
      → IsOutcome left (none ∷ rs) r
  same_left left rs (ok acc) h = h
  same_left left rs (err e) h = h
  same_left left rs panic h = h

  gather_lem :
      (left allowed : ℕ) (rs : List (Option Matrix)) (acc : Dict ℕ SampleStream)
      → left + allowed ≡ length rs
      → AreReplies rs
      → AreStrict acc
      → (r : Result QueryError (Dict ℕ SampleStream)) × (gather left allowed rs acc ≡ some r)
        × IsOutcome left rs r
  unfolding gather
  gather_lem zero allowed rs acc e h a = (ok acc, refl, (omega arith, a))
  gather_lem (suc left) allowed [] acc e h a = absurd (omega arith)
  gather_lem (suc left) allowed (some m ∷ rs) acc e h a =
      let (r, q, o) =
        gather_lem left allowed rs (add_matrix m acc) (omega arith) h.1
          (add_matrix-AreStrict m acc h.0 a) in
      (r, q, more_left left m rs r o)
  gather_lem (suc left) zero (none ∷ rs) acc e h a =
      (err query_failed, refl, omega (arith, answers-le-length rs))
  gather_lem (suc left) (suc allowed) (none ∷ rs) acc e h a =
      let (r, q, o) = gather_lem (suc left) allowed rs acc (omega arith) h a in
      (r, q, same_left (suc left) rs r o)

  -- With one reply from each of n ingesters, n positive, a query never waits for ever: it is
  -- answered where a quorum of the replies are answers, and then every series of it is in
  -- strict order of time as those of the replies are, and fails where they are not.
  pub query_ingesters_lem :
      (n : ℕ) (rs : List (Option Matrix))
      → 0 < n
      → length rs ≡ n
      → AreReplies rs
      → (r : Result QueryError (Dict ℕ SampleStream)) × (query_ingesters n rs ≡ some r)
        × IsOutcome (n / 2 + 1) rs r
  unfolding query_ingesters
  query_ingesters_lem n rs pos len h =
      let enough : ltb n (n / 2 + 1) ≡ false = not_less n pos in
      let (r, q, o) = gather_lem (n / 2 + 1) (n - (n / 2 + 1)) rs [] (omega arith) h tt in
      (r, rw (enough, query_ingesters) q, o)
    where
      not_less : (n : ℕ) → 0 < n → ltb n (n / 2 + 1) ≡ false
      not_less n h = ground arith
