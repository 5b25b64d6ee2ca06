-- ===== src/Validate.antt =====
-- util/validate.go. The two regular expressions are tests of the bytes of a name, and a byte's number is
-- that of its character.
use cortex.Base.{
  ℕ, ◌≡◌, ◌≤◌, refl, ap, [], ◌∷◌, Bool, true, false, ◌&&◌, ◌||◌, Bytes, bytes_ord, nat_ord, ◌==◌,
  ltb, leb, All, Option, none, some, length, if◌then◌else◌, arith, inl, inr, Option-cases,
}
use cortex.Base.Dict
use cortex.Labels.{Metric, metric_name_label}
use cortex.Chunk.Entries.{has_null}

pub data ValidationError : Type 0 where
  missing_metric_name invalid_metric_name invalid_label : ValidationError
  label_name_too_long label_value_too_long : ValidationError

-- a-z, A-Z and the underscore
abbrev is_letter : ℕ → Bool
is_letter c = (leb 97 c && leb c 122) || (leb 65 c && leb c 90) || (c == 95)

abbrev is_digit : ℕ → Bool
is_digit c = leb 48 c && leb c 57

unfoldable pub all_bytes : (ℕ → Bool) → Bytes → Bool
all_bytes p [] = true
all_bytes p (c ∷ cs) = let rest = all_bytes p cs in if p c then rest else false

-- validLabelRE
unfoldable pub valid_label : Bytes → Bool
unfolding all_bytes
valid_label [] = false
valid_label (c ∷ cs) = is_letter c && all_bytes (λ d. is_letter d || is_digit d) cs

-- validMetricNameRE: a colon too
unfoldable pub valid_metric_name : Bytes → Bool
unfolding all_bytes
valid_metric_name [] = false
valid_metric_name (c ∷ cs) =
    (is_letter c || (c == 58)) && all_bytes (λ d. is_letter d || is_digit d || (d == 58)) cs

-- the loop over the labels
unfoldable pub validate_labels : Metric → Option ValidationError
unfolding valid_label
validate_labels [] = none
validate_labels ((name, value) ∷ m) =
    let rest = validate_labels m in
    if valid_label name
    then if ltb 1024 (length name)
      then some label_name_too_long
      else if ltb 4096 (length value)
      then some label_value_too_long
      else rest
    else some invalid_label

-- ValidateSample reads the sample's metric only.
unfoldable pub validate_sample : Metric → Option ValidationError
unfolding validate_labels valid_metric_name
validate_sample m =
    let labels = validate_labels m in
    elim (Dict.get m metric_name_label) [
      | none ↦ some missing_metric_name
      | some name ↦ if valid_metric_name name then labels else some invalid_metric_name
    ]

no_null : (p : ℕ → Bool) (cs : Bytes) → p 0 ≡ false → all_bytes p cs ≡ true → has_null cs ≡ false
unfolding all_bytes has_null
no_null p [] z h = refl
no_null p (c ∷ cs) z h = ground (arith, no_null p cs z, ap p)

valid_label-has_null : (name : Bytes) → valid_label name ≡ true → has_null name ≡ false
unfolding valid_label has_null
valid_label-has_null [] h = cc
valid_label-has_null (c ∷ cs) h = ground (arith, no_null (λ d. is_letter d || is_digit d) cs refl)

valid_metric_name-has_null : (name : Bytes) → valid_metric_name name ≡ true → has_null name ≡ false
unfolding valid_metric_name has_null
valid_metric_name-has_null [] h = cc
valid_metric_name-has_null (c ∷ cs) h =
    ground (arith, no_null (λ d. is_letter d || is_digit d || (d == 58)) cs refl)

abbrev pub IsLabel : Bytes × Bytes → Type 0
IsLabel l = (valid_label l.0 ≡ true) × (length l.0 ≤ 1024) × (length l.1 ≤ 4096)

abbrev pub IsSample : Metric → Bytes → Type 0
IsSample m name =
    (Dict.get m metric_name_label ≡ some name) × (valid_metric_name name ≡ true) × All IsLabel m

labels_of : (m : Metric) → validate_labels m ≡ none → All IsLabel m
unfolding validate_labels
labels_of [] h = tt
labels_of ((name, value) ∷ m) h =
    ((ground (arith, h), ground (arith, h), ground (arith, h)), labels_of m (ground (arith, h)))

of_labels : (m : Metric) → All IsLabel m → validate_labels m ≡ none
unfolding validate_labels
of_labels [] h = refl
of_labels ((name, value) ∷ m) h = ground (arith, h.0.0, h.0.1, h.0.2, of_labels m h.1)

All-has_null : (m : Metric) → All IsLabel m → All (λ l. has_null l.0 ≡ false) m
All-has_null [] h = tt
All-has_null ((name, value) ∷ m) h = (valid_label-has_null name h.0.0, All-has_null m h.1)

validate_sample-none :
    (m : Metric)
    → Dict.get m metric_name_label ≡ none
    → validate_sample m ≡ some missing_metric_name
unfolding validate_sample
validate_sample-none m h = rw (h, validate_sample) refl

validate_sample-some :
    (m : Metric) (name : Bytes)
    → Dict.get m metric_name_label ≡ some name
    → validate_sample m
      ≡ (if valid_metric_name name then validate_labels m else some invalid_metric_name)
unfolding validate_sample
validate_sample-some m name h = rw (h, validate_sample) refl

accepted :
    (m : Metric)
    → validate_sample m ≡ none
    → (name : Bytes) × (Dict.get m metric_name_label ≡ some name)
      × (valid_metric_name name ≡ true)
      × (validate_labels m ≡ none)
accepted m h = elim (Option-cases (Dict.get m metric_name_label)) [
  | inl e ↦ absurd (ground (arith, validate_sample-none m e))
  | inr (name, e) ↦
      let step = validate_sample-some m name e in
      (name, e, ground (arith, step, h), ground (arith, step, h))
]

-- A sample is accepted exactly if it has a metric name that is valid, and each of its labels has
-- a valid name of at most 1024 bytes and a value of at most 4096; the names of an accepted sample
-- have no null byte.
pub validate_sample_lem :
    (m : Metric)
    → (validate_sample m ≡ none
        → (name : Bytes) × IsSample m name
          × (has_null name ≡ false)
          × All (λ l. has_null l.0 ≡ false) m)
      × ((name : Bytes) → IsSample m name → validate_sample m ≡ none)
validate_sample_lem m = (
  λ h.
      let (name, found, valid, checked) = accepted m h in
      let labels = labels_of m checked in
      (name, (found, valid, labels), valid_metric_name-has_null name valid, All-has_null m labels),
  λ name h. rw (validate_sample-some m name h.0, h.1, of_labels m h.2) refl,
)
