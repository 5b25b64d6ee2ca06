-- ===== src/Ring/Owned.antt =====
-- ring/ring.go, countTokens: how much of the ring each ingester owns. All numbers are uint32.
use cortex.Base.{
  ℕ, ◌+◌, ◌-◌, ◌%◌, ◌≤◌, ◌<◌, ◌≡◌, List, [], ◌∷◌, Bytes, bytes_ord, nat_ord, ◌==◌, length, All,
  arith, Option, none, some, Bool-cases, inl, inr,
}
use cortex.Base.Dict
use cortex.Base.Dict.{Dict}
use cortex.Base.Sorted.{IsSorted}
use cortex.Ring.{TokenDesc, token_of}

abbrev pub max_uint32 : ℕ
max_uint32 = 4294967295

abbrev pub u32 : ℕ → ℕ
u32 n = n % 4294967296

-- a - b in uint32
abbrev pub sub32 : ℕ → ℕ → ℕ
sub32 a b = (a + 4294967296 - b) % 4294967296

-- a missing key reads as zero
abbrev or_zero : Option ℕ → ℕ
or_zero none = 0
or_zero (some n) = n

-- m[k] = m[k] + n
unfoldable pub add_to : Dict Bytes ℕ → Bytes → ℕ → Dict Bytes ℕ
add_to m k n = Dict.put m k (u32 (or_zero (Dict.get m k) + n))

-- the loop over the tokens, from some token on; `first` is tokens[0].Token
count_from : ℕ → List TokenDesc → Dict Bytes ℕ × Dict Bytes ℕ → Dict Bytes ℕ × Dict Bytes ℕ
unfolding add_to
count_from first [] (num_tokens, owned) = (num_tokens, owned)
count_from first (t ∷ []) (num_tokens, owned) = (
  add_to num_tokens t.ingester 1,
  add_to owned t.ingester (u32 (sub32 max_uint32 t.token + first)),
)
count_from first (t ∷ u ∷ ts) (num_tokens, owned) =
    count_from first (u ∷ ts)
      (add_to num_tokens t.ingester 1, add_to owned t.ingester (sub32 u.token t.token))

unfoldable pub count_tokens : List TokenDesc → Dict Bytes ℕ × Dict Bytes ℕ
unfolding count_from
count_tokens [] = ([], [])
count_tokens (t ∷ ts) = count_from t.token (t ∷ ts) ([], [])

-- The sum over the map's entries.
abbrev pub total : Dict Bytes ℕ → ℕ
total [] = 0
total ((id, n) ∷ m) = n + total m

total-put :
    (m : Dict Bytes ℕ) (k : Bytes) (v : ℕ)
    → total (Dict.put m k v) + or_zero (Dict.get m k) ≡ total m + v
unfolding Dict.put Dict.get
total-put [] k v = omega arith
total-put ((j, w) ∷ m) k v = elim (Bool-cases (j == k)) [
  | inl e ↦ rw e (omega arith)
  | inr e ↦ rw e (omega (arith, total-put m k v))
]

get-le-total : (m : Dict Bytes ℕ) (k : Bytes) → or_zero (Dict.get m k) ≤ total m
unfolding Dict.get
get-le-total [] k = omega arith
get-le-total ((j, w) ∷ m) k = elim (Bool-cases (j == k)) [
  | inl e ↦ rw e (omega arith)
  | inr e ↦ rw e (omega (arith, get-le-total m k))
]

-- Adding to an entry adds to the sum, where the sum has room.
total-add_to :
    (m : Dict Bytes ℕ) (id : Bytes) (n : ℕ)
    → total m + n < 4294967296
    → total (add_to m id n) ≡ total m + n
unfolding add_to
total-add_to m id n h =
    omega (arith, total-put m id (u32 (or_zero (Dict.get m id) + n)), get-le-total m id)

-- tokens are uint32
abbrev pub Are32 : List TokenDesc → Type 0
Are32 ts = All (λ t. t.token ≤ max_uint32) ts

count_from-total :
    (first : ℕ) (t : TokenDesc) (ts : List TokenDesc) (num owned : Dict Bytes ℕ)
    → first ≤ t.token
    → IsSorted token_of (t ∷ ts)
    → Are32 (t ∷ ts)
    → total owned ≡ t.token - first
    → total num + length (t ∷ ts) ≤ max_uint32
    → (total (count_from first (t ∷ ts) (num, owned)).0 ≡ total num + length (t ∷ ts))
      × (total (count_from first (t ∷ ts) (num, owned)).1 ≡ max_uint32)
unfolding count_from
count_from-total first t [] num owned f s b o n = (
  omega (arith, total-add_to num t.ingester 1),
  omega (arith, total-add_to owned t.ingester (u32 (sub32 max_uint32 t.token + first)), b.0),
)
count_from-total first t (u ∷ ts) num owned f s b o n =
    let le : t.token ≤ u.token = ground (arith, s.0.0) in
    let num' : total (add_to num t.ingester 1) ≡ total num + 1 =
      total-add_to num t.ingester 1 (omega arith) in
    let owned' : total (add_to owned t.ingester (sub32 u.token t.token)) ≡ u.token - first =
      omega (arith, total-add_to owned t.ingester (sub32 u.token t.token), b.1.0) in
    let (x, y) =
      count_from-total first u ts (add_to num t.ingester 1)
        (add_to owned t.ingester (sub32 u.token t.token)) (omega arith) s.1 b.1 owned'
        (omega arith) in
    (omega arith, y)

-- On a sorted ring with a token, whose tokens and number of tokens are uint32, the parts that the
-- ingesters own sum to the greatest uint32 and the token counts to the number of tokens.
pub count_tokens-total :
    (tokens : List TokenDesc)
    → IsSorted token_of tokens
    → Are32 tokens
    → 0 < length tokens
    → length tokens ≤ max_uint32
    → (total (count_tokens tokens).0 ≡ length tokens) × (total (count_tokens tokens).1 ≡ max_uint32)
unfolding count_tokens
count_tokens-total [] s b p l = elim p [ ]
count_tokens-total (t ∷ ts) s b p l =
    let (x, y) =
      count_from-total t.token t ts [] [] (omega arith) s b (omega arith) (omega arith) in
    (omega arith, y)
