-- ===== src/Ring/Position.antt =====
-- Where the walk for a key starts.
use cortex.Base.{
  ℕ, ◌≡◌, refl, List, [], ◌∷◌, true, nat_ord, ltb, leb, if◌then◌else◌, length, All, arith,
}
use cortex.Base.Search.{first_index, Monotone, search_list-eq-first_index}
use cortex.Base.Sorted.{FromKey, IsSorted}
use cortex.Ring.{TokenDesc, token_of}
use cortex.Ring.Lookup.{search}

FromKey-after :
    (key k : ℕ) (ts : List TokenDesc)
    → ltb key k ≡ true
    → FromKey token_of k ts
    → All (λ t. ltb key t.token ≡ true) ts
FromKey-after key k [] h s = tt
FromKey-after key k (t ∷ ts) h s = (ground arith, FromKey-after key k ts h s.1)

IsSorted-Monotone :
    (key : ℕ) (ts : List TokenDesc) → IsSorted token_of ts → Monotone (λ t. ltb key t.token) ts
IsSorted-Monotone key [] s = tt
IsSorted-Monotone key (t ∷ ts) s =
    (λ h. FromKey-after key t.token ts h s.0, IsSorted-Monotone key ts s.1)

-- On sorted tokens the binary search for a key finds the first token past the key, and the first
-- token of all where none is.
pub search-eq-scan :
    (tokens : List TokenDesc) (key : ℕ)
    → IsSorted token_of tokens
    → let i = first_index (λ t. ltb key t.token) tokens in
      search tokens key ≡ (if leb (length tokens) i then 0 else i)
unfolding search
search-eq-scan tokens key s =
    rw (search_list-eq-first_index (λ t. ltb key t.token) tokens (IsSorted-Monotone key tokens s))
      refl
