-- ===== src/Tests/RingTests.antt =====
-- A ring of three ingesters, one of which is leaving.
use cortex.Base.{
  ℕ, ◌+◌, ◌<◌, ◌≤◌, ◌≡◌, ◌≢◌, refl, List, [], ◌∷◌, ◌++◌, map, Bytes, bytes_ord, nat_ord, codes,
  Option, none, some, length, Result, ok, take, leb, ltb, if◌then◌else◌, All, In, arith, ne_of_==,
}
use mathlib.Core.List.{Perm}
use cortex.Base.Int.{ℤ, pos}
use cortex.Base.Dict
use cortex.Base.Search.{first_index}
use cortex.Ring.{
  IngesterState, active, leaving, joining, IngesterDesc, TokenDesc, Desc, token_of, claim_tokens,
  remove_ingester, add_ingester,
}
use cortex.Ring.Model.{
  IsRing, Knows, add_ingester-IsRing, remove_ingester-IsRing, claim_tokens-IsRing,
}
use cortex.Ring.Tokens.{owned_by, claim_tokens_lem, remove_ingester_lem}
use cortex.Ring.Lookup.{write, Replica, get_internal, search}
use cortex.Ring.Replicas.{walk, eligible, get_internal-eq-take}
use cortex.Ring.Choice.{AreReplicas, get_internal-AreReplicas}
use cortex.Ring.Position.{search-eq-scan}
use cortex.Ring.Owned.{count_tokens, total, max_uint32, count_tokens-total}
use cortex.Ring.Generate.{generate_tokens, fresh_draws, generate_tokens_lem}

abbrev up : ℤ → IngesterState → IngesterDesc
up time state = record { addr = codes "10.0.0.1"; timestamp = time; state = state }

abbrev token_at : ℕ → Bytes → TokenDesc
token_at t id = record { token = t; ingester = id }

abbrev three : Desc
three = record {
  ingesters =
      (codes "a", up (pos 5) active)
      ∷ (codes "b", up (pos 5) leaving)
      ∷ (codes "c", up (pos 6) active)
      ∷ [];
  tokens =
      token_at 10 (codes "a")
      ∷ token_at 20 (codes "b")
      ∷ token_at 30 (codes "c")
      ∷ token_at 40 (codes "a")
      ∷ [];
}

three-IsRing : IsRing three
unfolding Dict.get
three-IsRing = record {
  sorted = ((refl, (refl, (refl, tt))), ((refl, (refl, tt)), ((refl, tt), (tt, tt))));
  registered = (refl, (refl, (refl, (refl, tt))));
}

a-not-c : codes "a" ≢ codes "c"
a-not-c = ne_of_== (codes "a") (codes "c") refl

get_internal-AreReplicas_example :
    (rs : List Replica) × (get_internal three 15 2 write ≡ ok rs) × AreReplicas three 2 write rs
get_internal-AreReplicas_example =
    get_internal-AreReplicas three 15 2 write three-IsRing (omega arith)

get_internal-eq-take_example :
    get_internal three 15 2 write
    ≡ ok (take 2 (eligible three.ingesters write [] (walk three.tokens 15)))
get_internal-eq-take_example = get_internal-eq-take three 15 2 write three-IsRing (omega arith)

search-eq-scan_example :
    let i = first_index (λ t. ltb 40 t.token) three.tokens in
    search three.tokens 40 ≡ (if leb (length three.tokens) i then 0 else i)
search-eq-scan_example = search-eq-scan three.tokens 40 three-IsRing.sorted

count_tokens-total_example :
    (total (count_tokens three.tokens).0 ≡ 4) × (total (count_tokens three.tokens).1 ≡ max_uint32)
count_tokens-total_example =
    count_tokens-total three.tokens three-IsRing.sorted
      (omega arith, (omega arith, (omega arith, (omega arith, tt)))) (omega arith) (omega arith)

claim_tokens_example :
    ((claim_tokens (codes "a") (codes "c") three).1 ≡ owned_by (codes "a") three)
    × (owned_by (codes "a") (claim_tokens (codes "a") (codes "c") three).0 ≡ [])
    × Perm
        (owned_by (codes "c") (claim_tokens (codes "a") (codes "c") three).0)
        (owned_by (codes "a") three ++ owned_by (codes "c") three)
    × ((j : Bytes)
        → j ≢ codes "a"
        → j ≢ codes "c"
        → owned_by j (claim_tokens (codes "a") (codes "c") three).0 ≡ owned_by j three)
    × (map token_of (claim_tokens (codes "a") (codes "c") three).0.tokens
        ≡ map token_of three.tokens)
claim_tokens_example = claim_tokens_lem (codes "a") (codes "c") three a-not-c

remove_ingester_example :
    (Dict.get (remove_ingester (codes "a") three).ingesters (codes "a") ≡ none)
    × (owned_by (codes "a") (remove_ingester (codes "a") three) ≡ [])
    × ((j : Bytes)
        → j ≢ codes "a"
        → (Dict.get (remove_ingester (codes "a") three).ingesters j ≡ Dict.get three.ingesters j)
          × (owned_by j (remove_ingester (codes "a") three) ≡ owned_by j three))
remove_ingester_example = remove_ingester_lem (codes "a") three

add_ingester-IsRing_example :
    IsRing (add_ingester (pos 9) (codes "d") (codes "10.0.0.2") (25 ∷ 5 ∷ []) joining three)
add_ingester-IsRing_example =
    add_ingester-IsRing (pos 9) (codes "d") (codes "10.0.0.2") (25 ∷ 5 ∷ []) joining three-IsRing

remove_ingester-IsRing_example : IsRing (remove_ingester (codes "b") three)
remove_ingester-IsRing_example = remove_ingester-IsRing (codes "b") three-IsRing

claim_tokens-IsRing_example : IsRing (claim_tokens (codes "b") (codes "c") three).0
claim_tokens-IsRing_example = claim_tokens-IsRing (codes "b") (codes "c") three-c three-IsRing
  where
    three-c : Knows three.ingesters (codes "c")
    three-c = unfold Dict.get in refl

-- draws that hit a taken token first
abbrev draws : ℕ → ℕ
draws k = 20 + k

generate_tokens_example :
    (r : List ℕ) × (generate_tokens 4 draws 2 (20 ∷ 22 ∷ []) ≡ some r)
    × (length r ≡ 2)
    × All (λ c. ¬ In c (20 ∷ 22 ∷ [])) r
unfolding cortex.Base.Search.search_list
generate_tokens_example = generate_tokens_lem 4 draws 2 (20 ∷ 22 ∷ []) ((refl, tt), (tt, tt)) enough
  where
    enough : 2 ≤ fresh_draws 4 draws 0 (20 ∷ 22 ∷ [])
    enough = unfold fresh_draws in omega arith
