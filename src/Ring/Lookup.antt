-- ===== src/Ring/Lookup.antt =====
-- ring/ring.go: the lookup of a key's replicas. A `*IngesterDesc` is given with the key under which the
-- ring's map holds it. A token whose ingester is not in that map makes the code read through a nil
-- pointer, which is `panic`.
use cortex.Base.{
  ℕ, zero, suc, ◌+◌, ◌%◌, List, [], ◌∷◌, ◌++◌, Bool, true, false, Bytes, bytes_ord, nat_ord, ◌==◌,
  ltb, leb, if◌then◌else◌, Option, none, some, length, get_elem?, Result, ok, err, panic, ◌>>=◌,
}
use cortex.Base.Int.{ℤ}
use cortex.Base.Dict
use cortex.Base.Dict.{Dict}
use cortex.Base.Search.{search_list}
use cortex.Ring.{IngesterState, active, leaving, IngesterDesc, TokenDesc, Desc, is_expired}

pub data Operation : Type 0 where
  read write : Operation

pub data RingError : Type 0 where
  empty_ring : RingError

abbrev pub Replica : Type 0
Replica = Bytes × IngesterDesc

-- an ingester in this state does not count as a replica
unfoldable pub is_skipped : Operation → IngesterState → Bool
is_skipped op active = false
is_skipped read leaving = false
is_skipped _ _ = true

unfoldable pub contains : List Bytes → Bytes → Bool
contains [] id = false
contains (j ∷ ids) id = if j == id then true else contains ids id

-- Ring.search: the first token after the key, or the first of all.
unfoldable pub search : List TokenDesc → ℕ → ℕ
unfolding search_list
search tokens key =
    let i = search_list (λ t. ltb key t.token) tokens in if leb (length tokens) i then 0 else i

-- The variables of the loop of getInternal: `n` grows by one for each ingester that is skipped.
pub record Found : Type 0 where
  pub n : ℕ
  pub distinct_hosts : List Bytes
  pub ingesters : List Replica

-- One iteration at a token; `none` is the nil pointer.
unfoldable pub visit : Desc → Operation → TokenDesc → Found → Option Found
unfolding is_skipped contains
visit d op t f =
    if contains f.distinct_hosts t.ingester
    then some f
    else elim (Dict.get d.ingesters t.ingester) [
      | none ↦ none
      | some ing ↦ some (
          if is_skipped op ing.state
          then record f { n = f.n + 1; distinct_hosts = t.ingester ∷ f.distinct_hosts }
          else record f {
            distinct_hosts = t.ingester ∷ f.distinct_hosts;
            ingesters = f.ingesters ++ (t.ingester, ing) ∷ [];
          })
    ]

-- `left` is how many iterations the loop may still make: it starts at the number of tokens and goes down
-- where `iterations` goes up.
unfoldable pub get_loop : ℕ → Desc → Operation → ℕ → Found → Result RingError (List Replica)
get_loop zero d op i f = ok f.ingesters
get_loop (suc left) d op i f =
    let m = i % length d.tokens in
    let round : Result RingError (List Replica) = elim (get_elem? d.tokens m) [
      | none ↦ panic
      | some t ↦ elim (visit d op t f) [ none ↦ panic | some f' ↦ get_loop left d op (m + 1) f' ]
    ] in
    if ltb (length f.distinct_hosts) f.n then round else ok f.ingesters

unfoldable pub get_internal : Desc → ℕ → ℕ → Operation → Result RingError (List Replica)
unfolding get_loop search visit
get_internal d key n op =
    if length d.tokens == 0
    then err empty_ring
    else get_loop (length d.tokens) d op (search d.tokens key)
        (record { n = n; distinct_hosts = []; ingesters = [] })

-- Ring.BatchGet
unfoldable pub batch_get : Desc → List ℕ → ℕ → Operation → Result RingError (List (List Replica))
unfolding get_internal
batch_get d [] n op = ok []
batch_get d (key ∷ keys) n op =
    let rest = batch_get d keys n op in get_internal d key n op >>= λ r. rest >>= λ rs. ok (r ∷ rs)

-- Ring.GetAll
unfoldable pub get_all : ℤ → ℤ → Dict Bytes IngesterDesc → List Replica
unfolding is_expired
get_all now heartbeat_timeout [] = []
get_all now heartbeat_timeout ((id, ing) ∷ m) =
    let rest = get_all now heartbeat_timeout m in
    if is_expired now heartbeat_timeout ing then rest else (id, ing) ∷ rest
