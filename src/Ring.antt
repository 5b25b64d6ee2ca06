-- ===== src/Ring.antt =====
-- ring/model.go: the ring's description, which all ingesters keep in consul, and its operations. An
-- operation that changes a `*Desc` returns the new one. `now` stands for `time.Now()`, in nanoseconds
-- since 1970, and a timestamp is in seconds. Messages of the protobuf are records; a map of pointers to
-- ingesters is a map of their descriptions.
pub mod Consul
pub mod Model
pub mod Tokens
pub mod Lookup
pub mod Replicas
pub mod Choice
pub mod Position
pub mod Owned
pub mod Generate
use cortex.Base.{
  ℕ, zero, suc, ◌+◌, ◌-◌, ◌*◌, List, [], ◌∷◌, ◌++◌, map, Bool, true, false, ◌&&◌, not, Ord, Bytes,
  bytes_ord, nat_ord, int_ord, ◌==◌, ltb, if◌then◌else◌, Option, none, some, length,
}
use cortex.Base.Int.{ℤ, pos, negsuc, ◌-ℤ◌}
use cortex.Base.Dict
use cortex.Base.Dict.{Dict}
use cortex.Base.Sort.{sort}

pub data IngesterState : Type 0 where
  active leaving pending joining : IngesterState

pub IngesterState-discrete : Discrete IngesterState
IngesterState-discrete = hlevel

abbrev pub is_active : IngesterState → Bool
is_active active = true
is_active _ = false

abbrev pub same_state : IngesterState → IngesterState → Bool
same_state active active = true
same_state leaving leaving = true
same_state pending pending = true
same_state joining joining = true
same_state _ _ = false

pub record IngesterDesc : Type 0 where
  pub addr : Bytes
  pub timestamp : ℤ
  pub state : IngesterState

-- `token` is a uint32.
pub record TokenDesc : Type 0 where
  pub token : ℕ
  pub ingester : Bytes

pub record Desc : Type 0 where
  pub ingesters : Dict Bytes IngesterDesc
  pub tokens : List TokenDesc

abbrev pub new_desc : Desc
new_desc = record { ingesters = []; tokens = [] }

abbrev pub token_of : TokenDesc → ℕ
token_of t = t.token

abbrev pub nanoseconds : ℤ → ℤ
nanoseconds (pos n) = pos (n * 1_000_000_000)
nanoseconds (negsuc n) = negsuc (suc n * 1_000_000_000 - 1)

-- time.Now().Sub(time.Unix(ingester.Timestamp, 0)) > heartbeatTimeout
unfoldable pub is_expired : ℤ → ℤ → IngesterDesc → Bool
unfolding ◌-ℤ◌
is_expired now heartbeat_timeout ing = ltb heartbeat_timeout (now -ℤ nanoseconds ing.timestamp)

new_tokens : Bytes → List ℕ → List TokenDesc
new_tokens id [] = []
new_tokens id (t ∷ ts) = record { token = t; ingester = id } ∷ new_tokens id ts

-- `now` in seconds here: time.Now().Unix()
unfoldable pub add_ingester : ℤ → Bytes → Bytes → List ℕ → IngesterState → Desc → Desc
unfolding new_tokens sort
add_ingester now_unix id addr tokens state d = record {
  ingesters = Dict.put d.ingesters id (record { addr = addr; timestamp = now_unix; state = state });
  tokens = sort token_of (d.tokens ++ new_tokens id tokens);
}

without_owner : Bytes → List TokenDesc → List TokenDesc
without_owner id [] = []
without_owner id (t ∷ ts) =
    let rest = without_owner id ts in if t.ingester == id then rest else t ∷ rest

unfoldable pub remove_ingester : Bytes → Desc → Desc
unfolding without_owner
remove_ingester id d = record {
  ingesters = Dict.delete d.ingesters id;
  tokens = without_owner id d.tokens;
}

-- The two results of the loop of `ClaimTokens`: the list that it writes, and the tokens that it returns.
give_tokens : Bytes → Bytes → List TokenDesc → List TokenDesc
give_tokens from to [] = []
give_tokens from to (t ∷ ts) =
    let rest = give_tokens from to ts in
    if t.ingester == from then record t { ingester = to } ∷ rest else t ∷ rest

tokens_owned : Bytes → List TokenDesc → List ℕ
tokens_owned id [] = []
tokens_owned id (t ∷ ts) =
    let rest = tokens_owned id ts in if t.ingester == id then t.token ∷ rest else rest

unfoldable pub claim_tokens : Bytes → Bytes → Desc → Desc × List ℕ
unfolding give_tokens tokens_owned
claim_tokens from to d =
    (record d { tokens = give_tokens from to d.tokens }, tokens_owned from d.tokens)

in_state : IngesterState → Dict Bytes IngesterDesc → List (Bytes × IngesterDesc)
in_state state [] = []
in_state state ((id, ing) ∷ m) =
    let rest = in_state state m in if same_state ing.state state then (id, ing) ∷ rest else rest

unfoldable pub find_ingesters_by_state : IngesterState → Desc → List (Bytes × IngesterDesc)
unfolding in_state
find_ingesters_by_state state d = in_state state d.ingesters

all_ready : ℤ → ℤ → Dict Bytes IngesterDesc → Bool
unfolding is_expired
all_ready now timeout [] = true
all_ready now timeout ((id, ing) ∷ m) =
    let rest = all_ready now timeout m in
    if is_expired now timeout ing then false else if not (is_active ing.state) then false else rest

unfoldable pub ready : ℤ → ℤ → Desc → Bool
unfolding all_ready
ready now heartbeat_timeout d =
    if all_ready now heartbeat_timeout d.ingesters then ltb 0 (length d.tokens) else false

-- (myTokens, takenTokens)
unfoldable pub tokens_for : Bytes → Desc → List ℕ × List ℕ
unfolding tokens_owned
tokens_for id d = (tokens_owned id d.tokens, map token_of d.tokens)
