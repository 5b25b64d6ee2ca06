-- ===== src/Ring/Consul.antt =====
-- ring/consul_client.go and its key-value store in memory, ring/consul_client_mock.go. The codec (snappy and
-- protobuf) is a parameter; a value is `none` where Go has nil. The clients share one store: between two
-- calls of one of them, the others may do anything to it.
pub mod Later
pub mod Round
pub mod Atomic
use cortex.Base.{
  ℕ, zero, suc, ◌+◌, ◌*◌, List, [], ◌∷◌, ◌++◌, Bool, true, false, not, Bytes, bytes_ord, nat_ord,
  ◌==◌, ltb, if◌then◌else◌, Option, none, some, Result, ok, err, panic,
}
use cortex.Base.Dict
use cortex.Base.Dict.{Dict}

-- consul's KVPair, less its key
pub record KvPair : Type 0 where
  pub value : Bytes
  pub create_index : ℕ
  pub modify_index : ℕ

-- `current` is the index in the log; it does not reach 2 ^ 64.
pub record MockKv : Type 0 where
  pub kvps : Dict Bytes KvPair
  pub current : ℕ

abbrev pub new_mock_kv : MockKv
new_mock_kv = record { kvps = []; current = 0 }

-- the entry that a write at an index leaves
abbrev pub modified : Option KvPair → Bytes → ℕ → KvPair
modified none value index = record { value = value; create_index = index; modify_index = index }
modified (some existing) value index = record existing { value = value; modify_index = index }

unfoldable pub kv_put : MockKv → Bytes → Bytes → MockKv
kv_put m key value =
    let index = m.current + 1 in
    record {
      kvps = Dict.put m.kvps key (modified (Dict.get m.kvps key) value index);
      current = index;
    }

-- whether a write by CAS at the index goes through
abbrev pub cas_allowed : Option KvPair → ℕ → Bool
cas_allowed none index = true
cas_allowed (some existing) index = existing.modify_index == index

unfoldable pub kv_cas : MockKv → Bytes → Bytes → ℕ → MockKv × Bool
unfolding kv_put
kv_cas m key value index =
    if cas_allowed (Dict.get m.kvps key) index then (kv_put m key value, true) else (m, false)

unfoldable pub kv_get : MockKv → Bytes → Option KvPair
kv_get m key = Dict.get m.kvps key

-- Codec
pub record Codec (A : Type 0) : Type 0 where
  pub encode : A → Option Bytes
  pub decode : Bytes → Option A

-- What a CASCallback returns: a value, which must not be nil, or an error and whether to try again.
pub data Outcome (A E : Type 0) : Type 0 where
  value : Option A → Outcome A E
  fail : E → Bool → Outcome A E

pub data CasResult (E : Type 0) : Type 0 where
  done gave_up no_value : CasResult E
  failed : E → CasResult E

-- how a round ends: with the next one, after the calls made so far, or with the call of CAS
pub data Attempt (E : Type 0) : Type 0 where
  again : ℕ → ℕ → MockKv → Attempt E
  finished : MockKv → CasResult E → Attempt E

-- the value that the callback is given; `none` is an error
abbrev pub decode_found : {A : Type 0} → Codec A → Option KvPair → Option (Option A)
decode_found codec none = some none
decode_found codec (some kvp) = elim (codec.decode kvp.value) [
  | none ↦ none
  | some a ↦ some (some a)
]

-- the index that the write will carry: that of the pair, if there is one, else what it was
abbrev pub index_of : ℕ → Option KvPair → ℕ
index_of index none = index
index_of index (some kvp) = kvp.modify_index

-- `moves t` is what the others do before the t-th call of the store, and `fails t` whether that call is an
-- error, which leaves the store as it was.
module _ {A E : Type 0} (codec : Codec A) (key : Bytes) (f : Option A → Outcome A E)
    (moves : ℕ → MockKv → MockKv) (fails : ℕ → Bool) where
  -- one round of the loop of consulClient.CAS, with the calls made and the index
  unfoldable pub attempt : ℕ → ℕ → MockKv → Attempt E
  unfolding kv_cas kv_get
  attempt t index m =
      let m1 = moves t m in
      let found = kv_get m1 key in
      let index' = index_of index found in
      let m2 = moves (t + 1) m1 in
      elim (fails t) [
        | true ↦ again (t + 1) index m1
        | false ↦ elim (decode_found codec found) [
          | none ↦ again (t + 1) index m1
          | some old ↦ elim (f old) [
            | fail e retry ↦ if retry then again (t + 1) index' m1 else finished m1 (failed e)
            | value out ↦ elim out [
              | none ↦ finished m1 no_value
              | some new ↦ elim (codec.encode new) [
                | none ↦ again (t + 1) index' m1
                | some bytes ↦
                    let written = kv_cas m2 key bytes index' in
                    elim (fails (t + 1)) [
                      | true ↦ again (t + 2) index' m2
                      | false ↦
                          if written.1
                          then finished written.0 done
                          else again (t + 2) index' written.0
                    ]
              ]
            ]
          ]
        ]
      ]

  -- the loop, with the attempts left
  unfoldable pub cas_loop : ℕ → ℕ → ℕ → MockKv → MockKv × CasResult E
  unfolding attempt
  cas_loop zero t index m = (m, gave_up)
  cas_loop (suc retries) t index m = elim (attempt t index m) [
    | again t' index' m' ↦ cas_loop retries t' index' m'
    | finished m' result ↦ (m', result)
  ]

  -- consulClient.CAS: ten attempts
  unfoldable pub cas : MockKv → MockKv × CasResult E
  unfolding cas_loop
  cas m = cas_loop 10 0 0 m

-- consulClient.PutBytes, and Get, which panics on a key that is not there; `none` is an error of the codec
unfoldable pub put_bytes : MockKv → Bytes → Bytes → MockKv
unfolding kv_put
put_bytes m key buf = kv_put m key buf

unfoldable pub get_value : {A : Type 0} → Codec A → MockKv → Bytes → Result Unit A
unfolding kv_get
get_value codec m key = elim (kv_get m key) [
  | none ↦ panic
  | some kvp ↦ elim (codec.decode (KvPair.value kvp)) [ none ↦ err tt | some a ↦ ok a ]
]

-- the prefix client
unfoldable pub prefixed_cas :
    {A E : Type 0}
    → Bytes
    → Codec A
    → Bytes
    → (Option A → Outcome A E)
    → (ℕ → MockKv → MockKv)
    → (ℕ → Bool)
    → MockKv
    → MockKv × CasResult E
unfolding cas
prefixed_cas prefix codec key f moves fails m = cas codec (prefix ++ key) f moves fails m

unfoldable pub prefixed_put_bytes : Bytes → MockKv → Bytes → Bytes → MockKv
unfolding put_bytes
prefixed_put_bytes prefix m key buf = put_bytes m (prefix ++ key) buf

unfoldable pub prefixed_get : {A : Type 0} → Bytes → Codec A → MockKv → Bytes → Result Unit A
unfolding get_value
prefixed_get prefix codec m key = get_value codec m (prefix ++ key)
