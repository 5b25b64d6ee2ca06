-- ===== src/Ring/Model.antt =====
-- What the operations of ring/model.go keep and do: the tokens stay sorted, and each belongs to an
-- ingester that the ring knows.
use cortex.Base.{
  ℕ, ◌≡◌, refl, sym, List, [], ◌∷◌, ◌++◌, true, false, Bytes, bytes_ord, nat_ord, ◌==◌, is_some,
  All, All-append, arith, Bool-cases, inl, inr, ==_refl, ==_of_ne, ne_of_==,
}
use cortex.Base.Int.{ℤ}
use cortex.Base.Dict
use cortex.Base.Dict.{Dict, get-put, get-delete}
use cortex.Base.Sorted.{IsSorted, FromKey}
use cortex.Base.Sort.{sort-IsSorted, All-sort}
use cortex.Ring.{
  IngesterState, IngesterDesc, TokenDesc, Desc, token_of, new_desc, new_tokens, add_ingester,
  without_owner, remove_ingester, give_tokens, claim_tokens,
}

abbrev pub Knows : Dict Bytes IngesterDesc → Bytes → Type 0
Knows m id = is_some (Dict.get m id) ≡ true

pub record IsRing (d : Desc) : Type 0 where
  pub sorted : IsSorted token_of d.tokens
  pub registered : All (λ t. Knows d.ingesters t.ingester) d.tokens

pub new_desc-IsRing : IsRing new_desc
new_desc-IsRing = record { sorted = tt; registered = tt }

Knows-put :
    (m : Dict Bytes IngesterDesc) (id j : Bytes) (v : IngesterDesc)
    → Knows m j
    → Knows (Dict.put m id v) j
Knows-put m id j v h = rw (get-put m id j v) (ground arith)

pub All-Knows-put :
    (m : Dict Bytes IngesterDesc) (id : Bytes) (v : IngesterDesc) (ts : List TokenDesc)
    → All (λ t. Knows m t.ingester) ts
    → All (λ t. Knows (Dict.put m id v) t.ingester) ts
All-Knows-put m id v [] h = tt
All-Knows-put m id v (t ∷ ts) h = (Knows-put m id t.ingester v h.0, All-Knows-put m id v ts h.1)

All-new_tokens :
    (m : Dict Bytes IngesterDesc) (id : Bytes) (v : IngesterDesc) (ts : List ℕ)
    → All (λ t. Knows (Dict.put m id v) t.ingester) (new_tokens id ts)
unfolding new_tokens
All-new_tokens m id v [] = tt
All-new_tokens m id v (t ∷ ts) =
    (rw (get-put m id id v) (rw (==_refl id) refl), All-new_tokens m id v ts)

-- Adding an ingester keeps the tokens sorted and each token with an ingester of the map.
pub add_ingester-IsRing :
    (now : ℤ) (id addr : Bytes) (tokens : List ℕ) (state : IngesterState) {d : Desc}
    → IsRing d
    → IsRing (add_ingester now id addr tokens state d)
unfolding add_ingester
add_ingester-IsRing now id addr tokens state {d} h = record {
  sorted = sort-IsSorted token_of (d.tokens ++ new_tokens id tokens);
  registered = All-sort token_of _ _ (
      All-append _ d.tokens (new_tokens id tokens)
        (All-Knows-put d.ingesters id _ d.tokens h.registered)
        (All-new_tokens d.ingesters id _ tokens));
}

All-without_owner :
    (P Q : TokenDesc → Type 0) (id : Bytes)
    → ((t : TokenDesc) → (t.ingester == id) ≡ false → P t → Q t)
    → (ts : List TokenDesc) → All P ts
    → All Q (without_owner id ts)
unfolding without_owner
All-without_owner P Q id f [] h = tt
All-without_owner P Q id f (t ∷ ts) h = elim (Bool-cases (t.ingester == id)) [
  | inl e ↦ rw e (All-without_owner P Q id f ts h.1)
  | inr e ↦ rw e (f t e h.0, All-without_owner P Q id f ts h.1)
]

IsSorted-without_owner :
    (id : Bytes) (ts : List TokenDesc)
    → IsSorted token_of ts
    → IsSorted token_of (without_owner id ts)
unfolding without_owner
IsSorted-without_owner id [] h = tt
IsSorted-without_owner id (t ∷ ts) h = elim (Bool-cases (t.ingester == id)) [
  | inl e ↦ rw e (IsSorted-without_owner id ts h.1)
  | inr e ↦ rw e (All-without_owner _ _ id (λ u _ q. q) ts h.0, IsSorted-without_owner id ts h.1)
]

Knows-delete :
    (m : Dict Bytes IngesterDesc) (id j : Bytes)
    → (j == id) ≡ false
    → Knows m j
    → Knows (Dict.delete m id) j
Knows-delete m id j e h =
    rw (get-delete m id j) (rw (==_of_ne id j (λ q. ne_of_== j id e (sym q))) h)

-- Removing an ingester keeps the tokens sorted and each token with an ingester of the map.
pub remove_ingester-IsRing : (id : Bytes) {d : Desc} → IsRing d → IsRing (remove_ingester id d)
unfolding remove_ingester
remove_ingester-IsRing id {d} h = record {
  sorted = IsSorted-without_owner id d.tokens h.sorted;
  registered =
      All-without_owner _ _ id (λ t e k. Knows-delete d.ingesters id t.ingester e k) d.tokens
        h.registered;
}

give_tokens-FromKey :
    (k : ℕ) (from to : Bytes) (ts : List TokenDesc)
    → FromKey token_of k ts
    → FromKey token_of k (give_tokens from to ts)
unfolding give_tokens
give_tokens-FromKey k from to [] h = tt
give_tokens-FromKey k from to (t ∷ ts) h = elim (Bool-cases (t.ingester == from)) [
  | inl e ↦ rw e (h.0, give_tokens-FromKey k from to ts h.1)
  | inr e ↦ rw e (h.0, give_tokens-FromKey k from to ts h.1)
]

give_tokens-IsSorted :
    (from to : Bytes) (ts : List TokenDesc)
    → IsSorted token_of ts
    → IsSorted token_of (give_tokens from to ts)
unfolding give_tokens
give_tokens-IsSorted from to [] h = tt
give_tokens-IsSorted from to (t ∷ ts) h = elim (Bool-cases (t.ingester == from)) [
  | inl e ↦ rw e (give_tokens-FromKey t.token from to ts h.0, give_tokens-IsSorted from to ts h.1)
  | inr e ↦ rw e (give_tokens-FromKey t.token from to ts h.0, give_tokens-IsSorted from to ts h.1)
]

give_tokens-Knows :
    (m : Dict Bytes IngesterDesc) (from to : Bytes) (ts : List TokenDesc)
    → Knows m to
    → All (λ t. Knows m t.ingester) ts
    → All (λ t. Knows m t.ingester) (give_tokens from to ts)
unfolding give_tokens
give_tokens-Knows m from to [] k h = tt
give_tokens-Knows m from to (t ∷ ts) k h = elim (Bool-cases (t.ingester == from)) [
  | inl e ↦ rw e (k, give_tokens-Knows m from to ts k h.1)
  | inr e ↦ rw e (h.0, give_tokens-Knows m from to ts k h.1)
]

-- A claim for an ingester of the map keeps the tokens sorted and each token with an ingester of
-- the map.
pub claim_tokens-IsRing :
    (from to : Bytes) {d : Desc}
    → Knows d.ingesters to
    → IsRing d
    → IsRing (claim_tokens from to d).0
unfolding claim_tokens
claim_tokens-IsRing from to {d} k h = record {
  sorted = give_tokens-IsSorted from to d.tokens h.sorted;
  registered = give_tokens-Knows d.ingesters from to d.tokens k h.registered;
}
