-- ===== src/Ring/Tokens.antt =====
-- Who owns which tokens after a claim and after a removal.
use mathlib.Core.List.{Perm, perm_middle}
use mathlib.Core.List.Perm
use cortex.Base.{
  ℕ, ◌≡◌, refl, sym, ap, ◌≢◌, List, [], ◌∷◌, ◌++◌, map, false, Bytes, bytes_ord, ◌==◌,
  if◌then◌else◌, none, Bool-cases, inl, inr, eq_of_==, ==_refl, ==_of_ne, ◌∙◌,
}
use cortex.Base.Dict
use cortex.Base.Dict.{get-delete}
use cortex.Ring.{
  TokenDesc, Desc, token_of, without_owner, remove_ingester, give_tokens, tokens_owned,
  claim_tokens, tokens_for,
}

-- the tokens that the description gives to an ingester
abbrev pub owned_by : Bytes → Desc → List ℕ
owned_by id d = (tokens_for id d).0

module _ (from to : Bytes) (ne : from ≢ to) where
  give_tokens-from : (ts : List TokenDesc) → tokens_owned from (give_tokens from to ts) ≡ []
  unfolding give_tokens tokens_owned
  give_tokens-from [] = refl
  give_tokens-from (t ∷ ts) = elim (Bool-cases (t.ingester == from)) [
    | inl e ↦ rw (e, ==_of_ne to from (λ q. ne (sym q))) (give_tokens-from ts)
    | inr e ↦ rw (e, e) (give_tokens-from ts)
  ]

  give_tokens-to :
      (ts : List TokenDesc)
      → Perm (tokens_owned to (give_tokens from to ts)) (tokens_owned from ts ++ tokens_owned to ts)
  unfolding give_tokens tokens_owned
  give_tokens-to [] = Perm.refl _
  give_tokens-to (t ∷ ts) = elim (Bool-cases (t.ingester == from)) [
    | inl e ↦
        let other : (t.ingester == to) ≡ false =
          ==_of_ne t.ingester to (λ q. ne (sym (eq_of_== t.ingester from e) ∙ q)) in
        rw (e, other, ==_refl to) (Perm.cons t.token (give_tokens-to ts))
    | inr e ↦ elim (Bool-cases (t.ingester == to)) [
      | inl f ↦
          rw (e, f)
            (Perm.trans (Perm.cons t.token (give_tokens-to ts))
              (Perm.symm (perm_middle (tokens_owned from ts) (tokens_owned to ts))))
      | inr f ↦ rw (e, f) (give_tokens-to ts)
    ]
  ]

give_tokens-other :
    (from to j : Bytes) (ts : List TokenDesc)
    → j ≢ from
    → j ≢ to
    → tokens_owned j (give_tokens from to ts) ≡ tokens_owned j ts
unfolding give_tokens tokens_owned
give_tokens-other from to j [] nf nt = refl
give_tokens-other from to j (t ∷ ts) nf nt = elim (Bool-cases (t.ingester == from)) [
  | inl e ↦
      let gone : (t.ingester == j) ≡ false =
        ==_of_ne t.ingester j (λ q. nf (sym q ∙ eq_of_== t.ingester from e)) in
      rw (e, gone, ==_of_ne to j (λ q. nt (sym q))) (give_tokens-other from to j ts nf nt)
  | inr e ↦
      rw e (
        ap (λ r. if t.ingester == j then t.token ∷ r else r) (give_tokens-other from to j ts nf nt))
]

give_tokens-token :
    (from to : Bytes) (ts : List TokenDesc)
    → map token_of (give_tokens from to ts) ≡ map token_of ts
unfolding give_tokens
give_tokens-token from to [] = refl
give_tokens-token from to (t ∷ ts) = elim (Bool-cases (t.ingester == from)) [
  | inl e ↦ rw e (ap (λ r. t.token ∷ r) (give_tokens-token from to ts))
  | inr e ↦ rw e (ap (λ r. t.token ∷ r) (give_tokens-token from to ts))
]

-- A claim between two different ingesters returns the tokens of the first, leaves it with none,
-- gives them to the second beside its own, changes no other ingester's tokens, and keeps the
-- ring's tokens in place.
pub claim_tokens_lem :
    (from to : Bytes) (d : Desc)
    → from ≢ to
    → ((claim_tokens from to d).1 ≡ owned_by from d)
      × (owned_by from (claim_tokens from to d).0 ≡ [])
      × Perm (owned_by to (claim_tokens from to d).0) (owned_by from d ++ owned_by to d)
      × ((j : Bytes) → j ≢ from → j ≢ to → owned_by j (claim_tokens from to d).0 ≡ owned_by j d)
      × (map token_of (claim_tokens from to d).0.tokens ≡ map token_of d.tokens)
unfolding claim_tokens tokens_for
claim_tokens_lem from to d ne = (
  refl,
  give_tokens-from from to ne d.tokens,
  give_tokens-to from to ne d.tokens,
  λ j nf nt. give_tokens-other from to j d.tokens nf nt,
  give_tokens-token from to d.tokens,
)

without_owner_self : (id : Bytes) (ts : List TokenDesc) → tokens_owned id (without_owner id ts) ≡ []
unfolding without_owner tokens_owned
without_owner_self id [] = refl
without_owner_self id (t ∷ ts) = elim (Bool-cases (t.ingester == id)) [
  | inl e ↦ rw e (without_owner_self id ts)
  | inr e ↦ rw (e, e) (without_owner_self id ts)
]

without_owner-other :
    (id j : Bytes) (ts : List TokenDesc)
    → j ≢ id
    → tokens_owned j (without_owner id ts) ≡ tokens_owned j ts
unfolding without_owner tokens_owned
without_owner-other id j [] ne = refl
without_owner-other id j (t ∷ ts) ne = elim (Bool-cases (t.ingester == id)) [
  | inl e ↦
      let gone : (t.ingester == j) ≡ false =
        ==_of_ne t.ingester j (λ q. ne (sym q ∙ eq_of_== t.ingester id e)) in
      rw (e, gone) (without_owner-other id j ts ne)
  | inr e ↦
      rw e (ap (λ r. if t.ingester == j then t.token ∷ r else r) (without_owner-other id j ts ne))
]

-- A removed ingester is gone from the map and owns no token; every other ingester keeps its
-- description and its tokens.
pub remove_ingester_lem :
    (id : Bytes) (d : Desc)
    → (Dict.get (remove_ingester id d).ingesters id ≡ none)
      × (owned_by id (remove_ingester id d) ≡ [])
      × ((j : Bytes)
          → j ≢ id
          → (Dict.get (remove_ingester id d).ingesters j ≡ Dict.get d.ingesters j)
            × (owned_by j (remove_ingester id d) ≡ owned_by j d))
unfolding remove_ingester tokens_for
remove_ingester_lem id d = (
  get-delete d.ingesters id id ∙ rw (==_refl id) refl,
  without_owner_self id d.tokens,
  λ j ne. (
    get-delete d.ingesters id j ∙ rw (==_of_ne id j (λ q. ne (sym q))) refl,
    without_owner-other id j d.tokens ne,
  ),
)
