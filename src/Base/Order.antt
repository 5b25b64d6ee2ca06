-- ===== src/Base/Order.antt =====
-- Keys with a three-way comparison: Go's `<`, `>` and `==` on integers and strings. A Go string and a
-- `[]byte` are both a list of bytes here.
use Prim.Native.Nat.{ℕ, compare, Ordering}
use Prim.Native.Char.{code}
use Prim.Native.String.{String}
use mathlib.Core.Path.{◌≡◌, refl, ap}
use mathlib.Core.Logic.{◌≢◌}
use mathlib.Core.Bool.{Bool, true, false}
use mathlib.Core.List.{List, [], ◌∷◌}
use native.Mathlib.Omega.{arith}
use cortex.Base.Int.{ℤ, cmp_ℤ, eq_of_parts}

abbrev pub flip : Ordering → Ordering
flip Ordering.lt = Ordering.gt
flip Ordering.eq = Ordering.eq
flip Ordering.gt = Ordering.lt

pub record Ord {ℓ} (K : Type ℓ) : Type ℓ where
  pub cmp : K → K → Ordering
  pub eq_of_cmp : (a b : K) → cmp a b ≡ Ordering.eq → a ≡ b
  pub cmp-self : (a : K) → cmp a a ≡ Ordering.eq
  pub cmp-swap : (a b : K) → cmp b a ≡ flip (cmp a b)
  pub lt_trans : (a b c : K) → cmp a b ≡ Ordering.lt → cmp b c ≡ Ordering.lt → cmp a c ≡ Ordering.lt

module _ {ℓ} {K : Type ℓ} ⦃o : Ord K⦄ where
  abbrev pub cmp : K → K → Ordering
  cmp a b = o.cmp a b

  abbrev pub ltb : K → K → Bool
  ltb a b = elim (o.cmp a b) [ Ordering.lt ↦ true | _ ↦ false ]

  abbrev pub leb : K → K → Bool
  leb a b = elim (o.cmp a b) [ Ordering.gt ↦ false | _ ↦ true ]

  infix 50 ◌==◌
  abbrev pub ◌==◌ : K → K → Bool
  a == b = elim (o.cmp a b) [ Ordering.eq ↦ true | _ ↦ false ]

  pub ==_refl : (a : K) → (a == a) ≡ true
  ==_refl a = ground (arith, o.cmp-self a)

  pub eq_of_== : (a b : K) → (a == b) ≡ true → a ≡ b
  eq_of_== a b h = ground (arith, o.eq_of_cmp a b)

  pub ne_of_== : (a b : K) → (a == b) ≡ false → a ≢ b
  ne_of_== a b h e = ground (arith, o.cmp-self a, ap (o.cmp a) e)

  pub ==_of_ne : (a b : K) → a ≢ b → (a == b) ≡ false
  ==_of_ne a b h = ground (arith, o.eq_of_cmp a b)

pub ℕ_eq_of_cmp : (a b : ℕ) → compare a b ≡ Ordering.eq → a ≡ b
ℕ_eq_of_cmp a b h = ground arith

pub ℕ_cmp_self : (a : ℕ) → compare a a ≡ Ordering.eq
ℕ_cmp_self a = ground arith

pub ℕ_cmp-swap : (a b : ℕ) → compare b a ≡ flip (compare a b)
ℕ_cmp-swap a b = ground arith

pub ℕ_lt_trans :
    (a b c : ℕ) → compare a b ≡ Ordering.lt → compare b c ≡ Ordering.lt → compare a c ≡ Ordering.lt
ℕ_lt_trans a b c h k = ground arith

instance abbrev pub nat_ord : Ord ℕ
nat_ord = record {
  cmp = compare;
  eq_of_cmp = ℕ_eq_of_cmp;
  cmp-self = ℕ_cmp_self;
  cmp-swap = ℕ_cmp-swap;
  lt_trans = ℕ_lt_trans;
}

pub ℤ_eq_of_cmp : (a b : ℤ) → cmp_ℤ a b ≡ Ordering.eq → a ≡ b
ℤ_eq_of_cmp a b h = eq_of_parts a b (ground arith)

pub ℤ_cmp_self : (a : ℤ) → cmp_ℤ a a ≡ Ordering.eq
ℤ_cmp_self a = ground arith

pub ℤ_cmp-swap : (a b : ℤ) → cmp_ℤ b a ≡ flip (cmp_ℤ a b)
ℤ_cmp-swap a b = ground arith

pub ℤ_lt_trans :
    (a b c : ℤ) → cmp_ℤ a b ≡ Ordering.lt → cmp_ℤ b c ≡ Ordering.lt → cmp_ℤ a c ≡ Ordering.lt
ℤ_lt_trans a b c h k = ground arith

instance abbrev pub int_ord : Ord ℤ
int_ord = record {
  cmp = cmp_ℤ;
  eq_of_cmp = ℤ_eq_of_cmp;
  cmp-self = ℤ_cmp_self;
  cmp-swap = ℤ_cmp-swap;
  lt_trans = ℤ_lt_trans;
}

abbrev pub Bytes : Type 0
Bytes = List ℕ

-- The bytes of an ASCII text.
abbrev pub codes : String → Bytes
codes String.[] = []
codes (String.◌∷◌ c s) = code c ∷ codes s

-- Lexicographic, a proper prefix first: `<` on Go strings and `bytes.Compare`.
abbrev pub cmp_bytes : Bytes → Bytes → Ordering
cmp_bytes [] [] = Ordering.eq
cmp_bytes [] (y ∷ ys) = Ordering.lt
cmp_bytes (x ∷ xs) [] = Ordering.gt
cmp_bytes (x ∷ xs) (y ∷ ys) =
    let rest = cmp_bytes xs ys in
    elim (compare x y) [
      | Ordering.lt ↦ Ordering.lt
      | Ordering.eq ↦ rest
      | Ordering.gt ↦ Ordering.gt
    ]

pub bytes_eq_of_cmp : (a b : Bytes) → cmp_bytes a b ≡ Ordering.eq → a ≡ b
bytes_eq_of_cmp [] [] h = refl
bytes_eq_of_cmp [] (y ∷ ys) h = cc
bytes_eq_of_cmp (x ∷ xs) [] h = cc
bytes_eq_of_cmp (x ∷ xs) (y ∷ ys) h = ground (arith, bytes_eq_of_cmp xs ys)

pub bytes_cmp_self : (a : Bytes) → cmp_bytes a a ≡ Ordering.eq
bytes_cmp_self [] = refl
bytes_cmp_self (x ∷ xs) = ground (arith, bytes_cmp_self xs)

pub bytes_cmp-swap : (a b : Bytes) → cmp_bytes b a ≡ flip (cmp_bytes a b)
bytes_cmp-swap [] [] = refl
bytes_cmp-swap [] (y ∷ ys) = refl
bytes_cmp-swap (x ∷ xs) [] = refl
bytes_cmp-swap (x ∷ xs) (y ∷ ys) = ground (arith, bytes_cmp-swap xs ys)

pub bytes_lt_trans :
    (a b c : Bytes)
    → cmp_bytes a b ≡ Ordering.lt
    → cmp_bytes b c ≡ Ordering.lt
    → cmp_bytes a c ≡ Ordering.lt
bytes_lt_trans [] [] c h k = cc
bytes_lt_trans [] (y ∷ ys) [] h k = cc
bytes_lt_trans [] (y ∷ ys) (z ∷ zs) h k = refl
bytes_lt_trans (x ∷ xs) [] c h k = cc
bytes_lt_trans (x ∷ xs) (y ∷ ys) [] h k = cc
bytes_lt_trans (x ∷ xs) (y ∷ ys) (z ∷ zs) h k = ground (arith, bytes_lt_trans xs ys zs)

instance abbrev pub bytes_ord : Ord Bytes
bytes_ord = record {
  cmp = cmp_bytes;
  eq_of_cmp = bytes_eq_of_cmp;
  cmp-self = bytes_cmp_self;
  cmp-swap = bytes_cmp-swap;
  lt_trans = bytes_lt_trans;
}
