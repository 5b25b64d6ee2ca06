-- ===== src/Chunk/Entries/Keys.antt =====
-- A range key taken apart again.
use cortex.Base.{
  ℕ, ◌/◌, ◌%◌, ◌≡◌, refl, sym, ap, ◌∙◌, List, [], ◌∷◌, ◌++◌, true, false, Bytes, nat_ord, ◌==◌, All,
  arith, Bool-cases, inl, inr,
}
use mathlib.Core.List.{append-nil, append_assoc}
use cortex.Chunk.Entries.{build_range_key, components_from, has_null, hex_digit, encode_time}

components_from-append :
    (part s rest : Bytes)
    → has_null s ≡ false
    → components_from part (s ++ 0 ∷ rest) ≡ (part ++ s) ∷ components_from [] rest
unfolding components_from has_null
components_from-append part [] rest h =
    ap (λ p. p ∷ components_from [] rest) (sym (append-nil part))
components_from-append part (c ∷ s) rest h = elim (Bool-cases (c == 0)) [
  | inl e ↦ absurd (clash (rw e at h))
  | inr e ↦ rw e (
      components_from-append (part ++ c ∷ []) s rest (rw e at h)
      ∙ ap (λ p. p ∷ components_from [] rest) (append_assoc part (c ∷ []) s))
]
  where
    clash : true ≡ false → ⊥
    clash e = cc

-- Parts without a null byte are read back from the range key that is built of them.
pub components_from-build_range_key :
    (ss : List Bytes)
    → All (λ s. has_null s ≡ false) ss
    → components_from [] (build_range_key ss) ≡ ss
unfolding build_range_key
components_from-build_range_key [] h = unfold components_from in refl
components_from-build_range_key (s ∷ ss) h =
    components_from-append [] s (build_range_key ss) h.0
    ∙ ap (λ r. s ∷ r) (components_from-build_range_key ss h.1)

hex_digit-nonzero : (n : ℕ) → (hex_digit n == 0) ≡ false
unfolding hex_digit
hex_digit-nonzero n = ground arith

has_null-cons :
    (c : ℕ) (cs : Bytes) → (c == 0) ≡ false → has_null cs ≡ false → has_null (c ∷ cs) ≡ false
unfolding has_null
has_null-cons c cs e h = rw e h

pub has_null-encode_time : (t : ℕ) → has_null (encode_time t) ≡ false
unfolding encode_time
has_null-encode_time t = digit (t / 268435456 % 16) _ (
    digit (t / 16777216 % 16) _ (
      digit (t / 1048576 % 16) _ (
        digit (t / 65536 % 16) _ (
          digit (t / 4096 % 16) _ (
            digit (t / 256 % 16) _
              (digit (t / 16 % 16) _ (digit (t % 16) [] (unfold has_null in refl))))))))
  where
    digit : (n : ℕ) (cs : Bytes) → has_null cs ≡ false → has_null (hex_digit n ∷ cs) ≡ false
    digit n cs h = has_null-cons (hex_digit n) cs (hex_digit-nonzero n) h
