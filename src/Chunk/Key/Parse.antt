-- ===== src/Chunk/Key/Parse.antt =====
-- A chunk's external key tells what the chunk is.
use cortex.Base.{
  ℕ, ◌≡◌, refl, [], ◌∷◌, ◌++◌, true, false, Bytes, bytes_ord, nat_ord, ◌==◌, if◌then◌else◌, some,
  ok, err, arith, ==_refl, ◌<◌, ◌^◌,
}
use cortex.Base.Int.{ℤ}
use cortex.Chunk.Key.{
  Chunk, Format, slash, colon, has_byte, split, parse_hex_parts, parse_key_parts,
  parse_new_external_key, parse_external_key, external_key, wrong_metadata,
}

-- What is printed is read again, and has neither a slash nor a colon.
pub record IsFormat (f : Format) : Type 0 where
  pub hex_lem : (bits n : ℕ) → n < 2 ^ bits → f.parse_hex bits (f.hex n) ≡ some n
  pub hex_int_lem : (n : ℤ) → f.parse_hex_int (f.hex_int n) ≡ some n
  pub hex_plain : (n : ℕ) → (has_byte slash (f.hex n) ≡ false) × (has_byte colon (f.hex n) ≡ false)
  pub hex_int_plain :
      (n : ℤ) → (has_byte slash (f.hex_int n) ≡ false) × (has_byte colon (f.hex_int n) ≡ false)

split_none : (b : ℕ) (xs : Bytes) → has_byte b xs ≡ false → split b xs ≡ xs ∷ []
unfolding has_byte split
split_none b [] h = refl
split_none b (c ∷ cs) h = ground (arith, split_none b cs)

split_first :
    (b : ℕ) (xs ys : Bytes) → has_byte b xs ≡ false → split b (xs ++ b ∷ ys) ≡ xs ∷ split b ys
unfolding has_byte split
split_first b [] ys h = rw (==_refl b) refl
split_first b (c ∷ cs) ys h = ground (arith, split_first b cs ys)

has_byte-append :
    (b : ℕ) (xs ys : Bytes)
    → has_byte b xs ≡ false
    → has_byte b ys ≡ false
    → has_byte b (xs ++ ys) ≡ false
unfolding has_byte
has_byte-append b [] ys h k = k
has_byte-append b (x ∷ xs) ys h k = ground (arith, has_byte-append b xs ys)

has_byte_there : (b : ℕ) (xs ys : Bytes) → has_byte b (xs ++ b ∷ ys) ≡ true
unfolding has_byte
has_byte_there b [] ys = rw (==_refl b) refl
has_byte_there b (x ∷ xs) ys = ground (arith, has_byte_there b xs ys)

plain_next :
    (xs ys : Bytes)
    → has_byte slash xs ≡ false
    → has_byte slash ys ≡ false
    → has_byte slash (xs ++ colon ∷ ys) ≡ false
unfolding has_byte
plain_next xs ys h k = has_byte-append slash xs (colon ∷ ys) h k

module _ (f : Format) (is : IsFormat f) (c : Chunk) (sum : ℕ) where
  abbrev numbers : Bytes
  numbers =
      f.hex c.fingerprint
      ++ (colon ∷ (f.hex_int c.from ++ (colon ∷ (f.hex_int c.through ++ (colon ∷ f.hex sum)))))

  numbers_plain : has_byte slash numbers ≡ false
  numbers_plain = plain_next (f.hex c.fingerprint) _ (is.hex_plain c.fingerprint).0 (
      plain_next (f.hex_int c.from) _ (is.hex_int_plain c.from).0 (
        plain_next (f.hex_int c.through) (f.hex sum) (is.hex_int_plain c.through).0
          (is.hex_plain sum).0))

  split-numbers :
      split colon numbers
      ≡ f.hex c.fingerprint ∷ f.hex_int c.from ∷ f.hex_int c.through ∷ f.hex sum ∷ []
  split-numbers =
      rw
        (
          split_first colon (f.hex c.fingerprint)
              (f.hex_int c.from ++ (colon ∷ (f.hex_int c.through ++ (colon ∷ f.hex sum))))
              (is.hex_plain c.fingerprint).1,
          split_first colon (f.hex_int c.from) (f.hex_int c.through ++ (colon ∷ f.hex sum))
              (is.hex_int_plain c.from).1,
          split_first colon (f.hex_int c.through) (f.hex sum) (is.hex_int_plain c.through).1,
          split_none colon (f.hex sum) (is.hex_plain sum).1,
        )
        refl

  -- what a key tells of a chunk
  abbrev pub outline : Chunk
  outline = record c { metric = []; checksum = some sum; payload = []; metadata_in_index = false }

  parse-numbers :
      c.fingerprint < 2 ^ 64
      → sum < 2 ^ 32
      → parse_hex_parts f c.user_id (split colon numbers) ≡ ok outline
  unfolding parse_hex_parts
  parse-numbers h k =
      rw
        (
          split-numbers,
          is.hex_lem 64 c.fingerprint h,
          is.hex_int_lem c.from,
          is.hex_int_lem c.through,
          is.hex_lem 32 sum k,
        )
        refl

  parse_new_external_key_lem :
      has_byte slash c.user_id ≡ false
      → c.fingerprint < 2 ^ 64
      → sum < 2 ^ 32
      → parse_new_external_key f (c.user_id ++ slash ∷ numbers) ≡ ok outline
  unfolding parse_new_external_key parse_key_parts
  parse_new_external_key_lem u h k =
      rw (split_first slash c.user_id numbers u, split_none slash numbers numbers_plain)
        (parse-numbers h k)

  -- From the external key of a chunk with a checksum, whose user has no slash and whose numbers
  -- fit into 64 and 32 bits, the same user parses the fingerprint, the times and the checksum,
  -- and any other user gets an error; numbers are printed with neither slash nor colon, and
  -- read again.
  pub parse-external_key :
      c.checksum ≡ some sum
      → has_byte slash c.user_id ≡ false
      → c.fingerprint < 2 ^ 64
      → sum < 2 ^ 32
      → (user : Bytes)
      → parse_external_key f user (external_key f c)
        ≡ (if c.user_id == user then ok outline else err wrong_metadata)
  unfolding parse_external_key external_key
  parse-external_key set u h k user =
      rw
        (
          set,
          external_key,
          has_byte_there slash c.user_id numbers,
          parse_new_external_key_lem u h k,
        )
        refl
