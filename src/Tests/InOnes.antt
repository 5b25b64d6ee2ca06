-- ===== src/Tests/InOnes.antt =====
-- Numbers written in ones, as a format of external keys (chunk/chunk.go), and a chunk.
use cortex.Base.{
  ℕ, zero, suc, ◌≡◌, refl, ap, [], ◌∷◌, false, Bytes, bytes_ord, nat_ord, int_ord, ◌==◌, codes,
  some, none, Option, arith, if◌then◌else◌, length,
}
use cortex.Base.Int.{ℤ, pos, negsuc}
use cortex.Chunk.Key.{Chunk, Format, slash, colon, has_byte}
use cortex.Chunk.Key.Parse.{IsFormat}

unfoldable pub ones : ℕ → Bytes
ones zero = []
ones (suc n) = 49 ∷ ones n

abbrev ones_int : ℤ → Bytes
ones_int (pos n) = 43 ∷ ones n
ones_int (negsuc n) = 45 ∷ ones n

abbrev read_int : Bytes → Option ℤ
read_int [] = none
read_int (c ∷ cs) = if c == 43 then some (pos (length cs)) else some (negsuc (length cs))

abbrev pub in_ones : Format
in_ones = record {
  hex = ones;
  hex_int = ones_int;
  dec = ones;
  dec_int = ones_int;
  parse_hex = λ bits bs. some (length bs);
  parse_hex_int = read_int;
  parse_dec = λ bs. some (length bs);
  parse_dec_int = read_int;
}

length-ones : (n : ℕ) → length (ones n) ≡ n
unfolding ones
length-ones zero = refl
length-ones (suc n) = omega (arith, length-ones n)

ones_plain : (b n : ℕ) → (49 == b) ≡ false → has_byte b (ones n) ≡ false
unfolding ones has_byte
ones_plain b zero h = refl
ones_plain b (suc n) h = rw h (ones_plain b n h)

read-ones_int : (n : ℤ) → read_int (ones_int n) ≡ some n
read-ones_int (pos n) = ap (λ k. some (pos k)) (length-ones n)
read-ones_int (negsuc n) = ap (λ k. some (negsuc k)) (length-ones n)

ones_int_plain :
    (n : ℤ) → (has_byte slash (ones_int n) ≡ false) × (has_byte colon (ones_int n) ≡ false)
unfolding has_byte
ones_int_plain (pos n) = (ones_plain 47 n refl, ones_plain 58 n refl)
ones_int_plain (negsuc n) = (ones_plain 47 n refl, ones_plain 58 n refl)

pub in_ones-IsFormat : IsFormat in_ones
in_ones-IsFormat = record {
  hex_lem = λ bits n h. ap some (length-ones n);
  hex_int_lem = read-ones_int;
  hex_plain = λ n. (ones_plain 47 n refl, ones_plain 58 n refl);
  hex_int_plain = ones_int_plain;
}

abbrev pub one_chunk : Chunk
one_chunk = record {
  fingerprint = 2;
  user_id = codes "u";
  from = pos 1;
  through = pos 3;
  metric = [];
  checksum = some 1;
  payload = [];
  metadata_in_index = false;
}
