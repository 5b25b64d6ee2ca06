-- ===== src/Chunk/Key.antt =====
-- chunk/chunk.go: a chunk and its external key. The numbers are printed and read by fmt and strconv, which
-- are the record Format. An unsigned number has at most as many bits as are asked for.
pub mod Parse
use cortex.Base.{
  ℕ, List, [], ◌∷◌, ◌++◌, Bool, true, false, Bytes, bytes_ord, nat_ord, ◌==◌, if◌then◌else◌, Option,
  none, some, codes, Result, ok, err, panic, ◌>>=◌,
}
use cortex.Base.Int.{ℤ}
use cortex.Labels.{Metric}

-- `payload` is the chunk of Prometheus, and `checksum` is `none` where ChecksumSet is false.
pub record Chunk : Type 0 where
  pub fingerprint : ℕ
  pub user_id : Bytes
  pub from : ℤ
  pub through : ℤ
  pub metric : Metric
  pub checksum : Option ℕ
  pub payload : Bytes
  pub metadata_in_index : Bool

pub data KeyError : Type 0 where
  invalid_chunk_id invalid_number wrong_metadata : KeyError

-- %x and %d of fmt.Sprintf, and ParseUint and ParseInt of strconv in the same bases; `bits` is the bit size
pub record Format : Type 0 where
  pub hex : ℕ → Bytes
  pub hex_int : ℤ → Bytes
  pub dec : ℕ → Bytes
  pub dec_int : ℤ → Bytes
  pub parse_hex : (bits : ℕ) → Bytes → Option ℕ
  pub parse_hex_int : Bytes → Option ℤ
  pub parse_dec : Bytes → Option ℕ
  pub parse_dec_int : Bytes → Option ℤ

-- '/' and ':'
abbrev pub slash : ℕ
slash = 47

abbrev pub colon : ℕ
colon = 58

-- strings.Contains, for one byte
unfoldable pub has_byte : ℕ → Bytes → Bool
has_byte b [] = false
has_byte b (c ∷ cs) = let rest = has_byte b cs in if c == b then true else rest

-- a byte before the first part
abbrev pub onto_first : ℕ → List Bytes → List Bytes
onto_first c [] = (c ∷ []) ∷ []
onto_first c (part ∷ parts) = (c ∷ part) ∷ parts

-- strings.Split at one byte
unfoldable pub split : ℕ → Bytes → List Bytes
split b [] = [] ∷ []
split b (c ∷ cs) = let rest = split b cs in if c == b then [] ∷ rest else onto_first c rest

abbrev pub number : {A : Type 0} → Option A → Result KeyError A
number none = err invalid_number
number (some n) = ok n

abbrev partial : Bytes → ℕ → ℤ → ℤ → Option ℕ → Chunk
partial user fp from through checksum = record {
  fingerprint = fp;
  user_id = user;
  from = from;
  through = through;
  metric = [];
  checksum = checksum;
  payload = [];
  metadata_in_index = false;
}

module _ (f : Format) where
  unfoldable pub parse_legacy_parts : Bytes → List Bytes → Result KeyError Chunk
  parse_legacy_parts user (a ∷ b ∷ c ∷ []) = number (f.parse_dec a) >>= λ fp.
      number (f.parse_dec_int b) >>= λ from.
      number (f.parse_dec_int c) >>= λ through. ok (partial user fp from through none)
  parse_legacy_parts user _ = err invalid_chunk_id

  unfoldable pub parse_legacy_chunk_id : Bytes → Bytes → Result KeyError Chunk
  unfolding parse_legacy_parts split
  parse_legacy_chunk_id user key = parse_legacy_parts user (split colon key)

  unfoldable pub parse_hex_parts : Bytes → List Bytes → Result KeyError Chunk
  parse_hex_parts user (a ∷ b ∷ c ∷ d ∷ []) = number (f.parse_hex 64 a) >>= λ fp.
      number (f.parse_hex_int b) >>= λ from. number (f.parse_hex_int c) >>= λ through.
      number (f.parse_hex 32 d) >>= λ checksum. ok (partial user fp from through (some checksum))
  parse_hex_parts user _ = err invalid_chunk_id

  unfoldable pub parse_key_parts : List Bytes → Result KeyError Chunk
  unfolding parse_hex_parts split
  parse_key_parts (user ∷ rest ∷ []) = parse_hex_parts user (split colon rest)
  parse_key_parts _ = err invalid_chunk_id

  unfoldable pub parse_new_external_key : Bytes → Result KeyError Chunk
  unfolding parse_key_parts split
  parse_new_external_key key = parse_key_parts (split slash key)

  unfoldable pub parse_external_key : Bytes → Bytes → Result KeyError Chunk
  unfolding parse_new_external_key parse_legacy_chunk_id has_byte
  parse_external_key user key =
      let new = parse_new_external_key key >>= λ c.
      if c.user_id == user then ok c else err wrong_metadata in
      if has_byte slash key then new else parse_legacy_chunk_id user key

  unfoldable pub external_key : Chunk → Bytes
  external_key c = elim c.checksum [
    | some checksum ↦
        c.user_id
        ++ (slash
            ∷ (f.hex c.fingerprint
                ++ (colon
                    ∷ (f.hex_int c.from
                        ++ (colon ∷ (f.hex_int c.through ++ (colon ∷ f.hex checksum)))))))
    | none ↦
        c.user_id
        ++ (slash
            ∷ (f.dec c.fingerprint
                ++ (colon ∷ (f.dec_int c.from ++ (colon ∷ f.dec_int c.through)))))
  ]
