-- ===== src/Chunk/Entries/Parse.antt =====
-- What a reader finds in the entries that are written for a chunk.
use cortex.Base.{
  ℕ, ◌≡◌, refl, ap, ◌∙◌, List, [], ◌∷◌, Bool, false, Bytes, bytes_ord, nat_ord, ◌==◌, if◌then◌else◌,
  some, Result, ok, All, arith, Bool-cases, inl, inr,
}
use cortex.Labels.{Metric, metric_name_label}
use cortex.Chunk.Entries.{
  IndexEntry, EntryError, Base64, version, encode_time, has_null, entry, label_hash, label_entries,
  label_name_in_hash_key_entries, v5_entries, v6_entries, parse_components, parse_range_value,
  decoded,
}
use cortex.Chunk.Entries.Keys.{components_from-build_range_key, has_null-encode_time}

-- The encoding can be undone, and gives no null byte.
pub record IsBase64 (base64 : Base64) : Type 0 where
  pub undone : (v : Bytes) → base64.decode (base64.encode v) ≡ some v
  pub no_null : (v : Bytes) → has_null (base64.encode v) ≡ false

abbrev pub Parsed : Type 0
Parsed = Result EntryError (Bytes × Bytes × Bool)

-- what parseRangeValue makes of each entry
abbrev pub parse_all : Base64 → List IndexEntry → List Parsed
parse_all base64 [] = []
parse_all base64 (e ∷ es) = parse_range_value base64 e.range_value e.value ∷ parse_all base64 es

-- the chunk's id with the value of each label but the metric's name
unfoldable pub values_of : Bytes → Metric → List Parsed
values_of chunk_id [] = []
values_of chunk_id ((name, value) ∷ labels) =
    let rest = values_of chunk_id labels in
    if name == metric_name_label then rest else ok (chunk_id, value, false) ∷ rest

-- What is read back from the entries that are written.
abbrev pub Reads : Base64 → Result EntryError (List IndexEntry) → List Parsed → Type 0
Reads base64 r ps = (es : List IndexEntry) × (r ≡ ok es) × (parse_all base64 es ≡ ps)

module _ (base64 : Base64) (good : IsBase64 base64) (chunk_id : Bytes)
    (clean : has_null chunk_id ≡ false) where
  parse_parts :
      (table hash : Bytes) (ss : List Bytes) (value : Bytes) {r : Parsed}
      → All (λ s. has_null s ≡ false) ss
      → parse_components base64 ss value ≡ r
      → parse_range_value base64 (entry table hash ss value).range_value value ≡ r
  unfolding parse_range_value
  parse_parts table hash ss value h e =
      ap (λ cs. parse_components base64 cs value) (components_from-build_range_key ss h) ∙ e

  label_entries-parsed :
      (f : Bytes → Bytes → IndexEntry) (labels : Metric)
      → All
          (λ l.
            parse_range_value base64 (f l.0 l.1).range_value (f l.0 l.1).value
            ≡ ok (chunk_id, l.1, false))
          labels
      → parse_all base64 (label_entries f labels) ≡ values_of chunk_id labels
  unfolding label_entries values_of
  label_entries-parsed f [] h = refl
  label_entries-parsed f ((name, value) ∷ labels) h =
      elim (Bool-cases (name == metric_name_label)) [
        | inl e ↦ rw e (label_entries-parsed f labels h.1)
        | inr e ↦
            rw (e, h.0)
              (ap (λ r. ok (chunk_id, value, false) ∷ r) (label_entries-parsed f labels h.1))
      ]

  every :
      (P : Bytes × Bytes → Type 0) (labels : Metric)
      → ((name value : Bytes) → P (name, value))
      → All P labels
  every P [] f = tt
  every P ((name, value) ∷ labels) f = (f name value, every P labels f)

  no_null_nil : has_null [] ≡ false
  no_null_nil = unfold has_null in refl

  no_null_version : (n : ℕ) → has_null (version n) ≡ false
  no_null_version n = unfold has_null in ground arith

  decoded-encode :
      (value : Bytes) → decoded base64 chunk_id (base64.encode value) ≡ ok (chunk_id, value, false)
  decoded-encode value = rw (good.undone value, decoded) refl

  parse_encoded :
      (table hash a value : Bytes)
      → has_null a ≡ false
      → (parse_range_value base64
            (entry table hash (a ∷ base64.encode value ∷ chunk_id ∷ version 1 ∷ []) []).range_value
            []
          ≡ ok (chunk_id, value, false))
        × (parse_range_value base64
              (entry table hash
                (a ∷ base64.encode value ∷ chunk_id ∷ version 4 ∷ [])
                []).range_value
              []
            ≡ ok (chunk_id, value, false))
  parse_encoded table hash a value h = (
    parse_parts table hash _ [] (h, (good.no_null value, (clean, (no_null_version 1, tt))))
        (unfold parse_components in decoded-encode value),
    parse_parts table hash _ [] (h, (good.no_null value, (clean, (no_null_version 4, tt))))
        (unfold parse_components in decoded-encode value),
  )

  parse_plain :
      (table hash a value : Bytes)
      → has_null a ≡ false
      → (parse_range_value base64
            (entry table hash (a ∷ [] ∷ chunk_id ∷ version 2 ∷ []) []).range_value
            []
          ≡ ok (chunk_id, [], false))
        × (parse_range_value base64
              (entry table hash (a ∷ [] ∷ chunk_id ∷ version 3 ∷ []) []).range_value
              []
            ≡ ok (chunk_id, [], false))
        × (parse_range_value base64
              (entry table hash (a ∷ [] ∷ chunk_id ∷ version 5 ∷ []) value).range_value
              value
            ≡ ok (chunk_id, value, false))
  parse_plain table hash a value h = (
    parse_parts table hash _ [] (h, (no_null_nil, (clean, (no_null_version 2, tt))))
        (unfold parse_components in refl),
    parse_parts table hash _ [] (h, (no_null_nil, (clean, (no_null_version 3, tt))))
        (unfold parse_components in refl),
    parse_parts table hash _ value (h, (no_null_nil, (clean, (no_null_version 5, tt))))
        (unfold parse_components in refl),
  )

  -- From the entries that the fourth, fifth and sixth schema write for a chunk, parseRangeValue
  -- reads the chunk's id, first with no value and then with the value of each label but the
  -- metric's name; the ids have no null byte, and base64 gives none and can be undone.
  pub write_entries_lem :
      (from through : ℕ) (table hash : Bytes) (labels : Metric)
      → let all = ok (chunk_id, [], false) ∷ values_of chunk_id labels in
        Reads base64
          ((label_name_in_hash_key_entries base64).get_write_entries from through table hash labels
            chunk_id)
          all
        × Reads base64
            ((v5_entries base64).get_write_entries from through table hash labels chunk_id)
            all
        × Reads base64 (v6_entries.get_write_entries from through table hash labels chunk_id) all
  unfolding label_name_in_hash_key_entries v5_entries v6_entries
  write_entries_lem from through table hash labels =
      let time = encode_time through in
      let no_null = has_null-encode_time through in
      (
        (
          _,
          refl,
          both (parse_plain table hash [] [] no_null_nil).0 (
              label_entries-parsed _ labels (
                every _ labels (λ name value.
                  (parse_encoded table (label_hash hash name) [] value no_null_nil).0))),
        ),
        (
          _,
          refl,
          both (parse_plain table hash time [] no_null).1 (
              label_entries-parsed _ labels (
                every _ labels (λ name value.
                  (parse_encoded table (label_hash hash name) time value no_null).1))),
        ),
        (
          _,
          refl,
          both (parse_plain table hash time [] no_null).1 (
              label_entries-parsed _ labels (
                every _ labels
                  (λ name value. (parse_plain table (label_hash hash name) time value no_null).2))),
        ),
      )
    where
      both : {p q : Parsed} {ps qs : List Parsed} → p ≡ q → ps ≡ qs → p ∷ ps ≡ q ∷ qs
      both e k = cc
