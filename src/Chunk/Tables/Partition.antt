-- ===== src/Chunk/Tables/Partition.antt =====
-- The merge of partitionTables sorts the expected tables into those that exist and those that do not.
use cortex.Base.{
  ◌∙◌, ◌≡◌, refl, sym, ap, List, [], ◌∷◌, Bool, true, false, not, Bytes, bytes_ord, ltb, cmp,
  Ordering, Ordering-cases, All, filter, arith, inl, inr, bytes_cmp-swap, ==_refl, bytes_cmp_self,
  bytes_eq_of_cmp,
}
use cortex.Base.Cuts.{filter_congr}
use cortex.Base.Sorted.{AboveKey, AboveKey-trans, IsStrict, IsSorted}
use cortex.Merge.Shuffle.{has, has-before}
use cortex.Chunk.Tables.{TableDescription, by_name, partition}

abbrev pub same_name : Bytes → Bytes
same_name name = name

-- among the tables that exist
abbrev pub exists : List Bytes → TableDescription → Bool
exists es d = has same_name d.name es

module _ (d : TableDescription) (ds : List TableDescription) (e : Bytes) (es : List Bytes) where
  partition_lt :
      cmp d.name e ≡ Ordering.lt
      → partition (d ∷ ds) (e ∷ es) ≡ (d ∷ (partition ds (e ∷ es)).0, (partition ds (e ∷ es)).1)
  unfolding partition
  partition_lt h = ground arith

  partition_gt : cmp d.name e ≡ Ordering.gt → partition (d ∷ ds) (e ∷ es) ≡ partition (d ∷ ds) es
  unfolding partition
  partition_gt h = ground arith

  partition_eq :
      cmp d.name e ≡ Ordering.eq
      → partition (d ∷ ds) (e ∷ es) ≡ ((partition ds es).0, d ∷ (partition ds es).1)
  unfolding partition
  partition_eq h = ground arith

has_head : (k e : Bytes) (es : List Bytes) → e ≡ k → has same_name k (e ∷ es) ≡ true
unfolding has
has_head k e es h = rw (h, ==_refl k) refl

has_above :
    (k e : Bytes) (es : List Bytes) → ltb e k ≡ true → has same_name k (e ∷ es) ≡ has same_name k es
unfolding has
has_above k e es h = ground (arith, bytes_cmp-swap k e, bytes_cmp_self k)

exists_above :
    (e : Bytes) (es : List Bytes) (ds : List TableDescription)
    → AboveKey by_name e ds
    → All (λ d. exists (e ∷ es) d ≡ exists es d) ds
exists_above e es [] h = tt
exists_above e es (d ∷ ds) h = (has_above d.name e es h.0, exists_above e es ds h.1)

abbrev pub missing : List Bytes → TableDescription → Bool
missing es d = not (exists es d)

-- the tables that do not exist, and those that do
abbrev pub parted :
    List Bytes → List TableDescription → List TableDescription × List TableDescription
parted es ds = (filter (missing es) ds, filter (exists es) ds)

parted_found :
    (es : List Bytes) (d : TableDescription) (ds : List TableDescription)
    → exists es d ≡ true
    → parted es (d ∷ ds) ≡ ((parted es ds).0, d ∷ (parted es ds).1)
unfolding filter
parted_found es d ds h = rw h refl

parted_missing :
    (es : List Bytes) (d : TableDescription) (ds : List TableDescription)
    → exists es d ≡ false
    → parted es (d ∷ ds) ≡ (d ∷ (parted es ds).0, (parted es ds).1)
unfolding filter
parted_missing es d ds h = rw h refl

parted_above :
    (e : Bytes) (es : List Bytes) (ds : List TableDescription)
    → AboveKey by_name e ds
    → parted (e ∷ es) ds ≡ parted es ds
parted_above e es ds h =
    let same = exists_above e es ds h in
    rw
      (
        filter_congr (exists (e ∷ es)) (exists es) ds same,
        filter_congr (missing (e ∷ es)) (missing es) ds (not_both ds same),
      )
      refl
  where
    not_both :
        (ds : List TableDescription)
        → All (λ d. exists (e ∷ es) d ≡ exists es d) ds
        → All (λ d. missing (e ∷ es) d ≡ missing es d) ds
    not_both [] h = tt
    not_both (d ∷ ds) h = (ap not h.0, not_both ds h.1)

parted_nil : (ds : List TableDescription) → parted [] ds ≡ (ds, [])
unfolding filter has
parted_nil [] = refl
parted_nil (d ∷ ds) = ground (arith, parted_nil ds)

pub partition-eq-parted :
    (ds : List TableDescription) (es : List Bytes)
    → IsStrict by_name ds
    → IsSorted same_name es
    → partition ds es ≡ parted es ds
partition-eq-parted [] es s t = unfold partition filter in refl
partition-eq-parted (d ∷ ds) [] s t = unfold partition in sym (parted_nil (d ∷ ds))
partition-eq-parted (d ∷ ds) (e ∷ es) s t = elim (Ordering-cases (cmp d.name e)) [
  | inl lt ↦
      rw
        (
          partition_lt d ds e es lt,
          partition-eq-parted ds (e ∷ es) s.1 t,
          parted_missing (e ∷ es) d ds (has-before same_name d.name e es (ground arith) t.0),
        )
        refl
  | inr (inl eq) ↦
      let same : d.name ≡ e = bytes_eq_of_cmp d.name e eq in
      partition_eq d ds e es eq
      ∙ ap (λ r. (r.0, d ∷ r.1))
          (partition-eq-parted ds es s.1 t.1 ∙ sym (parted_above e es ds (rw (← same) s.0)))
      ∙ sym (parted_found (e ∷ es) d ds (has_head d.name e es (sym same)))
  | inr (inr gt) ↦
      let above : ltb e d.name ≡ true = ground (arith, bytes_cmp-swap d.name e) in
      partition_gt d ds e es gt
      ∙ partition-eq-parted (d ∷ ds) es s t.1
      ∙ sym (parted_above e es (d ∷ ds) (above, AboveKey-trans by_name e d.name ds above s.0))
]
