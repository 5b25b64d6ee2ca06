-- ===== src/Tests/IngesterTests.antt =====
-- A small index.
use cortex.Base.{ℕ, ◌≡◌, refl, [], ◌∷◌, nat_ord, bytes_ord, codes, true, ◌==◌, ◌||◌, some}
use cortex.Merge.Shuffle.{has}
use cortex.Labels.{LabelMatcher, equal}
use cortex.Ingester.Index.{fingerprint, InvertedIndex, insert_fp, delete_fp, lookup}
use cortex.Ingester.Index.Place.{delete_fp-insert_fp, has-insert_fp}
use cortex.Ingester.Index.Lookup.{posted_for_all, has-lookup}

abbrev small : InvertedIndex
small =
    (codes "job", (codes "a", 3 ∷ 8 ∷ []) ∷ (codes "b", 5 ∷ []) ∷ [])
    ∷ (codes "zone", (codes "x", 5 ∷ 8 ∷ []) ∷ [])
    ∷ []

abbrev any_job : LabelMatcher
any_job = record { type = equal; name = codes "job"; value = []; matches = λ v. true }

abbrev zone_x : LabelMatcher
zone_x = record {
  type = equal;
  name = codes "zone";
  value = codes "x";
  matches = λ v. v == codes "x";
}

has-lookup_example :
    (has fingerprint 8 (lookup (any_job ∷ zone_x ∷ []) small)
      ≡ posted_for_all (any_job ∷ zone_x ∷ []) 8 small)
    × (lookup [] small ≡ [])
has-lookup_example =
    has-lookup 8 any_job (zone_x ∷ []) small
      ((((refl, tt), (tt, tt)), ((tt, tt), tt)), ((((refl, tt), (tt, tt)), tt), tt))

delete_fp-insert_fp_example : delete_fp 5 (insert_fp 5 (3 ∷ 8 ∷ [])) ≡ some (3 ∷ 8 ∷ [])
delete_fp-insert_fp_example = delete_fp-insert_fp 5 (3 ∷ 8 ∷ []) ((refl, tt), (tt, tt))

has-insert_fp_example :
    has fingerprint 8 (insert_fp 5 (3 ∷ 8 ∷ []))
    ≡ (◌==◌ {K = ℕ} 5 8 || has fingerprint 8 (3 ∷ 8 ∷ []))
has-insert_fp_example = has-insert_fp 8 5 (3 ∷ 8 ∷ []) ((refl, tt), (tt, tt))
