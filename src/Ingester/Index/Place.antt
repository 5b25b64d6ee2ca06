-- ===== src/Ingester/Index/Place.antt =====
-- One sorted list of fingerprints: the slice operations of `add` and `delete`.
use cortex.Base.{
  ℕ, suc, ◌<◌, ◌≡◌, refl, ap, List, [], ◌∷◌, ◌++◌, true, false, nat_ord, ◌==◌, ltb, leb, ◌||◌, some,
  length, take, drop, All, arith, Bool-cases, inl, inr,
}
use cortex.Base.Search.{first_index, Monotone, search_list-eq-first_index}
use cortex.Base.Sorted.{FromKey, IsSorted}
use cortex.Base.Sort.{insert, insert-IsSorted}
use cortex.Merge.Shuffle.{has}
use cortex.Ingester.Index.{fingerprint, place, insert_fp, delete_fp}

FromKey-from :
    (fp k : ℕ) (fps : List ℕ)
    → leb fp k ≡ true
    → FromKey fingerprint k fps
    → All (λ f. leb fp f ≡ true) fps
FromKey-from fp k [] h s = tt
FromKey-from fp k (f ∷ fps) h s = (ground arith, FromKey-from fp k fps h s.1)

place-Monotone : (fp : ℕ) (fps : List ℕ) → IsSorted fingerprint fps → Monotone (λ f. leb fp f) fps
place-Monotone fp [] s = tt
place-Monotone fp (f ∷ fps) s = (λ h. FromKey-from fp f fps h s.0, place-Monotone fp fps s.1)

pub place-eq-scan :
    (fp : ℕ) (fps : List ℕ)
    → IsSorted fingerprint fps
    → place fp fps ≡ first_index (λ f. leb fp f) fps
unfolding place
place-eq-scan fp fps s = search_list-eq-first_index (λ f. leb fp f) fps (place-Monotone fp fps s)

insert_at-eq-insert :
    (fp : ℕ) (fps : List ℕ)
    → let j = first_index (λ f. leb fp f) fps in
      take j fps ++ fp ∷ drop j fps ≡ insert fingerprint fp fps
unfolding first_index insert
insert_at-eq-insert fp [] = refl
insert_at-eq-insert fp (f ∷ fps) = elim (Bool-cases (leb fp f)) [
  | inl e ↦ let n : ltb f fp ≡ false = ground arith in rw (e, n) refl
  | inr e ↦
      let n : ltb f fp ≡ true = ground arith in
      rw (e, n) (ap (λ r. f ∷ r) (insert_at-eq-insert fp fps))
]

-- On a sorted slice the insertion is that of insertion sort.
pub insert_fp-eq-insert :
    (fp : ℕ) (fps : List ℕ)
    → IsSorted fingerprint fps
    → insert_fp fp fps ≡ insert fingerprint fp fps
unfolding insert_fp
insert_fp-eq-insert fp fps s = rw (place-eq-scan fp fps s) (insert_at-eq-insert fp fps)

has-insert :
    (k fp : ℕ) (fps : List ℕ)
    → has fingerprint k (insert fingerprint fp fps) ≡ ((fp == k) || has fingerprint k fps)
unfolding has insert
has-insert k fp [] = ground arith
has-insert k fp (f ∷ fps) = ground (arith, has-insert k fp fps)

pub insert_fp-IsSorted :
    (fp : ℕ) (fps : List ℕ) → IsSorted fingerprint fps → IsSorted fingerprint (insert_fp fp fps)
insert_fp-IsSorted fp fps s =
    rw (insert_fp-eq-insert fp fps s) (insert-IsSorted fingerprint fp fps s)

pub has-insert_fp :
    (k fp : ℕ) (fps : List ℕ)
    → IsSorted fingerprint fps
    → has fingerprint k (insert_fp fp fps) ≡ ((fp == k) || has fingerprint k fps)
has-insert_fp k fp fps s = rw (insert_fp-eq-insert fp fps s) (has-insert k fp fps)

cut_at-insert :
    (fp : ℕ) (fps : List ℕ)
    → let l = insert fingerprint fp fps in
      (first_index (λ f. leb fp f) l < length l)
      × (take (first_index (λ f. leb fp f) l) l ++ drop (suc (first_index (λ f. leb fp f) l)) l
          ≡ fps)
unfolding first_index insert
cut_at-insert fp [] = let e : leb fp fp ≡ true = ground arith in rw e (omega arith, refl)
cut_at-insert fp (f ∷ fps) = elim (Bool-cases (ltb f fp)) [
  | inl e ↦
      let n : leb fp f ≡ false = ground arith in
      let (l, r) = cut_at-insert fp fps in rw (e, n) (omega arith, ap (λ r. f ∷ r) r)
  | inr e ↦ let n : leb fp fp ≡ true = ground arith in rw (e, n) (omega arith, refl)
]

-- On a sorted slice, deleting a fingerprint just inserted gives the slice back, also where it
-- stood there before.
pub delete_fp-insert_fp :
    (fp : ℕ) (fps : List ℕ) → IsSorted fingerprint fps → delete_fp fp (insert_fp fp fps) ≡ some fps
unfolding delete_fp
delete_fp-insert_fp fp fps s =
    let l = insert fingerprint fp fps in
    let at = place-eq-scan fp l (insert-IsSorted fingerprint fp fps s) in
    let (lt, same) = cut_at-insert fp fps in
    rw (insert_fp-eq-insert fp fps s, at, lt→true _ _ lt) (ap some same)
  where
    lt→true : (a b : ℕ) → a < b → ltb a b ≡ true
    lt→true a b h = ground arith
