-- ===== src/Chunk/Tables/Sync.antt =====
-- One round of the table manager, against what it is for: each expected table is there with its throughput.
use cortex.Base.{
  ◌≡◌, refl, sym, ◌∙◌, List, [], ◌∷◌, Bool, true, false, not, Bytes, bytes_ord, none, is_some, All,
  filter, arith, inl, inr, Bool-cases, ◌||◌, if◌then◌else◌,
}
use cortex.Base.Cuts.{IsStrict-filter, filter-tests}
use cortex.Base.Sorted.{IsStrict}
use cortex.Base.Sort.{sort, sort-IsSorted}
use cortex.Merge.{find}
use cortex.Merge.Shuffle.{has}
use cortex.Merge.Tests.{has-sort, find-filter}
use cortex.Chunk.Tables.{
  TableClient, TableDescription, by_name, partition_tables, create_tables, update_tables,
  sync_tables,
}
use cortex.Chunk.Tables.Partition.{same_name, exists, missing, partition-eq-parted}
use cortex.Chunk.Tables.Clients.{IsTableClient, Capacities, Status}
use cortex.Chunk.Tables.Steps.{
  always, override, AllExist, Done, create_tables-Done, update_tables-Done,
}

-- what exists by the names listed, and by the capacities
AllExist-filter :
    (es : List Bytes) (f : Capacities) (b : Bool) (ds : List TableDescription)
    → ((n : Bytes) → has same_name n es ≡ is_some (f n))
    → All (λ d. exists es d ≡ b) ds
    → AllExist b ds f
AllExist-filter es f b [] h t = tt
AllExist-filter es f b (d ∷ ds) h t = (sym (h d.name) ∙ t.0, AllExist-filter es f b ds h t.1)

AllExist-override :
    (ds xs : List TableDescription) (may : Status) (f g : Capacities)
    → ((m : Bytes) → g m ≡ override ds may f m)
    → AllExist true xs f
    → AllExist true xs g
AllExist-override ds [] may f g h t = tt
AllExist-override ds (x ∷ xs) may f g h t =
    (ground (arith, h x.name, t.0), AllExist-override ds xs may f g h t.1)

-- a table that is missing, or ACTIVE
abbrev pub may_set : Capacities → Status → Status
may_set f active m = not (is_some (f m)) || active m

-- first those that are missing, then those that are there: all of them
override-parted :
    (es : List Bytes) (ds : List TableDescription) (f g : Capacities) (a b : Status)
    → ((m : Bytes) → has same_name m es ≡ is_some (f m))
    → ((m : Bytes) → g m ≡ override (filter (missing es) ds) always f m)
    → ((m : Bytes) → find by_name m (filter (missing es) ds) ≡ none → b m ≡ a m)
    → (m : Bytes) → override (filter (exists es) ds) b g m ≡ override ds (may_set f a) f m
override-parted es ds f g a b known h kept m =
    let old : find by_name m (filter (exists es) ds)
        ≡ (if has same_name m es then find by_name m ds else none) =
      find-filter by_name (λ k. has same_name k es) m ds in
    let new : find by_name m (filter (missing es) ds)
        ≡ (if not (has same_name m es) then find by_name m ds else none) =
      find-filter by_name (λ k. not (has same_name k es)) m ds in
    elim (Bool-cases (has same_name m es)) [
      | inl t ↦
          let unmade : find by_name m (filter (missing es) ds) ≡ none = new ∙ rw t refl in
          ground (arith, t, old, unmade, h m, kept m unmade, known m)
      | inr t ↦ ground (arith, t, old, new, h m, known m)
    ]

all_false :
    (es : List Bytes) (ds : List TableDescription)
    → All (λ d. missing es d ≡ true) ds
    → All (λ d. exists es d ≡ false) ds
all_false es [] h = tt
all_false es (d ∷ ds) h = (ground (arith, h.0), all_false es ds h.1)

module _ {E S : Type 0} (client : TableClient E S) (capacity : S → Capacities) (active : S → Status)
    (is : IsTableClient client capacity active) where
  partition_tables_lem :
      (s : S) (ds : List TableDescription) (names : List Bytes)
      → IsStrict by_name ds
      → client.list_tables s ≡ inr names
      → let es = sort same_name names in
        partition_tables client s ds ≡ inr (filter (missing es) ds, filter (exists es) ds)
  unfolding partition_tables
  partition_tables_lem s ds names strict h =
      rw
        (
          h,
          partition_tables,
          partition-eq-parted ds (sort same_name names) strict (sort-IsSorted same_name names),
        )
        refl

  sync_tables_ok :
      (s : S) (ds new old : List TableDescription)
      → partition_tables client s ds ≡ inr (new, old)
      → (create_tables client s new).1 ≡ none
      → sync_tables client s ds ≡ update_tables client (create_tables client s new).0 old
  unfolding sync_tables
  sync_tables_ok s ds new old h k = rw (h, sync_tables, k) refl

  -- On a client that lists and describes its tables as they are, can create a table that is not
  -- there and update one that is ACTIVE, and leaves the other tables and their statuses as they
  -- are when it does, for expected tables in strict order of their names: a round of the table
  -- manager ends without error; each expected table that was missing or ACTIVE is then there
  -- with its throughput; and every other table, those expected that are not ACTIVE among them,
  -- is as it was.
  pub sync_tables_lem :
      (s : S) (ds : List TableDescription)
      → IsStrict by_name ds
      → Done capacity ds (may_set (capacity s) (active s)) s (sync_tables client s ds)
  sync_tables_lem s ds strict =
      let listed = is.list_lem s in
      let es = sort same_name listed.0 in
      let known : (n : Bytes) → has same_name n es ≡ is_some (capacity s n) =
        λ n. has-sort same_name n listed.0 ∙ listed.2 n in
      let new = filter (missing es) ds in
      let old = filter (exists es) ds in
      let (created, kept) =
        create_tables-Done client capacity active is new s
          (IsStrict-filter by_name (missing es) ds strict)
          (AllExist-filter es (capacity s) false new known
            (all_false es new (filter-tests (missing es) ds))) in
      let s1 = (create_tables client s new).0 in
      let updated : Done capacity old (active s1) s1 (update_tables client s1 old) =
        update_tables-Done client capacity active is old s1
          (IsStrict-filter by_name (exists es) ds strict)
          (AllExist-override new old always (capacity s) (capacity s1) created.1
            (AllExist-filter es (capacity s) true old known (filter-tests (exists es) ds))) in
      rw
        (sync_tables_ok s ds new old (partition_tables_lem s ds listed.0 strict listed.1) created.0)
        (
          updated.0,
          λ m.
              updated.1 m
              ∙ override-parted es ds (capacity s) (capacity s1) (active s) (active s1) known
                  created.1 kept m,
        )
