-- ===== src/Chunk/Tables/Steps.antt =====
-- What the loops of createTables and updateTables do to the capacities of the tables, one after the other.
use cortex.Base.{
  ◌≡◌, refl, sym, ap, ◌∙◌, List, [], ◌∷◌, Bool, true, false, Bytes, bytes_ord, int_ord, ◌==◌, ◌&&◌,
  Option, none, some, is_some, All, arith, inl, inr, if◌then◌else◌, eq_of_==, Bool-cases,
}
use cortex.Base.Int.{ℤ}
use cortex.Base.Sorted.{AboveKey, IsStrict}
use cortex.Merge.{find}
use cortex.Merge.Union.{find-above}
use cortex.Chunk.Tables.{
  TableClient, TableDescription, by_name, create_tables, update_one, update_tables,
}
use cortex.Chunk.Tables.Clients.{Capacities, wanted, Status, IsTableClient}

-- the capacities with those of the descriptions in their place, where they may be set
abbrev pub override : List TableDescription → Status → Capacities → Capacities
override ds may f m = elim (find by_name m ds) [
  | none ↦ f m
  | some d ↦ if may m then some (wanted d) else f m
]

override_nil : (may : Status) (f : Capacities) (m : Bytes) → override [] may f m ≡ f m
unfolding find
override_nil may f m = refl

abbrev pub Sets : TableDescription → Bool → Capacities → Capacities → Type 0
Sets d may f g = (m : Bytes) → g m ≡ (if (d.name == m) && may then some (wanted d) else f m)

-- the statuses but that of one table
abbrev pub SameBut : Bytes → Status → Status → Type 0
SameBut n may may' = (m : Bytes) → (n == m) ≡ false → may' m ≡ may m

override_step :
    (d : TableDescription) (ds : List TableDescription) (may may' : Status) (f g : Capacities)
    (m : Bytes)
    → Sets d (may d.name) f g
    → SameBut d.name may may'
    → AboveKey by_name d.name ds
    → override ds may' g m ≡ override (d ∷ ds) may f m
unfolding find
override_step d ds may may' f g m sets others above = elim (Bool-cases (d.name == m)) [
  | inl e ↦
      let same : d.name ≡ m = eq_of_== d.name m e in
      let none_left : find by_name m ds ≡ none = rw (← same) (find-above by_name d.name ds above) in
      let may_same : may d.name ≡ may m = ap may same in ground (arith, sets m, none_left, may_same)
  | inr e ↦ ground (arith, sets m, others m e)
]

not_found :
    (d : TableDescription) (ds : List TableDescription) (m : Bytes)
    → find by_name m (d ∷ ds) ≡ none
    → ((d.name == m) ≡ false) × (find by_name m ds ≡ none)
unfolding find
not_found d ds m h = elim (Bool-cases (d.name == m)) [
  | inl e ↦ absurd (some_none (rw e at h))
  | inr e ↦ (e, rw e at h)
]
  where
    some_none : some d ≡ none → ⊥
    some_none e = cc

-- all of the tables exist (b is true), or none does
abbrev pub AllExist : Bool → List TableDescription → Capacities → Type 0
AllExist b ds f = All (λ d. is_some (f d.name) ≡ b) ds

AllExist-step :
    (b may : Bool) (d : TableDescription) (ds : List TableDescription) (f g : Capacities)
    → Sets d may f g
    → AboveKey by_name d.name ds
    → AllExist b ds f
    → AllExist b ds g
AllExist-step b may d [] f g sets above h = tt
AllExist-step b may d (x ∷ ds) f g sets above h =
    (ground (arith, sets x.name, above.0, h.0), AllExist-step b may d ds f g sets above.1 h.1)

none_of : (o : Option (ℤ × ℤ)) → is_some o ≡ false → o ≡ none
none_of none h = refl
none_of (some c) h = cc

some_of : (o : Option (ℤ × ℤ)) → is_some o ≡ true → (c : ℤ × ℤ) × (o ≡ some c)
some_of none h = cc
some_of (some c) h = (c, refl)

-- What a loop that sets one table after the other does: those that may be set have their throughput then, and
-- the rest of the tables is as before, with their statuses.
abbrev pub Done :
    {E S : Type 0} → (S → Capacities) → List TableDescription → Status → S → S × Option E → Type 0
Done capacity ds may s r =
    (r.1 ≡ none) × ((m : Bytes) → capacity r.0 m ≡ override ds may (capacity s) m)

abbrev pub always : Status
always n = true

module _ {E S : Type 0} (client : TableClient E S) (capacity : S → Capacities) (active : S → Status)
    (is : IsTableClient client capacity active) where
  -- the tables that are not among the descriptions keep their status
  abbrev pub Keeps : List TableDescription → S → S × Option E → Type 0
  Keeps ds s r = (m : Bytes) → find by_name m ds ≡ none → active r.0 m ≡ active s m

  create_tables_ok :
      (s s' : S) (d : TableDescription) (ds : List TableDescription)
      → client.create_table s d.name d.provisioned_read d.provisioned_write ≡ inr s'
      → create_tables client s (d ∷ ds) ≡ create_tables client s' ds
  unfolding create_tables
  create_tables_ok s s' d ds h = rw (h, create_tables) refl

  pub create_tables-Done :
      (ds : List TableDescription) (s : S)
      → IsStrict by_name ds
      → AllExist false ds (capacity s)
      → Done capacity ds always s (create_tables client s ds)
        × Keeps ds s (create_tables client s ds)
  create_tables-Done [] s strict h =
      unfold create_tables in
      ((refl, λ m. sym (override_nil always (capacity s) m)), λ m absent. refl)
  create_tables-Done (d ∷ ds) s strict h =
      let (s', made, (sets, others)) =
        is.create_lem s d.name d.provisioned_read d.provisioned_write
          (none_of (capacity s d.name) h.0) in
      let set : Sets d true (capacity s) (capacity s') = λ m. ground (arith, sets m) in
      let (done, kept) =
        create_tables-Done ds s' strict.1
          (AllExist-step false true d ds (capacity s) (capacity s') set strict.0 h.1) in
      rw (create_tables_ok s s' d ds made) (
        (
          done.0,
          λ m.
              done.1 m
              ∙ override_step d ds always always (capacity s) (capacity s') m set (λ n e. refl)
                  strict.0,
        ),
        λ m absent. let (here, rest) = not_found d ds m absent in kept m rest ∙ others m here,
      )

  abbrev same_capacity : TableDescription → ℤ × ℤ → Bool
  same_capacity d c = (c.0 == d.provisioned_read) && (c.1 == d.provisioned_write)

  update_one_waits :
      (s : S) (d : TableDescription) (c : ℤ × ℤ)
      → client.describe_table s d.name ≡ inr (c, false)
      → update_one client s d ≡ inr s
  unfolding update_one
  update_one_waits s d c h = rw (h, update_one) refl

  update_one_skip :
      (s : S) (d : TableDescription) (c : ℤ × ℤ)
      → client.describe_table s d.name ≡ inr (c, true)
      → same_capacity d c ≡ true
      → update_one client s d ≡ inr s
  unfolding update_one
  update_one_skip s d c h e = rw (h, update_one, e) refl

  update_one_go :
      (s : S) (d : TableDescription) (c : ℤ × ℤ)
      → client.describe_table s d.name ≡ inr (c, true)
      → same_capacity d c ≡ false
      → update_one client s d ≡ client.update_table s d.name d.provisioned_read d.provisioned_write
  unfolding update_one
  update_one_go s d c h e = rw (h, update_one, e) refl

  Sets-same :
      (f : Capacities) (d : TableDescription) (c : ℤ × ℤ)
      → f d.name ≡ some c
      → same_capacity d c ≡ true
      → Sets d true f f
  Sets-same f d c h e m = elim (Bool-cases (d.name == m)) [
    | inl t ↦
        let at_m : f m ≡ some c = rw (eq_of_== d.name m t) at h in
        let left : c.0 ≡ d.provisioned_read = eq_of_== c.0 d.provisioned_read (ground arith) in
        let right : c.1 ≡ d.provisioned_write = eq_of_== c.1 d.provisioned_write (ground arith) in
        rw (t, at_m, ← left, ← right) refl
    | inr t ↦ rw t refl
  ]

  update_one_lem :
      (s : S) (d : TableDescription)
      → is_some (capacity s d.name) ≡ true
      → (s' : S) × (update_one client s d ≡ inr s')
        × Sets d (active s d.name) (capacity s) (capacity s')
        × SameBut d.name (active s) (active s')
  update_one_lem s d h =
      let (c, found) = some_of (capacity s d.name) h in
      let described = is.describe_lem s d.name c found in
      elim (Bool-cases (active s d.name)) [
        | inr off ↦ (
          s,
          update_one_waits s d c (rw off at described),
          (λ m. rw off (ground arith)),
          λ m e. refl,
        )
        | inl on ↦
            let described_on : client.describe_table s d.name ≡ inr (c, true) =
              rw on at described in
            elim (Bool-cases (same_capacity d c)) [
              | inl e ↦ (
                s,
                update_one_skip s d c described_on e,
                rw on (Sets-same (capacity s) d c found e),
                λ m e. refl,
              )
              | inr e ↦
                  let (s', updated, (sets, others)) =
                    is.update_lem s d.name d.provisioned_read d.provisioned_write h on in
                  (
                    s',
                    update_one_go s d c described_on e ∙ updated,
                    rw on (λ m. ground (arith, sets m)),
                    others,
                  )
            ]
      ]

  update_tables_ok :
      (s s' : S) (d : TableDescription) (ds : List TableDescription)
      → update_one client s d ≡ inr s'
      → update_tables client s (d ∷ ds) ≡ update_tables client s' ds
  unfolding update_tables
  update_tables_ok s s' d ds h = rw (h, update_tables) refl

  pub update_tables-Done :
      (ds : List TableDescription) (s : S)
      → IsStrict by_name ds
      → AllExist true ds (capacity s)
      → Done capacity ds (active s) s (update_tables client s ds)
  update_tables-Done [] s strict h =
      unfold update_tables in (refl, λ m. sym (override_nil (active s) (capacity s) m))
  update_tables-Done (d ∷ ds) s strict h =
      let (s', made, sets, others) = update_one_lem s d h.0 in
      let rest =
        update_tables-Done ds s' strict.1 (
          AllExist-step true (active s d.name) d ds (capacity s) (capacity s') sets strict.0 h.1) in
      rw (update_tables_ok s s' d ds made) (
        rest.0,
        λ m.
            rest.1 m
            ∙ override_step d ds (active s) (active s') (capacity s) (capacity s') m sets others
                strict.0,
      )
