-- ===== src/Ingester/Mapper/Strings.antt =====
-- A metric's string (ingester/mapper.go, metricToUniqueString) stands for its labels, where no name and no
-- value has the separator, which no text in UTF-8 has.
use mathlib.Core.List.{Memᴰ}
use mathlib.Core.Option.{some-injective}
use mathlib.Core.Path.{subst}
use cortex.Base.{
  ◌≡◌, refl, sym, ap, ◌∙◌, List, [], ◌∷◌, ◌++◌, true, false, Bytes, bytes_ord, nat_ord, ◌==◌, none,
  some, All, All-in, All_of_in, In, arith, Bool-cases, Option-cases, inl, inr, ==_refl, eq_of_==,
}
use cortex.Base.Dict
use cortex.Base.Dict.{Dict}
use cortex.Base.Sort.{sort, In-sort, All-sort}
use cortex.Ingester.User.Count.{AreUnique}
use cortex.Labels.{Metric}
use cortex.Ingester.Mapper.{separator, key_of, parts, join, metric_to_unique_string}

-- no separator in it
abbrev pub IsFree : Bytes → Type 0
IsFree b = All (λ c. (c == 255) ≡ false) b

-- each name once, and no separator in a name or a value
abbrev pub IsPlain : Metric → Type 0
IsPlain m = All (λ e. IsFree e.0 × IsFree e.1) m × AreUnique m

abbrev pub SameLabels : Metric → Metric → Type 0
SameLabels a b = (name : Bytes) → Dict.get a name ≡ Dict.get b name

abbrev part : Bytes × Bytes → Bytes
part e = e.0 ++ 255 ∷ e.1

abbrev IsPart : Bytes → Type 0
IsPart b = (e : Bytes × Bytes) × (IsFree e.0 × IsFree e.1) × (b ≡ part e)

-- empty, or from a separator on
abbrev Ends : Bytes → Type 0
Ends [] = Unit
Ends (c ∷ cs) = (c == 255) ≡ true

cut :
    (a b x y : Bytes) → IsFree a → IsFree b → Ends x → Ends y → a ++ x ≡ b ++ y → (a ≡ b) × (x ≡ y)
cut [] [] x y fa fb ex ey e = (refl, e)
cut [] (b ∷ bs) [] y fa fb ex ey e = cc
cut [] (b ∷ bs) (c ∷ x) y fa fb ex ey e =
    let same : c ≡ b = cc in absurd (ground (arith, same, ex, fb.0))
cut (a ∷ as') [] x [] fa fb ex ey e = cc
cut (a ∷ as') [] x (c ∷ y) fa fb ex ey e =
    let same : a ≡ c = cc in absurd (ground (arith, same, ey, fa.0))
cut (a ∷ as') (b ∷ bs) x y fa fb ex ey e =
    let same : a ≡ b = cc in
    let rest : as' ++ x ≡ bs ++ y = cc in
    let (p, q) = cut as' bs x y fa.1 fb.1 ex ey rest in (rw (same, p) refl, q)

append_nil : (b : Bytes) → b ++ [] ≡ b
append_nil [] = refl
append_nil (c ∷ b) = ap (λ x. c ∷ x) (append_nil b)

append_assoc : (a b c : Bytes) → (a ++ b) ++ c ≡ a ++ (b ++ c)
append_assoc [] b c = refl
append_assoc (x ∷ a) b c = ap (λ y. x ∷ y) (append_assoc a b c)

join_tail : List Bytes → Bytes
join_tail [] = []
join_tail (b ∷ bs) = 255 ∷ join separator (b ∷ bs)

Ends-join_tail : (bs : List Bytes) → Ends (join_tail bs)
unfolding join_tail
Ends-join_tail [] = tt
Ends-join_tail (b ∷ bs) = refl

join-part :
    (b : Bytes) (bs : List Bytes) (p : IsPart b)
    → join separator (b ∷ bs) ≡ p.0.0 ++ 255 ∷ (p.0.1 ++ join_tail bs)
unfolding join join_tail
join-part b [] p = p.2 ∙ ap (λ x. p.0.0 ++ 255 ∷ x) (sym (append_nil p.0.1))
join-part b (c ∷ bs) p =
    append_assoc b separator (join separator (c ∷ bs))
    ∙ ap (λ x. x ++ 255 ∷ join separator (c ∷ bs)) p.2
    ∙ append_assoc p.0.0 (255 ∷ p.0.1) (255 ∷ join separator (c ∷ bs))

join_tail-injective :
    (xs ys : List Bytes) → join_tail xs ≡ join_tail ys → join separator xs ≡ join separator ys
unfolding join_tail join
join_tail-injective [] [] e = refl
join_tail-injective [] (y ∷ ys) e = cc
join_tail-injective (x ∷ xs) [] e = cc
join_tail-injective (x ∷ xs) (y ∷ ys) e = cc

nonempty : (a x : Bytes) → a ++ 255 ∷ x ≡ join separator [] → ⊥
unfolding join
nonempty [] x e = cc
nonempty (c ∷ a) x e = cc

-- From what is joined the parts can be read again.
join-injective :
    (xs ys : List Bytes)
    → All IsPart xs
    → All IsPart ys
    → join separator xs ≡ join separator ys
    → xs ≡ ys
join-injective [] [] px py e = refl
join-injective [] (y ∷ ys) px py e =
    absurd (nonempty py.0.0.0 _ (sym (join-part y ys py.0) ∙ sym e))
join-injective (x ∷ xs) [] px py e = absurd (nonempty px.0.0.0 _ (sym (join-part x xs px.0) ∙ e))
join-injective (x ∷ xs) (y ∷ ys) px py e =
    let whole = sym (join-part x xs px.0) ∙ e ∙ join-part y ys py.0 in
    let (names, rest) = cut px.0.0.0 py.0.0.0 _ _ px.0.1.0 py.0.1.0 refl refl whole in
    let after : px.0.0.1 ++ join_tail xs ≡ py.0.0.1 ++ join_tail ys = cc in
    let (values, tails) =
      cut px.0.0.1 py.0.0.1 _ _ px.0.1.1 py.0.1.1 (Ends-join_tail xs) (Ends-join_tail ys) after in
    let more = join-injective xs ys px.1 py.1 (join_tail-injective xs ys tails) in
    rw (more, px.0.2, py.0.2, names, values) refl

parts-IsPart : (m : Metric) → All (λ e. IsFree e.0 × IsFree e.1) m → All IsPart (parts m)
unfolding parts
parts-IsPart [] h = tt
parts-IsPart ((n, v) ∷ m) h = (((n, v), h.0, append_assoc n separator v), parts-IsPart m h.1)

-- A label is one of the parts.
In-parts : (m : Metric) (n v : Bytes) → Dict.get m n ≡ some v → In (part (n, v)) (parts m)
unfolding parts Dict.get
In-parts [] n v e = cc
In-parts ((j, w) ∷ m) n v e = elim (Bool-cases (j == n)) [
  | inl t ↦
      let value : w ≡ v = some-injective w v (rw t at e) in
      Memᴰ.head (rw (eq_of_== j n t, value) (sym (append_assoc n separator v)))
  | inr f ↦ Memᴰ.tail (In-parts m n v (rw f at e))
]

get-IsFree :
    (m : Metric) (n v : Bytes)
    → All (λ e. IsFree e.0 × IsFree e.1) m
    → Dict.get m n ≡ some v
    → IsFree n
unfolding Dict.get
get-IsFree [] n v h e = cc
get-IsFree ((j, w) ∷ m) n v h e = elim (Bool-cases (j == n)) [
  | inl t ↦ rw (← eq_of_== j n t) h.0.0
  | inr f ↦ get-IsFree m n v h.1 (rw f at e)
]

get-other :
    (j : Bytes) (m : Metric) (n v : Bytes)
    → All (λ e. (j == e.0) ≡ false) m
    → Dict.get m n ≡ some v
    → (j == n) ≡ false
unfolding Dict.get
get-other j [] n v h e = cc
get-other j ((k, w) ∷ m) n v h e = elim (Bool-cases (k == n)) [
  | inl t ↦ rw (← eq_of_== k n t) h.0
  | inr f ↦ get-other j m n v h.1 (rw f at e)
]

get_of_part :
    (m : Metric) (n v : Bytes)
    → IsPlain m
    → IsFree n
    → In (part (n, v)) (parts m)
    → Dict.get m n ≡ some v
unfolding parts Dict.get
get_of_part [] n v h f i = elim i [ ]
get_of_part ((j, w) ∷ m) n v h f (Memᴰ.head e) =
    let (names, rest) =
      cut n j (255 ∷ v) (255 ∷ w) f h.0.0.0 refl refl (e ∙ append_assoc j separator w) in
    let values : v ≡ w = cc in rw (names, ==_refl j, values) refl
get_of_part ((j, w) ∷ m) n v h f (Memᴰ.tail i) =
    let found = get_of_part m n v (h.0.1, h.1.1) f i in
    rw (get-other j m n v h.1.0 found, found) refl

-- Metrics with the same string have the same parts.
same_parts :
    (a b : Metric)
    → IsPlain a
    → IsPlain b
    → metric_to_unique_string a ≡ metric_to_unique_string b
    → (p : Bytes) → In p (parts a)
    → In p (parts b)
same_parts a b pa pb e p i =
    let sorted =
      join-injective (sort key_of (parts a)) (sort key_of (parts b))
        (All-sort key_of IsPart (parts a) (parts-IsPart a pa.0))
        (All-sort key_of IsPart (parts b) (parts-IsPart b pb.0)) (strings e) in
    let there : In p (sort key_of (parts b)) = subst (In p) sorted (In-sort key_of p (parts a) i) in
    All-in (λ y. In y (parts b)) (sort key_of (parts b))
      (All-sort key_of (λ y. In y (parts b)) (parts b)
        (All_of_in (λ y. In y (parts b)) (parts b) (λ y m. m)))
      there
  where
    strings :
        metric_to_unique_string a ≡ metric_to_unique_string b
        → join separator (sort key_of (parts a)) ≡ join separator (sort key_of (parts b))
    strings e = unfold metric_to_unique_string in e

same_value :
    (a b : Metric) (name v : Bytes)
    → IsPlain a
    → IsPlain b
    → metric_to_unique_string a ≡ metric_to_unique_string b
    → Dict.get a name ≡ some v
    → Dict.get b name ≡ some v
same_value a b name v pa pb e found =
    get_of_part b name v pb (get-IsFree a name v pa.0 found)
      (same_parts a b pa pb e (part (name, v)) (In-parts a name v found))

-- Different metrics have different strings.
pub string-injective :
    (a b : Metric)
    → IsPlain a
    → IsPlain b
    → metric_to_unique_string a ≡ metric_to_unique_string b
    → SameLabels a b
string-injective a b pa pb e name = elim (Option-cases (Dict.get a name)) [
  | inr (v, found) ↦ found ∙ sym (same_value a b name v pa pb e found)
  | inl n ↦ elim (Option-cases (Dict.get b name)) [
    | inl n' ↦ n ∙ sym n'
    | inr (v, found) ↦ absurd (clash v (sym n ∙ same_value b a name v pb pa (sym e) found))
  ]
]
  where
    clash : (v : Bytes) → none ≡ some v → ⊥
    clash v e = cc
