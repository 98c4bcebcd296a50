-- ===== src/Generator/Rows/Filled.antt =====
-- `generate_rows`: every column has a value for each row.
use data_factory.Base.{
  ℕ, zero, suc, ◌≡◌, ◌≢◌, refl, ap, ◌∙◌, String, true, false, List, [], ◌∷◌, map, ◌==◌, ◌=?◌,
  =?_iff, string_eq, length, length-map, All, Bool-cases, ◌⊎◌, inl, inr, arith,
}
use data_factory.Base.Count.{contains}
use data_factory.Base.Dict.{Dict, get, keys}
use data_factory.Base.Result.{Result, ok, err}
use data_factory.Value.{Value}
use data_factory.CaseConfig.{FieldConfig}
use data_factory.Executor.World.{Row}
use data_factory.Generator.{is_derived, derived_of, topo_order_derived}
use data_factory.Generator.Derived.{columns}
use data_factory.Generator.Topo.{topo_order_derived-SourcesFirst}
use data_factory.Generator.Rows.{
  Strategies, Source, Columns, is_skipped, zip_cons, zip_rows, fill_columns, derive_all,
  rows_of_columns, generate_rows,
}
use data_factory.Generator.{TopoError}
use data_factory.Generator.Rows.Grows.{
  Sized, Has, Result-cases, ok-inj, fill_columns-Grows, derive_columns-Grows,
}

-- The columns that are generated: each that is not skipped, with a value for each row.
pub record Complete (count : ℕ) (fs : List FieldConfig) (cols : Columns) : Type 0 where
  pub sized : Sized count cols
  pub present : All (λ f. is_skipped f ≡ false → Has cols f.column_name) fs

in_order :
    (cols : Columns) (ordered : List FieldConfig) (k : String)
    → All (λ f. Has cols f.column_name) ordered
    → contains k (columns ordered) ≡ true
    → Has cols k
in_order cols [] k all h = absurd (cc h)
in_order cols (f ∷ fs) k all h = elim (Bool-cases (f.column_name =? k)) [
  | inl hit ↦ rw (← (=?_iff f.column_name k).0 hit) (all.0)
  | inr miss ↦ in_order cols fs k all.1 (rw miss at h)
]

present_all :
    (fs : List FieldConfig) (filled cols : Columns)
    → ((k : String) → Has filled k → Has cols k)
    → All (λ f. is_skipped f ≡ false → is_derived f ≡ false → Has filled f.column_name) fs
    → All (λ f. Has cols f.column_name) (derived_of fs)
    → All (λ f. is_skipped f ≡ false → Has cols f.column_name) fs
present_all [] filled cols keeps plain derived = tt
present_all (f ∷ fs) filled cols keeps plain derived = elim (Bool-cases (is_derived f)) [
  | inl yes_derived ↦
      let all : All (λ g. Has cols g.column_name) (f ∷ derived_of fs) = rw yes_derived at derived in
      (λ _. all.0, present_all fs filled cols keeps plain.1 all.1)
  | inr not_derived ↦
      let all : All (λ g. Has cols g.column_name) (derived_of fs) = rw not_derived at derived in
      (
        λ a. keeps f.column_name (plain.0 a not_derived),
        present_all fs filled cols keeps plain.1 all,
      )
]

Topo-cases :
    (r : Result TopoError (List FieldConfig))
    → ((a : List FieldConfig) × (r ≡ ok a)) ⊎ ((e : TopoError) × (r ≡ err e))
Topo-cases (ok a) = inl (a, refl)
Topo-cases (err e) = inr (e, refl)

map_all :
    (cols : Columns) (ordered fs : List FieldConfig)
    → All (λ f. Has cols f.column_name) ordered
    → All (λ f. contains f.column_name (columns ordered) ≡ true) fs
    → All (λ f. Has cols f.column_name) fs
map_all cols ordered [] all h = tt
map_all cols ordered (f ∷ fs) all (e, h) =
    (in_order cols ordered f.column_name all e, map_all cols ordered fs all h)

-- `dict(zip(...))`: as many rows as each column has values, with the columns as keys.
zip_cons-rows :
    (n : ℕ) (c : String) (ks : List String) (vs : List Value) (rows : List Row)
    → length vs ≡ n
    → length rows ≡ n
    → All (λ r. keys r ≡ ks) rows
    → (length (zip_cons c vs rows) ≡ n) × All (λ r. keys r ≡ c ∷ ks) (zip_cons c vs rows)
unfolding zip_cons
zip_cons-rows n c ks [] rows p q h = (p, tt)
zip_cons-rows n c ks (v ∷ vs) [] p q h = (q, tt)
zip_cons-rows zero c ks (v ∷ vs) (r ∷ rows) p q h = absurd (omega (arith, p))
zip_cons-rows (suc n) c ks (v ∷ vs) (r ∷ rows) p q (e, h) =
    let (m, all) = zip_cons-rows n c ks vs rows (omega (arith, p)) (omega (arith, q)) h in
    (ap suc m, (ap (λ (l : List String). c ∷ l) e, all))

one_column : (c : String) (vs : List Value) → All (λ r. keys r ≡ c ∷ []) (map (λ v. (c, v) ∷ []) vs)
one_column c [] = tt
one_column c (v ∷ vs) = (refl, one_column c vs)

zip_rows-rows :
    (n : ℕ) (cols : Columns)
    → Sized n cols
    → (cols ≢ [] → length (zip_rows cols) ≡ n) × All (λ r. keys r ≡ keys cols) (zip_rows cols)
unfolding zip_rows
zip_rows-rows n [] h = (λ x. absurd (x refl), tt)
zip_rows-rows n ((c, vs) ∷ []) (e, h) = (λ _. length-map (λ v. (c, v) ∷ []) vs ∙ e, one_column c vs)
zip_rows-rows n ((c, vs) ∷ d ∷ rest) (e, h) =
    let (m, all) = zip_rows-rows n (d ∷ rest) h in
    let (k, both) =
      zip_cons-rows n c (keys (d ∷ rest)) vs (zip_rows (d ∷ rest)) e (m (λ x. cc)) all in
    (λ _. k, both)

derive_all-Complete :
    {W : Type 0} (s : Strategies W) (count : ℕ) (fs : List FieldConfig) (filled cols : Columns)
    → Sized count filled
    → All (λ f. is_skipped f ≡ false → is_derived f ≡ false → Has filled f.column_name) fs
    → derive_all s fs filled ≡ ok cols
    → Complete count fs cols
unfolding derive_all
derive_all-Complete s count fs filled cols sized plain h =
    elim (Topo-cases (topo_order_derived fs)) [
      | inr (e, x) ↦ absurd (cc (rw (x, derive_all) at h))
      | inl (ordered, x) ↦
          let (grows, all) =
            derive_columns-Grows s count ordered filled cols sized (rw (x, derive_all) at h) in
          let known = (topo_order_derived-SourcesFirst fs ordered x).1 in
          record {
            sized = grows.sized sized;
            present =
                present_all fs filled cols grows.keeps plain
                  (map_all cols ordered (derived_of fs) all known);
          }
    ]

-- What `generate_rows` returns: the names of the columns, among them each that is not skipped, and
-- `count` rows that have just these columns. Without a column there is no row.
pub record Generated (count : ℕ) (fs : List FieldConfig) (rows : List Row) (names : List String)
    : Type 0 where
  pub listed : All (λ f. is_skipped f ≡ false → contains f.column_name names ≡ true) fs
  pub fit : All (λ r. keys r ≡ names) rows
  pub counted : names ≢ [] → length rows ≡ count
  pub empty : names ≡ [] → rows ≡ []

Has-contains : (cols : Columns) (k : String) → Has cols k → contains k (keys cols) ≡ true
unfolding get
Has-contains [] k (vs, e) = absurd (cc e)
Has-contains ((j, ws) ∷ cols) k (vs, e) = elim (Bool-cases (j =? k)) [
  | inl hit ↦ rw hit refl
  | inr miss ↦ rw miss (Has-contains cols k (vs, rw miss at e))
]

listed_all :
    (fs : List FieldConfig) (cols : Columns)
    → All (λ f. is_skipped f ≡ false → Has cols f.column_name) fs
    → All (λ f. is_skipped f ≡ false → contains f.column_name (keys cols) ≡ true) fs
listed_all [] cols h = tt
listed_all (f ∷ fs) cols (p, h) = (λ x. Has-contains cols f.column_name (p x), listed_all fs cols h)

rows_of_columns-Generated :
    {W : Type 0} (s : Strategies W) (count : ℕ) (fs : List FieldConfig) (cols : Columns)
    → Complete count fs cols
    → Generated count fs (rows_of_columns s count cols).0 (rows_of_columns s count cols).1
unfolding rows_of_columns
rows_of_columns-Generated s zero fs cols h = record {
  listed = listed_all fs cols h.present;
  fit = tt;
  counted = λ _. refl;
  empty = λ _. refl;
}
rows_of_columns-Generated s (suc n) fs [] h =
    let e : (suc n == 0) ≡ false = ground arith in
    record {
      listed = listed_all fs [] h.present;
      fit = rw (rows_of_columns, e) tt;
      counted = λ x. absurd (x refl);
      empty = λ _. rw (rows_of_columns, e) refl;
    }
rows_of_columns-Generated s (suc n) fs (c ∷ cols) h =
    let (m, all) = zip_rows-rows (suc n) (c ∷ cols) h.sized in
    let e : (suc n == 0) ≡ false = ground arith in
    record {
      listed = listed_all fs (c ∷ cols) h.present;
      fit = rw (rows_of_columns, e) all;
      counted = λ _. rw (rows_of_columns, e) (m (λ x. cc));
      empty = λ x. absurd (cc x);
    }

-- A run of `generate_rows` that does not raise returns the columns that are not skipped, and as many
-- rows as were asked for, each with these columns.
pub generate_rows-Generated :
    {W : Type 0} (s : Strategies W) (table : String) (fs : List FieldConfig) (count : ℕ)
    (injected : Columns) (overrides : Dict String Value) (w : Source W) (rows : List Row)
    (names : List String)
    → (generate_rows s table fs count injected overrides w).0 ≡ ok (rows, names)
    → Generated count fs rows names
unfolding generate_rows
generate_rows-Generated s table fs count injected overrides w rows names h =
    let (r, w') = fill_columns s table count injected overrides fs [] w in
    elim (Result-cases r) [
      | inr (e, x) ↦ absurd (cc (rw (x, generate_rows) at h))
      | inl (filled, x) ↦ elim (Result-cases (derive_all s fs filled)) [
        | inr (e, y) ↦ absurd (cc (rw (x, y, generate_rows) at h))
        | inl (cols, y) ↦
            let (grows, plain) =
              fill_columns-Grows s table count injected overrides fs [] filled w x in
            let complete = derive_all-Complete s count fs filled cols (grows.sized tt) plain y in
            let same : rows_of_columns s count cols ≡ (rows, names) =
              ok-inj (rw (x, y, generate_rows) at h) in
            rw
              (
                ← ap (λ (p : List Row × List String). p.0) same,
                ← ap (λ (p : List Row × List String). p.1) same,
              )
              (rows_of_columns-Generated s count fs cols complete)
      ]
    ]
