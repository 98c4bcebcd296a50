-- ===== src/Generator/Rows/Grows.antt =====
-- The loops of `generate_rows`: the columns keep one value for each row.
use data_factory.Base.{
  ℕ, zero, suc, ◌+◌, ◌≡◌, refl, ap, sym, ◌∙◌, String, false, some, List, [], ◌∷◌, ◌==◌, ◌=?◌,
  =?_refl, string_eq, length, length-replicate, replicate, All, Bool-cases, Option-cases, ◌⊎◌, inl,
  inr, arith,
}
use mathlib.Core.Option.{some-injective}
use data_factory.Base.Dict.{Dict, get, put, get-put}
use data_factory.Base.Result.{Result, ok, err}
use data_factory.Value.{Value}
use data_factory.CaseConfig.{FieldConfig}
use data_factory.Executor.World.{Fault}
use data_factory.Generator.{is_derived, source_column}
use data_factory.Generator.Rows.{
  Strategies, Source, Columns, is_skipped, generate_from, params_for, strategy_column, fill_column,
  fill_columns, compute_column, derive_column, derive_columns,
}

-- Every column has `count` values.
abbrev pub Sized : ℕ → Columns → Type 0
Sized count cols = All (λ e. length e.1 ≡ count) cols

abbrev pub Has : Columns → String → Type 0
Has cols k = (vs : List Value) × (get k cols ≡ some vs)

put-Sized :
    (count : ℕ) (k : String) (vs : List Value) (cols : Columns)
    → length vs ≡ count
    → Sized count cols
    → Sized count (put k vs cols)
unfolding put
put-Sized count k vs [] n h = (n, tt)
put-Sized count k vs ((j, ws) ∷ cols) n (m, h) = elim (Bool-cases (j =? k)) [
  | inl hit ↦ rw hit (n, h)
  | inr miss ↦ rw miss (m, put-Sized count k vs cols n h)
]

get-Sized :
    (count : ℕ) (k : String) (vs : List Value) (cols : Columns)
    → Sized count cols
    → get k cols ≡ some vs
    → length vs ≡ count
unfolding get
get-Sized count k vs [] h e = absurd (cc e)
get-Sized count k vs ((j, ws) ∷ cols) (m, h) e = elim (Bool-cases (j =? k)) [
  | inl hit ↦ rw (← some-injective _ _ (rw hit at e)) m
  | inr miss ↦ get-Sized count k vs cols h (rw miss at e)
]

put-Has : (k j : String) (vs : List Value) (cols : Columns) → Has cols j → Has (put k vs cols) j
put-Has k j vs cols (ws, e) = elim (Bool-cases (k =? j)) [
  | inl hit ↦ (vs, get-put k j vs cols ∙ rw hit refl)
  | inr miss ↦ (ws, get-put k j vs cols ∙ rw miss e)
]

put-here : (k : String) (vs : List Value) (cols : Columns) → Has (put k vs cols) k
put-here k vs cols = (vs, get-put k k vs cols ∙ rw (=?_refl k) refl)

-- What a step of either loop does to the columns: it keeps them, sized, and may add that of `f`.
pub record Grows (count : ℕ) (cols next : Columns) : Type 0 where
  pub sized : Sized count cols → Sized count next
  pub keeps : (k : String) → Has cols k → Has next k

pub same-Grows : (count : ℕ) (cols next : Columns) → cols ≡ next → Grows count cols next
same-Grows count cols next e = rw (← e) (record { sized = λ h. h; keeps = λ k h. h })

put-Grows :
    (count : ℕ) (k : String) (vs : List Value) (cols next : Columns)
    → length vs ≡ count
    → put k vs cols ≡ next
    → Grows count cols next × Has next k
put-Grows count k vs cols next n e = rw (← e) (
  record { sized = λ h. put-Sized count k vs cols n h; keeps = λ j h. put-Has k j vs cols h },
  put-here k vs cols,
)

Grows-trans : (count : ℕ) (a b c : Columns) → Grows count a b → Grows count b c → Grows count a c
Grows-trans count a b c f g = record {
  sized = λ h. g.sized (f.sized h);
  keeps = λ k h. g.keeps k (f.keeps k h);
}

pub Result-cases :
    {A : Type 0} (r : Result Fault A) → ((a : A) × (r ≡ ok a)) ⊎ ((e : Fault) × (r ≡ err e))
Result-cases (ok a) = inl (a, refl)
Result-cases (err e) = inr (e, refl)

pub ok-inj : {A : Type 0} {a b : A} → ◌≡◌ {A = Result Fault A} (ok a) (ok b) → a ≡ b
ok-inj h = cc

module _ {W : Type 0} (s : Strategies W) where
  generate_from-length :
      (f : FieldConfig) (params : Dict String Value) (i n : ℕ) (w : Source W) (vs : List Value)
      → (generate_from s f params i n w).0 ≡ ok vs
      → length vs ≡ n
  unfolding generate_from
  generate_from-length f params i zero w vs h = ap length (sym (ok-inj h))
  generate_from-length f params i (suc n) w vs h =
      let (r, random) = s.generate f params i w.random in
      elim (Result-cases r) [
        | inr (e, x) ↦ absurd (cc (rw (x, generate_from) at h))
        | inl (v, x) ↦
            let rest = (generate_from s f params (i + 1) n (record w { random = random })).0 in
            elim (Result-cases rest) [
              | inr (e, y) ↦ absurd (cc (rw (x, generate_from, y) at h))
              | inl (us, y) ↦
                  ap length (sym (ok-inj (rw (x, generate_from, y) at h)))
                  ∙ ap suc
                      (generate_from-length f params (i + 1) n (record w { random = random }) us y)
            ]
      ]

  strategy_column-length :
      (table : String) (count : ℕ) (f : FieldConfig) (w : Source W) (vs : List Value)
      → (strategy_column s table count f w).0 ≡ ok vs
      → length vs ≡ count
  unfolding strategy_column
  strategy_column-length table count f w vs h =
      let (params, w') = params_for s table count f w in
      elim (Option-cases (s.validate f params)) [
        | inr (e, x) ↦ absurd (cc (rw (x, strategy_column) at h))
        | inl x ↦ generate_from-length f params 0 count w' vs (rw (x, strategy_column) at h)
      ]

  fill_column-Grows :
      (table : String) (count : ℕ) (injected : Columns) (overrides : Dict String Value)
      (f : FieldConfig) (cols next : Columns) (w : Source W)
      → (fill_column s table count injected overrides f cols w).0 ≡ ok next
      → Grows count cols next
        × (is_skipped f ≡ false → is_derived f ≡ false → Has next f.column_name)
  unfolding fill_column
  fill_column-Grows table count injected overrides f cols next w h =
      elim (Bool-cases (is_skipped f)) [
        | inl skip ↦ (
          same-Grows count cols next (ok-inj (rw (skip, fill_column) at h)),
          λ x _. absurd (cc (x, skip)),
        )
        | inr given ↦ elim (Option-cases (get f.column_name overrides)) [
          | inr (v, x) ↦
              let (grows, here) =
                put-Grows count f.column_name (replicate count v) cols next
                  (length-replicate count v) (ok-inj (rw (given, x, fill_column) at h)) in
              (grows, λ _ _. here)
          | inl x ↦ elim (Option-cases (get f.column_name injected)) [
            | inr (vs, y) ↦ elim (Bool-cases (length vs == count)) [
              | inl fits ↦
                  let (grows, here) =
                    put-Grows count f.column_name vs cols next (ground (arith, fits))
                      (ok-inj (rw (given, x, y, fits, fill_column) at h)) in
                  (grows, λ _ _. here)
              | inr short ↦ absurd (cc (rw (given, x, y, short, fill_column) at h))
            ]
            | inl y ↦ elim (Bool-cases (is_derived f)) [
              | inl later ↦ (
                same-Grows count cols next (ok-inj (rw (given, x, y, later, fill_column) at h)),
                λ _ z. absurd (cc (z, later)),
              )
              | inr now ↦ elim (Result-cases (strategy_column s table count f w).0) [
                | inr (e, z) ↦ absurd (cc (rw (given, x, y, now, z, fill_column) at h))
                | inl (vs, z) ↦
                    let (grows, here) =
                      put-Grows count f.column_name vs cols next
                        (strategy_column-length table count f w vs z)
                        (ok-inj (rw (given, x, y, now, z, fill_column) at h)) in
                    (grows, λ _ _. here)
              ]
            ]
          ]
        ]
      ]

  pub fill_columns-Grows :
      (table : String) (count : ℕ) (injected : Columns) (overrides : Dict String Value)
      (fs : List FieldConfig) (cols next : Columns) (w : Source W)
      → (fill_columns s table count injected overrides fs cols w).0 ≡ ok next
      → Grows count cols next
        × All (λ f. is_skipped f ≡ false → is_derived f ≡ false → Has next f.column_name) fs
  unfolding fill_columns
  fill_columns-Grows table count injected overrides [] cols next w h =
      (same-Grows count cols next (ok-inj h), tt)
  fill_columns-Grows table count injected overrides (f ∷ fs) cols next w h =
      let (r, w') = fill_column s table count injected overrides f cols w in
      elim (Result-cases r) [
        | inr (e, x) ↦ absurd (cc (rw (x, fill_columns) at h))
        | inl (mid, x) ↦
            let (one, here) = fill_column-Grows table count injected overrides f cols mid w x in
            let (rest, all) =
              fill_columns-Grows table count injected overrides fs mid next w'
                (rw (x, fill_columns) at h) in
            (
              Grows-trans count cols mid next one rest,
              (λ a b. rest.keeps f.column_name (here a b), all),
            )
      ]

  compute_column-length :
      (f : FieldConfig) (vs rs : List Value) → compute_column s f vs ≡ ok rs → length rs ≡ length vs
  unfolding compute_column
  compute_column-length f [] rs h = ap length (sym (ok-inj h))
  compute_column-length f (v ∷ vs) rs h = elim (Result-cases (s.compute f f.strategy_params v)) [
    | inr (e, x) ↦ absurd (cc (rw (x, compute_column) at h))
    | inl (r, x) ↦ elim (Result-cases (compute_column s f vs)) [
      | inr (e, y) ↦ absurd (cc (rw (x, y, compute_column) at h))
      | inl (us, y) ↦
          ap length (sym (ok-inj (rw (x, y, compute_column) at h)))
          ∙ ap suc (compute_column-length f vs us y)
    ]
  ]

  derive_column-Grows :
      (count : ℕ) (f : FieldConfig) (cols next : Columns)
      → Sized count cols
      → derive_column s f cols ≡ ok next
      → Grows count cols next × Has next f.column_name
  unfolding derive_column
  derive_column-Grows count f cols next sized h = elim (Option-cases (get f.column_name cols)) [
    | inr (vs, x) ↦
        let same : cols ≡ next = ok-inj (rw (x, derive_column) at h) in
        (same-Grows count cols next same, rw (← same) (vs, x))
    | inl x ↦ elim (Option-cases (s.validate f f.strategy_params)) [
      | inr (e, y) ↦ absurd (cc (rw (x, y, derive_column) at h))
      | inl y ↦ elim (Option-cases (source_column f)) [
        | inl z ↦ absurd (cc (rw (x, y, z, derive_column) at h))
        | inr (c, z) ↦ elim (Option-cases (get c cols)) [
          | inl u ↦ absurd (cc (rw (x, y, z, u, derive_column) at h))
          | inr (vs, u) ↦ elim (Result-cases (compute_column s f vs)) [
            | inr (e, q) ↦ absurd (cc (rw (x, y, z, u, q, derive_column) at h))
            | inl (rs, q) ↦
                put-Grows count f.column_name rs cols next
                  (compute_column-length f vs rs q ∙ get-Sized count c vs cols sized u)
                  (ok-inj (rw (x, y, z, u, q, derive_column) at h))
          ]
        ]
      ]
    ]
  ]

  pub derive_columns-Grows :
      (count : ℕ) (fs : List FieldConfig) (cols next : Columns)
      → Sized count cols
      → derive_columns s fs cols ≡ ok next
      → Grows count cols next × All (λ f. Has next f.column_name) fs
  unfolding derive_columns
  derive_columns-Grows count [] cols next sized h = (same-Grows count cols next (ok-inj h), tt)
  derive_columns-Grows count (f ∷ fs) cols next sized h =
      elim (Result-cases (derive_column s f cols)) [
        | inr (e, x) ↦ absurd (cc (rw (x, derive_columns) at h))
        | inl (mid, x) ↦
            let (one, here) = derive_column-Grows count f cols mid sized x in
            let (rest, all) =
              derive_columns-Grows count fs mid next (one.sized sized)
                (rw (x, derive_columns) at h) in
            (Grows-trans count cols mid next one rest, (rest.keeps f.column_name here, all))
      ]
