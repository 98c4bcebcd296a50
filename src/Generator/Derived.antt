-- ===== src/Generator/Derived.antt =====
-- What `topo_order_derived` promises: sources first, every derived column, and an end.
use data_factory.Base.{
  ℕ, zero, suc, ◌≡◌, refl, ap, sym, ◌∙◌, String, true, false, some, List, [], ◌∷◌, ◌++◌, map,
  append_assoc, append-nil, ◌=?◌, =?_iff, =?_refl, string_eq, Bool-cases, Option-cases, ◌⊎◌, inl,
  inr, arith,
}
use mathlib.Core.Option.{some-injective}
use data_factory.Base.Count.{contains, contains-append}
use data_factory.Base.Dict.{Dict, get, put, get-put}
use data_factory.Base.Result.{Result, ok, err}
use data_factory.CaseConfig.{FieldConfig}
use data_factory.Generator.{
  Visit, TopoError, name_to_field, source_column, derived_source, discard, leave, visit,
}

abbrev pub columns : List FieldConfig → List String
columns fs = map (λ f. f.column_name) fs

-- The source of `f`, if it is derived, is one of `before`.
abbrev pub Ready : Dict String FieldConfig → List FieldConfig → FieldConfig → Type 0
Ready d before f = (s : String) → derived_source d f ≡ some s → contains s (columns before) ≡ true

-- Each field stands behind the derived field that it is computed from.
abbrev pub SourcesFirst : Dict String FieldConfig → List FieldConfig → List FieldConfig → Type 0
SourcesFirst d before [] = Unit
SourcesFirst d before (f ∷ fs) = Ready d before f × SourcesFirst d (before ++ f ∷ []) fs

-- The columns of a visit are those that are ordered, and sources come first.
pub record Good (d : Dict String FieldConfig) (v : Visit) : Type 0 where
  pub same : (k : String) → contains k v.visited ≡ true → contains k (columns v.ordered) ≡ true
  pub first : SourcesFirst d [] v.ordered

abbrev pub Named : Dict String FieldConfig → Type 0
Named d = (k : String) (f : FieldConfig) → get k d ≡ some f → f.column_name ≡ k

SourcesFirst-snoc :
    (d : Dict String FieldConfig) (before fs : List FieldConfig) (f : FieldConfig)
    → SourcesFirst d before fs
    → Ready d (before ++ fs) f
    → SourcesFirst d before (fs ++ f ∷ [])
SourcesFirst-snoc d before [] f h r = (rw append-nil at r, tt)
SourcesFirst-snoc d before (g ∷ gs) f h r =
    (h.0, SourcesFirst-snoc d (before ++ g ∷ []) gs f h.1 (rw append_assoc r))

columns-append : (fs gs : List FieldConfig) → columns (fs ++ gs) ≡ columns fs ++ columns gs
columns-append [] gs = refl
columns-append (f ∷ fs) gs = ap (λ (l : List String). f.column_name ∷ l) (columns-append fs gs)

-- A field whose source is there may be ordered next.
leave-Good :
    (d : Dict String FieldConfig) (name : String) (f : FieldConfig) (v : Visit)
    → f.column_name ≡ name
    → Good d v
    → Ready d v.ordered f
    → Good d (leave name (f ∷ []) v)
unfolding leave
leave-Good d name f v own g r = record {
  same = λ k h. ground (
    arith,
    own,
    g.same k,
    columns-append v.ordered (f ∷ []),
    contains-append k (columns v.ordered) (f.column_name ∷ []),
    h,
  );
  first = SourcesFirst-snoc d [] v.ordered f g.first r;
}

pub Result-cases :
    {A : Type 0} (r : Result TopoError A) → ((a : A) × (r ≡ ok a)) ⊎ ((e : TopoError) × (r ≡ err e))
Result-cases (ok a) = inl (a, refl)
Result-cases (err e) = inr (e, refl)

pub ok-inj : {A : Type 0} {a b : A} → ◌≡◌ {A = Result TopoError A} (ok a) (ok b) → a ≡ b
ok-inj h = cc

put-Named :
    (m : FieldConfig) (d : Dict String FieldConfig) → Named d → Named (put m.column_name m d)
put-Named m d named k f h = elim (Bool-cases (m.column_name =? k)) [
  | inl hit ↦ ground (arith, get-put m.column_name k m d, =?_iff m.column_name k)
  | inr miss ↦ named k f (ground (arith, get-put m.column_name k m d))
]

pub name_to_field-Named :
    (fs : List FieldConfig) (d : Dict String FieldConfig) → Named d → Named (name_to_field fs d)
unfolding name_to_field
name_to_field-Named [] d h = h
name_to_field-Named (f ∷ fs) d h = name_to_field-Named fs (put f.column_name f d) (put-Named f d h)

abbrev pub HasField : Dict String FieldConfig → String → Type 0
HasField d k = (f : FieldConfig) × (get k d ≡ some f)

pub derived_source-HasField :
    (d : Dict String FieldConfig) (f : FieldConfig) (s : String)
    → derived_source d f ≡ some s
    → HasField d s
unfolding derived_source
derived_source-HasField d f s h = elim (Option-cases (source_column f)) [
  | inl e ↦ absurd (cc (rw (e, derived_source) at h))
  | inr (t, e) ↦ elim (Option-cases (get t d)) [
    | inl n ↦ absurd (cc (rw (e, n, derived_source) at h))
    | inr (g, n) ↦
        let same : t ≡ s = some-injective _ _ (rw (e, n, derived_source) at h) in (g, rw (← same) n)
  ]
]

-- What a visit of `name` leaves.
pub record Visited (d : Dict String FieldConfig) (name : String) (v w : Visit) : Type 0 where
  pub good : Good d w
  pub here : contains name w.visited ≡ true
  pub keeps : (k : String) → contains k v.visited ≡ true → contains k w.visited ≡ true
  pub path : w.visiting ≡ v.visiting

discard-absent : (k : String) (xs : List String) → contains k xs ≡ false → discard k xs ≡ xs
unfolding discard
discard-absent k [] h = refl
discard-absent k (x ∷ xs) h = elim (Bool-cases (x =? k)) [
  | inl hit ↦ ground (arith, h, hit)
  | inr miss ↦ rw miss (ap (λ (l : List String). x ∷ l) (discard-absent k xs (rw miss at h)))
]

discard-head : (k : String) (xs : List String) → contains k xs ≡ false → discard k (k ∷ xs) ≡ xs
unfolding discard
discard-head k xs h = rw (=?_refl k) (discard-absent k xs h)

pub leave-Visited :
    (d : Dict String FieldConfig) (name : String) (f : FieldConfig) (v u : Visit)
    → f.column_name ≡ name
    → Good d u
    → Ready d u.ordered f
    → contains name v.visiting ≡ false
    → ((k : String) → contains k v.visited ≡ true → contains k u.visited ≡ true)
    → u.visiting ≡ name ∷ v.visiting
    → Visited d name v (leave name (f ∷ []) u)
unfolding leave
leave-Visited d name f v u own good ready absent keeps path = record {
  good = leave-Good d name f u own good ready;
  here = rw (=?_refl name) refl;
  keeps = λ k h. ground (arith, keeps k h);
  path = ap (discard name) path ∙ discard-head name v.visiting absent;
}

pub visit-Visited :
    (fuel : ℕ) (d : Dict String FieldConfig)
    → Named d
    → (name : String) (v w : Visit) → HasField d name
    → Good d v
    → visit fuel d name v ≡ ok w
    → Visited d name v w
unfolding visit
visit-Visited zero d named name v w field good h = absurd (cc h)
visit-Visited (suc fuel) d named name v w (f, e) good h =
    elim (Bool-cases (contains name v.visited)) [
      | inl seen ↦
          let same = ok-inj (rw (seen, visit) at h) in
          rw (← same) (record { good = good; here = seen; keeps = λ k x. x; path = refl })
      | inr new ↦ elim (Bool-cases (contains name v.visiting)) [
        | inl loop ↦ absurd (cc (rw (new, loop, visit) at h))
        | inr on ↦
            let entered : Visit = record v { visiting = name ∷ v.visiting } in
            let still : Good d entered = record { same = good.same; first = good.first } in
            let own : f.column_name ≡ name = named name f e in
            elim (Option-cases (derived_source d f)) [
              | inl bare ↦ rw (← ok-inj (rw (new, on, e, bare, visit) at h)) (
                  leave-Visited d name f v entered own still (λ s x. absurd (cc (bare, x))) on
                    (λ k x. x) refl)
              | inr (s, src) ↦ elim (Result-cases (visit fuel d s entered)) [
                | inr (x, r) ↦ absurd (cc (rw (new, on, e, src, r, visit) at h))
                | inl (u, r) ↦
                    let below =
                      visit-Visited fuel d named s entered u (derived_source-HasField d f s src)
                        still r in
                    rw (← ok-inj (rw (new, on, e, src, r, visit) at h)) (
                      leave-Visited d name f v u own below.good
                        (λ t x.
                          rw (some-injective _ _ (sym x ∙ src)) (below.good.same s below.here))
                        on below.keeps below.path)
              ]
            ]
      ]
    ]
