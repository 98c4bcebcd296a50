-- ===== src/Generator/Topo.antt =====
-- `topo_order_derived`: sources first, every derived column, and an end.
use data_factory.Base.{
  ℕ, zero, suc, ◌+◌, ◌≤◌, ◌<◌, ◌≡◌, refl, ◌∙◌, String, true, false, List, [], ◌∷◌, ◌=?◌, =?_iff,
  =?_refl, string_eq, length, length-map, All, Bool-cases, Option-cases, ◌⊎◌, inl, inr, arith,
}
use data_factory.Base.Count.{
  contains, Distinct, length-le_of_count, not_contains-count, contains-In,
}
use data_factory.Base.Dict.{Dict, get, put, get-put}
use data_factory.Base.Result.{Result, ok, err}
use data_factory.CaseConfig.{FieldConfig}
use data_factory.Generator.{
  Visit, TopoError, cycle, derived_of, name_to_field, derived_source, leave, visit, visit_all,
  topo_order_derived,
}
use data_factory.Generator.Derived.{
  columns, SourcesFirst, Good, Named, HasField, visit-Visited, name_to_field-Named,
  derived_source-HasField, Result-cases, ok-inj,
}

name_to_field-kept :
    (fs : List FieldConfig) (k : String) (d : Dict String FieldConfig)
    → HasField d k
    → HasField (name_to_field fs d) k
unfolding name_to_field
name_to_field-kept [] k d h = h
name_to_field-kept (f ∷ fs) k d (g, e) =
    name_to_field-kept fs k (put f.column_name f d) (elim (Bool-cases (f.column_name =? k)) [
      | inl hit ↦ (f, ground (arith, get-put f.column_name k f d))
      | inr miss ↦ (g, ground (arith, get-put f.column_name k f d))
    ])

AllFields : Dict String FieldConfig → List FieldConfig → Type 0
AllFields d fs = All (λ f. HasField d f.column_name) fs

name_to_field-AllFields :
    (fs : List FieldConfig) (d : Dict String FieldConfig) → AllFields (name_to_field fs d) fs
unfolding name_to_field AllFields
name_to_field-AllFields [] d = tt
name_to_field-AllFields (f ∷ fs) d = (
  name_to_field-kept fs f.column_name (put f.column_name f d)
      (f, get-put f.column_name f.column_name f d ∙ rw (=?_refl f.column_name)),
  name_to_field-AllFields fs (put f.column_name f d),
)

-- A key of the dictionary is a column of the fields.
name_to_field-columns :
    (fs : List FieldConfig) (d : Dict String FieldConfig) (k : String)
    → HasField (name_to_field fs d) k
    → HasField d k ⊎ (contains k (columns fs) ≡ true)
unfolding name_to_field
name_to_field-columns [] d k h = inl h
name_to_field-columns (f ∷ fs) d k h = elim (name_to_field-columns fs (put f.column_name f d) k h) [
  | inr later ↦ inr (ground (arith, later))
  | inl (g, e) ↦ elim (Bool-cases (f.column_name =? k)) [
    | inl hit ↦ inr (rw hit refl)
    | inr miss ↦ inl (g, ground (arith, get-put f.column_name k f d))
  ]
]

-- What the visits of all the fields leave.
record AllVisited (d : Dict String FieldConfig) (fs : List FieldConfig) (v w : Visit) : Type 0 where
  good : Good d w
  here : All (λ f. contains f.column_name w.visited ≡ true) fs
  keeps : (k : String) → contains k v.visited ≡ true → contains k w.visited ≡ true

visit_all-AllVisited :
    (fuel : ℕ) (d : Dict String FieldConfig)
    → Named d
    → (fs : List FieldConfig) (v w : Visit) → AllFields d fs
    → Good d v
    → visit_all fuel d fs v ≡ ok w
    → AllVisited d fs v w
unfolding visit_all AllFields
visit_all-AllVisited fuel d named [] v w fields good h =
    rw (← ok-inj h) (record { good = good; here = tt; keeps = λ k x. x })
visit_all-AllVisited fuel d named (f ∷ fs) v w fields good h =
    elim (Result-cases (visit fuel d f.column_name v)) [
      | inr (e, r) ↦ absurd (cc (rw (r, visit_all) at h))
      | inl (u, r) ↦
          let one = visit-Visited fuel d named f.column_name v u fields.0 good r in
          let rest =
            visit_all-AllVisited fuel d named fs u w fields.1 one.good (rw (r, visit_all) at h) in
          record {
            good = rest.good;
            here = (rest.keeps f.column_name one.here, rest.here);
            keeps = λ k x. rest.keeps k (one.keeps k x);
          }
    ]

-- The path of a recursion holds different columns of the fields.
record PathIn (ns : List String) (visiting : List String) : Type 0 where
  distinct : Distinct visiting
  known : (k : String) → contains k visiting ≡ true → contains k ns ≡ true

path-short : (ns visiting : List String) → PathIn ns visiting → length visiting ≤ length ns
path-short ns visiting p = length-le_of_count visiting ns λ k.
    elim (Bool-cases (contains k visiting)) [
      | inr no_way ↦ omega (arith, not_contains-count k visiting no_way)
      | inl on ↦ omega (arith, p.distinct k, contains-In k ns (p.known k on))
    ]

path-cons :
    (ns visiting : List String) (k : String)
    → PathIn ns visiting
    → contains k ns ≡ true
    → contains k visiting ≡ false
    → PathIn ns (k ∷ visiting)
path-cons ns visiting k p own absent = record {
  distinct = λ j. elim (Bool-cases (k =? j)) [
    | inl hit ↦ ground (arith, not_contains-count k visiting absent, =?_iff k j)
    | inr miss ↦ rw miss (omega (arith, p.distinct j))
  ];
  known = λ j h. ground (arith, p.known j, =?_iff k j);
}

-- A visit ends, with a state or with a cycle.
abbrev Ends : {A : Type 0} → Result TopoError A → Type 0
Ends {A} r = ((a : A) × (r ≡ ok a)) ⊎ ((k : String) × (r ≡ err (cycle k)))

visit-Ends :
    (ns : List String) (d : Dict String FieldConfig)
    → ((k : String) → HasField d k → contains k ns ≡ true)
    → (fuel : ℕ) (name : String) (v : Visit) → HasField d name
    → PathIn ns v.visiting
    → length ns < fuel + length v.visiting
    → Ends (visit fuel d name v)
unfolding visit
visit-Ends ns d known zero name v field path enough =
    absurd (omega (arith, enough, path-short ns v.visiting path))
visit-Ends ns d known (suc fuel) name v (f, e) path enough =
    elim (Bool-cases (contains name v.visited)) [
      | inl seen ↦ inl (v, rw (seen, visit) refl)
      | inr new ↦ elim (Bool-cases (contains name v.visiting)) [
        | inl loop ↦ inr (name, rw (new, loop, visit) refl)
        | inr on ↦
            let entered : Visit = record v { visiting = name ∷ v.visiting } in
            elim (Option-cases (derived_source d f)) [
              | inl bare ↦ inl (leave name (f ∷ []) entered, rw (new, on, e, bare, visit) refl)
              | inr (s, src) ↦
                  elim (visit-Ends ns d known fuel s entered (derived_source-HasField d f s src)
                    (path-cons ns v.visiting name path (known name (f, e)) on) (omega arith)) [
                      | inl (u, r) ↦
                          inl (leave name (f ∷ []) u, rw (new, on, e, src, r, visit) refl)
                      | inr (k, r) ↦ inr (k, rw (new, on, e, src, r, visit) refl)
                    ]
            ]
      ]
    ]

visit_all-Ends :
    (ns : List String) (d : Dict String FieldConfig)
    → ((k : String) → HasField d k → contains k ns ≡ true)
    → Named d
    → (fuel : ℕ) (fs : List FieldConfig) (v : Visit) → AllFields d fs
    → Good d v
    → v.visiting ≡ []
    → length ns < fuel
    → Ends (visit_all fuel d fs v)
unfolding visit_all AllFields
visit_all-Ends ns d known named fuel [] v fields good start enough = inl (v, refl)
visit_all-Ends ns d known named fuel (f ∷ fs) v fields good start enough =
    let nowhere : PathIn ns v.visiting =
      rw start (record { distinct = λ k. omega arith; known = λ k h. absurd (cc h) }) in
    elim (visit-Ends ns d known fuel f.column_name v (fields.0) nowhere
      (rw start (omega (arith, enough)))) [
        | inr (k, r) ↦ inr (k, rw (r, visit_all) refl)
        | inl (u, r) ↦
            let one = visit-Visited fuel d named f.column_name v u fields.0 good r in
            elim (visit_all-Ends ns d known named fuel fs u fields.1 one.good (one.path ∙ start)
              enough) [
                | inl (w, q) ↦ inl (w, rw (r, visit_all) q)
                | inr (k, q) ↦ inr (k, rw (r, visit_all) q)
              ]
      ]

nil-Named : Named []
unfolding get
nil-Named k f h = absurd (cc h)

nothing : Visit
nothing = record { visited = []; visiting = []; ordered = [] }

nothing-Good : (d : Dict String FieldConfig) → Good d nothing
unfolding nothing
nothing-Good d = record { same = λ k h. absurd (cc h); first = tt }

fields_of-known :
    (fs : List FieldConfig) (k : String)
    → HasField (name_to_field fs []) k
    → contains k (columns fs) ≡ true
unfolding get
fields_of-known fs k h = elim (name_to_field-columns fs [] k h) [
  | inl (f, e) ↦ absurd (cc e)
  | inr x ↦ x
]

-- If there is an order, every derived column is in it, behind the derived column that it is computed from.
pub topo_order_derived-SourcesFirst :
    (fs ordered : List FieldConfig)
    → topo_order_derived fs ≡ ok ordered
    → SourcesFirst (name_to_field (derived_of fs) []) [] ordered
      × All (λ f. contains f.column_name (columns ordered) ≡ true) (derived_of fs)
unfolding topo_order_derived nothing
topo_order_derived-SourcesFirst fs ordered h =
    let ds = derived_of fs in
    let d = name_to_field ds [] in
    elim (Result-cases (visit_all (suc (length ds)) d ds nothing)) [
      | inr (e, r) ↦ absurd (cc (rw (r, topo_order_derived) at h))
      | inl (w, r) ↦
          let same : w.ordered ≡ ordered = ok-inj (rw (r, topo_order_derived) at h) in
          let all =
            visit_all-AllVisited (suc (length ds)) d (name_to_field-Named ds [] nil-Named) ds
              nothing w (name_to_field-AllFields ds []) (nothing-Good d) r in
          rw (← same) (all.good.first, ordered_all ds w all.good.same all.here)
    ]
  where
    ordered_all :
        (gs : List FieldConfig) (w : Visit)
        → ((k : String) → contains k w.visited ≡ true → contains k (columns w.ordered) ≡ true)
        → All (λ f. contains f.column_name w.visited ≡ true) gs
        → All (λ f. contains f.column_name (columns w.ordered) ≡ true) gs
    ordered_all [] w same x = tt
    ordered_all (g ∷ gs) w same x = (same g.column_name x.0, ordered_all gs w same x.1)

-- Every run ends, with an order or with the error of a cycle: the recursion is never cut off.
pub topo_order_derived_total :
    (fs : List FieldConfig)
    → ((ordered : List FieldConfig) × (topo_order_derived fs ≡ ok ordered))
      ⊎ ((k : String) × (topo_order_derived fs ≡ err (cycle k)))
unfolding topo_order_derived nothing
topo_order_derived_total fs =
    let ds = derived_of fs in
    let d = name_to_field ds [] in
    elim (visit_all-Ends (columns ds) d (fields_of-known ds) (name_to_field-Named ds [] nil-Named)
      (suc (length ds)) ds nothing (name_to_field-AllFields ds []) (nothing-Good d) refl
      (omega (arith, length-map (λ (f : FieldConfig). f.column_name) ds))) [
        | inl (w, r) ↦ inl (w.ordered, rw (r, topo_order_derived) refl)
        | inr (k, r) ↦ inr (k, rw (r, topo_order_derived) refl)
      ]
