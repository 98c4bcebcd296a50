-- ===== src/Generator.antt =====
-- backend/app/engine/data_generator.py: the rows of a batch, column by column, and the order of the
-- derived columns of backend/app/engine/strategies/derived_strategies.py. The strategies of the columns
-- are a parameter.
pub mod Derived
pub mod Topo
pub mod Rows
pub mod Batch
use data_factory.Base.{
  ℕ, zero, suc, ◌+◌, ◌≡◌, String, Bool, true, false, Option, none, some, List, [], ◌∷◌, ◌++◌, map,
  ◌==◌, if◌then◌else◌, ◌=?◌, string_eq, length, replicate, keep,
}
use data_factory.Base.Text.{strategy_is}
use data_factory.Base.Count.{contains}
use data_factory.Base.Dict.{Dict, get, put}
use data_factory.Base.Result.{Result, ok, err}
use data_factory.Value.{Value, text}
use data_factory.CaseConfig.{FieldConfig}

-- The two dictionaries and the list of `topo_order_derived`.
pub record Visit : Type 0 where
  pub visited : List String
  pub visiting : List String
  pub ordered : List FieldConfig

-- The `ValueError` of a cycle, or a recursion cut off by its fuel.
pub data TopoError : Type 0 where
  cycle : String → TopoError
  too_deep : TopoError

pub is_derived : FieldConfig → Bool
is_derived f = strategy_is "DERIVED" "" f.strategy

abbrev pub derived_of : List FieldConfig → List FieldConfig
derived_of fs = keep is_derived fs

-- `{fc["column_name"]: fc for fc in derived}`: a later field replaces an earlier one of its name.
pub name_to_field : List FieldConfig → Dict String FieldConfig → Dict String FieldConfig
name_to_field [] d = d
name_to_field (f ∷ fs) d = name_to_field fs (put f.column_name f d)

-- `(fc.get("strategy_params") or {}).get("source_column")`, of a text.
pub source_column : FieldConfig → Option String
source_column f = elim (get "source_column" f.strategy_params) [ some (text s) ↦ some s | _ ↦ none ]

-- The source, if it is derived itself.
pub derived_source : Dict String FieldConfig → FieldConfig → Option String
unfolding source_column
derived_source d f = elim (source_column f) [
  | none ↦ none
  | some s ↦ elim (get s d) [ none ↦ none | some _ ↦ some s ]
]

-- `visiting.discard(name)`
pub discard : String → List String → List String
discard k xs = keep (λ x. if x =? k then false else true) xs

pub leave : String → List FieldConfig → Visit → Visit
unfolding discard
leave name fs v = record {
  visited = name ∷ v.visited;
  visiting = discard name v.visiting;
  ordered = v.ordered ++ fs;
}

-- `visit`
pub visit : ℕ → Dict String FieldConfig → String → Visit → Result TopoError Visit
unfolding derived_source leave
visit zero d name v = err too_deep
visit (suc fuel) d name v =
    if contains name v.visited
    then ok v
    else if contains name v.visiting
    then err (cycle name)
    else (let entered = record v { visiting = name ∷ v.visiting } in
        elim (get name d) [
          | none ↦ ok (leave name [] entered)
          | some f ↦ elim (derived_source d f) [
            | none ↦ ok (leave name (f ∷ []) entered)
            | some s ↦ elim (visit fuel d s entered) [
              | err e ↦ err e
              | ok left ↦ ok (leave name (f ∷ []) left)
            ]
          ]
        ])

pub visit_all : ℕ → Dict String FieldConfig → List FieldConfig → Visit → Result TopoError Visit
unfolding visit
visit_all fuel d [] v = ok v
visit_all fuel d (f ∷ fs) v = elim (visit fuel d f.column_name v) [
  | err e ↦ err e
  | ok w ↦ visit_all fuel d fs w
]

-- `topo_order_derived`
pub topo_order_derived : List FieldConfig → Result TopoError (List FieldConfig)
unfolding name_to_field visit_all is_derived
topo_order_derived fs =
    let derived = derived_of fs in
    elim (visit_all (suc (length derived)) (name_to_field derived []) derived
      (record { visited = []; visiting = []; ordered = [] })) [
        | err e ↦ err e
        | ok v ↦ ok v.ordered
      ]
