-- ===== src/Generator/Rows.antt =====
-- `generate_rows`. The strategies of the columns are a parameter, with the source of their values.
pub mod Grows
pub mod Filled
mod Samples
use data_factory.Base.{
  ℕ, zero, suc, ◌+◌, String, Bool, true, false, Option, none, some, List, [], ◌∷◌, ◌++◌, map, ◌==◌,
  if◌then◌else◌, string_eq, length, replicate, is_empty,
}
use data_factory.Base.Text.{strategy_is, join}
use data_factory.Base.Dict.{Dict, get, put, keys}
use data_factory.Base.Result.{Result, ok, err}
use data_factory.Value.{Value, int}
use data_factory.CaseConfig.{FieldConfig}
use data_factory.Counters.{CounterKey, counter_eq, Counters, prefetch_incr_range}
use data_factory.Executor.World.{Row, Fault, value_error, other, Action, pure, raise, ◌>>=◌}
use data_factory.Generator.{
  TopoError, cycle, too_deep, is_derived, source_column, topo_order_derived,
}

-- `get_strategy` and `validate` give an error or pass; `generate` gives the value of a row, and
-- `compute` a value of a derived column from that of its source.
pub record Strategies (W : Type 0) : Type 0 where
  pub validate : FieldConfig → Dict String Value → Option Fault
  pub generate : FieldConfig → Dict String Value → ℕ → W → Result Fault Value × W
  pub compute : FieldConfig → Dict String Value → Value → Result Fault Value

-- The counters in Redis and the source of random values.
pub record Source (W : Type 0) : Type 0 where
  pub counters : Counters
  pub random : W

abbrev pub Columns : Type 0
Columns = Dict String (List Value)

unfoldable pub is_skipped : FieldConfig → Bool
is_skipped f = strategy_is "SKIP" "DEFAULT" f.strategy

-- `dict(zip(columns, values))` for each row of values.
pub zip_cons : String → List Value → List Row → List Row
zip_cons c [] rows = []
zip_cons c (v ∷ vs) [] = []
zip_cons c (v ∷ vs) (r ∷ rows) = ((c, v) ∷ r) ∷ zip_cons c vs rows

pub zip_rows : Columns → List Row
unfolding zip_cons
zip_rows [] = []
zip_rows ((c, vs) ∷ []) = map (λ v. (c, v) ∷ []) vs
zip_rows ((c, vs) ∷ e ∷ rest) = zip_cons c vs (zip_rows (e ∷ rest))

pub topo_fault : TopoError → Fault
topo_fault (cycle k) = value_error (join "派生字段存在循环依赖: " k)
topo_fault too_deep = other "RecursionError"

module _ {W : Type 0} (s : Strategies W) where
  -- `strategy.generate(field_config, params, i)` for the rows from `i` on.
  pub generate_from : FieldConfig → Dict String Value → ℕ → ℕ → Action (Source W) (List Value)
  generate_from f params i zero w = (ok [], w)
  generate_from f params i (suc n) w =
      let (r, random) = s.generate f params i w.random in
      elim r [
        | err e ↦ (err e, record w { random = random })
        | ok v ↦
            let (rest, w') = generate_from f params (i + 1) n (record w { random = random }) in
            (elim rest [ err e ↦ err e | ok vs ↦ ok (v ∷ vs) ], w')
      ]

  -- An INCR_FROM column reserves the numbers of its rows.
  pub params_for : String → ℕ → FieldConfig → Source W → Dict String Value × Source W
  params_for table count f w =
      if strategy_is "INCR_FROM" "DEFAULT" f.strategy
      then (let (start, counters) =
            prefetch_incr_range (record { table = table; column = f.column_name }) count
              w.counters in
          (put "range_start" (int start) f.strategy_params, record w { counters = counters }))
      else (f.strategy_params, w)

  -- A column by its strategy.
  pub strategy_column : String → ℕ → FieldConfig → Action (Source W) (List Value)
  unfolding generate_from params_for
  strategy_column table count f w =
      let (params, w') = params_for table count f w in
      elim (s.validate f params) [ some e ↦ (err e, w') | none ↦ generate_from f params 0 count w' ]

  -- The body of the first loop: a fixed value, then injected values, then the strategy.
  pub fill_column :
      String → ℕ → Columns → Dict String Value → FieldConfig → Columns → Action (Source W) Columns
  unfolding strategy_column is_skipped is_derived
  fill_column table count injected overrides f columns w =
      if is_skipped f then (ok columns, w) else elim (get f.column_name overrides) [
        | some v ↦ (ok (put f.column_name (replicate count v) columns), w)
        | none ↦ elim (get f.column_name injected) [
          | some vs ↦
              if length vs == count
              then (ok (put f.column_name vs columns), w)
              else (err (value_error f.column_name), w)
          | none ↦
              if is_derived f
              then (ok columns, w)
              else (let (r, w') = strategy_column table count f w in
                  (elim r [ err e ↦ err e | ok vs ↦ ok (put f.column_name vs columns) ], w'))
        ]
      ]

  pub fill_columns :
      String
      → ℕ
      → Columns
      → Dict String Value
      → List FieldConfig
      → Columns
      → Action (Source W) Columns
  unfolding fill_column
  fill_columns table count injected overrides [] columns = pure columns
  fill_columns table count injected overrides (f ∷ fs) columns = do
    filled ← fill_column table count injected overrides f columns
    fill_columns table count injected overrides fs filled

  -- `compute_column`
  pub compute_column : FieldConfig → List Value → Result Fault (List Value)
  compute_column f [] = ok []
  compute_column f (v ∷ vs) = elim (s.compute f f.strategy_params v) [
    | err e ↦ err e
    | ok r ↦ elim (compute_column f vs) [ err e ↦ err e | ok rs ↦ ok (r ∷ rs) ]
  ]

  -- The body of the second loop.
  pub derive_column : FieldConfig → Columns → Result Fault Columns
  unfolding compute_column source_column
  derive_column f columns = elim (get f.column_name columns) [
    | some _ ↦ ok columns
    | none ↦ elim (s.validate f f.strategy_params) [
      | some e ↦ err e
      | none ↦ elim (source_column f) [
        | none ↦ err (other "KeyError")
        | some c ↦ elim (get c columns) [
          | none ↦ err (value_error c)
          | some vs ↦ elim (compute_column f vs) [
            | err e ↦ err e
            | ok rs ↦ ok (put f.column_name rs columns)
          ]
        ]
      ]
    ]
  ]

  pub derive_columns : List FieldConfig → Columns → Result Fault Columns
  unfolding derive_column
  derive_columns [] columns = ok columns
  derive_columns (f ∷ fs) columns = elim (derive_column f columns) [
    | err e ↦ err e
    | ok filled ↦ derive_columns fs filled
  ]

  -- The second loop, over the derived columns in their order.
  pub derive_all : List FieldConfig → Columns → Result Fault Columns
  unfolding derive_columns topo_order_derived topo_fault
  derive_all fs columns = elim (topo_order_derived fs) [
    | err e ↦ err (topo_fault e)
    | ok ordered ↦ derive_columns ordered columns
  ]

  pub rows_of_columns : ℕ → Columns → List Row × List String
  unfolding zip_rows
  rows_of_columns count columns = (
    if (if count == 0 then true else is_empty columns) then [] else zip_rows columns,
    keys columns,
  )

  -- `generate_rows`
  unfoldable pub generate_rows :
      String
      → List FieldConfig
      → ℕ
      → Columns
      → Dict String Value
      → Action (Source W) (List Row × List String)
  unfolding fill_columns derive_all rows_of_columns
  generate_rows table fs count injected overrides w =
      let (r, w') = fill_columns table count injected overrides fs [] w in
      elim r [
        | err e ↦ (err e, w')
        | ok filled ↦ elim (derive_all fs filled) [
          | err e ↦ (err e, w')
          | ok columns ↦ (ok (rows_of_columns count columns), w')
        ]
      ]
