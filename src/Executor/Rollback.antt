-- ===== src/Executor/Rollback.antt =====
-- backend/app/engine/executor.py: `_capture_mysql_rollback`, where a batch's rows will be found.
pub mod Keys
use data_factory.Base.{
  ℕ, ◌+◌, ◌-◌, String, ◌≡◌, refl, Bool, true, false, Option, none, some, List, [], ◌∷◌, map,
  if◌then◌else◌, string_eq, length, length-map, keep, any, All, arith, ap, ◌<◌, ◌∙◌, Bool-cases,
  Option-cases, inl, inr,
}
use mathlib.Core.Option.{some-injective}
use mathlib.Core.Path.{subst}
use data_factory.Base.Text.{strategy_is}
use data_factory.Base.Dict.{get}
use data_factory.Value.{Value, null}
use data_factory.CaseConfig.{FieldConfig}
use data_factory.Executor.Types.{Payload, TargetType, Rollback}
use data_factory.Executor.World.{Row, Context}

-- `row.get(column)`
unfoldable pub cell : String → Row → Value
cell column row = elim (get column row) [ none ↦ null | some v ↦ v ]

abbrev pub is_null : Value → Bool
is_null null = true
is_null _ = false

-- The values, unless there are none or one of them is `None`.
keys_of : List Value → Option (List Value)
keys_of [] = none
keys_of (v ∷ vs) = if any is_null (v ∷ vs) then none else some (v ∷ vs)

-- The numbers that the database gave to the rows follow one another.
unfoldable pub range_of : String → Option ℕ → List Row → Option Payload
range_of column none rows = none
range_of column (some id) [] = none
range_of column (some id) (row ∷ rows) =
    some (Payload.range column id (id + length (row ∷ rows) - 1))

values_of : String → List Row → Option Payload
unfolding cell keys_of
values_of column rows = elim (keys_of (map (cell column) rows)) [
  | none ↦ none
  | some vs ↦ some (Payload.values column vs)
]

-- `ctx.ds_of(table)`
unfoldable pub ds_of : Context → String → ℕ
ds_of ctx table = elim (get table ctx.table_ds) [ none ↦ ctx.datasource_id | some id ↦ id ]

-- The one primary key column, if there is exactly one.
unfoldable pub single_key : List FieldConfig → Option FieldConfig
single_key (pk ∷ []) = some pk
single_key _ = none

unfoldable pub capture_payload : FieldConfig → List Row → Option ℕ → Option Payload
unfolding range_of values_of
capture_payload pk rows lastrowid =
    if strategy_is "SKIP" "" pk.strategy
    then range_of pk.column_name lastrowid rows
    else values_of pk.column_name rows

unfoldable pub fields_of : Context → String → List FieldConfig
fields_of ctx table = elim (get table ctx.table_field_configs) [ none ↦ [] | some fs ↦ fs ]

-- `_capture_mysql_rollback`
unfoldable pub capture_mysql_rollback : Context → String → List Row → Option ℕ → Option Rollback
unfolding single_key fields_of capture_payload ds_of
capture_mysql_rollback ctx table rows lastrowid =
    elim (single_key (keep (λ f. f.is_primary_key) (fields_of ctx table))) [
      | none ↦ none
      | some pk ↦ elim (capture_payload pk rows lastrowid) [
        | none ↦ none
        | some payload ↦ some (record {
          target_type = TargetType.mysql;
          datasource_id = ds_of ctx table;
          table_name = table;
          pk = some pk.column_name;
          payload = payload;
          row_count = length rows;
        })
      ]
    ]

none_null : (vs : List Value) → any is_null vs ≡ false → All (λ v. is_null v ≡ false) vs
none_null [] h = tt
none_null (v ∷ vs) h = ground (arith, none_null vs)

keys_of-All :
    (vs ws : List Value)
    → keys_of vs ≡ some ws
    → (0 < length vs) × (ws ≡ vs) × All (λ v. is_null v ≡ false) vs
unfolding keys_of
keys_of-All [] ws h = cc
keys_of-All (v ∷ vs) ws h = elim (Bool-cases (any is_null (v ∷ vs))) [
  | inl bad ↦ absurd (cc (rw bad at h))
  | inr good ↦
      let same : some (v ∷ vs) ≡ some ws = rw good at h in
      (omega arith, ground arith, none_null (v ∷ vs) good)
]
