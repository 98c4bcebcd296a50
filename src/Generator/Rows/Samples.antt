-- ===== src/Generator/Rows/Samples.antt =====
-- A table with a counter, two derived columns that are listed before their sources, and a skipped key.
use data_factory.Base.{
  ℕ, suc, ◌≡◌, refl, String, true, false, none, some, List, [], ◌∷◌, ◌⊎◌, inl, string_eq, length,
  All, Bool-cases, ◌=?◌, inr,
}
use mathlib.Core.Option.{some-injective}
use data_factory.Base.Count.{contains}
use data_factory.Base.Text.{upper_is, strategy_is}
use data_factory.Base.Dict.{get, put}
use data_factory.Base.Result.{ok, err}
use data_factory.Value.{int, text}
use data_factory.CaseConfig.{FieldConfig}
use data_factory.Executor.World.{Row, Backend}
use data_factory.Generator.{
  cycle, is_derived, derived_of, name_to_field, source_column, derived_source, discard, leave,
  visit, visit_all, topo_order_derived,
}
use data_factory.Generator.Derived.{columns, SourcesFirst}
use data_factory.Generator.Topo.{topo_order_derived-SourcesFirst, topo_order_derived_total}
use data_factory.Generator.Rows.{
  Strategies, Source, is_skipped, zip_cons, zip_rows, generate_from, params_for, strategy_column,
  fill_column, fill_columns, compute_column, derive_column, derive_columns, derive_all,
  rows_of_columns, generate_rows,
}
use data_factory.Generator.Batch.{batch_rows, has_column, batch_rows-Fills}

abbrev field : String → String → FieldConfig
field c strategy = record {
  column_name = c;
  strategy = some strategy;
  strategy_params = [];
  is_primary_key = false;
}

abbrev from : String → String → FieldConfig
from c source = record (field c "derived") { strategy_params = ("source_column", text source) ∷ [] }

abbrev fields : List FieldConfig
fields = field "id" "SKIP" ∷ from "tail" "head" ∷ from "head" "code" ∷ field "code" "RANDOM" ∷ []

-- A strategy that numbers the rows; a derived value is that of its source.
abbrev strategies : Strategies ℕ
strategies = record {
  validate = λ f params. none;
  generate = λ f params i w. (ok (int (suc w)), suc w);
  compute = λ f params v. ok v;
}

abbrev source : Source ℕ
source = record { counters = []; random = 0 }

abbrev ordered : List FieldConfig
ordered = from "head" "code" ∷ from "tail" "head" ∷ []

fields_ordered : topo_order_derived fields ≡ ok ordered
unfolding strategy_is upper_is get put is_derived name_to_field source_column derived_source discard
    leave visit visit_all topo_order_derived
fields_ordered = refl

fields_cycle : topo_order_derived (from "a" "b" ∷ from "b" "a" ∷ []) ≡ err (cycle "a")
unfolding strategy_is upper_is get put is_derived name_to_field source_column derived_source discard
    leave visit visit_all topo_order_derived
fields_cycle = refl

topo_order_derived-SourcesFirst_example :
    SourcesFirst (name_to_field (derived_of fields) []) [] ordered
    × All (λ f. contains f.column_name (columns ordered) ≡ true) (derived_of fields)
topo_order_derived-SourcesFirst_example =
    topo_order_derived-SourcesFirst fields ordered fields_ordered

topo_order_derived_total_example :
    ((o : List FieldConfig) × (topo_order_derived fields ≡ ok o))
    ⊎ ((k : String) × (topo_order_derived fields ≡ err (cycle k)))
topo_order_derived_total_example = topo_order_derived_total fields

abbrev row : ℕ → Row
row n = ("code", int n) ∷ ("head", int n) ∷ ("tail", int n) ∷ []

fields_generated :
    (generate_rows strategies "t" fields 2 [] [] source).0
    ≡ ok (row 1 ∷ row 2 ∷ [], "code" ∷ "head" ∷ "tail" ∷ [])
unfolding strategy_is upper_is get put is_derived name_to_field source_column derived_source discard
    leave visit visit_all topo_order_derived is_skipped zip_cons zip_rows generate_from params_for
    strategy_column fill_column fill_columns compute_column derive_column derive_columns derive_all
    rows_of_columns generate_rows
fields_generated = refl

abbrev backend : Backend (Source ℕ)
backend = record {
  generate = λ table count injected overrides w. (ok [], w);
  execute = λ table cs rows w. (ok 1, w);
  select = λ table column limit w. (ok [], w);
  sync = λ generated batch_no size w. ([], w);
}

configured :
    (table : String) (fs : List FieldConfig)
    → get table (("t", fields) ∷ []) ≡ some fs
    → has_column fs ≡ true
unfolding get has_column is_skipped strategy_is upper_is
configured table fs h = elim (Bool-cases ("t" =? table)) [
  | inl hit ↦ let same : fields ≡ fs = some-injective _ _ (rw hit at h) in rw (← same) refl
  | inr miss ↦ absurd (cc (rw miss at h))
]

generated_batch :
    (batch_rows strategies (("t", fields) ∷ []) "t" 2 [] [] source).0 ≡ ok (row 1 ∷ row 2 ∷ [])
unfolding strategy_is upper_is get put is_derived name_to_field source_column derived_source discard
    leave visit visit_all topo_order_derived is_skipped zip_cons zip_rows generate_from params_for
    strategy_column fill_column fill_columns compute_column derive_column derive_columns derive_all
    rows_of_columns generate_rows batch_rows
generated_batch = refl

batch_rows-Fills_example : length (row 1 ∷ row 2 ∷ []) ≡ 2
batch_rows-Fills_example =
    batch_rows-Fills strategies (("t", fields) ∷ []) backend configured "t" 2 [] [] source
      (row 1 ∷ row 2 ∷ []) generated_batch
