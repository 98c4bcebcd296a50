-- ===== src/Executor/Config.antt =====
-- backend/app/engine/executor.py: `_validate_associations`. The texts of its errors are left out.
pub mod Sound
mod Samples
use data_factory.Base.{
  ℕ, String, Bool, true, false, Option, none, some, List, [], ◌∷◌, ◌++◌, if◌then◌else◌, ◌=?◌,
  string_eq,
}
use data_factory.Base.Text.{strategy_is}
use data_factory.Base.Dict.{Dict, get}
use data_factory.Base.Result.{Result, ok, err}
use data_factory.CaseConfig.{FieldConfig, Association}
use data_factory.DepAnalyzer.{source_of}

-- The `ValueError`s: a target of two sources, a source that is no column, and one that the database fills.
pub data ConfigError : Type 0 where
  two_sources : (table column : String) → ConfigError
  no_source : (table column : String) → ConfigError
  skipped_source : (table column : String) → ConfigError

-- An entry of `seen_targets`, a target and its source.
pub record Seen : Type 0 where
  pub target_table : String
  pub target_column : String
  pub source_table : String
  pub source_column : String

abbrev pub seen_of : String → Association → Seen
seen_of main a = record {
  target_table = a.target_table;
  target_column = a.target_column;
  source_table = source_of main a.source_table;
  source_column = a.source_column;
}

pub same_target : Seen → Seen → Bool
same_target a b =
    if a.target_table =? b.target_table then a.target_column =? b.target_column else false

pub same_source : Seen → Seen → Bool
same_source a b =
    if a.source_table =? b.source_table then a.source_column =? b.source_column else false

-- `target_key in seen_targets and seen_targets[target_key] != source_key`. A target is only ever seen
-- with one source, so it does not matter which of its entries is looked at.
pub conflicts : Seen → List Seen → Bool
unfolding same_target same_source
conflicts s [] = false
conflicts s (x ∷ seen) =
    let rest = conflicts s seen in
    if same_target s x then (if same_source s x then rest else true) else rest

-- `next((fc for fc in source_configs if fc["column_name"] == source_column), None)`
pub find_column : String → List FieldConfig → Option FieldConfig
find_column name [] = none
find_column name (f ∷ fs) =
    let rest = find_column name fs in if f.column_name =? name then some f else rest

abbrev pub configs_of : String → Dict String (List FieldConfig) → List FieldConfig
configs_of table configs = elim (get table configs) [ none ↦ [] | some fs ↦ fs ]

-- The check of one association's source.
pub check_source : Dict String (List FieldConfig) → Seen → Result ConfigError FieldConfig
unfolding find_column
check_source configs s = elim (find_column s.source_column (configs_of s.source_table configs)) [
  | none ↦ err (no_source s.source_table s.source_column)
  | some f ↦
      if strategy_is "SKIP" "" f.strategy
      then err (skipped_source s.source_table s.source_column)
      else ok f
]

pub validate_from :
    String
    → Dict String (List FieldConfig)
    → List Association
    → List Seen
    → Result ConfigError (List Seen)
unfolding conflicts check_source
validate_from main configs [] seen = ok seen
validate_from main configs (a ∷ rest) seen =
    let s = seen_of main a in
    let go_on = validate_from main configs rest (seen ++ s ∷ []) in
    if conflicts s seen
    then err (two_sources s.target_table s.target_column)
    else elim (check_source configs s) [ err e ↦ err e | ok _ ↦ go_on ]

-- `_validate_associations`
pub validate_associations :
    String → Dict String (List FieldConfig) → List Association → Result ConfigError (List Seen)
unfolding validate_from
validate_associations main configs associations = validate_from main configs associations []
