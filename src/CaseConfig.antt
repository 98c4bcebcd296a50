-- ===== src/CaseConfig.antt =====
-- The configuration of a case (`config_json`, `case_snapshot`), as far as the engine reads it.
use data_factory.Base.{ℕ, String, Bool, Option, List}
use data_factory.Base.Dict.{Dict}
use data_factory.Value.{Value}

-- An entry of `field_configs`.
pub record FieldConfig : Type 0 where
  pub column_name : String
  pub strategy : Option String
  pub strategy_params : Dict String Value
  pub is_primary_key : Bool

-- An entry of `associations`.
pub record Association : Type 0 where
  pub source_table : Option String
  pub source_column : String
  pub target_table : String
  pub target_column : String

-- An entry of `redis_syncs`.
pub record SyncConfig : Type 0 where
  pub name : Option String
  pub key_template : Option String

-- What `detect_iterate_driver` returns.
pub record Driver : Type 0 where
  pub table : String
  pub column : String
  pub drive_values : List Value
  pub rows_per_value : ℕ
