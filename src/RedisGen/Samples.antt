-- ===== src/RedisGen/Samples.antt =====
-- Five rows of one column in batches of two; the second batch fails. A case that the writer refuses.
use data_factory.Base.{
  ℕ, suc, ◌≡◌, refl, true, false, none, some, [], ◌∷◌, ◌==◌, if◌then◌else◌, string_eq,
}
use data_factory.Base.Result.{ok, err}
use data_factory.Value.{int}
use data_factory.CaseConfig.{FieldConfig}
use data_factory.Executor.World.{Fault, other}
use data_factory.Executor.Types.{new_stats}
use data_factory.Executor.Progress.{Phase}
use data_factory.Executor.Record.{Ledger}
use data_factory.Generator.Rows.{Strategies, Source}
use data_factory.RedisGen.{
  RedisBackend, RedisCase, or_default, write_mode_of, data_type_of, check_writer,
}

abbrev strategies : Strategies ℕ
strategies = record {
  validate = λ f params. none;
  generate = λ f params i w. (ok (int (suc w)), suc w);
  compute = λ f params v. ok v;
}

abbrev source : Source ℕ
source = record { counters = []; random = 0 }

-- The pipeline fails when four numbers have been drawn.
abbrev backend : RedisBackend (Source ℕ)
backend = record {
  connect = λ id w. (ok tt, w);
  reserve = λ count w. (ok 1, w);
  render_key = λ base i fields w. (ok "k", w);
  build_value = λ base i fields w. (ok "v", w);
  write_keys = λ entries w. (if w.random == 4 then err (other "ConnectionError") else ok tt, w);
  add_members = λ key members w. (ok tt, w);
}

abbrev column : FieldConfig
column = record {
  column_name = "code";
  strategy = some "RANDOM";
  strategy_params = [];
  is_primary_key = false;
}

abbrev redis_case : RedisCase
redis_case = record {
  log_table = "redis:k";
  field_configs = column ∷ [];
  key_fields = [];
  write_mode = none;
  data_type = some "hash";
  key_template = "k";
  has_incr = true;
  row_count = 5;
  batch_size = 2;
  capture_rollback = true;
  datasource_id = 7;
  rate = record { num = 1; den = 2 };
}

list_per_row :
    check_writer (record redis_case { data_type = some "list" })
    ≡ err (Fault.value_error "per_row 模式仅支持 string/json/hash（list/set/zset 请用 single_key 聚合）")
unfolding check_writer write_mode_of data_type_of or_default
list_per_row = refl

abbrev empty_ledger : Ledger
empty_ledger = record {
  batch_logs = [];
  rollback_logs = [];
  progress = record {
    status = Phase.running;
    target_total = 5;
    success_total = 0;
    fail_total = 0;
    table_count = 1;
    batch_size = 2;
    tables = [];
  };
  stats = new_stats;
}
