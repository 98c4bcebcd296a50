-- ===== src/Executor/Batch/Samples.antt =====
-- A backend that numbers the rows, and a batch of two tables on it.
use data_factory.Base.{
  zero, suc, ℕ, ◌+◌, ◌≡◌, refl, String, true, none, some, List, [], ◌∷◌, string_eq, length,
  replicate, length-replicate,
}
use data_factory.Base.Text.{upper_is, strategy_is}
use data_factory.Base.Dict.{get, put}
use data_factory.Base.Result.{ok}
use data_factory.Value.{int}
use data_factory.CaseConfig.{FieldConfig}
use data_factory.DepAnalyzer.{source_of}
use data_factory.Executor.Types.{
  BatchStatus, TableResult, BatchResult, Rollback, Payload, TargetType,
}
use data_factory.Executor.World.{Row, Context, Backend}
use data_factory.Executor.Insert.{
  ident_code, ident_rest, is_ident, safe_ident, safe_idents, row_id, insert_rows, bulk_insert,
  insert_loop, insert_with_retry,
}
use data_factory.Executor.Insert.Retry.{Reports, insert_with_retry-Reports}
use data_factory.Executor.Rollback.{
  cell, range_of, ds_of, single_key, capture_payload, fields_of, capture_mysql_rollback,
}
use data_factory.Executor.Batch.{
  driven, source_values, inject, overrides, rollback_of, add_inserted, ok_result, after_insert,
  after_generate, generate_for, run_tables, syncs_for, insert_tables_of, execute_batch,
}
use data_factory.Executor.Batching.{Job}
use data_factory.Executor.Pool.Runs.{Covers}
use data_factory.Executor.Batch.Covers.{Returns, execute_batch-Covers}
use data_factory.Executor.Batch.Tables.{Covered, Fills, execute_batch-Covered}

-- The world is the number of the next row. A row has the column "v".
abbrev backend : Backend ℕ
backend = record {
  generate = λ table count injected overrides w. (ok (replicate count (("v", int 7) ∷ [])), w);
  execute = λ table columns rows w. (ok w, w + length rows);
  select = λ table column limit w. (ok (int 1 ∷ []), w);
  sync = λ generated batch_no size w. ([], w);
}

backend-Fills : Fills backend
backend-Fills table count injected overrides w rows h =
    let same : replicate count (("v", int 7) ∷ []) ≡ rows = cc in
    rw (← same) (length-replicate count (("v", int 7) ∷ []))

abbrev order_key : FieldConfig
order_key = record {
  column_name = "id";
  strategy = some "skip";
  strategy_params = [];
  is_primary_key = true;
}

abbrev context : Context
context = record {
  main_table = "order";
  associations =
      record {
        source_table = none;
        source_column = "v";
        target_table = "item";
        target_column = "order_v";
      }
      ∷ [];
  insert_order = "order" ∷ "item" ∷ [];
  iterate_driver = none;
  redis_syncs = [];
  capture_rollback = true;
  max_retry = 2;
  table_field_configs = ("order", order_key ∷ []) ∷ [];
  table_ds = [];
  datasource_id = 3;
}

abbrev success_of : String → TableResult
success_of table = record {
  table = table;
  status = BatchStatus.success;
  size = 2;
  retry_times = 0;
  error = none;
}

abbrev order_rows : Rollback
order_rows = record {
  target_type = TargetType.mysql;
  datasource_id = 3;
  table_name = "order";
  pk = some "id";
  payload = Payload.range "id" 10 11;
  row_count = 2;
}

abbrev two_rows : List Row
two_rows = (("v", int 7) ∷ []) ∷ (("v", int 7) ∷ []) ∷ []

captured : capture_mysql_rollback context "order" two_rows (some 10) ≡ some order_rows
unfolding capture_mysql_rollback single_key fields_of capture_payload ds_of range_of strategy_is
    upper_is get
captured = refl

insert_with_retry-Reports_example :
    Reports backend 2 "order" two_rows 10
      (insert_with_retry backend 2 "order" two_rows 10).0
      (insert_with_retry backend 2 "order" two_rows 10).1
insert_with_retry-Reports_example = insert_with_retry-Reports backend 2 "order" two_rows 10

abbrev result : BatchResult
result = record {
  batch_no = 4;
  size = 2;
  round_no = none;
  drive_value = none;
  tables = success_of "order" ∷ success_of "item" ∷ [];
  rollbacks = order_rows ∷ [];
}

executed : (execute_batch backend context 4 2 none none none 10).0 ≡ ok result
unfolding execute_batch run_tables syncs_for insert_tables_of inject source_values driven source_of
    generate_for overrides after_generate after_insert add_inserted rollback_of ok_result
    insert_with_retry insert_loop bulk_insert insert_rows row_id safe_idents safe_ident is_ident
    ident_rest ident_code capture_mysql_rollback single_key fields_of capture_payload ds_of range_of
    strategy_is upper_is get put cell
executed = refl

execute_batch-Covered_example :
    Covered "order" 2 (insert_tables_of backend context none) result.tables
execute_batch-Covered_example =
    execute_batch-Covered backend context backend-Fills refl 4 2 none none none 10 result executed

-- A case of one table, whose rows have no key.
abbrev log_context : Context
log_context = record context {
  main_table = "log";
  insert_order = "log" ∷ [];
  associations = [];
  table_field_configs = [];
}

abbrev log_outcome : Job → BatchResult
log_outcome j = record {
  batch_no = j.batch_no;
  size = j.size;
  round_no = none;
  drive_value = none;
  tables =
      record (success_of "log") { size = length {A = Row} (replicate j.size (("v", int 7) ∷ [])) }
      ∷ [];
  rollbacks = [];
}

log_returns :
    (n size : ℕ)
    → (execute_batch backend log_context n size none none none 10).0
      ≡ ok (log_outcome (record { batch_no = n; size = size }))
unfolding execute_batch run_tables syncs_for insert_tables_of inject source_values driven source_of
    generate_for overrides after_generate after_insert add_inserted rollback_of ok_result
    insert_with_retry insert_loop bulk_insert insert_rows row_id safe_idents safe_ident is_ident
    ident_rest ident_code capture_mysql_rollback single_key fields_of capture_payload ds_of range_of
    strategy_is upper_is get put cell
log_returns n zero = refl
log_returns n (suc size) = refl

log-Returns : Returns backend log_context none none log_outcome
log-Returns j = (10, log_returns j.batch_no j.size)

execute_batch-Covers_example : Covers 1 log_outcome
execute_batch-Covers_example =
    execute_batch-Covers backend log_context backend-Fills refl none none log_outcome log-Returns
