-- ===== src/RedisGen.antt =====
-- backend/app/engine/redis_gen.py: a case that fills Redis alone, batch by batch. Rendering a template,
-- joining a value and the pipeline are given, and so are the strategies of the generator. Times are left out.
pub mod Accounts
pub mod Templates
mod Samples
use data_factory.Base.{
  ℕ, zero, suc, ◌+◌, ◌-◌, String, Bool, true, false, Option, none, some, List, [], ◌∷◌, ◌++◌, map,
  if◌then◌else◌, ◌==◌, ◌=?◌, not, string_eq, length, replicate, is_empty,
}
use data_factory.Base.Text.{cut, join}
use data_factory.Base.Count.{contains}
use data_factory.Base.Dict.{Dict, put}
use data_factory.Base.Result.{Result, ok, err}
use data_factory.CaseConfig.{FieldConfig}
use data_factory.Generator.Rows.{Strategies, Source, generate_rows}
use data_factory.RedisGen.Templates.{TemplateError, not_stable, validate_single_key_template}
use data_factory.Executor.Types.{
  BatchResult, BatchStatus, TableResult, Rollback, TargetType, Payload,
}
use data_factory.Executor.World.{Row, Fault, value_error, fault_text, Action, pure, raise, ◌>>=◌}
use data_factory.Executor.Record.{Rate, Ledger, record_batch_result, fail_rate_exceeded}
use data_factory.Executor.Batching.{Job, range, jobs_of}
use data_factory.Executor.RunAll.{count_remaining}

-- What a case calls: `get_sync_redis`, the reservation of numbers for {incr}, the rendering of a key and of
-- a value at a row, and the pipelines: one key for each row, or members added to one key.
pub record RedisBackend (W : Type 0) : Type 0 where
  pub connect : (datasource_id : ℕ) → Action W (Unit {0})
  pub reserve : (count : ℕ) → Action W ℕ
  pub render_key : (incr_base : Option ℕ) (row_index : ℕ) (fields : Row) → Action W String
  pub build_value : (incr_base : Option ℕ) (row_index : ℕ) (fields : Row) → Action W String
  pub write_keys : (entries : List (String × String)) → Action W (Unit {0})
  pub add_members : (key : String) (members : List String) → Action W (Unit {0})

-- The configuration of the case and the settings of its task. A mode or a type may be missing.
pub record RedisCase : Type 0 where
  pub log_table : String
  pub field_configs : List FieldConfig
  pub key_fields : List FieldConfig
  pub write_mode : Option String
  pub data_type : Option String
  pub key_template : String
  pub has_incr : Bool
  pub row_count : ℕ
  pub batch_size : ℕ
  pub capture_rollback : Bool
  pub datasource_id : ℕ
  pub rate : Rate

-- `{**row, **key_row}`
pub merge : Row → Row → Row
merge row [] = row
merge row ((c, v) ∷ rest) = merge (put c v row) rest

-- `_key_context` of each row.
pub key_contexts : List Row → List Row → List Row
unfolding merge
key_contexts [] key_rows = []
key_contexts (r ∷ rs) [] = r ∷ rs
key_contexts (r ∷ rs) (k ∷ ks) = merge r k ∷ key_contexts rs ks

-- `x or default`
pub or_default : String → Option String → String
or_default default none = default
or_default default (some x) = if x =? "" then default else x

pub write_mode_of : RedisCase → String
unfolding or_default
write_mode_of c = or_default "per_row" c.write_mode

pub data_type_of : RedisCase → String
unfolding or_default
data_type_of c = or_default "json" c.data_type

abbrev pub template_fault : TemplateError → Fault
template_fault (not_stable t) = value_error (join "聚合单 Key 模式的 Key 模板仅支持 {task_no} 占位符，不支持 " t)
template_fault e = value_error "模板错误"

-- `_RedisBatchWriter.__init__`: what it refuses.
pub check_writer : RedisCase → Result Fault (Unit {0})
unfolding write_mode_of data_type_of
check_writer c =
    let mode = write_mode_of c in
    let data_type = data_type_of c in
    if not (contains mode ("per_row" ∷ "single_key" ∷ []))
    then err (value_error (join "非法写入模式: " (join mode "（仅支持 per_row/single_key）")))
    else if not (contains data_type ("string" ∷ "json" ∷ "hash" ∷ "list" ∷ "set" ∷ "zset" ∷ []))
    then err (value_error (join "非法 Redis 数据类型: " data_type))
    else if (if mode =? "per_row" then contains data_type ("list" ∷ "set" ∷ "zset" ∷ []) else false)
    then err (value_error "per_row 模式仅支持 string/json/hash（list/set/zset 请用 single_key 聚合）")
    else if mode =? "single_key"
    then elim (validate_single_key_template c.key_template) [
      | err e ↦ err (template_fault e)
      | ok _ ↦ ok tt
    ]
    else ok tt

module _ {V : Type 0} (s : Strategies V) (b : RedisBackend (Source V)) where
  pub build_members : Option ℕ → ℕ → List Row → Action (Source V) (List String)
  build_members base i [] = pure []
  build_members base i (r ∷ rs) = do
    member ← b.build_value base i r
    rest ← build_members base (i + 1) rs
    pure (member ∷ rest)

  -- The entries of the rows, with the rows that their keys are rendered with.
  pub build_entries :
      Option ℕ → ℕ → List Row → List Row → Action (Source V) (List (String × String))
  build_entries base i [] contexts = pure []
  build_entries base i (r ∷ rs) [] = pure []
  build_entries base i (r ∷ rs) (c ∷ cs) = do
    key ← b.render_key base i c
    value ← b.build_value base i r
    rest ← build_entries base (i + 1) rs cs
    pure ((key, value) ∷ rest)

  pub incr_base : Bool → ℕ → Action (Source V) (Option ℕ)
  incr_base false count = pure none
  incr_base true count = do base ← b.reserve count; pure (some base)

  -- All rows as members of one key.
  pub write_single : RedisCase → Option ℕ → List Row → Action (Source V) (ℕ × Payload)
  unfolding build_members
  write_single c base rows = do
    key ← b.render_key none 0 []
    members ← build_members base 0 rows
    _ ← b.add_members key members
    pure (length members, Payload.redis_keys (key ∷ []))

  -- One key for each row.
  pub write_per_row : RedisCase → Option ℕ → List Row → List Row → Action (Source V) (ℕ × Payload)
  unfolding build_entries key_contexts
  write_per_row c base rows key_rows = do
    entries ← build_entries base 0 rows (key_contexts rows key_rows)
    _ ← b.write_keys entries
    pure (length entries, Payload.redis_keys (map (λ e. e.0) entries))

  -- `write_rows`: what is written, and how it is found again.
  pub write_rows : RedisCase → List Row → List Row → Action (Source V) (ℕ × Payload)
  unfolding incr_base write_single write_per_row write_mode_of
  write_rows c [] key_rows = pure (0, Payload.redis_keys [])
  write_rows c (r ∷ rs) key_rows = do
    base ← incr_base c.has_incr (length (r ∷ rs))
    (if write_mode_of c =? "single_key"
        then write_single c base (r ∷ rs)
        else write_per_row c base (r ∷ rs) key_rows)

  -- The rows of `generate_rows`, with nothing injected.
  pub field_rows : String → List FieldConfig → ℕ → Action (Source V) (List Row)
  unfolding generate_rows
  field_rows table fields count = do made ← generate_rows s table fields count [] []; pure made.0

  -- The rows of the key's own fields.
  pub key_rows_of : RedisCase → ℕ → Action (Source V) (List Row)
  unfolding field_rows
  key_rows_of c size =
      if is_empty c.key_fields
      then pure []
      else field_rows (join c.log_table "#key") c.key_fields size

  -- The `try` of a batch. Without fields every row is empty.
  pub try_batch : RedisCase → ℕ → Action (Source V) (ℕ × Payload)
  unfolding write_rows key_rows_of field_rows
  try_batch c size = do
    rows ← field_rows c.log_table c.field_configs size
    key_rows ← key_rows_of c size
    write_rows c (if is_empty c.field_configs then replicate size [] else rows) key_rows

  pub redis_result : RedisCase → Job → Result Fault (ℕ × Payload) → BatchResult
  redis_result c j r = elim r [
    | ok (written, payload) ↦ record {
      batch_no = j.batch_no;
      size = j.size;
      round_no = none;
      drive_value = none;
      tables =
          record {
            table = c.log_table;
            status = BatchStatus.success;
            size = written;
            retry_times = 0;
            error = none;
          }
          ∷ [];
      rollbacks =
          if c.capture_rollback
          then record {
            target_type = TargetType.redis;
            datasource_id = c.datasource_id;
            table_name = c.log_table;
            pk = none;
            payload = payload;
            row_count = written;
          }
            ∷ []
          else [];
    }
    | err e ↦ record {
      batch_no = j.batch_no;
      size = j.size;
      round_no = none;
      drive_value = none;
      tables =
          record {
            table = c.log_table;
            status = BatchStatus.failed;
            size = j.size;
            retry_times = 0;
            error = some (cut 500 (fault_text e));
          }
          ∷ [];
      rollbacks = [];
    }
  ]

  -- The loop over the batches: the books, the world, and the flag `stopped`.
  pub run_batches : RedisCase → List Job → Ledger → Source V → Bool × Ledger × Source V
  unfolding try_batch redis_result
  run_batches c [] l w = (false, l, w)
  run_batches c (j ∷ js) l w =
      let (r, w') = try_batch c j.size w in
      let l' = record_batch_result (redis_result c j r) l in
      let rest = run_batches c js l' w' in
      if fail_rate_exceeded c.rate l'.stats.success_rows l'.stats.fail_rows
      then (true, count_remaining c.row_count l', w')
      else rest

  -- What stands before the loop: the client and the writer.
  pub set_up : RedisCase → Action (Source V) (Unit {0})
  unfolding check_writer
  set_up c = do _ ← b.connect c.datasource_id; (λ w. (check_writer c, w))

  -- `execute_redis_case`, from the ledger of a new task.
  pub execute_redis_case : RedisCase → Ledger → Source V → Result Fault (Bool × Ledger) × Source V
  unfolding run_batches set_up
  execute_redis_case c l w =
      if c.row_count == 0
      then (err (value_error "造数条数必须为正整数"), w)
      else (let (ready, w1) = set_up c w in
          let (stopped, m, w2) =
            run_batches c (jobs_of c.batch_size c.row_count 0 (range c.row_count c.batch_size)) l
              w1 in
          elim ready [ err x ↦ (err x, w1) | ok _ ↦ (ok (stopped, m), w2) ])
