-- ===== src/Executor/Batch.antt =====
-- backend/app/engine/executor.py: `_execute_batch`, from the generated rows to the rows in the tables.
pub mod Tables
pub mod Covers
mod Samples
use data_factory.Base.{
  ℕ, zero, suc, ◌+◌, ◌-◌, ◌≤◌, String, ◌≡◌, Bool, true, false, Option, none, some, List, [], ◌∷◌,
  ◌++◌, map, ◌==◌, ltb, not, if◌then◌else◌, ◌=?◌, string_eq, length, take, replicate, keep,
  is_empty, all,
}
use data_factory.Base.Text.{cut, join}
use data_factory.Base.Count.{contains}
use data_factory.Base.Dict.{Dict, get, put}
use data_factory.Base.Result.{Result, ok, err}
use data_factory.Value.{Value}
use data_factory.CaseConfig.{Association, SyncConfig, Driver}
use data_factory.DepAnalyzer.{source_of}
use data_factory.Executor.Types.{TableResult, BatchResult, BatchStatus, Rollback}
use data_factory.Executor.World.{
  Row, Fault, value_error, other, SyncEntry, Context, Backend, Action, pure, raise, ◌>>=◌,
}
use data_factory.Executor.Insert.{safe_ident, Attempt, insert_with_retry}
use data_factory.Executor.Rollback.{cell, capture_mysql_rollback}

-- What a batch has come to so far.
pub record Partial : Type 0 where
  pub generated : Dict String (List Row)
  pub tables : List TableResult
  pub rollbacks : List Rollback

abbrev pub failed_table : ℕ → Option String → String → TableResult
failed_table size error table = record {
  table = table;
  status = BatchStatus.failed;
  size = size;
  retry_times = 0;
  error = error;
}

pub ok_result : TableResult → Bool
ok_result r = elim r.status [ BatchStatus.success ↦ true | BatchStatus.failed ↦ false ]

-- 主表批次失败，关联表跳过
abbrev pub skipped : ℕ → String → TableResult
skipped size = failed_table size (some "主表批次失败，关联表跳过")

-- `x or y` for a text that may be missing.
or_text : Option String → String → String
or_text none y = y
or_text (some x) y = if x =? "" then y else x

-- `while len(values) < size: values.extend(values[: size - len(values)])`
fill : ℕ → ℕ → List Value → List Value
fill zero size values = values
fill (suc fuel) size values =
    let more = fill fuel size (values ++ take (size - length values) values) in
    if ltb (length values) size then more else values

module _ {W : Type 0} (b : Backend W) (ctx : Context) where
  lift : {A : Type 0} → Result Fault A → Action W A
  lift r w = (r, w)

  cycle_values : String → ℕ → List Value → Action W (List Value)
  unfolding fill
  cycle_values source_table size [] = raise (value_error source_table)
  cycle_values source_table size (v ∷ vs) = pure (take size (fill size size (v ∷ vs)))

  -- `_sample_source_values`
  pub sample_source_values : String → String → ℕ → Action W (List Value)
  unfolding lift cycle_values
  sample_source_values source_table source_column size = do
    column ← lift (safe_ident source_column)
    table ← lift (safe_ident source_table)
    values ← b.select table column size
    cycle_values source_table size values

  -- The driver's column of the main table has the value of the round.
  pub driven : Option Value → String → String → Option Value
  driven none source_table source_column = none
  driven (some v) source_table source_column = elim ctx.iterate_driver [
    | none ↦ none
    | some d ↦
        if source_table =? ctx.main_table
        then (if source_column =? d.column then some v else none)
        else none
  ]

  -- `_source_values`
  pub source_values :
      Option Value → ℕ → Dict String (List Row) → String → String → Action W (List Value)
  unfolding driven sample_source_values
  source_values drive_value size generated source_table source_column =
      elim (driven drive_value source_table source_column) [
        | some v ↦ pure (replicate size v)
        | none ↦ elim (get source_table generated) [
          | some rows ↦ pure (map (cell source_column) rows)
          | none ↦ sample_source_values source_table source_column size
        ]
      ]

  -- Step 1: the values injected into the columns of `table`.
  pub inject :
      Option Value
      → ℕ
      → Dict String (List Row)
      → String
      → List Association
      → Dict String (List Value)
      → Action W (Dict String (List Value))
  unfolding source_values
  inject drive_value size generated table [] injected = pure injected
  inject drive_value size generated table (a ∷ rest) injected =
      if a.target_table =? table
      then (do
        values ←
            source_values drive_value size generated (source_of ctx.main_table a.source_table)
              a.source_column
        inject drive_value size generated table rest (put a.target_column values injected))
      else inject drive_value size generated table rest injected

  -- Step 2: the driver's column of the main table is fixed in a round.
  pub overrides : Option Value → String → Dict String Value
  overrides none table = []
  overrides (some v) table = elim ctx.iterate_driver [
    | none ↦ []
    | some d ↦ if table =? ctx.main_table then put d.column v [] else []
  ]

  -- Steps 4 and 5: the rows go into the table, and a success is captured for the rollback.
  pub rollback_of : String → List Row → Attempt b → List Rollback
  rollback_of table rows a =
      if (if ok_result a.0 then ctx.capture_rollback else false)
      then elim (capture_mysql_rollback ctx table rows a.1) [ none ↦ [] | some r ↦ r ∷ [] ]
      else []

  pub add_inserted : Partial → String → List Row → Attempt b → Partial
  unfolding rollback_of
  add_inserted p table rows a = record {
    generated = put table rows p.generated;
    tables = p.tables ++ a.0 ∷ [];
    rollbacks = p.rollbacks ++ rollback_of table rows a;
  }

  pub add_failed : Partial → List TableResult → Partial
  add_failed p rs = record p { tables = p.tables ++ rs }

  -- `go` handles the tables after this one.
  pub after_insert :
      (Partial → Action W Partial) → ℕ → String → List String → Partial → Bool → Action W Partial
  unfolding add_failed
  after_insert go size table rest p inserted =
      if (if table =? ctx.main_table then not inserted else false)
      then pure (add_failed p (map (skipped size) rest))
      else go p

  -- A `ValueError` of the generator fails the table; any other exception fails the batch.
  pub after_generate :
      (Partial → Action W Partial)
      → ℕ
      → String
      → List String
      → Partial
      → Result Fault (List Row)
      → Action W Partial
  unfolding add_inserted after_insert
  after_generate go size table rest p (err (other x)) w = raise (other x) w
  after_generate go size table rest p (err (value_error x)) w =
      after_insert go size table rest
        (add_failed p (failed_table size (some (cut 500 x)) table ∷ [])) false w
  after_generate go size table rest p (ok rows) w =
      let (a, w') = insert_with_retry b ctx.max_retry table rows w in
      after_insert go size table rest (add_inserted p table rows a) (ok_result a.0) w'

  pub generate_for :
      Option Value → ℕ → String → Dict String (List Value) → W → Result Fault (List Row) × W
  unfolding overrides
  generate_for drive_value size table injected =
      b.generate table size injected (overrides drive_value table)

  -- Steps 1 to 5 for the tables in turn. A failure of the main table skips the tables after it.
  pub run_tables : Option Value → ℕ → List String → Partial → Action W Partial
  unfolding inject generate_for after_generate
  run_tables drive_value size [] p = pure p
  run_tables drive_value size (table ∷ rest) p =
      let go = run_tables drive_value size rest in
      do
        injected ← inject drive_value size p.generated table ctx.associations []
        λ w.
            let (made, w') = generate_for drive_value size table injected w in
            after_generate go size table rest p made w'

  sync_rollback : SyncEntry → List Rollback
  sync_rollback e = elim e.rollback [
    | none ↦ []
    | some r ↦
        if (if ctx.capture_rollback then ok_result e.result else false)
        then record r { table_name = e.result.table; pk = none } ∷ []
        else []
  ]

  add_syncs : List SyncEntry → Partial → Partial
  unfolding sync_rollback
  add_syncs [] p = p
  add_syncs (e ∷ es) p =
      add_syncs es (record p {
        tables = p.tables ++ e.result ∷ [];
        rollbacks = p.rollbacks ++ sync_rollback e;
      })

  -- `sync_cfg.get("name") or sync_cfg.get("key_template") or "sync"`
  sync_label : SyncConfig → String
  sync_label c = or_text c.name (or_text c.key_template "sync")

  sync_skipped : ℕ → SyncConfig → TableResult
  unfolding sync_label
  sync_skipped size c =
      failed_table size (some "本批存在失败表，Redis 联动跳过") (cut 200 (join "redis:" (sync_label c)))

  -- Step 6: the Redis synchronisation, if all tables succeeded.
  pub run_syncs : ℕ → ℕ → List String → Partial → W → Partial × W
  unfolding add_failed add_syncs sync_skipped
  run_syncs batch_no size insert_tables p w =
      if (if length p.tables == length insert_tables
        then (if all ok_result p.tables then not (is_empty p.generated) else false)
        else false)
      then (let (entries, w') = b.sync p.generated batch_no size w in (add_syncs entries p, w'))
      else (add_failed p (map (sync_skipped size) ctx.redis_syncs), w)

  -- A retry of some tables does no synchronisation.
  pub syncs_for : ℕ → ℕ → Option (List String) → List String → Partial → W → Partial × W
  unfolding run_syncs
  syncs_for batch_no size (some tables) insert_tables p w = (p, w)
  syncs_for batch_no size none insert_tables p w =
      if is_empty ctx.redis_syncs then (p, w) else run_syncs batch_no size insert_tables p w

  pub insert_tables_of : Option (List String) → List String
  insert_tables_of none = ctx.insert_order
  insert_tables_of (some tables) = keep (λ t. contains t tables) ctx.insert_order

  -- `_execute_batch`
  pub execute_batch : ℕ → ℕ → Option ℕ → Option Value → Option (List String) → Action W BatchResult
  unfolding run_tables syncs_for insert_tables_of
  execute_batch batch_no size round_no drive_value only_tables = do
    let insert_tables = insert_tables_of only_tables
    p ←
        run_tables drive_value size insert_tables
          (record { generated = []; tables = []; rollbacks = [] })
    λ w.
        let (q, w') = syncs_for batch_no size only_tables insert_tables p w in
        (
          ok (record {
            batch_no = batch_no;
            size = size;
            round_no = round_no;
            drive_value = drive_value;
            tables = q.tables;
            rollbacks = q.rollbacks;
          }),
          w',
        )
