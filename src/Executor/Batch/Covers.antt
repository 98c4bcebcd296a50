-- ===== src/Executor/Batch/Covers.antt =====
-- Batches that do not raise report, for the pool, each of their rows once for each table.
use data_factory.Base.{ℕ, ◌≡◌, Option, none, [], length}
use data_factory.Base.Result.{ok}
use data_factory.Value.{Value}
use data_factory.Executor.Types.{BatchResult}
use data_factory.Executor.World.{Context, Backend}
use data_factory.Executor.Batch.{execute_batch}
use data_factory.Executor.Batch.Tables.{Fills, execute_batch-rows}
use data_factory.Executor.Batching.{Job}
use data_factory.Executor.Pool.Runs.{Covers}

-- `outcome` is what each batch returns, in the world in which it runs.
abbrev pub Returns :
    {W : Type 0} → Backend W → Context → Option ℕ → Option Value → (Job → BatchResult) → Type 0
Returns {W} b ctx round_no drive outcome =
    (j : Job)
    → (w : W) × ((execute_batch b ctx j.batch_no j.size round_no drive none w).0 ≡ ok (outcome j))

-- Batches that return, over a generator that makes the rows it is asked for and with no Redis
-- synchronisation, report each of their rows once for each table, as the pool expects of them.
pub execute_batch-Covers :
    {W : Type 0} (b : Backend W) (ctx : Context)
    → Fills b
    → ctx.redis_syncs ≡ []
    → (round_no : Option ℕ) (drive : Option Value) (outcome : Job → BatchResult)
    → Returns b ctx round_no drive outcome
    → Covers (length ctx.insert_order) outcome
execute_batch-Covers b ctx fills none_synced round_no drive outcome returns j =
    let (w, e) = returns j in
    execute_batch-rows b ctx fills none_synced j.batch_no j.size round_no drive w (outcome j) e
