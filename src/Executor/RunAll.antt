-- ===== src/Executor/RunAll.antt =====
-- backend/app/engine/executor.py: `_run_all`, shard after shard, and what it counts.
use data_factory.Base.{
  ℕ, ◌+◌, ◌-◌, ◌*◌, ◌≤◌, ◌<◌, ◌≡◌, ap, Bool, true, false, List, [], ◌∷◌, ◌++◌, ltb, if◌then◌else◌,
  Bool-cases, inl, inr, sum_by-append, arith,
}
use data_factory.Executor.Types.{BatchResult, rows_not_run}
use data_factory.Executor.Batching.{Job, shards, all_jobs, shards-sum}
use data_factory.Executor.Record.{Ledger, Rate}
use data_factory.Executor.Record.Accounts.{accounted}
use data_factory.Executor.Pool.{Pool, Steps, start, IsOver, max_inflight, job_rows}
use data_factory.Executor.Pool.Runs.{Covers, run_offsets-accounted}

-- The loop over the shards, from one ledger to another. The flag is `stopped`.
pub data RunShards (rate : Rate) (limit : ℕ) (outcome : Job → BatchResult)
    : List (List Job) → Ledger → Bool → Ledger → Type 0 where
  none_left : {l : Ledger} → RunShards rate limit outcome [] l false l
  stops :
      {jobs : List Job} {rest : List (List Job)} {l : Ledger} (p : Pool)
      → Steps rate limit outcome (start jobs l) p
      → IsOver limit p
      → p.stop_submit ≡ true
      → RunShards rate limit outcome (jobs ∷ rest) l true p.ledger
  goes_on :
      {jobs : List Job} {rest : List (List Job)} {l m : Ledger} {stopped : Bool} (p : Pool)
      → Steps rate limit outcome (start jobs l) p
      → IsOver limit p
      → p.stop_submit ≡ false
      → RunShards rate limit outcome rest p.ledger stopped m
      → RunShards rate limit outcome (jobs ∷ rest) l stopped m

-- A stopped run counts the rows that it did not reach as failed.
unfoldable pub count_remaining : ℕ → Ledger → Ledger
count_remaining total l =
    if ltb (accounted l) total
    then record l {
      stats = record (l.stats) {
        fail_rows = l.stats.fail_rows + (total - accounted l);
        errors = l.stats.errors ++ rows_not_run (total - accounted l) ∷ [];
      };
    }
    else l

-- The settings and the size of a run.
pub record Plan : Type 0 where
  pub rate : Rate
  pub max_workers : ℕ
  pub shard_rows : ℕ
  pub batch_size : ℕ
  pub row_count : ℕ
  pub table_count : ℕ
  pub batch_no_start : ℕ

-- `_run_all`, from the ledger `l` to the ledger `m`.
pub data RunAll (plan : Plan) (outcome : Job → BatchResult) (l : Ledger)
    : Bool → Ledger → Type 0 where
  run_all :
      {stopped : Bool} {m : Ledger}
      → RunShards plan.rate
          (max_inflight plan.max_workers)
          outcome
          (shards plan.shard_rows plan.batch_size plan.row_count plan.batch_no_start)
          l
          stopped
          m
      → RunAll plan outcome l stopped
          (if stopped then count_remaining (plan.row_count * plan.table_count) m else m)

RunShards-accounted :
    (k : ℕ) (outcome : Job → BatchResult)
    → Covers k outcome
    → (rate : Rate) (limit : ℕ) → 0 < limit
    → {work : List (List Job)} {l m : Ledger} {stopped : Bool}
    → RunShards rate limit outcome work l stopped m
    → (accounted m ≤ accounted l + k * job_rows (all_jobs work))
      × (stopped ≡ false → accounted m ≡ accounted l + k * job_rows (all_jobs work))
RunShards-accounted k outcome covers rate limit pos none_left = (omega arith, λ e. omega arith)
RunShards-accounted k outcome covers rate limit pos
      (stops {jobs = jobs} {rest = rest} {l = l} p run over s) =
    let h = run_offsets-accounted k outcome covers rate limit pos jobs l run over in
    let e = ap (λ (t : ℕ). k * t) (sum_by-append (λ (j : Job). j.size) jobs (all_jobs rest)) in
    (omega (arith, h.0, e), λ x. cc)
RunShards-accounted k outcome covers rate limit pos
      (goes_on {jobs = jobs} {rest = rest} {l = l} p run over s more) =
    let h = run_offsets-accounted k outcome covers rate limit pos jobs l run over in
    let r = RunShards-accounted k outcome covers rate limit pos more in
    let e = ap (λ (t : ℕ). k * t) (sum_by-append (λ (j : Job). j.size) jobs (all_jobs rest)) in
    (omega (arith, h.1 s, r.0, e), λ x. omega (arith, h.1 s, r.1 x, e))

-- With at least one worker, batches of at least one row, and results that report each row once for each table,
-- a run, however its batches are scheduled, fail or are stopped, that starts with empty statistics
-- ends with each row of each table counted once, as a success or as a failure.
pub RunAll-accounted :
    (plan : Plan) (outcome : Job → BatchResult) (l m : Ledger) (stopped : Bool)
    → 0 < plan.max_workers
    → 0 < plan.batch_size
    → Covers plan.table_count outcome
    → accounted l ≡ 0
    → RunAll plan outcome l stopped m
    → accounted m ≡ plan.row_count * plan.table_count
unfolding count_remaining
RunAll-accounted plan outcome l m stopped workers size covers fresh
      (run_all {stopped = b} {m = n} r) =
    let k = plan.table_count in
    let h =
      RunShards-accounted k outcome covers plan.rate (max_inflight plan.max_workers) (omega arith)
        r in
    let e =
      ap (λ (t : ℕ). k * t)
        (shards-sum plan.shard_rows plan.batch_size plan.row_count plan.batch_no_start size) in
    elim (Bool-cases b) [
      | inl yes_stopped ↦ rw yes_stopped (ground (arith, h.0, e))
      | inr no_stop ↦ rw no_stop (omega (arith, h.1 no_stop, e))
    ]
