-- ===== src/Executor/Pool.antt =====
-- backend/app/engine/executor.py: `_run_offsets`, as the steps of the main thread. Which futures are
-- done at a wake-up, and which of the others can still be cancelled, is up to the pool.
pub mod Runs
use data_factory.Base.{
  ℕ, zero, suc, ◌+◌, ◌*◌, ◌≤◌, ◌<◌, ◌≡◌, ◌≢◌, refl, ap, sym, ◌∙◌, Bool, true, false, not, List, [],
  ◌∷◌, ◌++◌, ltb, max, is_empty, if◌then◌else◌, sum_by, sum_by-append, length, length-append, Split,
  Split-sum_by, arith,
}
use data_factory.Executor.Types.{BatchResult}
use data_factory.Executor.Batching.{Job}
use data_factory.Executor.Record.{Ledger, Rate, fail_rate_exceeded, record_batch_result}
use data_factory.Executor.Record.Accounts.{rows_of, accounted, record_batch_result-accounted}

pub record Future : Type 0 where
  pub job : Job
  pub cancelled : Bool

-- The loop's variables. `waiting` are the jobs from `index` on.
pub record Pool : Type 0 where
  pub waiting : List Job
  pub pending : List Future
  pub stop_submit : Bool
  pub ledger : Ledger

-- max(max_workers * 4, max_workers)
abbrev pub max_inflight : ℕ → ℕ
max_inflight max_workers = max (max_workers * 4) max_workers

-- The condition of the loop that submits.
unfoldable pub can_submit : ℕ → Pool → Bool
can_submit limit p =
    if p.stop_submit
    then false
    else if ltb (length p.pending) limit
    then not (is_empty p.waiting)
    else false

-- A cancelled future was never run and is passed over.
unfoldable pub record_done : (Job → BatchResult) → List Future → Ledger → Ledger
record_done outcome [] l = l
record_done outcome (f ∷ fs) l =
    record_done outcome fs (if f.cancelled then l else record_batch_result (outcome f.job) l)

-- `for future in pending: future.cancel()` marks some of the futures.
pub data Cancels : List Future → List Future → Type 0 where
  nothing : Cancels [] []
  runs : {f : Future} {fs gs : List Future} → Cancels fs gs → Cancels (f ∷ fs) (f ∷ gs)
  cancels :
      {f : Future} {fs gs : List Future}
      → Cancels fs gs
      → Cancels (f ∷ fs) (record f { cancelled = true } ∷ gs)

unfoldable pub mark_stopped : Ledger → Ledger
mark_stopped l = record l { stats = record (l.stats) { stopped = true } }

-- What follows a wake-up: `done` is recorded, and the failure rate is looked at.
unfoldable pub wake_up :
    Rate → (Job → BatchResult) → (done rest cancelled : List Future) → Pool → Pool
unfolding record_done mark_stopped
wake_up rate outcome done rest cancelled p =
    let l = record_done outcome done p.ledger in
    if (if p.stop_submit
      then false
      else fail_rate_exceeded rate l.stats.success_rows l.stats.fail_rows)
    then record { waiting = []; pending = cancelled; stop_submit = true; ledger = mark_stopped l }
    else record p { pending = rest; ledger = l }

module _ (rate : Rate) (limit : ℕ) (outcome : Job → BatchResult) where
  pub data Step : Pool → Pool → Type 0 where
    submit :
        (p : Pool) (j : Job) (js : List Job)
        → can_submit limit p ≡ true
        → p.waiting ≡ j ∷ js
        → Step p (record p {
          waiting = js;
          pending = p.pending ++ record { job = j; cancelled = false } ∷ [];
        })
    wake :
        (p : Pool) (done rest cancelled : List Future)
        → can_submit limit p ≡ false
        → done ≢ []
        → Split p.pending done rest
        → Cancels rest cancelled
        → Step p (wake_up rate outcome done rest cancelled p)

  pub data Steps : Pool → Pool → Type 0 where
    here : {p : Pool} → Steps p p
    next : {p q r : Pool} → Step p q → Steps q r → Steps p r

-- `_run_offsets` starts with all its jobs waiting.
abbrev pub start : List Job → Ledger → Pool
start jobs l = record { waiting = jobs; pending = []; stop_submit = false; ledger = l }

-- The loop is left when nothing can be submitted and nothing is pending.
pub record IsOver (limit : ℕ) (p : Pool) : Type 0 where
  pub no_submit : can_submit limit p ≡ false
  pub no_pending : p.pending ≡ []

abbrev pub job_rows : List Job → ℕ
job_rows js = sum_by (λ j. j.size) js

-- The rows of a future that may still be recorded.
abbrev pub open_rows : Future → ℕ
open_rows f = if f.cancelled then 0 else f.job.size
