-- ===== src/Executor/Task.antt =====
-- backend/app/engine/executor.py: `execute_case_task`, as the states of a task, and the two modes.
use data_factory.Base.{
  ℕ, zero, suc, ◌+◌, ◌-◌, ◌*◌, ◌/◌, ◌<◌, ◌≡◌, refl, ◌∙◌, String, Bool, true, false, Option, List,
  [], ◌∷◌, ltb, max, if◌then◌else◌, ◌⊎◌, inl, inr, length, arith,
}
use data_factory.Base.Result.{Result, ok, err}
use data_factory.Executor.Types.{BatchResult, Stats, new_stats}
use data_factory.Executor.Batching.{Job, calc_batch_size, calc_batch_size-pos}
use data_factory.Executor.Progress.{init_progress}
use data_factory.Executor.Record.{Rate, Ledger}
use data_factory.Executor.Record.Accounts.{accounted}
use data_factory.Executor.Pool.Runs.{Covers}
use data_factory.Executor.RunAll.{Plan, RunAll, RunAll-accounted}
use data_factory.Executor.Final.{success_total, fail_total}

-- The settings that a run reads.
pub record Settings : Type 0 where
  pub batch_size_override : Option ℕ
  pub max_workers : ℕ
  pub rate : Rate
  pub shard_rows : ℕ
  pub rollback_capture_max_rows : ℕ

-- The plan of one pass over `row_count` rows for each of `table_count` tables.
unfoldable pub plan_of : Settings → (batch_size row_count table_count batch_no_start : ℕ) → Plan
plan_of s batch_size row_count table_count first = record {
  rate = s.rate;
  max_workers = s.max_workers;
  shard_rows = s.shard_rows;
  batch_size = batch_size;
  row_count = row_count;
  table_count = table_count;
  batch_no_start = first;
}

abbrev restart_stats : Ledger → Ledger
restart_stats l = record l { stats = new_stats }

-- `_execute_normal_mode`, from the ledger `l`: no rows are an error, else there is one pass.
pub data NormalMode (s : Settings) (outcome : Job → BatchResult) (insert_order : List String)
    (target_count : ℕ) (l : Ledger) : Result String (List Stats) → Ledger → Type 0 where
  no_rows : target_count ≡ 0 → NormalMode s outcome insert_order target_count l (err "造数条数必须为正整数") l
  one_pass :
      {stopped : Bool} {m : Ledger}
      → 0 < target_count
      → RunAll
          (plan_of s
            (calc_batch_size s.batch_size_override target_count)
            target_count
            (length insert_order)
            0)
          outcome
          (record l {
            stats = new_stats;
            progress =
                init_progress target_count
                  (calc_batch_size s.batch_size_override target_count)
                  insert_order
                  l.progress;
          })
          stopped
          m
      → NormalMode s outcome insert_order target_count l (ok (m.stats ∷ [])) m

-- A rounds's batches are numbered from the end of the round before it.
pub batches_per_round : ℕ → ℕ → ℕ
batches_per_round rows_per_value batch_size = (rows_per_value + batch_size - 1) / batch_size

-- The loop of `execute_iterate_mode` over `rounds` values that are left; round after round, whatever
-- became of the one before. `outcome` is given the number of the round.
pub data Rounds (s : Settings) (outcome : ℕ → Job → BatchResult)
    (table_count rows_per_value batch_size : ℕ)
    : (rounds round_no batch_no : ℕ) → Ledger → List Stats → Ledger → Type 0 where
  no_round :
      {i n : ℕ} {l : Ledger}
      → Rounds s outcome table_count rows_per_value batch_size zero i n l [] l
  one_round :
      {rounds i n : ℕ} {l m z : Ledger} {stopped : Bool} {ss : List Stats}
      → RunAll
          (plan_of s batch_size rows_per_value table_count n)
          (outcome i)
          (restart_stats l)
          stopped
          m
      → Rounds s outcome table_count rows_per_value batch_size rounds
          (suc i)
          (n + batches_per_round rows_per_value batch_size)
          m
          ss
          z
      → Rounds s outcome table_count rows_per_value batch_size (suc rounds) i n l (m.stats ∷ ss) z

-- `_decide_rollback_capture`: `per_table` is the target, or the driver's values times the rows of each.
pub capture_rollback : Settings → (per_table table_count : ℕ) → Bool
capture_rollback s per_table table_count =
    if ltb s.rollback_capture_max_rows (per_table * max 1 table_count) then false else true

pub NormalMode-books :
    (s : Settings) (outcome : Job → BatchResult) (insert_order : List String) (target_count : ℕ)
    (l m : Ledger) (r : Result String (List Stats))
    → 0 < s.max_workers
    → Covers (length insert_order) outcome
    → NormalMode s outcome insert_order target_count l r m
    → ((target_count ≡ 0) × (m ≡ l) × (r ≡ err "造数条数必须为正整数"))
      ⊎ ((0 < target_count)
          × (r ≡ ok (m.stats ∷ []))
          × (accounted m ≡ target_count * length insert_order))
unfolding plan_of
NormalMode-books s outcome insert_order target_count l m r workers covers (no_rows e) =
    inl (e, refl, refl)
NormalMode-books s outcome insert_order target_count l m r workers covers
      (one_pass {stopped = b} p run) =
    let size = calc_batch_size s.batch_size_override target_count in
    inr (
      p,
      refl,
      RunAll-accounted (plan_of s size target_count (length insert_order) 0) outcome
          (record l {
            stats = new_stats;
            progress = init_progress target_count size insert_order l.progress;
          })
          m b workers (calc_batch_size-pos s.batch_size_override target_count) covers refl run,
    )

accounted-ok :
    (ss : List Stats) (m : Ledger) (r : Result String (List Stats))
    → r ≡ ok ss
    → r ≡ ok (m.stats ∷ [])
    → success_total ss + fail_total ss ≡ accounted m
accounted-ok ss m r d e = let h : ss ≡ m.stats ∷ [] = ground arith in rw h (omega arith)

-- A normal run that returns has counted each row of each table once.
pub NormalMode-accounted :
    (s : Settings) (outcome : Job → BatchResult) (insert_order : List String) (target_count : ℕ)
    (l m : Ledger) (ss : List Stats)
    → 0 < s.max_workers
    → Covers (length insert_order) outcome
    → NormalMode s outcome insert_order target_count l (ok ss) m
    → (0 < target_count) × (success_total ss + fail_total ss ≡ target_count * length insert_order)
NormalMode-accounted s outcome insert_order target_count l m ss workers covers run =
    elim (NormalMode-books s outcome insert_order target_count l m (ok ss) workers covers run) [
      | inl h ↦ ground (arith, h.2)
      | inr h ↦ (h.0, accounted-ok ss m (ok ss) refl (h.1) ∙ h.2)
    ]

-- Round after round, every row of every round is counted.
pub Rounds-accounted :
    (s : Settings) (outcome : ℕ → Job → BatchResult) (k rows_per_value batch_size : ℕ)
    → 0 < s.max_workers
    → 0 < batch_size
    → ((i : ℕ) → Covers k (outcome i))
    → {rounds i n : ℕ} {l z : Ledger} {ss : List Stats}
    → Rounds s outcome k rows_per_value batch_size rounds i n l ss z
    → success_total ss + fail_total ss ≡ rounds * (rows_per_value * k)
unfolding plan_of
Rounds-accounted s outcome k rows_per_value batch_size workers size covers no_round = omega arith
Rounds-accounted s outcome k rows_per_value batch_size workers size covers
      (one_round {rounds = rounds} {i = i} {n = n} {l = l} {m = m} {stopped = b} {ss = ss} run
        more) =
    let h =
      RunAll-accounted (plan_of s batch_size rows_per_value k n) (outcome i) (restart_stats l) m b
        workers size (covers i) refl run in
    let r = Rounds-accounted s outcome k rows_per_value batch_size workers size covers more in
    grind (arith, h, r)
