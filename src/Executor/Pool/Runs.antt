-- ===== src/Executor/Pool/Runs.antt =====
-- `_run_offsets` under every schedule: rows are accounted for, and the loop comes to an end.
use data_factory.Base.{
  ℕ, suc, ◌+◌, ◌*◌, ◌≤◌, ◌<◌, ◌≡◌, ◌≢◌, refl, ap, Bool, true, false, List, [], ◌∷◌, ◌++◌, ◌⊎◌, inl,
  inr, Bool-cases, sum_by, sum_by-append, length, length-append, Split, neither, to_right,
  Split-sum_by, to_left, arith,
}
use data_factory.Executor.Batching.{Job}
use data_factory.Executor.Types.{BatchResult}
use data_factory.Executor.Record.{Ledger, Rate, record_batch_result}
use data_factory.Executor.Record.Accounts.{rows_of, accounted, record_batch_result-accounted}
use data_factory.Executor.Pool.{
  Future, Pool, can_submit, record_done, Cancels, nothing, runs, cancels, wake_up, Step, submit,
  wake, Steps, here, next, start, IsOver, job_rows, open_rows, mark_stopped,
}

-- Every table of a batch's result counts the rows of the batch, for `k` tables.
abbrev pub Covers : ℕ → (Job → BatchResult) → Type 0
Covers k outcome = (j : Job) → rows_of (outcome j).tables ≡ k * j.size

abbrev pending_rows : Pool → ℕ
pending_rows p = sum_by open_rows p.pending

-- What is counted and what can still be counted is `total` until the loop stops, and no more later.
record Balances (k total : ℕ) (p : Pool) : Type 0 where
  at_most : accounted p.ledger + k * (job_rows p.waiting + pending_rows p) ≤ total
  exact :
      p.stop_submit ≡ false → accounted p.ledger + k * (job_rows p.waiting + pending_rows p) ≡ total

Cancels-open_rows :
    {fs gs : List Future} → Cancels fs gs → sum_by open_rows gs ≤ sum_by open_rows fs
Cancels-open_rows nothing = omega arith
Cancels-open_rows (runs {f = f} c) = omega (arith, Cancels-open_rows c)
Cancels-open_rows (cancels {f = f} c) = ground (arith, Cancels-open_rows c)

Cancels-length : {fs gs : List Future} → Cancels fs gs → length gs ≡ length fs
Cancels-length nothing = refl
Cancels-length (runs c) = ap suc (Cancels-length c)
Cancels-length (cancels c) = ap suc (Cancels-length c)

Split-length {ℓ} :
    {A : Type ℓ} {xs ys zs : List A} → Split xs ys zs → length xs ≡ length ys + length zs
Split-length neither = omega arith
Split-length (to_left s) = omega (arith, Split-length s)
Split-length (to_right s) = omega (arith, Split-length s)

mul_mono : (k : ℕ) {a b : ℕ} → a ≤ b → k * a ≤ k * b
mul_mono k h = grind arith

nonempty-length {ℓ} : {A : Type ℓ} (xs : List A) → xs ≢ [] → 0 < length xs
nonempty-length [] h = absurd (h refl)
nonempty-length (x ∷ xs) h = omega arith

module _ (k : ℕ) (outcome : Job → BatchResult) (covers : Covers k outcome) where
  record_done-accounted :
      (fs : List Future) (l : Ledger)
      → accounted (record_done outcome fs l) ≡ accounted l + k * sum_by open_rows fs
  unfolding record_done
  record_done-accounted [] l = omega arith
  record_done-accounted (f ∷ fs) l = elim (Bool-cases f.cancelled) [
    | inl gone ↦ rw gone (omega (arith, record_done-accounted fs l))
    | inr ran ↦ rw ran (
        omega (
          arith,
          record_done-accounted fs (record_batch_result (outcome f.job) l),
          record_batch_result-accounted (outcome f.job) l,
          covers f.job,
        ))
  ]

  module _ (rate : Rate) (limit total : ℕ) where
    Step-Balances :
        {p q : Pool} → Step rate limit outcome p q → Balances k total p → Balances k total q
    unfolding wake_up mark_stopped
    Step-Balances (submit p j js can more) h =
        let e = sum_by-append open_rows p.pending (record { job = j; cancelled = false } ∷ []) in
        let w = ap job_rows more in
        let same : job_rows js
              + sum_by open_rows (p.pending ++ record { job = j; cancelled = false } ∷ [])
            ≡ job_rows p.waiting + pending_rows p =
          omega (arith, e, w) in
        record { at_most = rw same h.at_most; exact = λ s. rw same (h.exact s) }
    Step-Balances (wake p done rest cancelled can some split marks) h =
        let s = ap (λ (t : ℕ). k * t) (Split-sum_by open_rows split) in
        let r = record_done-accounted done p.ledger in
        let c : k * sum_by open_rows cancelled ≤ k * sum_by open_rows rest =
          mul_mono k (Cancels-open_rows marks) in
        record {
          at_most = ground (arith, s, r, c, h.at_most);
          exact = λ e. ground (arith, s, r, h.exact);
        }

    Steps-Balances :
        {p q : Pool} → Steps rate limit outcome p q → Balances k total p → Balances k total q
    Steps-Balances here h = h
    Steps-Balances (next s r) h = Steps-Balances r (Step-Balances s h)

-- A step that can be taken shortens what is waiting or pending.
abbrev measure : Pool → ℕ
measure p = 2 * length p.waiting + length p.pending

module _ (rate : Rate) (limit : ℕ) (outcome : Job → BatchResult) where
  Step-measure : {p q : Pool} → Step rate limit outcome p q → measure q < measure p
  unfolding wake_up
  Step-measure (submit p j js can more) =
      omega (
        arith,
        ap length more,
        length-append p.pending (record { job = j; cancelled = false } ∷ []),
      )
  Step-measure (wake p done rest cancelled can some split marks) =
      ground (arith, Split-length split, Cancels-length marks, nonempty-length done some)

  -- The number of steps of a run.
  abbrev pub steps : {p q : Pool} → Steps rate limit outcome p q → ℕ
  steps here = 0
  steps (next s r) = suc (steps r)

  Steps-measure : {p q : Pool} (r : Steps rate limit outcome p q) → steps r + measure q ≤ measure p
  Steps-measure here = omega arith
  Steps-measure (next s r) = omega (arith, Step-measure s, Steps-measure r)

  -- The pool never holds more futures than the limit.
  Step-limit :
      {p q : Pool}
      → Step rate limit outcome p q
      → length p.pending ≤ limit
      → length q.pending ≤ limit
  unfolding wake_up can_submit
  Step-limit (submit p j js can more) h =
      ground (arith, length-append p.pending (record { job = j; cancelled = false } ∷ []))
  Step-limit (wake p done rest cancelled can some split marks) h =
      ground (arith, Split-length split, Cancels-length marks)

wake_all : (xs : List Future) → Split xs xs []
wake_all [] = neither
wake_all (x ∷ xs) = to_left (wake_all xs)

Step-IsOver :
    (rate : Rate) (limit : ℕ) (outcome : Job → BatchResult) (p : Pool)
    → IsOver limit p ⊎ ((q : Pool) × Step rate limit outcome p q)
Step-IsOver rate limit outcome p = go (can_submit limit p) refl p.waiting refl p.pending refl
  where
    go :
        (b : Bool)
        → can_submit limit p ≡ b
        → (ws : List Job) → p.waiting ≡ ws
        → (fs : List Future) → p.pending ≡ fs
        → IsOver limit p ⊎ ((q : Pool) × Step rate limit outcome p q)
    go true can [] w fs f = absurd (no_job can w)
      where
        no_job : can_submit limit p ≡ true → p.waiting ≡ [] → ⊥
        no_job can w = unfold can_submit in ground arith
    go true can (j ∷ js) w fs f = inr (_, submit p j js can w)
    go false can ws w [] f = inl (record { no_submit = can; no_pending = f })
    go false can ws w (x ∷ xs) f =
        inr (_, wake p (x ∷ xs) [] [] can (λ e. cc) (rw f (wake_all (x ∷ xs))) nothing)

-- Every schedule ends: as long as the loop is not over the main thread has a step, and no run has
-- more than two steps for each job.
pub run_offsets_ends :
    (rate : Rate) (limit : ℕ) (outcome : Job → BatchResult) (jobs : List Job) (l : Ledger)
    {p : Pool} (run : Steps rate limit outcome (start jobs l) p)
    → (steps rate limit outcome run ≤ 2 * length jobs)
      × (IsOver limit p ⊎ ((q : Pool) × Step rate limit outcome p q))
run_offsets_ends rate limit outcome jobs l {p} run =
    (omega (arith, Steps-measure rate limit outcome run), Step-IsOver rate limit outcome p)

-- Under every schedule the pool holds at most the limit of futures.
pub run_offsets-limit :
    (rate : Rate) (limit : ℕ) (outcome : Job → BatchResult) (jobs : List Job) (l : Ledger)
    {p : Pool}
    → Steps rate limit outcome (start jobs l) p
    → length p.pending ≤ limit
run_offsets-limit rate limit outcome jobs l run = keep run (omega arith)
  where
    keep :
        {p q : Pool}
        → Steps rate limit outcome p q
        → length p.pending ≤ limit
        → length q.pending ≤ limit
    keep here h = h
    keep (next s r) h = keep r (Step-limit rate limit outcome s h)

-- For a limit above 0 and batches that report each of their rows once for each of `k` tables: when
-- the loop is over under any schedule, each row of each table is counted exactly once, and if
-- the failure rate stopped the loop, at most once.
pub run_offsets-accounted :
    (k : ℕ) (outcome : Job → BatchResult)
    → Covers k outcome
    → (rate : Rate) (limit : ℕ) → 0 < limit
    → (jobs : List Job) (l : Ledger) {p : Pool} → Steps rate limit outcome (start jobs l) p
    → IsOver limit p
    → (accounted p.ledger ≤ accounted l + k * job_rows jobs)
      × (p.stop_submit ≡ false → accounted p.ledger ≡ accounted l + k * job_rows jobs)
unfolding can_submit
run_offsets-accounted k outcome covers rate limit pos jobs l {p} run over =
    let total = accounted l + k * job_rows jobs in
    let b =
      Steps-Balances k outcome covers rate limit total run
        (record { at_most = omega arith; exact = λ e. omega arith }) in
    (
      omega (arith, b.at_most),
      λ go_on.
          let rest : p.waiting ≡ [] = ground (arith, over.no_submit, over.no_pending) in
          let none_open : job_rows p.waiting + pending_rows p ≡ 0 =
            omega (arith, ap job_rows rest, ap (sum_by open_rows) over.no_pending) in
          omega (arith, b.exact go_on, ap (λ (t : ℕ). k * t) none_open),
    )
