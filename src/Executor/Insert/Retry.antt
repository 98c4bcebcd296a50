-- ===== src/Executor/Insert/Retry.antt =====
-- How often `_insert_with_retry` tries, how long it sleeps, and what it reports of the attempts.
use data_factory.Base.{
  ℕ, zero, suc, false, ◌+◌, ◌^◌, ◌≤◌, String, ◌≡◌, refl, ap, Option, none, some, List, [], ◌∷◌,
  ◌++◌, length, ◌==◌, if◌then◌else◌, arith, ◌⊎◌, inl, inr,
}
use data_factory.Base.Result.{Result, ok, err}
use data_factory.Base.Text.{cut}
use data_factory.Executor.Types.{BatchStatus}
use data_factory.Executor.World.{Row, Fault, fault_text, Backend}
use data_factory.Executor.Insert.{bulk_insert, Attempt, insert_loop, insert_with_retry}

-- The sleeps after `n` failures: 1, 2, 4, … seconds.
pub waits : ℕ → List ℕ
waits zero = []
waits (suc n) = waits n ++ (2 ^ n) ∷ []

-- `n` attempts in a row that fail, from one world to another.
pub data Fails {W : Type 0} (b : Backend W) (table : String) (rows : List Row)
    : ℕ → W → W → Type 0 where
  none_yet : {w : W} → Fails b table rows 0 w w
  once_more :
      {n : ℕ} {w v : W} {x : Fault}
      → Fails b table rows n w v
      → (bulk_insert b table rows v).0 ≡ err x
      → Fails b table rows (suc n) w (bulk_insert b table rows v).1

-- The last attempt inserts the rows, and its id is kept.
pub Inserted :
    {W : Type 0} (b : Backend W) (table : String) (rows : List Row) → Attempt b → W → Type 0
Inserted b table rows a v =
    (id : Option ℕ) × ((bulk_insert b table rows v).0 ≡ ok id)
    × (a.0.status ≡ BatchStatus.success)
    × (a.0.error ≡ none)
    × (a.1 ≡ id)

-- The last attempt fails too, and it is the last that is allowed.
pub GivesUp :
    {W : Type 0} (b : Backend W) (max_retry : ℕ) (table : String) (rows : List Row)
    → Attempt b
    → W
    → Type 0
GivesUp b max_retry table rows a v =
    (x : Fault) × ((bulk_insert b table rows v).0 ≡ err x)
    × (a.0.retry_times ≡ max_retry)
    × (a.0.status ≡ BatchStatus.failed)
    × (a.0.error ≡ some (cut 500 (fault_text x)))
    × (a.1 ≡ none)

-- What the attempt `a`, from the world `w` to the world `z`, has to do with the inserts that were made.
pub record Reports {W : Type 0} (b : Backend W) (max_retry : ℕ) (table : String) (rows : List Row)
    (w : W) (a : Attempt b) (z : W) : Type 0 where
  pub same_table : a.0.table ≡ table
  pub same_size : a.0.size ≡ length rows
  pub bounded : a.0.retry_times ≤ max_retry
  pub sleeps : a.2 ≡ waits (a.0.retry_times)
  pub before_last : W
  pub failed_before : Fails b table rows a.0.retry_times w before_last
  pub last_attempt : z ≡ (bulk_insert b table rows before_last).1
  pub verdict : Inserted b table rows a before_last ⊎ GivesUp b max_retry table rows a before_last

Result-cases :
    {A : Type 0} (r : Result Fault A) → ((a : A) × (r ≡ ok a)) ⊎ ((x : Fault) × (r ≡ err x))
Result-cases (ok a) = inl (a, refl)
Result-cases (err x) = inr (x, refl)

module _ {W : Type 0} (b : Backend W) (max_retry : ℕ) (table : String) (rows : List Row) where
  insert-Reports :
      (tries : ℕ) (w v : W) (id : Option ℕ)
      → tries ≤ max_retry
      → Fails b table rows tries w v
      → (bulk_insert b table rows v).0 ≡ ok id
      → Reports b max_retry table rows w
          (
            record {
              table = table;
              status = BatchStatus.success;
              size = length rows;
              retry_times = tries;
              error = none;
            },
            id,
            waits tries,
          )
          (bulk_insert b table rows v).1
  unfolding Inserted
  insert-Reports tries w v id e failed x = record {
    same_table = refl;
    same_size = refl;
    bounded = e;
    sleeps = refl;
    before_last = v;
    failed_before = failed;
    last_attempt = refl;
    verdict = inl (id, x, refl, refl, refl);
  }

  insert_loop-step :
      (left tries : ℕ) (last : Option String) (slept : List ℕ) (v : W) (y : Fault)
      → (bulk_insert b table rows v).0 ≡ err y
      → insert_loop b (suc left) tries last slept max_retry table rows v
        ≡ insert_loop b left
            (suc tries)
            (some (cut 500 (fault_text y)))
            (if left == 0 then slept else slept ++ (2 ^ tries) ∷ [])
            max_retry
            table
            rows
            (bulk_insert b table rows v).1
  unfolding insert_loop
  insert_loop-step left tries last slept v y x = rw (x, insert_loop) refl

  insert_loop-again :
      (left tries : ℕ) (last : Option String) (v : W) (y : Fault)
      → (bulk_insert b table rows v).0 ≡ err y
      → insert_loop b (suc (suc left)) tries last (waits tries) max_retry table rows v
        ≡ insert_loop b
            (suc left)
            (suc tries)
            (some (cut 500 (fault_text y)))
            (waits (suc tries))
            max_retry
            table
            rows
            (bulk_insert b table rows v).1
  unfolding waits
  insert_loop-again left tries last v y x =
      let more : (suc left == 0) ≡ false = ground arith in
      rw more at (insert_loop-step (suc left) tries last (waits tries) v y x)

  insert_loop-Reports :
      (left tries : ℕ) (last : Option String) (w v : W)
      → tries + left ≡ max_retry
      → Fails b table rows tries w v
      → (let r = insert_loop b (suc left) tries last (waits tries) max_retry table rows v in
          Reports b max_retry table rows w r.0 r.1)
  unfolding insert_loop waits GivesUp
  insert_loop-Reports zero tries last w v e failed =
      let all_used : tries ≡ max_retry = omega arith in
      elim (Result-cases (bulk_insert b table rows v).0) [
        | inl (id, x) ↦ rw (x, insert_loop) (insert-Reports tries w v id (omega arith) failed x)
        | inr (y, x) ↦
            rw (x, insert_loop)
              (record {
                same_table = refl;
                same_size = refl;
                bounded = omega arith;
                sleeps = ap waits all_used;
                before_last = v;
                failed_before = rw all_used at failed;
                last_attempt = refl;
                verdict = inr (y, x, refl, refl, refl, refl);
              })
      ]
  insert_loop-Reports (suc left) tries last w v e failed =
      elim (Result-cases (bulk_insert b table rows v).0) [
        | inl (id, x) ↦ rw (x, insert_loop) (insert-Reports tries w v id (omega arith) failed x)
        | inr (y, x) ↦ rw (insert_loop-again left tries last v y x) (
            insert_loop-Reports left (suc tries) (some (cut 500 (fault_text y))) w
              (bulk_insert b table rows v).1 (omega arith) (once_more failed x))
      ]

-- `_insert_with_retry` tries until an attempt inserts the rows, at most `max_retry + 1` times. Each attempt starts
-- from what the one before it left, and all but the last have failed. It reports a success, with the id
-- and the number of failures before it, when the last attempt inserted the rows, and otherwise, after
-- `max_retry + 1` failures, a failure with the last error. It sleeps 1, 2, 4, … seconds, once after each failure but
-- the last of `max_retry + 1`.
pub insert_with_retry-Reports :
    {W : Type 0} (b : Backend W) (max_retry : ℕ) (table : String) (rows : List Row) (w : W)
    → (let r = insert_with_retry b max_retry table rows w in
        Reports b max_retry table rows w r.0 r.1)
unfolding insert_with_retry waits
insert_with_retry-Reports b max_retry table rows w =
    insert_loop-Reports b max_retry table rows max_retry 0 none w w (omega arith) none_yet
