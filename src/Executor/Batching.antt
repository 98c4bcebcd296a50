-- ===== src/Executor/Batching.antt =====
-- backend/app/engine/executor.py: how many rows a batch has, and the list of batches.
use data_factory.Base.{
  ℕ, zero, suc, ◌+◌, ◌-◌, ◌/◌, ◌≤◌, ◌<◌, min, max, ◌≡◌, refl, ◌∙◌, ap, Option, some, List, [], ◌∷◌,
  ◌++◌, ltb, leb, if◌then◌else◌, Bool-cases, inl, inr, length, take, drop, sum_by, arith,
}

-- `calc_batch_size`: an override of 0 counts as absent.
unfoldable pub calc_batch_size : Option ℕ → ℕ → ℕ
calc_batch_size (some (suc n)) target_count = suc n
calc_batch_size override target_count =
    if leb target_count 10000
    then 500
    else if leb target_count 100000
    then 1000
    else if leb target_count 1000000
    then 3000
    else 5000

-- `list(range(start, stop, step))`, cut off by its fuel.
unfoldable pub range_from : ℕ → ℕ → ℕ → ℕ → List ℕ
range_from zero start stop step = []
range_from (suc fuel) start stop step =
    let rest = range_from fuel (start + step) stop step in
    if ltb start stop then start ∷ rest else []

unfoldable pub range : ℕ → ℕ → List ℕ
unfolding range_from
range stop step = range_from stop 0 stop step

-- A batch: its number and its rows.
pub record Job : Type 0 where
  pub batch_no : ℕ
  pub size : ℕ

-- The batches of `_run_offsets`: the number counts on from `first`, the last batch may be short.
unfoldable pub jobs_of : ℕ → ℕ → ℕ → List ℕ → List Job
jobs_of batch_size row_count first [] = []
jobs_of batch_size row_count first (offset ∷ rest) =
    record { batch_no = first; size = min batch_size (row_count - offset) }
    ∷ jobs_of batch_size row_count (first + 1) rest

abbrev pub batches_per_shard : ℕ → ℕ → ℕ
batches_per_shard shard_rows batch_size = max 1 (shard_rows / batch_size)

-- The loop over the shards: shard `start` holds the offsets from `start` on.
unfoldable pub shards_from : ℕ → ℕ → ℕ → ℕ → List ℕ → List ℕ → List (List Job)
shards_from batch_size row_count first per_shard offsets [] = []
shards_from batch_size row_count first per_shard offsets (start ∷ starts) =
    jobs_of batch_size row_count (first + start) (take per_shard (drop start offsets))
    ∷ shards_from batch_size row_count first per_shard offsets starts

-- `_run_all`: the shards, in the order in which they are run.
unfoldable pub shards : ℕ → ℕ → ℕ → ℕ → List (List Job)
unfolding shards_from
shards shard_rows batch_size row_count first =
    let offsets = range row_count batch_size in
    let per_shard = batches_per_shard shard_rows batch_size in
    shards_from batch_size row_count first per_shard offsets (range (length offsets) per_shard)

abbrev pub all_jobs : List (List Job) → List Job
all_jobs [] = []
all_jobs (l ∷ ls) = l ++ all_jobs ls

drop-drop {ℓ} : {A : Type ℓ} (m n : ℕ) (xs : List A) → drop n (drop m xs) ≡ drop (m + n) xs
drop-drop zero n xs = let e : zero + n ≡ n = omega arith in rw e
drop-drop (suc m) zero [] = let e : suc m + 0 ≡ suc m = omega arith in rw e
drop-drop (suc m) (suc n) [] = let e : suc m + suc n ≡ suc (m + suc n) = omega arith in rw e
drop-drop (suc m) n (x ∷ xs) =
    let e : suc m + n ≡ suc (m + n) = omega arith in rw e (drop-drop m n xs)

drop_all {ℓ} : {A : Type ℓ} (n : ℕ) (xs : List A) → length xs ≤ n → drop n xs ≡ []
drop_all zero [] h = refl
drop_all zero (x ∷ xs) h = absurd (omega arith)
drop_all (suc n) [] h = refl
drop_all (suc n) (x ∷ xs) h = drop_all n xs (omega arith)

module _ (batch_size row_count : ℕ) where
  jobs_of-split :
      (k first : ℕ) (xs : List ℕ)
      → jobs_of batch_size row_count first (take k xs)
          ++ jobs_of batch_size row_count (first + k) (drop k xs)
        ≡ jobs_of batch_size row_count first xs
  unfolding jobs_of
  jobs_of-split zero first xs = let e : first + 0 ≡ first = omega arith in rw e
  jobs_of-split (suc k) first [] = refl
  jobs_of-split (suc k) first (x ∷ xs) =
      let e : first + suc k ≡ first + 1 + k = omega arith in
      let j : Job = record { batch_no = first; size = min batch_size (row_count - x) } in
      rw e (ap (λ (l : List Job). j ∷ l) (jobs_of-split k (first + 1) xs))

  shards_from-all :
      (fuel first start per_shard : ℕ) (offsets : List ℕ)
      → 0 < per_shard
      → length offsets ≤ start + fuel
      → all_jobs (
          shards_from batch_size row_count first per_shard offsets
            (range_from fuel start (length offsets) per_shard))
        ≡ jobs_of batch_size row_count (first + start) (drop start offsets)
  unfolding shards_from range_from
  shards_from-all zero first start per_shard offsets p f =
      rw (drop_all start offsets (omega arith)) (unfold jobs_of in refl)
  shards_from-all (suc fuel) first start per_shard offsets p f =
      elim (Bool-cases (ltb start (length offsets))) [
        | inl more ↦
            let e : first + start + per_shard ≡ first + (start + per_shard) = omega arith in
            let here = jobs_of-split per_shard (first + start) (drop start offsets) in
            rw more (
              ap
                (λ l.
                  jobs_of batch_size row_count (first + start) (take per_shard (drop start offsets))
                  ++ l)
                (shards_from-all fuel first (start + per_shard) per_shard offsets p (omega arith))
              ∙ (rw (drop-drop, e) at here))
        | inr end ↦ rw (end, drop_all start offsets (ground arith)) (unfold jobs_of in refl)
      ]

  pub sum-range_from :
      (fuel first start : ℕ)
      → 0 < batch_size
      → row_count ≤ start + fuel
      → sum_by
          (λ j. j.size)
          (jobs_of batch_size row_count first (range_from fuel start row_count batch_size))
        ≡ row_count - start
  unfolding jobs_of range_from
  sum-range_from zero first start p f = omega arith
  sum-range_from (suc fuel) first start p f =
      ground (arith, sum-range_from fuel (first + 1) (start + batch_size))

-- Cutting the batches into shards changes neither the batches nor their numbers and order.
pub shards-all :
    (shard_rows batch_size row_count first : ℕ)
    → all_jobs (shards shard_rows batch_size row_count first)
      ≡ jobs_of batch_size row_count first (range row_count batch_size)
unfolding shards range
shards-all shard_rows batch_size row_count first =
    let e : first + 0 ≡ first = omega arith in
    let offsets = range_from row_count 0 row_count batch_size in
    let all =
      shards_from-all batch_size row_count (length offsets) first 0
        (batches_per_shard shard_rows batch_size) offsets (omega arith) (omega arith) in
    rw e at all

-- Batches of at least one row hold together as many rows as were asked for.
pub shards-sum :
    (shard_rows batch_size row_count first : ℕ)
    → 0 < batch_size
    → sum_by (λ j. j.size) (all_jobs (shards shard_rows batch_size row_count first)) ≡ row_count
unfolding range
shards-sum shard_rows batch_size row_count first p =
    rw shards-all
      (omega (arith, sum-range_from batch_size row_count row_count first 0 p (omega arith)))

-- Without an override, and with any override that counts, a batch has at least one row.
pub calc_batch_size-pos :
    (override : Option ℕ) (target_count : ℕ) → 0 < calc_batch_size override target_count
unfolding calc_batch_size
calc_batch_size-pos (some (suc n)) target_count = omega arith
calc_batch_size-pos _ target_count = ground arith
