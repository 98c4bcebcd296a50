-- ===== src/RedisGen/Accounts.antt =====
-- Every row of a case that fills Redis is accounted for.
use data_factory.Base.{ℕ, ◌≡◌, refl, ◌⊎◌, true, string_eq, is_empty, sum_by, arith}
use data_factory.Base.Result.{Result, ok, err}
use data_factory.Executor.Types.{Payload}
use data_factory.Executor.World.{Fault}
use data_factory.Executor.Batching.{Job}
use data_factory.Generator.Rows.{Strategies, Source}
use data_factory.Generator.Batch.{has_column}
use data_factory.RedisGen.{RedisBackend, RedisCase, redis_result}

-- The case has no value fields, so that every row is empty, or one that is not SKIP.
abbrev pub MakesRows : RedisCase → Type 0
MakesRows c = (is_empty c.field_configs ≡ true) ⊎ (has_column c.field_configs ≡ true)

module _ {V : Type 0} (s : Strategies V) (b : RedisBackend (Source V)) where
  batch_rows :
      (c : RedisCase) (j : Job) (r : Result Fault (ℕ × Payload))
      → ((x : ℕ × Payload) → r ≡ ok x → x.0 ≡ j.size)
      → sum_by (λ t. t.size) (redis_result s b c j r).tables ≡ j.size
  unfolding redis_result
  batch_rows c j (err e) h = omega arith
  batch_rows c j (ok (written, payload)) h = omega (arith, h (written, payload) refl)
