-- ===== src/Counters.antt =====
-- backend/app/engine/strategies/number_strategies.py: the counters of INCR_FROM columns in Redis, and
-- `_init_incr_counters` of backend/app/engine/executor.py. A counter is named by its table and column.
pub mod Ranges
mod Samples
use data_factory.Base.{
  ℕ, zero, suc, ◌+◌, ◌-◌, ◌≡◌, ◌↔◌, String, Bool, true, false, Option, none, some, List, [], ◌∷◌,
  ◌++◌, if◌then◌else◌, Eq, ◌=?◌, =?_iff, string_eq, arith,
}
use data_factory.Base.Text.{strategy_is}
use data_factory.Base.Dict.{Dict, get, put}
use data_factory.Value.{Value, int}
use data_factory.CaseConfig.{FieldConfig}

-- The key df:incr:{task_id}:{table}:{column} of one task.
pub record CounterKey : Type 0 where
  pub table : String
  pub column : String

pub counter_beq : CounterKey → CounterKey → Bool
counter_beq a b = if a.table =? b.table then a.column =? b.column else false

pub counter_beq_iff : (a b : CounterKey) → (counter_beq a b ≡ true) ↔ (a ≡ b)
unfolding counter_beq
counter_beq_iff a b = (
  λ h. ground (arith, =?_iff a.table b.table, =?_iff a.column b.column),
  λ h. ground (arith, =?_iff a.table b.table, =?_iff a.column b.column),
)

instance abbrev pub counter_eq : Eq CounterKey
counter_eq = record { beq = counter_beq; beq_iff = counter_beq_iff }

abbrev pub Counters : Type 0
Counters = Dict CounterKey ℕ

-- `init_incr_counter`: SET with NX keeps a counter that is there.
pub init_incr_counter : CounterKey → ℕ → Counters → Counters
init_incr_counter k start c = elim (get k c) [ none ↦ put k start c | some _ ↦ c ]

-- `(strategy_params or {}).get("start", 1)`, of a whole number.
start_of : Option Value → ℕ
start_of (some (int n)) = n
start_of _ = 1

init_columns : String → List FieldConfig → Counters → Counters
unfolding init_incr_counter start_of
init_columns table [] c = c
init_columns table (f ∷ fs) c =
    let k : CounterKey = record { table = table; column = f.column_name } in
    init_columns table fs (
      if strategy_is "INCR_FROM" "" f.strategy
      then init_incr_counter k (start_of (get "start" f.strategy_params)) c
      else c)

-- `_init_incr_counters`
pub init_incr_counters : Dict String (List FieldConfig) → Counters → Counters
unfolding init_columns
init_incr_counters [] c = c
init_incr_counters ((table, fs) ∷ rest) c = init_incr_counters rest (init_columns table fs c)

-- INCRBY: a missing counter counts from 0.
pub incrby : CounterKey → ℕ → Counters → ℕ × Counters
incrby k count c =
    let end = (elim (get k c) [ none ↦ 0 | some n ↦ n ]) + count in (end, put k end c)

-- `prefetch_incr_range`: the first number of the batch, and the counters after it.
pub prefetch_incr_range : CounterKey → ℕ → Counters → ℕ × Counters
unfolding incrby
prefetch_incr_range k count c = let (end, c') = incrby k count c in (end - count, c')

-- `IncrFromStrategy.generate` without a prefix, for the rows 0, 1, … of a batch.
pub numbers : ℕ → ℕ → List ℕ
numbers start zero = []
numbers start (suc n) = start ∷ numbers (start + 1) n

-- The numbers that batches of these sizes get, in the order in which they reach Redis.
pub prefetch_all : CounterKey → List ℕ → Counters → List ℕ × Counters
unfolding prefetch_incr_range numbers
prefetch_all k [] c = ([], c)
prefetch_all k (n ∷ ns) c =
    let (start, c') = prefetch_incr_range k n c in
    let (rest, c'') = prefetch_all k ns c' in (numbers start n ++ rest, c'')
