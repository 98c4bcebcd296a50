-- ===== src/Executor/Retry.antt =====
-- backend/app/engine/executor.py: how `retry_failed_batches` picks what it runs again.
use data_factory.Base.{
  ℕ, ◌+◌, ◌≡◌, ◌↔◌, refl, ap, String, Bool, true, false, not, Option, none, some, List, [], ◌∷◌,
  ◌++◌, ◌==◌, ltb, leb, max, if◌then◌else◌, Eq, ◌=?◌, =?_iff, string_eq, keep, sum_by, arith,
}
use data_factory.Base.Text.{codes}
use data_factory.Base.Count.{count, count-append}
use data_factory.Base.Dict.{Dict, get, put, values, get-put}
use data_factory.Value.{Value}
use data_factory.Executor.Types.{BatchStatus}
use data_factory.Executor.Record.{BatchLog}
use data_factory.Executor.Recount.{same_round}

-- The key (round_no, batch_no) of a group.
pub record GroupKey : Type 0 where
  pub round_no : Option ℕ
  pub batch_no : ℕ

abbrev pub group_beq : GroupKey → GroupKey → Bool
group_beq a b = if same_round a.round_no b.round_no then a.batch_no == b.batch_no else false

pub group_beq_iff : (a b : GroupKey) → (group_beq a b ≡ true) ↔ (a ≡ b)
unfolding same_round
group_beq_iff a b = (λ h. ground arith, λ h. ground arith)

instance abbrev pub group_key_eq : Eq GroupKey
group_key_eq = record { beq = group_beq; beq_iff = group_beq_iff }

pub record Group : Type 0 where
  pub round_no : Option ℕ
  pub batch_no : ℕ
  pub size : ℕ
  pub drive_value : Option Value
  pub tables : List String

abbrev pub is_failed : BatchLog → Bool
is_failed g = elim g.status [ BatchStatus.failed ↦ true | BatchStatus.success ↦ false ]

starts_with : List ℕ → List ℕ → Bool
starts_with [] s = true
starts_with (c ∷ p) [] = false
starts_with (c ∷ p) (d ∷ s) = let rest = starts_with p s in if c == d then rest else false

-- `log.table_name.startswith("redis:")`
pub is_redis_log : BatchLog → Bool
unfolding starts_with
is_redis_log g = starts_with (codes "redis:") (codes g.table_name)

-- The logs that a retry looks at: the failed ones, but for those of the Redis synchronisation.
abbrev pub wanted : BatchLog → Bool
wanted g = if is_failed g then not (is_redis_log g) else false

abbrev pub failed_logs : List BatchLog → List BatchLog
failed_logs logs = keep wanted logs

-- `groups.setdefault(group_key, {...})`
group_for : BatchLog → Option Group → Group
group_for g none = record {
  round_no = g.round_no;
  batch_no = g.batch_no;
  size = g.batch_size;
  drive_value = g.drive_value;
  tables = [];
}
group_for g (some x) = x

abbrev pub group_key : BatchLog → GroupKey
group_key g = record { round_no = g.round_no; batch_no = g.batch_no }

add_log : BatchLog → Group → Group
add_log g x = record x { tables = x.tables ++ g.table_name ∷ []; size = max x.size g.batch_size }

pub group_logs : Dict GroupKey Group → List BatchLog → Dict GroupKey Group
unfolding group_for add_log
group_logs d [] = d
group_logs d (g ∷ gs) =
    group_logs (put (group_key g) (add_log g (group_for g (get (group_key g) d))) d) gs

-- The groups of a retry, before they are sorted by round and number.
pub retry_groups : List BatchLog → Dict GroupKey Group
unfolding group_logs
retry_groups logs = group_logs [] (failed_logs logs)

-- Round numbers come in order, no round first.
before : Group → Group → Bool
before a b = elim a.round_no [
  | none ↦ elim b.round_no [ none ↦ leb a.batch_no b.batch_no | some _ ↦ true ]
  | some i ↦ elim b.round_no [
    | none ↦ false
    | some j ↦ if i == j then leb a.batch_no b.batch_no else ltb i j
  ]
]

insert_group : Group → List Group → List Group
insert_group x [] = x ∷ []
insert_group x (y ∷ ys) =
    let rest = insert_group x ys in if before x y then x ∷ y ∷ ys else y ∷ rest

sort_groups : List Group → List Group
unfolding insert_group before
sort_groups [] = []
sort_groups (x ∷ xs) = insert_group x (sort_groups xs)

-- `group_list`
pub group_list : List BatchLog → List Group
unfolding retry_groups sort_groups
group_list logs = sort_groups (values (retry_groups logs))

-- The tables that the group `k` runs again.
abbrev pub tables_at : GroupKey → Dict GroupKey Group → List String
tables_at k d = elim (get k d) [ none ↦ [] | some x ↦ x.tables ]

-- 1 for a log of this batch and table.
abbrev pub log_at : GroupKey → String → BatchLog → ℕ
log_at k table g = if group_key g =? k then (if g.table_name =? table then 1 else 0) else 0

count-group_logs :
    (k : GroupKey) (table : String) (gs : List BatchLog) (d : Dict GroupKey Group)
    → count table (tables_at k (group_logs d gs))
      ≡ count table (tables_at k d) + sum_by (log_at k table) gs
unfolding group_logs
count-group_logs k table [] d = omega arith
count-group_logs k table (g ∷ gs) d =
    let next = put (group_key g) (add_log g (group_for g (get (group_key g) d))) d in
    ground (
      arith,
      count-group_logs k table gs next,
      get-put (group_key g) k (add_log g (group_for g (get (group_key g) d))) d,
      =?_iff (group_key g) k,
      count-append table (tables_at (group_key g) d) (g.table_name ∷ []),
    )

sum-keep :
    (f : BatchLog → ℕ) (p : BatchLog → Bool) (logs : List BatchLog)
    → sum_by f (keep p logs) ≡ sum_by (λ g. if p g then f g else 0) logs
sum-keep f p [] = refl
sum-keep f p (g ∷ gs) = ground (arith, sum-keep f p gs)

tables_at-empty : (k : GroupKey) → tables_at k [] ≡ []
unfolding get
tables_at-empty k = refl

count-empty : (table : String) → count table [] ≡ 0
count-empty table = refl

-- The group of a batch names a table once for each failed log of the two that is no log of the Redis
-- synchronisation, and so also when a later log has made the failure good.
pub count-retry_groups :
    (k : GroupKey) (table : String) (logs : List BatchLog)
    → count table (tables_at k (retry_groups logs))
      ≡ sum_by (λ g. if wanted g then log_at k table g else 0) logs
unfolding retry_groups
count-retry_groups k table logs = omega (
  arith,
  count-group_logs k table (failed_logs logs) [],
  ap (count table) (tables_at-empty k),
  count-empty table,
  sum-keep (log_at k table) wanted logs,
)
