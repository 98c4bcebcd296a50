-- ===== src/Snowflake.antt =====
-- backend/app/engine/strategies/pk_strategies.py: `SnowflakeIdGenerator`. The clock is the list of its
-- readings to come, in milliseconds; a call that waits reads on, and `none` means that the list ends first.
pub mod Order
mod Samples
use data_factory.Base.{
  ℕ, zero, suc, ◌+◌, ◌-◌, ◌*◌, ◌%◌, Option, none, some, List, [], ◌∷◌, ◌==◌, ltb, if◌then◌else◌,
}

abbrev pub epoch : ℕ
epoch = 1704038400000

-- 2 ^ SEQUENCE_BITS, and the values of the shifts.
abbrev pub sequence_range : ℕ
sequence_range = 4096

abbrev pub machine_shift : ℕ
machine_shift = 4096

abbrev pub datacenter_shift : ℕ
datacenter_shift = 131072

abbrev pub timestamp_shift : ℕ
timestamp_shift = 4194304

-- `last_timestamp` is `none` for -1.
pub record Generator : Type 0 where
  pub datacenter_id : ℕ
  pub machine_id : ℕ
  pub last_timestamp : Option ℕ
  pub sequence : ℕ

-- `SnowflakeIdGenerator(datacenter_id, machine_id)`; `& 31` is the remainder by 32.
pub new_generator : ℕ → ℕ → Generator
new_generator datacenter_id machine_id = record {
  datacenter_id = datacenter_id % 32;
  machine_id = machine_id % 32;
  last_timestamp = none;
  sequence = 0;
}

-- `_wait_next_ms`: the first reading after `last_timestamp`, and the readings that follow it.
pub wait_next_ms : ℕ → List ℕ → Option (ℕ × List ℕ)
wait_next_ms last [] = none
wait_next_ms last (t ∷ ts) =
    let rest = wait_next_ms last ts in if ltb last t then some (t, ts) else rest

-- The identifier of a time and a sequence number. The fields do not overlap, so that `|` is a sum.
pub compose : Generator → ℕ → ℕ → ℕ
compose g timestamp sequence =
    (timestamp - epoch) * timestamp_shift
    + g.datacenter_id * datacenter_shift
    + g.machine_id * machine_shift
    + sequence

-- An identifier, the generator after it and the readings that are left.
pub record Issued : Type 0 where
  pub id : ℕ
  pub generator : Generator
  pub readings : List ℕ

pub issue : Generator → ℕ → ℕ → List ℕ → Issued
unfolding compose
issue g timestamp sequence ts = record {
  id = compose g timestamp sequence;
  generator = record g { last_timestamp = some timestamp; sequence = sequence };
  readings = ts;
}

-- A clock that was set back is waited for until it has passed the last time.
pub caught_up : Option ℕ → ℕ → List ℕ → Option (ℕ × List ℕ)
unfolding wait_next_ms
caught_up none t ts = some (t, ts)
caught_up (some last) t ts = if ltb t last then wait_next_ms last ts else some (t, ts)

-- The sequence counts on within a millisecond. When it is used up the next millisecond is waited for.
pub issue_at : Generator → ℕ → List ℕ → Option Issued
unfolding issue wait_next_ms
issue_at g t ts = elim g.last_timestamp [
  | none ↦ some (issue g t 0 ts)
  | some last ↦
      if t == last
      then (if (g.sequence + 1) % sequence_range == 0
          then elim (wait_next_ms t ts) [ none ↦ none | some r ↦ some (issue g (r.0) 0 (r.1)) ]
          else some (issue g t ((g.sequence + 1) % sequence_range) ts))
      else some (issue g t 0 ts)
]

-- `next_id`
pub next_id : Generator → List ℕ → Option Issued
unfolding caught_up issue_at
next_id g [] = none
next_id g (t ∷ ts) = elim (caught_up g.last_timestamp t ts) [
  | none ↦ none
  | some r ↦ issue_at g (r.0) (r.1)
]

-- The identifiers of `n` calls.
pub issue_all : ℕ → Generator → List ℕ → Option (List ℕ)
unfolding next_id
issue_all zero g ts = some []
issue_all (suc n) g ts = elim (next_id g ts) [
  | none ↦ none
  | some r ↦ elim (issue_all n r.generator r.readings) [
    | none ↦ none
    | some rest ↦ some (r.id ∷ rest)
  ]
]
