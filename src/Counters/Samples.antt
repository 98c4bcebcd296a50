-- ===== src/Counters/Samples.antt =====
-- Three batches on one counter, and the theorems at them.
use data_factory.Base.{ℕ, ◌+◌, ◌≡◌, refl, some, List, [], ◌∷◌, string_eq}
use data_factory.Base.Dict.{get}
use data_factory.Counters.{CounterKey, counter_beq, counter_eq, Counters, prefetch_all, numbers}
use data_factory.Counters.Ranges.{total, prefetch_all-numbers}

abbrev key : CounterKey
key = record { table = "order"; column = "no" }

abbrev counters : Counters
counters = (key, 100) ∷ []

abbrev sizes : List ℕ
sizes = 500 ∷ 500 ∷ 120 ∷ []

counter_is_there : get key counters ≡ some 100
unfolding get counter_beq
counter_is_there = refl

prefetch_all-numbers_example :
    ((prefetch_all key sizes counters).0 ≡ numbers 100 (total sizes))
    × (get key (prefetch_all key sizes counters).1 ≡ some (100 + total sizes))
prefetch_all-numbers_example = prefetch_all-numbers key sizes counters 100 counter_is_there
