-- ===== src/Counters/Ranges.antt =====
-- The numbers of an INCR_FROM column: consecutive over all batches.
use data_factory.Base.{
  ℕ, zero, suc, ◌+◌, ◌-◌, ◌≡◌, refl, ap, ◌∙◌, String, some, List, [], ◌∷◌, ◌++◌, =?_refl, =?_iff,
  string_eq, sum_by, Bool-cases, Option-cases, inl, inr, arith,
}
use data_factory.Base.Text.{strategy_is}
use data_factory.Base.Dict.{Dict, get, put, get-put}
use data_factory.CaseConfig.{FieldConfig}
use data_factory.Counters.{
  CounterKey, counter_eq, Counters, init_incr_counter, start_of, init_columns, init_incr_counters,
  incrby, prefetch_incr_range, numbers, prefetch_all,
}

abbrev pub total : List ℕ → ℕ
total ns = sum_by (λ n. n) ns

numbers-append : (start m n : ℕ) → numbers start m ++ numbers (start + m) n ≡ numbers start (m + n)
unfolding numbers
numbers-append start zero n =
    let e : start + 0 ≡ start = omega arith in let f : 0 + n ≡ n = omega arith in rw (e, f)
numbers-append start (suc m) n =
    let e : start + suc m ≡ start + 1 + m = omega arith in
    let f : suc m + n ≡ suc (m + n) = omega arith in
    rw (e, f) (ap (λ (l : List ℕ). start ∷ l) (numbers-append (start + 1) m n))

-- Batches that share a counter that is there get consecutive numbers from its value on, none twice and none left
-- out, in whatever order and sizes they come; the counter ends behind the last.
pub prefetch_all-numbers :
    (k : CounterKey) (ns : List ℕ) (c : Counters) (start : ℕ)
    → get k c ≡ some start
    → ((prefetch_all k ns c).0 ≡ numbers start (total ns))
      × (get k (prefetch_all k ns c).1 ≡ some (start + total ns))
unfolding prefetch_all prefetch_incr_range incrby
prefetch_all-numbers k [] c start h =
    let e : start + 0 ≡ start = omega arith in (unfold numbers in refl, rw e h)
prefetch_all-numbers k (n ∷ ns) c start h =
    let now : get k (put k (start + n) c) ≡ some (start + n) =
      get-put k k (start + n) c ∙ (rw (=?_refl k)) in
    let (rest, after) = prefetch_all-numbers k ns (put k (start + n) c) (start + n) now in
    let back : start + n - n ≡ start = omega arith in
    let sum : start + n + total ns ≡ start + (n + total ns) = omega arith in
    rw (h, back)
      (ap (λ l. numbers start n ++ l) rest ∙ numbers-append start n (total ns), after ∙ ap some sum)

init_columns-kept :
    (k : CounterKey) (n : ℕ) (table : String) (fs : List FieldConfig) (c : Counters)
    → get k c ≡ some n
    → get k (init_columns table fs c) ≡ some n
unfolding init_columns init_incr_counter
init_columns-kept k n table [] c h = h
init_columns-kept k n table (f ∷ fs) c h =
    elim (Bool-cases (strategy_is "INCR_FROM" "" f.strategy)) [
      | inr miss ↦ rw miss (init_columns-kept k n table fs c h)
      | inl hit ↦
          let j : CounterKey = record { table = table; column = f.column_name } in
          rw hit
            (init_columns-kept k n table fs _ (keeps j (start_of (get "start" f.strategy_params))))
    ]
  where
    keeps : (j : CounterKey) (start : ℕ) → get k (init_incr_counter j start c) ≡ some n
    keeps j start = elim (Option-cases (get j c)) [
      | inr (m, e) ↦ rw (e, init_incr_counter) h
      | inl e ↦ rw (e, init_incr_counter) (ground (arith, get-put j k start c, =?_iff j k))
    ]

-- A retry goes on from a counter that is there: the initialisation keeps its value.
pub init_incr_counters-kept :
    (k : CounterKey) (n : ℕ) (configs : Dict String (List FieldConfig)) (c : Counters)
    → get k c ≡ some n
    → get k (init_incr_counters configs c) ≡ some n
unfolding init_incr_counters
init_incr_counters-kept k n [] c h = h
init_incr_counters-kept k n ((table, fs) ∷ rest) c h =
    init_incr_counters-kept k n rest (init_columns table fs c) (init_columns-kept k n table fs c h)
