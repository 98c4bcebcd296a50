-- ===== src/Executor/Batch/Tables.antt =====
-- Which results a batch reports: one for each table, and none that succeeded after a failed main table.
use data_factory.Base.{
  ℕ, ◌*◌, String, ◌≡◌, refl, ap, sym, ◌∙◌, true, false, not, Option, none, some, List, [], ◌∷◌,
  ◌++◌, map, append_assoc, append-nil, if◌then◌else◌, ◌=?◌, =?_iff, string_eq, length, length-map,
  sum_by, All, Bool-cases, inl, inr, arith, is_empty,
}
use mathlib.Core.Path.{subst}
use data_factory.Base.Text.{cut}
use data_factory.Base.Dict.{Dict}
use data_factory.Base.Result.{Result, ok, err}
use data_factory.Value.{Value}
use data_factory.Executor.Types.{TableResult, BatchResult}
use data_factory.Executor.World.{Row, Fault, value_error, other, Context, Backend, Action, ◌>>=◌}
use data_factory.Executor.Insert.{insert_with_retry}
use data_factory.Executor.Insert.Retry.{insert_with_retry-Reports}
use data_factory.Executor.Batch.{
  Partial, failed_table, ok_result, skipped, inject, generate_for, add_failed, add_inserted,
  after_insert, after_generate, run_tables, syncs_for, insert_tables_of, execute_batch,
}

-- After a failed result of the main table all results are failures.
abbrev pub StopsAfter : String → List TableResult → Type 0
StopsAfter main [] = Unit
StopsAfter main (r ∷ rs) =
    (r.table ≡ main → ok_result r ≡ false → All (λ x. ok_result x ≡ false) rs) × StopsAfter main rs

-- The results of the tables `ts`: one for each in turn, of `size` rows.
pub record Covered (main : String) (size : ℕ) (ts : List String) (rs : List TableResult)
    : Type 0 where
  pub names : map (λ r. r.table) rs ≡ ts
  pub sizes : All (λ r. r.size ≡ size) rs
  pub stops : StopsAfter main rs

-- `q` adds such results to `p`.
record Adds (main : String) (size : ℕ) (ts : List String) (p q : Partial) : Type 0 where
  results : List TableResult
  added : q.tables ≡ p.tables ++ results
  covered : Covered main size ts results

>>=-ok :
    {W A B : Type 0} (m : Action W A) (f : A → Action W B) (w : W) {b : B}
    → ((m >>= f) w).0 ≡ ok b
    → (a : A) × ((m w).0 ≡ ok a) × ((f a (m w).1).0 ≡ ok b)
>>=-ok {A = A} m f w {b} h = go (m w).0 refl
  where
    go : (r : Result Fault A) → (m w).0 ≡ r → (a : A) × ((m w).0 ≡ ok a) × ((f a (m w).1).0 ≡ ok b)
    go (ok a) e = (a, e, rw e at h)
    go (err x) e = absurd (cc (rw e at h))

ok-injective : {A : Type 0} {a b : A} → ◌≡◌ {A = Result Fault A} (ok a) (ok b) → a ≡ b
ok-injective h = cc

skipped_fail :
    (size : ℕ) (ts : List String) → All (λ x. ok_result x ≡ false) (map (skipped size) ts)
unfolding ok_result
skipped_fail size [] = tt
skipped_fail size (t ∷ ts) = (refl, skipped_fail size ts)

skipped-Covered :
    (main : String) (size : ℕ) (ts : List String) → Covered main size ts (map (skipped size) ts)
skipped-Covered main size [] = record { names = refl; sizes = tt; stops = tt }
skipped-Covered main size (t ∷ ts) =
    let h = skipped-Covered main size ts in
    record {
      names = ap (λ (l : List String). t ∷ l) h.names;
      sizes = (refl, h.sizes);
      stops = (λ _ _. skipped_fail size ts, h.stops);
    }

Covered-cons :
    (main : String) (size : ℕ) (t : String) (ts : List String) (r : TableResult)
    {rs : List TableResult}
    → r.table ≡ t
    → r.size ≡ size
    → (r.table ≡ main → ok_result r ≡ false → All (λ x. ok_result x ≡ false) rs)
    → Covered main size ts rs
    → Covered main size (t ∷ ts) (r ∷ rs)
Covered-cons main size t ts r same e stop h = record {
  names = cc (same, h.names);
  sizes = (e, h.sizes);
  stops = (stop, h.stops);
}

module _ {W : Type 0} (b : Backend W) (ctx : Context) (size : ℕ) where
  abbrev Continues : (Partial → Action W Partial) → List String → Type 0
  Continues go rest =
      (p q : Partial) (w : W) → (go p w).0 ≡ ok q → Adds ctx.main_table size rest p q

  after_insert-Adds :
      (go : Partial → Action W Partial) (rest : List String)
      → Continues go rest
      → (p p' q : Partial) (table : String) (r : TableResult) (w : W) → r.table ≡ table
      → p'.tables ≡ p.tables ++ r ∷ []
      → r.size ≡ size
      → (after_insert b ctx go size table rest p' (ok_result r) w).0 ≡ ok q
      → Adds ctx.main_table size (table ∷ rest) p q
  unfolding after_insert add_failed
  after_insert-Adds go rest next p p' q table r w named e n h =
      elim (Bool-cases (if table =? ctx.main_table then not (ok_result r) else false)) [
        | inl stop ↦
            let same = ok-injective (rw (stop, after_insert) at h) in
            record {
              results = r ∷ map (skipped size) rest;
              added =
                  ap (λ (x : Partial). x.tables) (sym same)
                  ∙ ap (λ l. l ++ map (skipped size) rest) e
                  ∙ append_assoc p.tables (r ∷ []) (map (skipped size) rest);
              covered =
                  Covered-cons ctx.main_table size table rest r named n
                    (λ _ _. skipped_fail size rest) (skipped-Covered ctx.main_table size rest);
            }
        | inr on ↦
            let more = next p' q w (rw (on, after_insert) at h) in
            record {
              results = r ∷ more.results;
              added =
                  more.added
                  ∙ ap (λ l. l ++ more.results) e
                  ∙ append_assoc p.tables (r ∷ []) more.results;
              covered =
                  Covered-cons ctx.main_table size table rest r named n
                    (λ is fails. absurd (cc (goes_on table r (sym named ∙ is) fails, on)))
                    more.covered;
            }
      ]
    where
      goes_on :
          (table : String) (r : TableResult)
          → table ≡ ctx.main_table
          → ok_result r ≡ false
          → (if table =? ctx.main_table then not (ok_result r) else false) ≡ true
      goes_on table r is fails = rw ((=?_iff table ctx.main_table).1 is, fails)

-- The generator's contract: it makes as many rows as were asked for, or it raises.
abbrev pub Fills : {W : Type 0} → Backend W → Type 0
Fills {W} b =
    (table : String) (count : ℕ) (injected : Dict String (List Value))
    (overrides : Dict String Value) (w : W) (rows : List Row)
    → (b.generate table count injected overrides w).0 ≡ ok rows
    → length rows ≡ count

module _ {W : Type 0} (b : Backend W) (fills : Fills b) (ctx : Context) (drive : Option Value)
    (size : ℕ) where
  after_generate-Adds :
      (go : Partial → Action W Partial) (table : String) (rest : List String)
      → Continues b ctx size go rest
      → (p q : Partial) (made : Result Fault (List Row)) (w : W)
      → ((rows : List Row) → made ≡ ok rows → length rows ≡ size)
      → (after_generate b ctx go size table rest p made w).0 ≡ ok q
      → Adds ctx.main_table size (table ∷ rest) p q
  unfolding after_generate add_inserted add_failed ok_result
  after_generate-Adds go table rest next p q (err (other x)) w n h = absurd (cc h)
  after_generate-Adds go table rest next p q (err (value_error x)) w n h =
      after_insert-Adds b ctx size go rest next p
        (add_failed b ctx p (failed_table size (some (cut 500 x)) table ∷ [])) q table
        (failed_table size (some (cut 500 x)) table) w refl refl refl h
  after_generate-Adds go table rest next p q (ok rows) w n h =
      let (a, w') = insert_with_retry b ctx.max_retry table rows w in
      let reports = insert_with_retry-Reports b ctx.max_retry table rows w in
      after_insert-Adds b ctx size go rest next p (add_inserted b ctx p table rows a) q table a.0 w'
        reports.same_table refl (reports.same_size ∙ n rows refl) h

  run_tables-Adds : (ts : List String) → Continues b ctx size (run_tables b ctx drive size ts) ts
  unfolding run_tables generate_for
  run_tables-Adds [] p q w h = record {
    results = [];
    added = ap (λ (x : Partial). x.tables) (sym (ok-injective h)) ∙ sym (append-nil p.tables);
    covered = record { names = refl; sizes = tt; stops = tt };
  }
  run_tables-Adds (table ∷ rest) p q w h =
      let (injected, e, f) =
        >>=-ok (inject b ctx drive size p.generated table ctx.associations []) _ w h in
      let w' = (inject b ctx drive size p.generated table ctx.associations [] w).1 in
      after_generate-Adds (run_tables b ctx drive size rest) table rest (run_tables-Adds rest) p q
        (generate_for b ctx drive size table injected w').0
        (generate_for b ctx drive size table injected w').1
        (λ rows x. fills table size injected _ w' rows x) f

sizes-sum :
    (size : ℕ) (rs : List TableResult)
    → All (λ r. r.size ≡ size) rs
    → sum_by (λ r. r.size) rs ≡ size * length rs
sizes-sum size [] h = omega arith
sizes-sum size (r ∷ rs) (e, h) = omega (arith, sizes-sum size rs h)

syncs_for_none :
    {W : Type 0} (b : Backend W) (ctx : Context) (batch_no size : ℕ) (only : Option (List String))
    (ts : List String) (p : Partial) (w : W)
    → ctx.redis_syncs ≡ []
    → (syncs_for b ctx batch_no size only ts p w).0 ≡ p
unfolding syncs_for
syncs_for_none b ctx batch_no size (some tables) ts p w e = refl
syncs_for_none b ctx batch_no size none ts p w e =
    let empty : is_empty ctx.redis_syncs ≡ true = ap is_empty e in rw empty

-- A batch that returns, over a generator that makes the rows it is asked for and with no Redis
-- synchronisation, has one result of the batch's size for each table to insert, in their order, and
-- nothing succeeds after a failure of the main table.
pub execute_batch-Covered :
    {W : Type 0} (b : Backend W) (ctx : Context)
    → Fills b
    → ctx.redis_syncs ≡ []
    → (batch_no size : ℕ) (round_no : Option ℕ) (drive : Option Value) (only : Option (List String))
      (w : W) (r : BatchResult)
    → (execute_batch b ctx batch_no size round_no drive only w).0 ≡ ok r
    → Covered ctx.main_table size (insert_tables_of b ctx only) r.tables
unfolding execute_batch
execute_batch-Covered b ctx fills none_synced batch_no size round_no drive only w r h =
    let ts = insert_tables_of b ctx only in
    let (q, e, f) = >>=-ok (run_tables b ctx drive size ts empty) _ w h in
    let w' = (run_tables b ctx drive size ts empty w).1 in
    let adds = run_tables-Adds b fills ctx drive size ts empty q w e in
    let same : q.tables ≡ r.tables =
      ap (λ (x : Partial). x.tables)
        (sym (syncs_for_none b ctx batch_no size only ts q w' none_synced))
      ∙ ap (λ (x : BatchResult). x.tables) (ok-injective f) in
    subst (Covered ctx.main_table size ts) (sym adds.added ∙ same) adds.covered
  where
    empty : Partial
    empty = record { generated = []; tables = []; rollbacks = [] }

-- The rows that such a batch reports are its size times the number of tables.
pub execute_batch-rows :
    {W : Type 0} (b : Backend W) (ctx : Context)
    → Fills b
    → ctx.redis_syncs ≡ []
    → (batch_no size : ℕ) (round_no : Option ℕ) (drive : Option Value) (w : W) (r : BatchResult)
    → (execute_batch b ctx batch_no size round_no drive none w).0 ≡ ok r
    → sum_by (λ x. x.size) r.tables ≡ length ctx.insert_order * size
unfolding insert_tables_of
execute_batch-rows b ctx fills none_synced batch_no size round_no drive w r h =
    let c = execute_batch-Covered b ctx fills none_synced batch_no size round_no drive none w r h in
    let n = ap length c.names in
    omega (
      arith,
      sizes-sum size r.tables c.sizes,
      length-map (λ (x : TableResult). x.table) r.tables,
      ap (λ (t : ℕ). size * t) n,
      ap (λ (t : ℕ). size * t) (length-map (λ (x : TableResult). x.table) r.tables),
    )
