-- ===== src/TaskService/RollbackTask/Restores.antt =====
-- `_rollback_mysql_log` on what `_capture_mysql_rollback` has captured: the table is as it was.
use data_factory.Base.{
  ℕ, zero, suc, ◌+◌, ◌-◌, ◌≤◌, ◌<◌, ◌≡◌, refl, ap, ◌∙◌, String, Bool, true, false, not, Option,
  none, some, List, [], ◌∷◌, ◌++◌, append_assoc, map, if◌then◌else◌, ◌==◌, string_eq, length,
  length-append, keep, any, All, Bool-cases, Option-cases, inl, inr, arith,
}
use mathlib.Core.Option.{some-injective}
use mathlib.Core.Path.{subst}
use data_factory.Base.Text.{strategy_is}
use data_factory.Base.Result.{ok}
use data_factory.Value.{Value, int}
use data_factory.CaseConfig.{FieldConfig}
use data_factory.Executor.Types.{Payload, Rollback}
use data_factory.Executor.World.{Row, Context}
use data_factory.Executor.Rollback.{
  cell, is_null, single_key, fields_of, capture_payload, capture_mysql_rollback,
}
use data_factory.Executor.Rollback.Keys.{Captured, numbered, given, capture_payload-Captured}
use data_factory.TaskService.RollbackTask.{Stores, rollback_mysql_log}
use data_factory.TaskService.RollbackTask.Databases.{
  Databases, in_range, keep_none, any-append, takes, rollback_mysql_log-rows,
}

-- `start`, `start + 1`, …: `n` numbers.
abbrev numbered_from : ℕ → ℕ → List Value
numbered_from start zero = []
numbered_from start (suc n) = int start ∷ numbered_from (start + 1) n

-- The keys that the rows of an INSERT have in the table: the database numbers them from `lastrowid` on,
-- unless they are given.
unfoldable pub stored_keys : FieldConfig → List Row → Option ℕ → List Value
stored_keys pk rows id =
    if strategy_is "SKIP" "" pk.strategy
    then elim id [ none ↦ [] | some start ↦ numbered_from start (length rows) ]
    else map (cell pk.column_name) rows

numbers_between :
    (a e b n : ℕ) → a ≤ b → b + n ≤ e + 1 → All (λ v. in_range a e v ≡ true) (numbered_from b n)
numbers_between a e b zero h k = tt
numbers_between a e b (suc n) h k =
    (ground (arith, h, k), numbers_between a e (b + 1) n (omega (arith, h)) (omega (arith, k)))

All-map :
    (pk : String) (f : Value → Bool) (b : Bool) (rows : List Row)
    → All (λ v. f v ≡ b) (map (cell pk) rows)
    → All (λ r. f (cell pk r) ≡ b) rows
All-map pk f b [] h = tt
All-map pk f b (r ∷ rows) (e, h) = (e, All-map pk f b rows h)

module _ {W : Type 0} (s : Stores W) (db : Databases s) where
  numbered_from-found :
      (a n m : ℕ) → a ≤ m → m < a + n → any (db.matches (int m)) (numbered_from a n) ≡ true
  numbered_from-found a zero m h k = absurd (omega (arith, h, k))
  numbered_from-found a (suc n) m h k = elim (Bool-cases (m == a)) [
    | inl hit ↦ rw (db.matches_int m a, hit) refl
    | inr miss ↦
        rw (db.matches_int m a, miss)
          (numbered_from-found (a + 1) n m (ground (arith, h, miss)) (omega (arith, k)))
  ]

  -- A value that is none of the numbered ones is not between them.
  apart_between :
      (a n : ℕ) (v : Value)
      → 0 < n
      → any (db.matches v) (numbered_from a n) ≡ false
      → in_range a (a + n - 1) v ≡ false
  apart_between a n (int m) pos h = elim (Bool-cases (in_range a (a + n - 1) (int m))) [
    | inl inside ↦
        absurd
          (cc (h, numbered_from-found a n m (ground (arith, inside)) (ground (arith, inside, pos))))
    | inr outside ↦ outside
  ]
  apart_between a n _ pos h = refl

  -- Every key that is not null finds itself among the keys.
  own_keys :
      (before ks : List Value)
      → All (λ v. is_null v ≡ false) ks
      → All (λ v. any (db.matches v) (before ++ ks) ≡ true) ks
  own_keys before [] h = tt
  own_keys before (k ∷ ks) (e, h) = (
    rw (any-append (db.matches k) before (k ∷ ks)) (ground (arith, db.matches_refl k e)),
    subst (λ l. All (λ v. any (db.matches v) l ≡ true) ks) (append_assoc before (k ∷ []) ks)
        (own_keys (before ++ k ∷ []) ks h),
  )

  apart_between_all :
      (pk : String) (a n : ℕ) (before : List Row)
      → 0 < n
      → All (λ b. any (db.matches (cell pk b)) (numbered_from a n) ≡ false) before
      → All (λ b. in_range a (a + n - 1) (cell pk b) ≡ false) before
  apart_between_all pk a n [] pos h = tt
  apart_between_all pk a n (b ∷ before) pos (e, h) =
      (apart_between a n (cell pk b) pos e, apart_between_all pk a n before pos h)

  -- The payload of the rows' keys takes the rows with these keys, and no row with another.
  pub Captured-takes :
      (pk : FieldConfig) (rows : List Row) (id : Option ℕ) (p : Payload)
      → Captured pk rows id p
      → (before stored : List Row) → map (cell pk.column_name) stored ≡ stored_keys pk rows id
      → All (λ b. any (db.matches (cell pk.column_name b)) (stored_keys pk rows id) ≡ false) before
      → All (λ r. takes s db p r ≡ false) before × All (λ r. takes s db p r ≡ true) stored
  unfolding stored_keys
  Captured-takes pk rows id p (numbered start skip same pos e) before stored h apart =
      let n = length rows in
      let ks : stored_keys pk rows id ≡ numbered_from start n = rw (stored_keys, skip, same) refl in
      let inside =
        numbers_between start (start + n - 1) start n (omega arith) (omega (arith, pos)) in
      rw e (
        apart_between_all pk.column_name start n before pos (rw ks at apart),
        All-map pk.column_name (in_range start (start + n - 1)) true stored (rw (h, ks) inside),
      )
  Captured-takes pk rows id p (given own e nonnull) before stored h apart =
      let keys = map (cell pk.column_name) rows in
      let ks : stored_keys pk rows id ≡ keys = rw (stored_keys, own) refl in
      rw e (
        rw ks at apart,
        All-map pk.column_name (λ v. any (db.matches v) keys) true stored
            (rw (h, ks) (own_keys [] keys nonnull)),
      )

-- The rows of an INSERT that was captured, deleted again: the table has the rows that it had before, and
-- as many are counted as there were new ones. The new rows have the keys that the database has numbered or that the
-- INSERT gives in the key column, and no other row of the table has one of these keys.
pub rollback_mysql_log-Restores :
    {W : Type 0} (s : Stores W) (db : Databases s) (ctx : Context) (table : String)
    (rows : List Row) (id : Option ℕ) (r : Rollback) (pk : FieldConfig)
    → capture_mysql_rollback ctx table rows id ≡ some r
    → single_key (keep (λ f. f.is_primary_key) (fields_of ctx table)) ≡ some pk
    → (before stored : List Row) (w : W) (n : ℕ)
    → map (cell pk.column_name) stored ≡ stored_keys pk rows id
    → All (λ b. any (db.matches (cell pk.column_name b)) (stored_keys pk rows id) ≡ false) before
    → db.rows w r.datasource_id r.table_name ≡ before ++ stored
    → (rollback_mysql_log s r.datasource_id r.table_name r.payload w).0 ≡ ok n
    → (db.rows
          (rollback_mysql_log s r.datasource_id r.table_name r.payload w).1
          r.datasource_id
          r.table_name
        ≡ before)
      × (n ≡ length stored)
unfolding capture_mysql_rollback
rollback_mysql_log-Restores s db ctx table rows id r pk captured key before stored w n h apart held
      deleted =
    elim (Option-cases (capture_payload pk rows id)) [
      | inl f ↦ absurd (cc (rw (key, f, capture_mysql_rollback) at captured))
      | inr (p, f) ↦
          let same_payload : p ≡ r.payload =
            ap (λ (x : Rollback). x.payload)
              (some-injective _ _ (rw (key, f, capture_mysql_rollback) at captured)) in
          let (spared, taken) =
            Captured-takes s db pk rows id p (capture_payload-Captured pk rows id p f) before stored
              h apart in
          let (left, counted) =
            rollback_mysql_log-rows s db r.datasource_id r.table_name r.payload n w deleted in
          let rest : keep (λ x. not (takes s db p x)) (before ++ stored) ≡ before =
            keep_none (λ x. not (takes s db p x)) before stored (All-not _ false before spared)
              (All-not _ true stored taken) in
          let back =
            left ∙ ap (keep (λ x. not (takes s db r.payload x))) held ∙ rw (← same_payload) rest in
          (
            back,
            omega (arith, counted, ap length back, ap length held, length-append before stored),
          )
    ]
  where
    All-not :
        (f : Row → Bool) (b : Bool) (xs : List Row)
        → All (λ x. f x ≡ b) xs
        → All (λ x. not (f x) ≡ not b) xs
    All-not f b [] e = tt
    All-not f b (x ∷ xs) (e, es) = (ap not e, All-not f b xs es)
