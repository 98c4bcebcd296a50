-- ===== src/TaskService/RollbackTask/Databases.antt =====
-- The databases that a rollback works on, and what `_rollback_mysql_log` takes out of a table.
use data_factory.Base.{
  ℕ, ◌+◌, ◌≡◌, refl, ap, sym, ◌∙◌, String, Bool, true, false, not, List, [], ◌∷◌, ◌++◌,
  if◌then◌else◌, leb, ◌==◌, string_eq, length, keep, any, All, Bool-cases, inl, inr, arith,
}
use data_factory.Base.Text.{codes}
use data_factory.Base.Result.{ok}
use data_factory.Base.Slices.{slices, flatten, flatten-slices}
use data_factory.Value.{Value, int}
use data_factory.Executor.Types.{Payload}
use data_factory.Executor.World.{Row, other, Action, raise, ◌>>=◌, >>=-runs}
use data_factory.Executor.Insert.{safe_ident, is_ident}
use data_factory.Executor.Rollback.{cell, is_null}
use data_factory.TaskService.RollbackTask.{
  Stores, delete_chunk, lift, delete_values, rollback_mysql_log,
}

-- `v BETWEEN start AND end`, of whole numbers.
abbrev pub in_range : ℕ → ℕ → Value → Bool
in_range start end (int m) = if leb start m then leb m end else false
in_range start end _ = false

-- What the databases do: `matches` is their equality, on which a key finds itself; a DELETE takes the
-- rows with its keys out of the table, leaves the others in their order, and counts what it took.
pub record Databases {W : Type 0} (s : Stores W) : Type 0 where
  pub rows : W → ℕ → String → List Row
  pub matches : Value → Value → Bool
  pub matches_refl : (v : Value) → is_null v ≡ false → matches v v ≡ true
  pub matches_int : (a b : ℕ) → matches (int a) (int b) ≡ (a == b)
  pub connected : (ds : ℕ) (w : W) (d : ℕ) (t : String) → rows (s.connect ds w).1 d t ≡ rows w d t
  pub deleted_between :
      (ds : ℕ) (table pk : String) (start end n : ℕ) (w : W)
      → (s.delete_between ds table pk start end w).0 ≡ ok n
      → (rows (s.delete_between ds table pk start end w).1 ds table
          ≡ keep (λ r. not (in_range start end (cell pk r))) (rows w ds table))
        × (n + length (rows (s.delete_between ds table pk start end w).1 ds table)
            ≡ length (rows w ds table))
  pub deleted_in :
      (ds : ℕ) (table pk : String) (ks : List Value) (n : ℕ) (w : W)
      → (s.delete_in ds table pk ks w).0 ≡ ok n
      → (rows (s.delete_in ds table pk ks w).1 ds table
          ≡ keep (λ r. not (any (matches (cell pk r)) ks)) (rows w ds table))
        × (n + length (rows (s.delete_in ds table pk ks w).1 ds table) ≡ length (rows w ds table))

keep_all : (p : Row → Bool) (rows : List Row) → All (λ r. p r ≡ true) rows → keep p rows ≡ rows
keep_all p [] h = refl
keep_all p (r ∷ rows) (e, h) = rw (e, keep_all p rows h) refl

pub keep_none :
    (p : Row → Bool) (before rows : List Row)
    → All (λ r. p r ≡ true) before
    → All (λ r. p r ≡ false) rows
    → keep p (before ++ rows) ≡ before
keep_none p [] [] g h = refl
keep_none p [] (r ∷ rows) g (e, h) = rw (e, keep_none p [] rows g h) refl
keep_none p (b ∷ before) rows (e, g) h = rw (e, keep_none p before rows g h) refl

keep-keep :
    (p q : Row → Bool) (rows : List Row)
    → keep p (keep q rows) ≡ keep (λ r. if q r then p r else false) rows
keep-keep p q [] = refl
keep-keep p q (r ∷ rows) = elim (Bool-cases (q r)) [
  | inl hit ↦ rw (hit, keep-keep p q rows) refl
  | inr miss ↦ rw (miss, keep-keep p q rows) refl
]

pub any-append :
    (f : Value → Bool) (xs ys : List Value)
    → any f (xs ++ ys) ≡ (if any f xs then true else any f ys)
any-append f [] ys = refl
any-append f (x ∷ xs) ys = ground (arith, any-append f xs ys)

keep-ext :
    (p q : Row → Bool) (rows : List Row) → ((r : Row) → p r ≡ q r) → keep p rows ≡ keep q rows
keep-ext p q [] h = refl
keep-ext p q (r ∷ rows) h = rw (h r, keep-ext p q rows h) refl

module _ {W : Type 0} (s : Stores W) (db : Databases s) where
  delete_values-rows :
      (ds : ℕ) (table pk : String) (chunks : List (List Value)) (m n : ℕ) (w : W)
      → (delete_values s ds table pk chunks m w).0 ≡ ok n
      → (db.rows (delete_values s ds table pk chunks m w).1 ds table
          ≡ keep (λ r. not (any (db.matches (cell pk r)) (flatten chunks))) (db.rows w ds table))
        × (n + length (db.rows (delete_values s ds table pk chunks m w).1 ds table)
            ≡ m + length (db.rows w ds table))
  unfolding delete_values
  delete_values-rows ds table pk [] m n w h =
      let same : m ≡ n = cc in
      (
        sym (keep_all (λ r. true) (db.rows w ds table) (all_true (db.rows w ds table))),
        omega (arith, same),
      )
    where
      all_true : (rows : List Row) → All (λ (r : Row). true ≡ true) rows
      all_true [] = tt
      all_true (r ∷ rows) = (refl, all_true rows)
  delete_values-rows ds table pk (chunk ∷ rest) m n w h =
      let (k, e, f) = >>=-runs (s.delete_in ds table pk chunk) _ w h in
      let w' = (s.delete_in ds table pk chunk w).1 in
      let (first, counted) = db.deleted_in ds table pk chunk k w e in
      let (more, more_counted) = delete_values-rows ds table pk rest (m + k) n w' (rw f at h) in
      (
        rw f (
            more
            ∙ ap (keep (λ r. not (any (db.matches (cell pk r)) (flatten rest)))) first
            ∙ keep-keep (others (flatten rest)) (others chunk) (db.rows w ds table)
            ∙ keep-ext (λ r. if others chunk r then others (flatten rest) r else false)
                (others (flatten (chunk ∷ rest))) (db.rows w ds table)
                (λ r. ground (arith, any-append (db.matches (cell pk r)) chunk (flatten rest)))),
        rw f (omega (arith, more_counted, counted)),
      )
    where
      others : List Value → Row → Bool
      others ks r = not (any (db.matches (cell pk r)) ks)

  -- The rows that the statement of a payload is about.
  abbrev pub takes : Payload → Row → Bool
  takes (Payload.range pk start end) r = in_range start end (cell pk r)
  takes (Payload.values pk ks) r = any (db.matches (cell pk r)) ks
  takes (Payload.redis_keys ks) r = false

  named :
      (name : String) (f : String → Action W ℕ) (n : ℕ) (w : W)
      → ((lift s (safe_ident name) >>= f) w).0 ≡ ok n
      → (lift s (safe_ident name) >>= f) w ≡ f name w
  unfolding lift safe_ident
  named name f n w h = elim (Bool-cases (is_ident (codes name))) [
    | inl good ↦ rw good refl
    | inr bad ↦ absurd (cc (rw bad at h))
  ]

  abbrev opened : ℕ → String → String → (String → String → Action W ℕ) → Action W ℕ
  opened ds name pk f = do
    _ ← s.connect ds
    table ← lift s (safe_ident name)
    column ← lift s (safe_ident pk)
    f table column

  opened-runs :
      (ds : ℕ) (name pk : String) (f : String → String → Action W ℕ) (n : ℕ) (w : W)
      → (opened ds name pk f w).0 ≡ ok n
      → opened ds name pk f w ≡ f name pk (s.connect ds w).1
  opened-runs ds name pk f n w h =
      let w' = (s.connect ds w).1 in
      let (_, e, first) = >>=-runs (s.connect ds) _ w h in
      let second = named name _ n w' (rw first at h) in
      let third = named pk (f name) n w' (rw (first, second) at h) in first ∙ second ∙ third

  -- What the deletion of a payload leaves and counts.
  pub rollback_mysql_log-rows :
      (ds : ℕ) (table : String) (p : Payload) (n : ℕ) (w : W)
      → (rollback_mysql_log s ds table p w).0 ≡ ok n
      → (db.rows (rollback_mysql_log s ds table p w).1 ds table
          ≡ keep (λ r. not (takes p r)) (db.rows w ds table))
        × (n + length (db.rows (rollback_mysql_log s ds table p w).1 ds table)
            ≡ length (db.rows w ds table))
  unfolding rollback_mysql_log
  rollback_mysql_log-rows ds table (Payload.range pk start end) n w h =
      let runs = opened-runs ds table pk (λ t c. s.delete_between ds t c start end) n w h in
      let w' = (s.connect ds w).1 in
      let (left, counted) = db.deleted_between ds table pk start end n w' (rw runs at h) in
      rw (runs, ← db.connected ds w ds table) (left, counted)
  rollback_mysql_log-rows ds table (Payload.values pk ks) n w h =
      let runs =
        opened-runs ds table pk (λ t c. delete_values s ds t c (slices delete_chunk ks) 0) n w h in
      let w' = (s.connect ds w).1 in
      let (left, counted) =
        delete_values-rows ds table pk (slices delete_chunk ks) 0 n w' (rw runs at h) in
      let whole = flatten-slices delete_chunk ks in
      rw (runs, ← db.connected ds w ds table) (rw whole at left, omega (arith, counted))
  rollback_mysql_log-rows ds table (Payload.redis_keys ks) n w h =
      let w' = (s.connect ds w).1 in
      let (_, e, first) = >>=-runs (s.connect ds) _ w h in
      let second = named table (λ t. raise (other "'pk'")) n w' (rw first at h) in
      absurd (cc (rw (first, second) at h))
