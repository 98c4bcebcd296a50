-- ===== src/Executor/Rollback/Keys.antt =====
-- `_capture_mysql_rollback`: which keys a payload holds.
use data_factory.Base.{
  ℕ, ◌+◌, ◌-◌, ◌<◌, ◌≡◌, refl, sym, true, false, Option, none, some, List, [], ◌∷◌, map, length,
  All, Bool-cases, Option-cases, inl, inr, arith,
}
use mathlib.Core.Option.{some-injective}
use data_factory.Base.Text.{strategy_is}
use data_factory.CaseConfig.{FieldConfig}
use data_factory.Executor.Types.{Payload}
use data_factory.Executor.World.{Row}
use data_factory.Executor.Rollback.{
  cell, is_null, keys_of, keys_of-All, range_of, values_of, capture_payload,
}

-- The numbers from `lastrowid` on, where the database numbers the rows, or the rows' own keys.
pub data Captured (pk : FieldConfig) (rows : List Row) (id : Option ℕ) (p : Payload) : Type 0 where
  numbered :
      (start : ℕ)
      → strategy_is "SKIP" "" pk.strategy ≡ true
      → id ≡ some start
      → 0 < length rows
      → p ≡ Payload.range pk.column_name start (start + length rows - 1)
      → Captured pk rows id p
  given :
      strategy_is "SKIP" "" pk.strategy ≡ false
      → p ≡ Payload.values pk.column_name (map (cell pk.column_name) rows)
      → All (λ v. is_null v ≡ false) (map (cell pk.column_name) rows)
      → Captured pk rows id p

range_of-Captured :
    (pk : FieldConfig) (rows : List Row) (id : Option ℕ) (p : Payload)
    → strategy_is "SKIP" "" pk.strategy ≡ true
    → range_of pk.column_name id rows ≡ some p
    → Captured pk rows id p
unfolding range_of
range_of-Captured pk rows none p e h = absurd (cc h)
range_of-Captured pk [] (some start) p e h = absurd (cc h)
range_of-Captured pk (row ∷ rows) (some start) p e h =
    numbered start e refl (omega arith) (sym (some-injective _ _ h))

values_of-Captured :
    (pk : FieldConfig) (rows : List Row) (id : Option ℕ) (p : Payload)
    → strategy_is "SKIP" "" pk.strategy ≡ false
    → values_of pk.column_name rows ≡ some p
    → Captured pk rows id p
unfolding values_of
values_of-Captured pk rows id p e h =
    elim (Option-cases (keys_of (map (cell pk.column_name) rows))) [
      | inl f ↦ absurd (cc (rw (f, values_of) at h))
      | inr (ws, f) ↦
          let (pos, eq, nonnull) = keys_of-All (map (cell pk.column_name) rows) ws f in
          given e (sym (some-injective _ _ (rw (f, eq, values_of) at h))) nonnull
    ]

pub capture_payload-Captured :
    (pk : FieldConfig) (rows : List Row) (id : Option ℕ) (p : Payload)
    → capture_payload pk rows id ≡ some p
    → Captured pk rows id p
unfolding capture_payload
capture_payload-Captured pk rows id p h = elim (Bool-cases (strategy_is "SKIP" "" pk.strategy)) [
  | inl skip ↦ range_of-Captured pk rows id p skip (rw skip at h)
  | inr own ↦ values_of-Captured pk rows id p own (rw own at h)
]
