-- ===== src/Executor/World.antt =====
-- backend/app/engine/executor.py: what a batch reads and calls, and actions that may raise.
use data_factory.Base.{ℕ, String, ◌≡◌, refl, Bool, Option, List, string_eq}
use data_factory.Base.Dict.{Dict}
use data_factory.Base.Result.{Result, ok, err}
use data_factory.Value.{Value}
use data_factory.CaseConfig.{FieldConfig, Association, SyncConfig, Driver}
use data_factory.Executor.Types.{TableResult, Rollback}

abbrev pub Row : Type 0
Row = Dict String Value

-- An exception: a `ValueError`, or any other.
pub data Fault : Type 0 where
  value_error : String → Fault
  other : String → Fault

abbrev pub fault_text : Fault → String
fault_text (value_error s) = s
fault_text (other s) = s

-- An entry of `execute_redis_syncs`'s result: the table's result and its rollback.
pub record SyncEntry : Type 0 where
  pub result : TableResult
  pub rollback : Option Rollback

-- The parsed task (`_CaseContext`), as far as a batch reads it.
pub record Context : Type 0 where
  pub main_table : String
  pub associations : List Association
  pub insert_order : List String
  pub iterate_driver : Option Driver
  pub redis_syncs : List SyncConfig
  pub capture_rollback : Bool
  pub max_retry : ℕ
  pub table_field_configs : Dict String (List FieldConfig)
  pub table_ds : Dict String ℕ
  pub datasource_id : ℕ

-- What a batch calls: the generator of rows, the databases and the Redis synchronisation. The world
-- `W` holds all that they read and change.
pub record Backend (W : Type 0) : Type 0 where
  pub generate :
      (table : String) (count : ℕ) (injected : Dict String (List Value))
      (overrides : Dict String Value)
      → W
      → Result Fault (List Row) × W
  pub execute : (table : String) (columns : List String) (rows : List Row) → W → Result Fault ℕ × W
  pub select : (table column : String) (limit : ℕ) → W → Result Fault (List Value) × W
  pub sync : (generated : Dict String (List Row)) (batch_no size : ℕ) → W → List SyncEntry × W

-- Actions that change the world and may raise.
abbrev pub Action : Type 0 → Type 0 → Type 0
Action W A = W → Result Fault A × W

abbrev pub pure : {W A : Type 0} → A → Action W A
pure a w = (ok a, w)

abbrev pub raise : {W A : Type 0} → Fault → Action W A
raise x w = (err x, w)

abbrev pub and_then : {W A B : Type 0} → Result Fault A → (A → Action W B) → Action W B
and_then (ok a) f = f a
and_then (err x) f = raise x

infixl 5 ◌>>=◌
abbrev pub ◌>>=◌ : {W A B : Type 0} → Action W A → (A → Action W B) → Action W B
◌>>=◌ m f w = let (r, w') = m w in and_then r f w'

-- An action that ends well has a first step that ends well, and goes on from there.
pub >>=-runs :
    {W A B : Type 0} (m : Action W A) (f : A → Action W B) (w : W) {b : B}
    → ((m >>= f) w).0 ≡ ok b
    → (a : A) × ((m w).0 ≡ ok a) × ((m >>= f) w ≡ f a (m w).1)
>>=-runs {A = A} m f w {b} h = go (m w).0 refl
  where
    go :
        (r : Result Fault A)
        → (m w).0 ≡ r
        → (a : A) × ((m w).0 ≡ ok a) × ((m >>= f) w ≡ f a (m w).1)
    go (ok a) e = (a, e, rw e refl)
    go (err x) e = absurd (cc (rw e at h))
