-- ===== src/Generator/Batch.antt =====
-- backend/app/engine/executor.py, step 3 of `_execute_batch`: the rows of a batch by `generate_rows`.
use data_factory.Base.{
  ℕ, String, ◌≡◌, ◌≢◌, ap, sym, ◌∙◌, Bool, true, false, none, some, List, [], ◌∷◌, if◌then◌else◌,
  string_eq, length, All, Bool-cases, Option-cases, inl, inr,
}
use data_factory.Base.Count.{contains}
use data_factory.Base.Dict.{Dict, get}
use data_factory.Base.Result.{Result, ok, err}
use data_factory.Value.{Value}
use data_factory.CaseConfig.{FieldConfig}
use data_factory.Executor.World.{Row, Fault, other, Backend}
use data_factory.Executor.Batch.Tables.{Fills}
use data_factory.Generator.Rows.{Strategies, Source, is_skipped, generate_rows}
use data_factory.Generator.Rows.Grows.{Result-cases, ok-inj}
use data_factory.Generator.Rows.Filled.{generate_rows-Generated}

-- `generate_rows(..., field_configs=ctx.table_field_configs[table], ...)`: the rows of a table of the
-- task.
unfoldable pub batch_rows :
    {W : Type 0}
    → Strategies W
    → Dict String (List FieldConfig)
    → String
    → ℕ
    → Dict String (List Value)
    → Dict String Value
    → Source W
    → Result Fault (List Row) × Source W
unfolding generate_rows
batch_rows s configs table count injected overrides w = elim (get table configs) [
  | none ↦ (err (other "KeyError"), w)
  | some fs ↦
      let (r, w') = generate_rows s table fs count injected overrides w in
      (elim r [ err e ↦ err e | ok p ↦ ok p.0 ], w')
]

-- A batch's calls, with the rows from `generate_rows`.
abbrev pub with_rows :
    {W : Type 0}
    → Strategies W
    → Dict String (List FieldConfig)
    → Backend (Source W)
    → Backend (Source W)
with_rows s configs b = record b { generate = batch_rows s configs }

-- Some column is not SKIP.
unfoldable pub has_column : List FieldConfig → Bool
has_column [] = false
has_column (f ∷ fs) = if is_skipped f then has_column fs else true

pub has_column-names :
    (fs : List FieldConfig) (names : List String)
    → All (λ f. is_skipped f ≡ false → contains f.column_name names ≡ true) fs
    → has_column fs ≡ true
    → names ≢ []
unfolding has_column
has_column-names [] names h e = absurd (cc e)
has_column-names (f ∷ fs) names (p, h) e = λ x. elim (Bool-cases (is_skipped f)) [
  | inl hit ↦ has_column-names fs names h (rw hit at e) x
  | inr miss ↦ absurd (cc (p miss, ap (λ l. contains f.column_name l) x))
]

-- The generator's contract that the batches rely on, for a task in which each table has a column that
-- is not SKIP: `generate_rows` makes exactly as many rows as it is asked for, or it raises.
pub batch_rows-Fills :
    {W : Type 0} (s : Strategies W) (configs : Dict String (List FieldConfig))
    (b : Backend (Source W))
    → ((table : String) (fs : List FieldConfig)
        → get table configs ≡ some fs
        → has_column fs ≡ true)
    → Fills (with_rows s configs b)
unfolding batch_rows
batch_rows-Fills s configs b columns table count injected overrides w rows h =
    elim (Option-cases (get table configs)) [
      | inl e ↦ absurd (cc (rw (e, batch_rows) at h))
      | inr (fs, e) ↦
          let r = (generate_rows s table fs count injected overrides w).0 in
          elim (Result-cases r) [
            | inr (x, f) ↦ absurd (cc (rw (e, f, batch_rows) at h))
            | inl ((made, names), f) ↦
                let made_all =
                  generate_rows-Generated s table fs count injected overrides w made names f in
                let same : made ≡ rows = ok-inj (rw (e, f, batch_rows) at h) in
                sym (ap length same)
                ∙ made_all.counted (has_column-names fs names made_all.listed (columns table fs e))
          ]
    ]
