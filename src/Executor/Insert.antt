-- ===== src/Executor/Insert.antt =====
-- backend/app/engine/executor.py: `_bulk_insert` and `_insert_with_retry`.
pub mod Retry
use data_factory.Base.{
  ℕ, zero, suc, ◌+◌, ◌-◌, ◌^◌, ◌≤◌, String, ◌≡◌, Bool, true, false, Option, none, some, List, [],
  ◌∷◌, ◌++◌, map, ◌==◌, leb, if◌then◌else◌, string_eq, length,
}
use data_factory.Base.Text.{codes, cut}
use data_factory.Base.Dict.{Dict, keys}
use data_factory.Base.Result.{Result, ok, err}
use data_factory.Executor.Types.{TableResult, BatchStatus}
use data_factory.Executor.World.{
  Row, Fault, value_error, fault_text, Backend, Action, pure, raise, ◌>>=◌,
}

unfoldable pub ident_code : ℕ → Bool
ident_code c =
    if (if leb b'A' c then leb c b'Z' else false)
    then true
    else if (if leb b'a' c then leb c b'z' else false)
    then true
    else if (if leb b'0' c then leb c b'9' else false)
    then true
    else if c == b'_'
    then true
    else c == b'$'

-- `$` at the end of the pattern also matches before a last line feed.
unfoldable pub ident_rest : List ℕ → Bool
ident_rest [] = true
ident_rest (c ∷ []) = if ident_code c then true else c == 10
ident_rest (c ∷ d ∷ cs) = let rest = ident_rest (d ∷ cs) in if ident_code c then rest else false

-- `_IDENT_RE.match(name)`, of the name's code points.
unfoldable pub is_ident : List ℕ → Bool
unfolding ident_rest ident_code
is_ident [] = false
is_ident (c ∷ cs) = let rest = ident_rest cs in if ident_code c then rest else false

-- `_safe_ident`
unfoldable pub safe_ident : String → Result Fault String
safe_ident name = if is_ident (codes name) then ok name else err (value_error name)

unfoldable pub safe_idents : List String → Result Fault (List String)
unfolding safe_ident
safe_idents [] = ok []
safe_idents (c ∷ cs) = elim (safe_ident c) [
  | err x ↦ err x
  | ok _ ↦ elim (safe_idents cs) [ err x ↦ err x | ok ds ↦ ok (c ∷ ds) ]
]

-- `int(lastrowid) if lastrowid else None`
unfoldable pub row_id : ℕ → Option ℕ
row_id zero = none
row_id (suc n) = some (suc n)

module _ {W : Type 0} (b : Backend W) where
  unfoldable pub insert_rows : String → List String → List Row → Action W (Option ℕ)
  unfolding row_id
  insert_rows table columns rows = do
    columns ← (λ w. (safe_idents columns, w))
    table ← (λ w. (safe_ident table, w))
    id ← b.execute table columns rows
    pure (row_id id)

  -- `_bulk_insert`: the columns are those of the first row.
  unfoldable pub bulk_insert : String → List Row → Action W (Option ℕ)
  unfolding insert_rows
  bulk_insert table [] = pure none
  bulk_insert table (row ∷ rows) = insert_rows table (keys row) (row ∷ rows)

  -- What the retries of one table come to: the result, `lastrowid`, and the seconds slept.
  abbrev pub Attempt : Type 0
  Attempt = TableResult × Option ℕ × List ℕ

  -- The `while` loop: `left` attempts are left, `retry_times` have failed.
  unfoldable pub insert_loop :
      (left retry_times : ℕ) (last_error : Option String) (slept : List ℕ)
      → ℕ
      → String
      → List Row
      → W
      → Attempt × W
  insert_loop zero retry_times last_error slept max_retry table rows w = (
    (
      record {
        table = table;
        status = BatchStatus.failed;
        size = length rows;
        retry_times = max_retry;
        error = last_error;
      },
      none,
      slept,
    ),
    w,
  )
  insert_loop (suc left) retry_times last_error slept max_retry table rows w =
      let (r, w') = bulk_insert table rows w in
      elim r [
        | ok id ↦ (
          (
            record {
              table = table;
              status = BatchStatus.success;
              size = length rows;
              retry_times = retry_times;
              error = none;
            },
            id,
            slept,
          ),
          w',
        )
        | err x ↦
            insert_loop left (suc retry_times) (some (cut 500 (fault_text x)))
              (if left == 0 then slept else slept ++ (2 ^ retry_times) ∷ []) max_retry table rows w'
      ]

  -- `_insert_with_retry`: the attempts are counted from 0 to `max_retry`.
  unfoldable pub insert_with_retry : ℕ → String → List Row → W → Attempt × W
  unfolding insert_loop
  insert_with_retry max_retry table rows w =
      insert_loop (suc max_retry) 0 none [] max_retry table rows w
