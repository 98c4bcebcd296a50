-- ===== src/RedisGen/Templates.antt =====
-- backend/app/engine/redis_gen.py: the templates of keys and values. Spaces and digits are those of ASCII.
pub mod Stable
mod Samples
use data_factory.Base.{
  ℕ, zero, suc, ◌+◌, ◌-◌, ◌*◌, ◌/◌, ◌%◌, String, Bool, true, false, not, Option, none, some, List,
  [], ◌∷◌, ◌++◌, if◌then◌else◌, ◌==◌, ◌=?◌, string_eq, leb, ltb, all, is_empty,
}
use Prim.Native.Char.{Char, code}
use data_factory.Base.Text.{codes, join, cut}
use data_factory.Base.Count.{contains}
use data_factory.Base.Dict.{Dict, get}
use data_factory.Base.Result.{Result, ok, err}

-- A template as `_TOKEN_RE` finds its tokens.
pub data Piece : Type 0 where
  literal : Char → Piece
  token : String → Piece

-- The errors of a template.
pub data TemplateError : Type 0 where
  no_incr_base bad_argument : TemplateError
  unknown_token : String → TemplateError
  not_stable : String → TemplateError

abbrev pub one : Char → String
one c = String.◌∷◌ c String.[]

pub literals : String → List Piece
literals String.[] = []
literals (String.◌∷◌ c s) = literal c ∷ literals s

-- `_TOKEN_RE`: outside of braces, and behind `brace` with the text `seen`.
mutual
  pub scan : String → List Piece
  scan String.[] = []
  scan (String.◌∷◌ c s) =
      let inside = scan_in c String.[] s in
      let outside = scan s in if code c == 123 then inside else literal c ∷ outside

  pub scan_in : Char → String → String → List Piece
  scan_in brace seen String.[] = literal brace ∷ literals seen
  scan_in brace seen (String.◌∷◌ c s) =
      let again = scan_in c String.[] s in
      let outside = scan s in
      let inside = scan_in brace (join seen (one c)) s in
      if code c == 123
      then literal brace ∷ literals seen ++ again
      else if code c == 125
      then (if seen =? "" then literal brace ∷ literal c ∷ outside else token seen ∷ outside)
      else inside

pub tokens : List Piece → List String
tokens [] = []
tokens (literal c ∷ ps) = tokens ps
tokens (token t ∷ ps) = t ∷ tokens ps

pub is_space : ℕ → Bool
is_space c = if c == 32 then true else if leb 9 c then leb c 13 else false

lstrip : String → String
unfolding is_space
lstrip String.[] = String.[]
lstrip (String.◌∷◌ c s) = let rest = lstrip s in if is_space (code c) then rest else String.◌∷◌ c s

rstrip : String → String
unfolding is_space
rstrip String.[] = String.[]
rstrip (String.◌∷◌ c s) =
    let rest = rstrip s in
    if is_space (code c) then (if rest =? "" then "" else String.◌∷◌ c rest) else String.◌∷◌ c rest

-- `token.strip()`
pub strip : String → String
unfolding lstrip rstrip
strip s = rstrip (lstrip s)

-- `s.startswith(prefix)`
starts : List ℕ → List ℕ → Bool
starts [] cs = true
starts (p ∷ ps) [] = false
starts (p ∷ ps) (c ∷ cs) = let rest = starts ps cs in if p == c then rest else false

pub starts_with : String → String → Bool
unfolding starts
starts_with prefix s = starts (codes prefix) (codes s)

-- `s.partition(":")[2]`
pub argument : String → String
argument String.[] = String.[]
argument (String.◌∷◌ c s) = let rest = argument s in if code c == 58 then s else rest

digits_value : ℕ → List ℕ → Option ℕ
digits_value n [] = some n
digits_value n (c ∷ cs) =
    let rest = digits_value (n * 10 + (c - 48)) cs in
    if (if leb 48 c then leb c 57 else false) then rest else none

-- `int(arg)`, of a text of digits.
pub parse_int : String → Option ℕ
unfolding digits_value
parse_int String.[] = none
parse_int (String.◌∷◌ c s) = digits_value 0 (codes (String.◌∷◌ c s))

-- What a template is rendered with. `show` is `str()` of a number; the clock and the random source are given for
-- each place in the template.
pub record TemplateEnv : Type 0 where
  pub row_fields : Dict String String
  pub row_index : ℕ
  pub incr_base : Option ℕ
  pub task_no : Option String
  pub show : ℕ → String
  pub ts : ℕ → String
  pub ts_ms : ℕ → String
  pub uuid : ℕ → String
  pub digits : (place count : ℕ) → String

render_uuid : TemplateEnv → ℕ → String → Result TemplateError String
render_uuid e place String.[] = ok (e.uuid place)
render_uuid e place (String.◌∷◌ c s) = elim (parse_int (String.◌∷◌ c s)) [
  | none ↦ err bad_argument
  | some n ↦ ok (cut n (e.uuid place))
]

render_rand : TemplateEnv → ℕ → String → Result TemplateError String
unfolding parse_int
render_rand e place arg = elim (parse_int arg) [
  | none ↦ err bad_argument
  | some n ↦
      if (if leb 1 n then leb n 18 else false) then ok (e.digits place n) else err bad_argument
]

-- `_sub`
pub render_token : TemplateEnv → ℕ → String → Result TemplateError String
unfolding starts_with argument render_uuid render_rand
render_token e place t =
    if starts_with "incr" t
    then elim e.incr_base [ none ↦ err no_incr_base | some n ↦ ok (e.show (n + e.row_index)) ]
    else if t =? "i"
    then ok (e.show e.row_index)
    else if t =? "task_no"
    then elim e.task_no [ none ↦ ok "" | some s ↦ ok s ]
    else if t =? "ts"
    then ok (e.ts place)
    else if t =? "ts_ms"
    then ok (e.ts_ms place)
    else if starts_with "uuid" t
    then render_uuid e place (argument t)
    else if starts_with "rand:" t
    then render_rand e place (argument t)
    else elim (get t e.row_fields) [ none ↦ err (unknown_token t) | some v ↦ ok v ]

pub render_pieces : TemplateEnv → ℕ → List Piece → Result TemplateError String
unfolding strip render_token
render_pieces e place [] = ok ""
render_pieces e place (literal c ∷ ps) = elim (render_pieces e (place + 1) ps) [
  | err x ↦ err x
  | ok rest ↦ ok (String.◌∷◌ c rest)
]
render_pieces e place (token t ∷ ps) = elim (render_token e place (strip t)) [
  | err x ↦ err x
  | ok s ↦ elim (render_pieces e (place + 1) ps) [ err x ↦ err x | ok rest ↦ ok (join s rest) ]
]

-- `render_template`
pub render_template : TemplateEnv → String → Result TemplateError String
unfolding scan render_pieces
render_template e template = render_pieces e 0 (scan template)

pub is_builtin : String → Bool
unfolding starts_with
is_builtin t =
    if contains t ("i" ∷ "task_no" ∷ "ts" ∷ "ts_ms" ∷ [])
    then true
    else if starts_with "incr" t
    then true
    else if starts_with "uuid" t
    then true
    else starts_with "rand:" t

validate_tokens : List String → Bool → List String → Result TemplateError (Unit {0})
unfolding is_builtin strip
validate_tokens allowed_fields allow_row_fields [] = ok tt
validate_tokens allowed_fields allow_row_fields (t ∷ ts) =
    let rest = validate_tokens allowed_fields allow_row_fields ts in
    if (if is_builtin (strip t)
      then true
      else if allow_row_fields
      then contains (strip t) allowed_fields
      else false)
    then rest
    else err (unknown_token (strip t))

-- `validate_template`
pub validate_template : String → List String → Bool → Result TemplateError (Unit {0})
unfolding scan tokens validate_tokens
validate_template template allowed_fields allow_row_fields =
    validate_tokens allowed_fields allow_row_fields (tokens (scan template))

pub single_tokens : List String → Result TemplateError (Unit {0})
unfolding strip
single_tokens [] = ok tt
single_tokens (t ∷ ts) =
    let rest = single_tokens ts in if strip t =? "task_no" then rest else err (not_stable (strip t))

-- `validate_single_key_template`
pub validate_single_key_template : String → Result TemplateError (Unit {0})
unfolding scan tokens single_tokens
validate_single_key_template template = single_tokens (tokens (scan template))
