-- ===== src/RedisGen/Templates/Stable.antt =====
-- The key of a case that writes all its rows to one key.
use data_factory.Base.{
  ℕ, ◌+◌, ◌≡◌, refl, ap, ◌∙◌, String, Option, none, some, List, [], ◌∷◌, ◌=?◌, =?_iff, string_eq,
  Bool-cases, Option-cases, inl, inr,
}
use data_factory.Base.Text.{join}
use data_factory.Base.Result.{ok}
use data_factory.RedisGen.Templates.{
  Piece, literal, token, scan, tokens, starts, starts_with, strip, TemplateEnv, render_token,
  render_pieces, render_template, single_tokens, validate_single_key_template,
}

abbrev task_text : Option String → String
task_text none = ""
task_text (some s) = s

render_task_no :
    (e : TemplateEnv) (place : ℕ) → render_token e place "task_no" ≡ ok (task_text e.task_no)
unfolding render_token starts_with starts
render_task_no e place = elim (Option-cases e.task_no) [
  | inl h ↦ rw h refl
  | inr (s, h) ↦ rw h refl
]

render_pieces_task :
    (e : TemplateEnv) (place : ℕ) (t : String) (ps : List Piece) (key : String)
    → strip t ≡ "task_no"
    → render_pieces e (place + 1) ps ≡ ok key
    → render_pieces e place (token t ∷ ps) ≡ ok (join (task_text e.task_no) key)
unfolding render_pieces
render_pieces_task e place t ps key named x =
    let own : render_token e place (strip t) ≡ ok (task_text e.task_no) =
      ap (render_token e place) named ∙ render_task_no e place in
    rw (render_pieces, own, x) refl

render_pieces_same :
    (e f : TemplateEnv) (i j : ℕ) (ps : List Piece)
    → e.task_no ≡ f.task_no
    → single_tokens (tokens ps) ≡ ok tt
    → (key : String) × (render_pieces e i ps ≡ ok key) × (render_pieces f j ps ≡ ok key)
unfolding render_pieces tokens single_tokens
render_pieces_same e f i j [] same h = ("", refl, refl)
render_pieces_same e f i j (literal c ∷ ps) same h =
    let (key, x, y) = render_pieces_same e f (i + 1) (j + 1) ps same h in
    (String.◌∷◌ c key, rw x refl, rw y refl)
render_pieces_same e f i j (token t ∷ ps) same h = elim (Bool-cases (strip t =? "task_no")) [
  | inr other ↦ absurd (cc (rw other at h))
  | inl task ↦
      let (key, x, y) = render_pieces_same e f (i + 1) (j + 1) ps same (rw task at h) in
      let named : strip t ≡ "task_no" = (=?_iff (strip t) "task_no").0 task in
      (
        join (task_text f.task_no) key,
        render_pieces_task e i t ps key named x
            ∙ ap (λ (n : Option String). ok (join (task_text n) key)) same,
        render_pieces_task f j t ps key named y,
      )
]

-- A template that passes the check for one aggregate key renders without an error, and to the same key for
-- every row of every batch of a task: whatever the fields, the place of the row, the counter, the clock and
-- the random source.
pub validate_single_key_template-Stable :
    (template : String) (e f : TemplateEnv)
    → validate_single_key_template template ≡ ok tt
    → e.task_no ≡ f.task_no
    → (key : String) × (render_template e template ≡ ok key) × (render_template f template ≡ ok key)
unfolding validate_single_key_template render_template
validate_single_key_template-Stable template e f h same =
    render_pieces_same e f 0 0 (scan template) same h
