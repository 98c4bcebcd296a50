-- ===== src/RedisGen/Templates/Samples.antt =====
-- A key with the number of its task, and a template with a counter.
use data_factory.Base.{◌≡◌, refl, String, true, none, some, [], ◌∷◌, string_eq}
use data_factory.Base.Text.{cut, join}
use data_factory.Base.Dict.{get}
use data_factory.Base.Result.{ok, err}
use data_factory.RedisGen.Templates.{
  bad_argument, not_stable, literals, scan, tokens, is_space, lstrip, rstrip, strip, starts,
  starts_with, argument, digits_value, parse_int, TemplateEnv, render_uuid, render_rand,
  render_token, render_pieces, render_template, is_builtin, validate_tokens, validate_template,
  single_tokens, validate_single_key_template,
}
use data_factory.RedisGen.Templates.Stable.{validate_single_key_template-Stable}

abbrev env : TemplateEnv
env = record {
  row_fields = ("a", "7") ∷ [];
  row_index = 2;
  incr_base = some 40;
  task_no = some "T1";
  show = λ n. "n";
  ts = λ i. "0";
  ts_ms = λ i. "0";
  uuid = λ i. "abcd";
  digits = λ i n. "9";
}

abbrev other_env : TemplateEnv
other_env = record env { row_index = 3; incr_base = none }

accepted : validate_single_key_template "k:{task_no}" ≡ ok tt
unfolding validate_single_key_template single_tokens scan tokens strip lstrip rstrip is_space
    literals join
accepted = refl

validate_single_key_template-Stable_example :
    (key : String) × (render_template env "k:{task_no}" ≡ ok key)
    × (render_template other_env "k:{task_no}" ≡ ok key)
validate_single_key_template-Stable_example =
    validate_single_key_template-Stable "k:{task_no}" env other_env accepted refl

rejected : validate_single_key_template "{i}" ≡ err (not_stable "i")
unfolding validate_single_key_template single_tokens scan tokens strip lstrip rstrip is_space
    literals join
rejected = refl

rendered : render_template env "{a}-{ uuid:2 }" ≡ ok "7-ab"
unfolding render_template render_pieces render_token render_uuid render_rand scan strip lstrip
    rstrip is_space literals starts_with starts argument parse_int digits_value get cut join
rendered = refl

-- An argument that is no number passes the validation, and is refused when it is rendered.
passes : validate_template "{uuid:x}" [] true ≡ ok tt
unfolding validate_template validate_tokens is_builtin tokens scan strip lstrip rstrip is_space
    literals starts_with starts join
passes = refl

refused : render_template env "{uuid:x}" ≡ err bad_argument
unfolding render_template render_pieces render_token render_uuid render_rand scan strip lstrip
    rstrip is_space literals starts_with starts argument parse_int digits_value get cut join
refused = refl
