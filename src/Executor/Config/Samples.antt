-- ===== src/Executor/Config/Samples.antt =====
-- An association that passes the validation.
use data_factory.Base.{◌≡◌, refl, String, false, none, some, List, [], ◌∷◌, map, string_eq}
use data_factory.Base.Text.{strategy_is, upper_is}
use data_factory.Base.Dict.{Dict, get}
use data_factory.Base.Result.{ok}
use data_factory.CaseConfig.{FieldConfig, Association}
use data_factory.DepAnalyzer.{source_of}
use data_factory.Executor.Config.{
  Seen, seen_of, same_target, same_source, conflicts, find_column, check_source, validate_from,
  validate_associations,
}
use data_factory.Executor.Config.Sound.{Valid, validate_associations-Valid}

abbrev configs : Dict String (List FieldConfig)
configs =
    (
      "order",
      record {
        column_name = "no";
        strategy = some "UUID";
        strategy_params = [];
        is_primary_key = false;
      }
          ∷ [],
    )
    ∷ []

abbrev association : Association
association = record {
  source_table = none;
  source_column = "no";
  target_table = "item";
  target_column = "order_no";
}

abbrev associations : List Association
associations = association ∷ association ∷ []

abbrev seen : List Seen
seen = map (seen_of "order") associations

passes : validate_associations "order" configs associations ≡ ok seen
unfolding validate_associations validate_from conflicts same_target same_source check_source
    find_column get source_of strategy_is upper_is
passes = refl

validate_associations-Valid_example : Valid configs [] seen
validate_associations-Valid_example =
    validate_associations-Valid "order" configs associations seen passes
