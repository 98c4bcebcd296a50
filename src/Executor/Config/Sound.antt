-- ===== src/Executor/Config/Sound.antt =====
-- What associations that pass `_validate_associations` are.
use data_factory.Base.{
  ◌≡◌, refl, String, true, false, some, List, [], ◌∷◌, ◌++◌, map, string_eq, All, Bool-cases,
  Option-cases, ◌⊎◌, inl, inr, arith,
}
use data_factory.Base.Text.{strategy_is}
use data_factory.Base.Dict.{Dict}
use data_factory.Base.Result.{Result, ok, err}
use data_factory.CaseConfig.{FieldConfig, Association}
use data_factory.Executor.Config.{
  ConfigError, Seen, seen_of, same_target, same_source, conflicts, find_column, configs_of,
  check_source, validate_from, validate_associations,
}

-- The source of `s` is a configured column that the generator fills.
pub HasSource : Dict String (List FieldConfig) → Seen → Type 0
HasSource configs s =
    (f : FieldConfig) × (find_column s.source_column (configs_of s.source_table configs) ≡ some f)
    × (strategy_is "SKIP" "" f.strategy ≡ false)

-- `s` has the source of every item with its target.
pub Agrees : Seen → List Seen → Type 0
Agrees s seen = All (λ x. same_target s x ≡ true → same_source s x ≡ true) seen

-- Each item has a source, and the source of the items before it with its target.
pub Valid : Dict String (List FieldConfig) → List Seen → List Seen → Type 0
Valid configs before [] = Unit
Valid configs before (s ∷ rest) =
    HasSource configs s × Agrees s before × Valid configs (before ++ s ∷ []) rest

not_conflicts-Agrees : (s : Seen) (seen : List Seen) → conflicts s seen ≡ false → Agrees s seen
unfolding conflicts Agrees
not_conflicts-Agrees s [] h = tt
not_conflicts-Agrees s (x ∷ seen) h =
    (λ t. ground (arith, t), not_conflicts-Agrees s seen (ground (arith, h)))

check_source-HasSource :
    (configs : Dict String (List FieldConfig)) (s : Seen) (g : FieldConfig)
    → check_source configs s ≡ ok g
    → HasSource configs s
unfolding check_source HasSource
check_source-HasSource configs s g h =
    elim (Option-cases (find_column s.source_column (configs_of s.source_table configs))) [
      | inl e ↦ absurd (cc (rw (e, check_source) at h))
      | inr (f, e) ↦ elim (Bool-cases (strategy_is "SKIP" "" f.strategy)) [
        | inl skip ↦ absurd (cc (rw (e, skip, check_source) at h))
        | inr given ↦ (f, e, given)
      ]
    ]

Result-cases :
    (r : Result ConfigError FieldConfig)
    → ((a : FieldConfig) × (r ≡ ok a)) ⊎ ((e : ConfigError) × (r ≡ err e))
Result-cases (ok a) = inl (a, refl)
Result-cases (err e) = inr (e, refl)

validate_from-Valid :
    (main : String) (configs : Dict String (List FieldConfig)) (as' : List Association)
    (seen all : List Seen)
    → validate_from main configs as' seen ≡ ok all
    → Valid configs seen (map (seen_of main) as')
unfolding validate_from Valid
validate_from-Valid main configs [] seen all h = tt
validate_from-Valid main configs (a ∷ rest) seen all h =
    let s = seen_of main a in
    elim (Bool-cases (conflicts s seen)) [
      | inl hit ↦ absurd (cc (rw (hit, validate_from) at h))
      | inr calm ↦ elim (Result-cases (check_source configs s)) [
        | inr (e, f) ↦ absurd (cc (rw (calm, f, validate_from) at h))
        | inl (g, f) ↦ (
          check_source-HasSource configs s g f,
          not_conflicts-Agrees s seen calm,
          validate_from-Valid main configs rest (seen ++ s ∷ []) all
              (rw (calm, f, validate_from) at h),
        )
      ]
    ]

-- Associations that pass the validation take their values from configured columns that the database does
-- not fill, and no target column has two different sources.
pub validate_associations-Valid :
    (main : String) (configs : Dict String (List FieldConfig)) (associations : List Association)
    (all : List Seen)
    → validate_associations main configs associations ≡ ok all
    → Valid configs [] (map (seen_of main) associations)
unfolding validate_associations
validate_associations-Valid main configs associations all h =
    validate_from-Valid main configs associations [] all h
