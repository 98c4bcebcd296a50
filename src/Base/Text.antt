-- ===== src/Base/Text.antt =====
-- Text, read character by character.
use data_factory.Base.Tests.{leb, ◌==◌, if◌then◌else◌}
use Prim.Native.Nat.{ℕ, zero, suc, ◌-◌}
use Prim.Native.Char.{code}
use Prim.Native.String.{String}
use mathlib.Core.Bool.{Bool, true, false}
use mathlib.Core.List.{List, [], ◌∷◌}
use mathlib.Core.Option.{Option, none, some}

abbrev pub codes : String → List ℕ
codes String.[] = []
codes (String.◌∷◌ c s) = code c ∷ codes s

-- `s[:n]`
unfoldable pub cut : ℕ → String → String
cut zero s = String.[]
cut (suc n) String.[] = String.[]
cut (suc n) (String.◌∷◌ c s) = String.◌∷◌ c (cut n s)

-- `a + b`
unfoldable pub join : String → String → String
join String.[] t = t
join (String.◌∷◌ c s) t = String.◌∷◌ c (join s t)

abbrev pub upper_code : ℕ → ℕ
upper_code c = if leb b'a' c then (if leb c b'z' then c - 32 else c) else c

abbrev pub same_codes : List ℕ → List ℕ → Bool
same_codes [] [] = true
same_codes (a ∷ as') (b ∷ bs) = let rest = same_codes as' bs in if a == b then rest else false
same_codes _ _ = false

abbrev upper_codes : List ℕ → List ℕ
upper_codes [] = []
upper_codes (c ∷ cs) = upper_code c ∷ upper_codes cs

-- `s.upper() == name`, for the letters of ASCII.
unfoldable pub upper_is : String → String → Bool
upper_is name s = same_codes (upper_codes (codes s)) (codes name)

-- `(strategy or default).upper() == name`
unfoldable pub strategy_is : String → String → Option String → Bool
unfolding upper_is
strategy_is name default none = upper_is name default
strategy_is name default (some String.[]) = upper_is name default
strategy_is name default (some (String.◌∷◌ c s)) = upper_is name (String.◌∷◌ c s)
