-- ===== src/CheckDigits.antt =====
-- backend/app/services/tool_service.py: the check digits of identity cards, bank cards and credit codes, over
-- digits and places in the alphabet as numbers.
pub mod Standards
pub mod Weights
pub mod Valid
mod Samples
use data_factory.Base.{
  ℕ, zero, suc, ◌+◌, ◌-◌, ◌*◌, ◌%◌, Bool, true, false, not, List, [], ◌∷◌, ◌++◌, if◌then◌else◌, ltb,
}

-- `total += digit` over the digits from the right, the doubled ones by turns.
pub luhn_total : Bool → List ℕ → ℕ
luhn_total doubled [] = 0
luhn_total doubled (d ∷ ds) =
    (if doubled then (if ltb 9 (d * 2) then d * 2 - 9 else d * 2) else d)
    + luhn_total (not doubled) ds

-- `number[::-1]`
pub reversed : List ℕ → List ℕ
reversed [] = []
reversed (d ∷ ds) = reversed ds ++ d ∷ []

-- `_luhn_check_digit`
pub luhn_check_digit : List ℕ → ℕ
unfolding luhn_total reversed
luhn_check_digit ds = (10 - luhn_total true (reversed ds) % 10) % 10

-- `sum(x * weight)`
pub weighted : List ℕ → List ℕ → ℕ
weighted [] ws = 0
weighted (x ∷ xs) [] = 0
weighted (x ∷ xs) (w ∷ ws) = x * w + weighted xs ws

abbrev pub idcard_weights : List ℕ
idcard_weights = 7 ∷ 9 ∷ 10 ∷ 5 ∷ 8 ∷ 4 ∷ 2 ∷ 1 ∷ 6 ∷ 3 ∷ 7 ∷ 9 ∷ 10 ∷ 5 ∷ 8 ∷ 4 ∷ 2 ∷ []

-- `_IDCARD_CHECK_MAP`
abbrev pub idcard_check_map : List ℕ
idcard_check_map = b'1' ∷ b'0' ∷ b'X' ∷ b'9' ∷ b'8' ∷ b'7' ∷ b'6' ∷ b'5' ∷ b'4' ∷ b'3' ∷ b'2' ∷ []

pub char_at : ℕ → List ℕ → ℕ
char_at n [] = 0
char_at zero (c ∷ cs) = c
char_at (suc n) (c ∷ cs) = char_at n cs

-- `_idcard_check_digit`: the code of its character.
pub idcard_check_digit : List ℕ → ℕ
unfolding weighted char_at
idcard_check_digit ds = char_at (weighted ds idcard_weights % 11) idcard_check_map

abbrev pub credit_code_weights : List ℕ
credit_code_weights =
    1 ∷ 3 ∷ 9 ∷ 27 ∷ 19 ∷ 26 ∷ 16 ∷ 17 ∷ 20 ∷ 29 ∷ 25 ∷ 13 ∷ 8 ∷ 24 ∷ 10 ∷ 30 ∷ 28 ∷ []

-- `_credit_check_char`: the place of its character in the alphabet.
pub credit_check_value : List ℕ → ℕ
unfolding weighted
credit_check_value xs = (31 - weighted xs credit_code_weights % 31) % 31
