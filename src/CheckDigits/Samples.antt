-- ===== src/CheckDigits/Samples.antt =====
-- A card, an identity card and a credit code with their check digits.
use data_factory.Base.{ℕ, ◌+◌, ◌%◌, ◌<◌, ◌≤◌, ◌≡◌, refl, List, [], ◌∷◌, ◌++◌, All, arith}
use data_factory.CheckDigits.{
  luhn_total, reversed, char_at, luhn_check_digit, weighted, idcard_check_digit, credit_check_value,
}
use data_factory.CheckDigits.Standards.{luhn_sum, base2, base3, check_character}
use data_factory.CheckDigits.Valid.{check_digits_pass}

abbrev card : List ℕ
card = 7 ∷ 9 ∷ 9 ∷ 2 ∷ 7 ∷ 3 ∷ 9 ∷ 8 ∷ 7 ∷ 1 ∷ []

abbrev idcard : List ℕ
idcard = 1 ∷ 1 ∷ 0 ∷ 1 ∷ 0 ∷ 5 ∷ 1 ∷ 9 ∷ 4 ∷ 9 ∷ 1 ∷ 2 ∷ 3 ∷ 1 ∷ 0 ∷ 0 ∷ 2 ∷ []

abbrev credit : List ℕ
credit = 9 ∷ 1 ∷ 3 ∷ 5 ∷ 0 ∷ 2 ∷ 1 ∷ 1 ∷ 22 ∷ 0 ∷ 0 ∷ 0 ∷ 1 ∷ 0 ∷ 0 ∷ 4 ∷ 20 ∷ []

card_digits : All (λ d. d ≤ 9) card
card_digits = (
  omega arith,
  (
    omega arith,
    (
      omega arith,
      (
        omega arith,
        (
          omega arith,
          (omega arith, (omega arith, (omega arith, (omega arith, (omega arith, tt))))),
        ),
      ),
    ),
  ),
)

luhn_check_digit_known : luhn_check_digit card ≡ 3
unfolding luhn_check_digit luhn_total reversed
luhn_check_digit_known = refl

idcard_check_digit_known : idcard_check_digit idcard ≡ b'X'
unfolding idcard_check_digit weighted char_at
idcard_check_digit_known = refl

check_digits_pass_example :
    (luhn_check_digit card < 10)
    × (luhn_sum (card ++ luhn_check_digit card ∷ []) % 10 ≡ 0)
    × ((v : ℕ) × (idcard_check_digit idcard ≡ check_character v)
        × (v < 11)
        × (base2 (idcard ++ v ∷ []) % 11 ≡ 1))
    × (credit_check_value credit < 31)
    × ((base3 credit + credit_check_value credit) % 31 ≡ 0)
check_digits_pass_example = check_digits_pass card idcard credit card_digits refl refl
