-- ===== src/CheckDigits/Standards.antt =====
-- The tests of the standards for card numbers, identity cards and credit codes, written independently of the code.
use data_factory.Base.{ℕ, ◌+◌, ◌*◌, ◌/◌, ◌%◌, ◌^◌, List, [], ◌∷◌, if◌then◌else◌, ◌==◌, length}

-- Luhn: a digit with an odd number of digits to its right is doubled, and the decimal digits are added up.
unfoldable pub luhn_sum : List ℕ → ℕ
luhn_sum [] = 0
luhn_sum (d ∷ ds) = (if length ds % 2 == 1 then (d * 2) / 10 + (d * 2) % 10 else d) + luhn_sum ds

-- ISO 7064, MOD 11-2: the digits as those of a number in base 2.
unfoldable pub base2 : List ℕ → ℕ
base2 [] = 0
base2 (d ∷ ds) = d * 2 ^ length ds + base2 ds

-- The character of a value from 0 to 10.
unfoldable pub check_character : ℕ → ℕ
check_character v = if v == 10 then b'X' else b'0' + v

-- GB 32100: the places times the powers of 3, from the left.
unfoldable pub base3 : List ℕ → ℕ
base3 [] = 0
base3 (x ∷ xs) = x + 3 * base3 xs
