-- ===== src/CheckDigits/Valid.antt =====
-- The numbers with their check digits pass the tests of their standards.
use data_factory.Base.{
  ℕ, zero, suc, ◌+◌, ◌-◌, ◌*◌, ◌/◌, ◌%◌, ◌<◌, ◌≤◌, ◌≡◌, refl, ap, Bool, true, false, not, List, [],
  ◌∷◌, ◌++◌, if◌then◌else◌, ltb, ◌==◌, length, length-append, All, arith,
}
use data_factory.CheckDigits.{
  luhn_total, reversed, luhn_check_digit, weighted, idcard_weights, idcard_check_map, char_at,
  idcard_check_digit, credit_code_weights, credit_check_value,
}
use data_factory.CheckDigits.Standards.{luhn_sum, base2, base3, check_character}
use data_factory.CheckDigits.Weights.{
  base2-weighted, base3-weighted, idcard_weights-Powers2, credit_code_weights-Powers3,
}

-- What a digit counts for in `_luhn_check_digit`, and whether the one behind `n` others is doubled.
abbrev luhn_value : Bool → ℕ → ℕ
luhn_value doubled d = if doubled then (if ltb 9 (d * 2) then d * 2 - 9 else d * 2) else d

abbrev turn : Bool → ℕ → Bool
turn b n = if n % 2 == 0 then b else not b

turn-suc : (b : Bool) (n : ℕ) → turn (not b) n ≡ turn b (suc n)
turn-suc true n = ground arith
turn-suc false n = ground arith

luhn_total-append :
    (b : Bool) (xs : List ℕ) (d : ℕ)
    → luhn_total b (xs ++ d ∷ []) ≡ luhn_total b xs + luhn_value (turn b (length xs)) d
unfolding luhn_total
luhn_total-append b [] d = ground arith
luhn_total-append b (x ∷ xs) d =
    let rest = luhn_total-append (not b) xs d in
    omega (arith, rest, ap (λ c. luhn_value c d) (turn-suc b (length xs)))

length-reversed : (ds : List ℕ) → length (reversed ds) ≡ length ds
unfolding reversed
length-reversed [] = refl
length-reversed (d ∷ ds) = omega (arith, length-append (reversed ds) (d ∷ []), length-reversed ds)

luhn_value-sum :
    (n d : ℕ)
    → d ≤ 9
    → (if (n + 1) % 2 == 1 then (d * 2) / 10 + (d * 2) % 10 else d) ≡ luhn_value (turn true n) d
luhn_value-sum n d h = ground (arith, h)

luhn_sum-append :
    (ds : List ℕ) (c : ℕ)
    → All (λ d. d ≤ 9) ds
    → luhn_sum (ds ++ c ∷ []) ≡ luhn_total true (reversed ds) + c
unfolding luhn_sum luhn_total reversed
luhn_sum-append [] c h = ground arith
luhn_sum-append (d ∷ ds) c (small, h) =
    let n : length (ds ++ c ∷ []) ≡ length ds + 1 = length-append ds (c ∷ []) in
    rw n (
      rw (luhn_total-append true (reversed ds) d, length-reversed ds)
        (omega (arith, luhn_value-sum (length ds) d small, luhn_sum-append ds c h)))

complement10 : (t : ℕ) → ((t + (10 - t % 10) % 10) % 10 ≡ 0) × ((10 - t % 10) % 10 < 10)
complement10 t = (omega arith, omega arith)

complement31 : (t q : ℕ) → ((t + 31 * q + (31 - t % 31) % 31) % 31 ≡ 0) × ((31 - t % 31) % 31 < 31)
complement31 t q = (omega arith, omega arith)

complement11 :
    (t r : ℕ)
    → t % 11 ≡ r
    → (v : ℕ) × (char_at r idcard_check_map ≡ check_character v) × (v < 11) × ((t + v) % 11 ≡ 1)
unfolding char_at check_character
complement11 t zero h = (1, refl, omega arith, omega (arith, h))
complement11 t (suc zero) h = (0, refl, omega arith, omega (arith, h))
complement11 t (suc (suc zero)) h = (10, refl, omega arith, omega (arith, h))
complement11 t (suc (suc (suc zero))) h = (9, refl, omega arith, omega (arith, h))
complement11 t (suc (suc (suc (suc zero)))) h = (8, refl, omega arith, omega (arith, h))
complement11 t (suc (suc (suc (suc (suc zero))))) h = (7, refl, omega arith, omega (arith, h))
complement11 t (suc (suc (suc (suc (suc (suc zero)))))) h = (6, refl, omega arith, omega (arith, h))
complement11 t (suc (suc (suc (suc (suc (suc (suc zero))))))) h =
    (5, refl, omega arith, omega (arith, h))
complement11 t (suc (suc (suc (suc (suc (suc (suc (suc zero)))))))) h =
    (4, refl, omega arith, omega (arith, h))
complement11 t (suc (suc (suc (suc (suc (suc (suc (suc (suc zero))))))))) h =
    (3, refl, omega arith, omega (arith, h))
complement11 t (suc (suc (suc (suc (suc (suc (suc (suc (suc (suc zero)))))))))) h =
    (2, refl, omega arith, omega (arith, h))
complement11 t (suc (suc (suc (suc (suc (suc (suc (suc (suc (suc (suc r))))))))))) h =
    absurd (omega (arith, h))

-- The check digit of a card number is below 10, and the number with it passes Luhn's test: with every second digit
-- from the right doubled, the decimal digits add up to a multiple of 10. The check character of the 17 digits of an identity
-- card stands for a value from 0 to 10, with which the digits, read in base 2, leave 1 when divided by 11. The check value
-- of a credit code of 17 characters is a place in the alphabet, and with it the sum of the places times the powers of 3 is a
-- multiple of 31.
pub check_digits_pass :
    (card idcard credit : List ℕ)
    → All (λ d. d ≤ 9) card
    → length idcard ≡ 17
    → length credit ≡ 17
    → (luhn_check_digit card < 10)
      × (luhn_sum (card ++ luhn_check_digit card ∷ []) % 10 ≡ 0)
      × ((v : ℕ) × (idcard_check_digit idcard ≡ check_character v)
          × (v < 11)
          × (base2 (idcard ++ v ∷ []) % 11 ≡ 1))
      × (credit_check_value credit < 31)
      × ((base3 credit + credit_check_value credit) % 31 ≡ 0)
unfolding luhn_check_digit idcard_check_digit credit_check_value
check_digits_pass card idcard credit digits p q =
    let luhn = complement10 (luhn_total true (reversed card)) in
    let t = weighted idcard idcard_weights in
    let (v, character, bound, leaves) = complement11 t (t % 11) refl in
    let (k, e) = base2-weighted idcard idcard_weights v p idcard_weights-Powers2 in
    let (m, g) = base3-weighted 1 credit credit_code_weights q credit_code_weights-Powers3 in
    let code = complement31 (weighted credit credit_code_weights) m in
    (
      luhn.1,
      rw (luhn_sum-append card (luhn_check_digit card) digits) (luhn.0),
      (v, character, bound, rw e (omega (arith, leaves))),
      code.1,
      omega (arith, g, code.0),
    )
