-- ===== src/CheckDigits/Weights.antt =====
-- The weights of the code are the powers of 2 and of 3 in the standards, but for multiples of 11 and 31.
use data_factory.Base.{
  ℕ, ◌+◌, ◌*◌, ◌^◌, ◌≡◌, refl, ap, ◌∙◌, List, [], ◌∷◌, ◌++◌, length, length-append, arith,
}
use data_factory.CheckDigits.{weighted, idcard_weights, credit_code_weights}
use data_factory.CheckDigits.Standards.{base2, base3}

-- The weights are the powers of 2, from the last one on, but for multiples of 11.
pub Powers2 : List ℕ → Type 0
Powers2 [] = Unit
Powers2 (w ∷ ws) = (q : ℕ) × (2 ^ (length ws + 1) ≡ w + 11 * q) × Powers2 ws

pub base2-weighted :
    (xs ws : List ℕ) (v : ℕ)
    → length xs ≡ length ws
    → Powers2 ws
    → (q : ℕ) × (base2 (xs ++ v ∷ []) ≡ weighted xs ws + v + 11 * q)
unfolding base2 weighted Powers2
base2-weighted [] [] v e h = (0, omega arith)
base2-weighted [] (w ∷ ws) v e h = absurd (omega (arith, e))
base2-weighted (x ∷ xs) [] v e h = absurd (omega (arith, e))
base2-weighted (x ∷ xs) (w ∷ ws) v e (q, p, h) =
    let (r, g) = base2-weighted xs ws v (omega (arith, e)) h in
    let n : length (xs ++ v ∷ []) ≡ length ws + 1 = omega (arith, length-append xs (v ∷ []), e) in
    (x * q + r, rw (n, p) (grind (arith, g)))

-- The weights are `k` times the powers of 3, but for multiples of 31.
pub Powers3 : ℕ → List ℕ → Type 0
Powers3 k [] = Unit
Powers3 k (w ∷ ws) = (q : ℕ) × (k ≡ w + 31 * q) × Powers3 (3 * k) ws

scale_step :
    (k b x w q t r : ℕ)
    → k ≡ w + 31 * q
    → (3 * k) * b ≡ t + 31 * r
    → k * (x + 3 * b) ≡ x * w + t + 31 * (x * q + r)
scale_step k b x w q t r p g =
    let first : x * k ≡ x * w + 31 * (x * q) = ap (λ n. x * n) p ∙ omega arith in
    let both : k * (x + 3 * b) ≡ x * k + (3 * k) * b = omega arith in omega (arith, first, both, g)

pub base3-weighted :
    (k : ℕ) (xs ws : List ℕ)
    → length xs ≡ length ws
    → Powers3 k ws
    → (q : ℕ) × (k * base3 xs ≡ weighted xs ws + 31 * q)
unfolding base3 weighted Powers3
base3-weighted k [] [] e h = (0, omega arith)
base3-weighted k [] (w ∷ ws) e h = absurd (omega (arith, e))
base3-weighted k (x ∷ xs) [] e h = absurd (omega (arith, e))
base3-weighted k (x ∷ xs) (w ∷ ws) e (q, p, h) =
    let (r, g) = base3-weighted (3 * k) xs ws (omega (arith, e)) h in
    (x * q + r, scale_step k (base3 xs) x w q (weighted xs ws) r p g)

pub idcard_weights-Powers2 : Powers2 idcard_weights
unfolding Powers2
idcard_weights-Powers2 = (
  11915,
  refl,
  (
    5957,
    refl,
    (
      2978,
      refl,
      (
        1489,
        refl,
        (
          744,
          refl,
          (
            372,
            refl,
            (
              186,
              refl,
              (
                93,
                refl,
                (
                  46,
                  refl,
                  (
                    23,
                    refl,
                    (
                      11,
                      refl,
                      (5, refl, (2, refl, (1, refl, (0, refl, (0, refl, (0, refl, tt)))))),
                    ),
                  ),
                ),
              ),
            ),
          ),
        ),
      ),
    ),
  ),
)

pub credit_code_weights-Powers3 : Powers3 1 credit_code_weights
unfolding Powers3
credit_code_weights-Powers3 = (
  0,
  refl,
  (
    0,
    refl,
    (
      0,
      refl,
      (
        0,
        refl,
        (
          2,
          refl,
          (
            7,
            refl,
            (
              23,
              refl,
              (
                70,
                refl,
                (
                  211,
                  refl,
                  (
                    634,
                    refl,
                    (
                      1904,
                      refl,
                      (
                        5714,
                        refl,
                        (
                          17143,
                          refl,
                          (51429, refl, (154289, refl, (462867, refl, (1388603, refl, tt)))),
                        ),
                      ),
                    ),
                  ),
                ),
              ),
            ),
          ),
        ),
      ),
    ),
  ),
)
