-- ===== src/Base/Slices.antt =====
-- A list in slices of a given length, as `for i in range(0, len(xs), n): xs[i:i + n]` takes them.
use Prim.Native.Nat.{ℕ, zero, suc, ◌≤◌}
use mathlib.Core.Path.{◌≡◌, refl, ap, ◌∙◌}
use mathlib.Core.List.{List, [], ◌∷◌, ◌++◌}
use native.Mathlib.Omega.{arith}
use data_factory.Base.Lists.{length, take, drop}

module _ {ℓ} {A : Type ℓ} where
  -- Slices of `suc m` items, with fuel for the number of items.
  unfoldable pub slices_of : ℕ → ℕ → List A → List (List A)
  slices_of zero m xs = []
  slices_of (suc fuel) m [] = []
  slices_of (suc fuel) m (x ∷ xs) = (x ∷ take m xs) ∷ slices_of fuel m (drop m xs)

  unfoldable pub slices : ℕ → List A → List (List A)
  unfolding slices_of
  slices m xs = slices_of (length xs) m xs

  abbrev pub flatten : List (List A) → List A
  flatten [] = []
  flatten (xs ∷ xss) = xs ++ flatten xss

  take-drop : (m : ℕ) (xs : List A) → take m xs ++ drop m xs ≡ xs
  take-drop zero xs = refl
  take-drop (suc m) [] = refl
  take-drop (suc m) (x ∷ xs) = ap (λ (l : List A). x ∷ l) (take-drop m xs)

  length-drop_le : (m : ℕ) (xs : List A) → length (drop m xs) ≤ length xs
  length-drop_le zero xs = omega arith
  length-drop_le (suc m) [] = omega arith
  length-drop_le (suc m) (x ∷ xs) = omega (arith, length-drop_le m xs)

  flatten-slices_of :
      (fuel m : ℕ) (xs : List A) → length xs ≤ fuel → flatten (slices_of fuel m xs) ≡ xs
  unfolding slices_of
  flatten-slices_of zero m [] h = refl
  flatten-slices_of zero m (x ∷ xs) h = absurd (omega arith)
  flatten-slices_of (suc fuel) m [] h = refl
  flatten-slices_of (suc fuel) m (x ∷ xs) h =
      ap (λ (l : List A). x ∷ (take m xs ++ l))
        (flatten-slices_of fuel m (drop m xs) (omega (arith, length-drop_le m xs)))
      ∙ ap (λ (l : List A). x ∷ l) (take-drop m xs)

  -- The slices are the whole list.
  pub flatten-slices : (m : ℕ) (xs : List A) → flatten (slices m xs) ≡ xs
  unfolding slices
  flatten-slices m xs = flatten-slices_of (length xs) m xs (omega arith)
