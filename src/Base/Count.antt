-- ===== src/Base/Count.antt =====
-- How often an item occurs in a list: the order-free view of a list.
use data_factory.Base.Tests.{if◌then◌else◌}
use data_factory.Base.Lists.{length}
use data_factory.Base.Equality.{Eq, ◌=?◌, =?_iff, =?_refl}
use Prim.Native.Nat.{ℕ, suc, ◌+◌, ◌≤◌, ◌<◌}
use mathlib.Core.Path.{◌≡◌, refl}
use mathlib.Core.Bool.{Bool, true, false}
use mathlib.Core.List.{List, [], ◌∷◌, ◌++◌}
use native.Mathlib.Omega.{arith}

module _ {ℓ} {K : Type ℓ} ⦃e : Eq K⦄ where
  abbrev pub count : K → List K → ℕ
  count k [] = 0
  count k (x ∷ xs) = (if x =? k then 1 else 0) + count k xs

  -- `k in xs`
  abbrev pub contains : K → List K → Bool
  contains k [] = false
  contains k (x ∷ xs) = let rest = contains k xs in if x =? k then true else rest

module _ {ℓ} {K : Type ℓ} ⦃e : Eq K⦄ where
  -- `k` occurs in `xs`.
  abbrev pub In : K → List K → Type 0
  In k xs = 0 < count k xs

  -- No item occurs twice.
  abbrev pub Distinct : List K → Type ℓ
  Distinct xs = (k : K) → count k xs ≤ 1

  -- The same items, as often, in any order.
  abbrev pub SameItems : List K → List K → Type ℓ
  SameItems xs ys = (k : K) → count k xs ≡ count k ys

  remove : K → List K → List K
  remove k [] = []
  remove k (x ∷ xs) = let rest = remove k xs in if x =? k then xs else x ∷ rest

module _ {ℓ} {K : Type ℓ} ⦃e : Eq K⦄ where
  pub count-append : (k : K) (xs ys : List K) → count k (xs ++ ys) ≡ count k xs + count k ys
  count-append k [] ys = omega arith
  count-append k (x ∷ xs) ys = omega (arith, count-append k xs ys)

  pub contains-In : (k : K) (xs : List K) → contains k xs ≡ true → In k xs
  contains-In k [] h = ground arith
  contains-In k (x ∷ xs) h = ground (arith, contains-In k xs)

  pub not_contains-count : (k : K) (xs : List K) → contains k xs ≡ false → count k xs ≡ 0
  not_contains-count k [] h = refl
  not_contains-count k (x ∷ xs) h = ground (arith, not_contains-count k xs)

  count-remove :
      (k j : K) (xs : List K)
      → In k xs
      → count j xs ≡ (if k =? j then 1 else 0) + count j (remove k xs)
  unfolding remove
  count-remove k j [] h = ground arith
  count-remove k j (x ∷ xs) h =
      ground (arith, =?_iff x k, =?_iff x j, =?_iff k j, count-remove k j xs)

  length-remove : (k : K) (xs : List K) → In k xs → length xs ≡ suc (length (remove k xs))
  unfolding remove
  length-remove k [] h = ground arith
  length-remove k (x ∷ xs) h = ground (arith, length-remove k xs)

  -- A list whose items all occur as often in another is no longer than it.
  pub length-le_of_count :
      (xs ys : List K) → ((k : K) → count k xs ≤ count k ys) → length xs ≤ length ys
  length-le_of_count [] ys h = omega arith
  length-le_of_count (x ∷ xs) ys h =
      let found : In x ys = ground (arith, h x, =?_refl x) in
      omega (
        arith,
        length-remove x ys found,
        length-le_of_count xs (remove x ys) (λ k. ground (arith, h k, count-remove x k ys found)),
      )

  -- A list that fits into another and is as long has the same items.
  pub length-SameItems :
      (xs ys : List K)
      → ((k : K) → count k xs ≤ count k ys)
      → length xs ≡ length ys
      → SameItems xs ys
  length-SameItems [] [] h l k = refl
  length-SameItems [] (y ∷ ys) h l k = absurd (omega arith)
  length-SameItems (x ∷ xs) ys h l k =
      let found : In x ys = ground (arith, h x, =?_refl x) in
      let rest =
        length-SameItems xs (remove x ys) (λ k. ground (arith, h k, count-remove x k ys found))
          (omega (arith, length-remove x ys found)) in
      omega (arith, rest k, count-remove x k ys found)

  pub Distinct-count :
      (k : K) (xs : List K) → Distinct xs → count k xs ≡ (if contains k xs then 1 else 0)
  Distinct-count k xs d = ground (arith, d k, contains-In k xs, not_contains-count k xs)

  pub contains-append :
      (k : K) (xs ys : List K)
      → contains k (xs ++ ys) ≡ (if contains k xs then true else contains k ys)
  contains-append k [] ys = refl
  contains-append k (x ∷ xs) ys = ground (arith, contains-append k xs ys)
