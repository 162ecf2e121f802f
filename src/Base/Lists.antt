-- ===== src/Base/Lists.antt =====
-- Lists over the native numbers.
use Prim.Native.Nat.{ℕ, zero, suc, ◌+◌, ◌-◌, ◌≤◌}
use mathlib.Core.Path.{◌≡◌, refl, ap}
use mathlib.Core.List.{List, [], ◌∷◌, ◌++◌}
use native.Mathlib.Omega.{arith}

module _ {ℓ} {A : Type ℓ} where
  unfoldable pub length : List A → ℕ
  length [] = 0
  length (x ∷ xs) = suc (length xs)

  pub length-append : (xs ys : List A) → length (xs ++ ys) ≡ length xs + length ys
  unfolding length
  length-append [] ys = omega arith
  length-append (x ∷ xs) ys = omega (arith, length-append xs ys)

  unfoldable pub take : ℕ → List A → List A
  take zero xs = []
  take (suc n) [] = []
  take (suc n) (x ∷ xs) = x ∷ take n xs

  pub take-length : (xs : List A) → take (length xs) xs ≡ xs
  unfolding length take
  take-length [] = refl
  take-length (x ∷ xs) = ap (λ r. x ∷ r) (take-length xs)

  -- What `take` leaves, and how much it takes.
  pub take_part :
      (n : ℕ) (xs : List A) → (left : List A) × (xs ≡ take n xs ++ left) × (length (take n xs) ≤ n)
  unfolding length take
  take_part zero xs = (xs, refl, omega arith)
  take_part (suc n) [] = ([], refl, omega arith)
  take_part (suc n) (x ∷ xs) =
      let (left, parts, short) = take_part n xs in
      (left, ap (λ r. x ∷ r) parts, omega (arith, short))

  pub drop : ℕ → List A → List A
  drop zero xs = xs
  drop (suc n) [] = []
  drop (suc n) (x ∷ xs) = drop n xs

  pub take-drop :
      (n : ℕ) (xs : List A)
      → n ≤ length xs
      → (xs ≡ take n xs ++ drop n xs) × (length (drop n xs) + n ≡ length xs)
  unfolding length take drop
  take-drop zero xs le = (refl, omega arith)
  take-drop (suc n) [] le = absurd (omega arith)
  take-drop (suc n) (x ∷ xs) le =
      let (parts, sizes) = take-drop n xs (omega arith) in
      (ap (λ r. x ∷ r) parts, omega (arith, sizes))

  pub take-all : (n : ℕ) (xs : List A) → length xs ≤ n → take n xs ≡ xs
  unfolding length take
  take-all zero [] le = refl
  take-all zero (x ∷ xs) le = absurd (omega arith)
  take-all (suc n) [] le = refl
  take-all (suc n) (x ∷ xs) le = ap (λ r. x ∷ r) (take-all n xs (omega arith))

  pub take-append :
      (n : ℕ) (xs ys : List A) → length xs ≤ n → take n (xs ++ ys) ≡ xs ++ take (n - length xs) ys
  unfolding length take
  take-append zero [] ys le = refl
  take-append zero (x ∷ xs) ys le = absurd (omega arith)
  take-append (suc n) [] ys le = let all : suc n - 0 ≡ suc n = omega arith in rw all refl
  take-append (suc n) (x ∷ xs) ys le =
      let shorter : suc n - suc (length xs) ≡ n - length xs = omega arith in
      rw shorter (ap (λ r. x ∷ r) (take-append n xs ys (omega arith)))

  -- What stands behind enough of a text is not taken.
  pub take_enough : (n : ℕ) (xs ys : List A) → n ≤ length xs → take n (xs ++ ys) ≡ take n xs
  unfolding length take
  take_enough zero xs ys le = refl
  take_enough (suc n) [] ys le = absurd (omega arith)
  take_enough (suc n) (x ∷ xs) ys le = ap (λ r. x ∷ r) (take_enough n xs ys (omega arith))
