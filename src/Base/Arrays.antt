-- ===== src/Base/Arrays.antt =====
-- Arrays as functions from indices, with the write at one index and sums over the first `n`.
use Prim.Native.Nat.{ℕ, zero, suc, ◌+◌, ◌≤◌, ◌<◌}
use mathlib.Core.Path.{◌≡◌, refl}
use mathlib.Core.Logic.{◌≢◌}
use native.Mathlib.Omega.{arith}
use nea.Base.Tests.{◌==◌, if◌then◌else◌}

-- The write `xs[i] = a`.
abbrev pub update {ℓ} : {A : Type ℓ} → (ℕ → A) → ℕ → A → ℕ → A
update f i a j = if i == j then a else f j

module _ {ℓ} {A : Type ℓ} (w : A → ℕ) where
  -- The sum of `w` over the entries below `n`.
  unfoldable pub sum_below : ℕ → (ℕ → A) → ℕ
  sum_below zero f = 0
  sum_below (suc n) f = sum_below n f + w (f n)

  sum_below-update_above :
      (n : ℕ) (f : ℕ → A) (i : ℕ) (a : A) → n ≤ i → sum_below n (update f i a) ≡ sum_below n f
  unfolding sum_below
  sum_below-update_above zero f i a h = refl
  sum_below-update_above (suc n) f i a h = ground (arith, sum_below-update_above n f i a)

  -- A write changes the sum by what it changes the one entry.
  pub sum_below-update :
      (n : ℕ) (f : ℕ → A) (i : ℕ) (a : A)
      → i < n
      → sum_below n (update f i a) + w (f i) ≡ sum_below n f + w a
  unfolding sum_below
  sum_below-update zero f i a h = absurd (omega arith)
  sum_below-update (suc n) f i a h =
      ground (arith, sum_below-update n f i a, sum_below-update_above n f i a)

  pub sum_below-le : ((a : A) → w a ≤ 1) → (n : ℕ) (f : ℕ → A) → sum_below n f ≤ n
  unfolding sum_below
  sum_below-le small zero f = omega arith
  sum_below-le small (suc n) f = omega (arith, small (f n), sum_below-le small n f)

  pub sum_below-zero : (n : ℕ) (f : ℕ → A) → ((i : ℕ) → i < n → w (f i) ≡ 0) → sum_below n f ≡ 0
  unfolding sum_below
  sum_below-zero zero f h = refl
  sum_below-zero (suc n) f h =
      omega (arith, sum_below-zero n f (λ i lt. h i (omega arith)), h n (omega arith))

  -- Each entry is part of the sum.
  pub sum_below-part : (n : ℕ) (f : ℕ → A) (i : ℕ) → i < n → w (f i) ≤ sum_below n f
  unfolding sum_below
  sum_below-part zero f i h = absurd (omega arith)
  sum_below-part (suc n) f i h = ground (arith, sum_below-part n f i)

  -- Two different entries are both part of the sum.
  pub sum_below_pair :
      (n : ℕ) (f : ℕ → A) (i j : ℕ) → i < n → j < n → i ≢ j → w (f i) + w (f j) ≤ sum_below n f
  unfolding sum_below
  sum_below_pair zero f i j p q ne = absurd (omega arith)
  sum_below_pair (suc n) f i j p q ne =
      ground (arith, sum_below_pair n f i j, sum_below-part n f i, sum_below-part n f j)

  pub sum_below_ext :
      (n : ℕ) (f g : ℕ → A) → ((i : ℕ) → i < n → w (f i) ≡ w (g i)) → sum_below n f ≡ sum_below n g
  unfolding sum_below
  sum_below_ext zero f g h = refl
  sum_below_ext (suc n) f g h =
      omega (arith, sum_below_ext n f g (λ i lt. h i (omega arith)), h n (omega arith))
