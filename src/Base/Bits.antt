-- ===== src/Base/Bits.antt =====
-- Single bits of a machine word: set, clear, test and find the lowest, as the native operations
-- do them with a mask `1 << k` or its complement.
use Prim.Native.Nat.{
  ℕ, zero, suc, ◌+◌, ◌-◌, ◌*◌, ◌/◌, ◌%◌, ◌^◌, ◌≤◌, ◌<◌, min, max, bit_and, bit_or, digits, bitwise,
  bit_and-bitwise, bit_or-bitwise,
}
use mathlib.Core.Path.{◌≡◌, refl, sym, ap, subst, ◌∙◌}
use mathlib.Core.Logic.{◌≢◌, inl, inr}
use mathlib.Core.Bool.{Bool, true, false, not, ◌&&◌, ◌||◌}
use native.Mathlib.Nat.{pow-suc, one-le-pow, le_refl, mul_comm, div-div-eq-div-mul}
use native.Mathlib.Omega.{arith}
use nea.Base.Tests.{◌==◌, if◌then◌else◌, Bool-cases}

-- The native operations recur on binary digits with fuel; the fuel does not matter.
module _ (z : ℕ → ℕ) (f : ℕ → ℕ → ℕ) where
  digits_enough : (n m a b : ℕ) → a ≤ n → a ≤ m → digits z f n a b ≡ digits z f m a b
  digits_enough zero zero a b p q = refl
  digits_enough zero (suc m) zero b p q = refl
  digits_enough zero (suc m) (suc a) b p q = absurd (omega arith)
  digits_enough (suc n) zero zero b p q = refl
  digits_enough (suc n) zero (suc a) b p q = absurd (omega arith)
  digits_enough (suc n) (suc m) zero b p q = refl
  digits_enough (suc n) (suc m) (suc a) b p q =
      rw (digits_enough n m (suc a / 2) (b / 2) (omega arith) (omega arith))

  lowest_digit :
      (a b : ℕ)
      → bitwise z f (suc a) b ≡ bitwise z f (suc a / 2) (b / 2) * 2 + f (suc a % 2) (b % 2)
  lowest_digit a b =
      omega (arith, digits_enough a (suc a / 2) (suc a / 2) (b / 2) (omega arith) (le_refl _))

bit_or-halve : (a b : ℕ) → bit_or a b ≡ bit_or (a / 2) (b / 2) * 2 + max (a % 2) (b % 2)
bit_or-halve zero b = simp bit_or-bitwise (omega arith)
bit_or-halve (suc a) b = simp bit_or-bitwise (lowest_digit (λ y. y) max a b)

bit_and-halve : (a b : ℕ) → bit_and a b ≡ bit_and (a / 2) (b / 2) * 2 + min (a % 2) (b % 2)
bit_and-halve zero b = simp bit_and-bitwise (omega arith)
bit_and-halve (suc a) b = simp bit_and-bitwise (lowest_digit (λ y. 0) min a b)

-- What a word gives with 0, for all words below a bound.
with_zero : (bound a : ℕ) → a < bound → (bit_or a 0 ≡ a) × (bit_and a 0 ≡ 0)
with_zero zero a h = absurd (omega arith)
with_zero (suc bound) zero h = (refl, refl)
with_zero (suc bound) (suc a) h =
    let (or_half, and_half) = with_zero bound (suc a / 2) (omega arith) in
    (
      omega (arith, bit_or-halve (suc a) 0, or_half),
      omega (arith, bit_and-halve (suc a) 0, and_half),
    )

bit_or-zero : (a : ℕ) → bit_or a 0 ≡ a
bit_or-zero a = (with_zero (suc a) a (omega arith)).0

bit_and-zero : (a : ℕ) → bit_and a 0 ≡ 0
bit_and-zero a = (with_zero (suc a) a (omega arith)).1

-- Bit `k` of a word.
abbrev pub bit : ℕ → ℕ → Bool
bit a zero = a % 2 == 1
bit a (suc k) = bit (a / 2) k

half-bit_or : (a k : ℕ) → bit_or a (2 ^ suc k) / 2 ≡ bit_or (a / 2) (2 ^ k)
half-bit_or a k = ground (
  arith,
  bit_or-halve a (2 ^ suc k),
  pow-suc 2 k,
  ap (λ (m : ℕ). bit_or (a / 2) m) {x = 2 ^ suc k / 2} {y = 2 ^ k} (omega (arith, pow-suc 2 k)),
)

low-bit_or : (a k : ℕ) → bit_or a (2 ^ suc k) % 2 ≡ a % 2
low-bit_or a k = omega (arith, bit_or-halve a (2 ^ suc k), pow-suc 2 k)

pub bit_or-one : (a : ℕ) → bit_or a 1 ≡ a / 2 * 2 + 1
bit_or-one a = omega (arith, bit_or-halve a 1, bit_or-zero (a / 2))

-- `word | (1 << k)` sets bit `k` and no other.
pub bit-bit_or : (a k i : ℕ) → bit (bit_or a (2 ^ k)) i ≡ (i == k || bit a i)
bit-bit_or a zero zero = ground (arith, bit_or-one a)
bit-bit_or a zero (suc i) =
    let e : bit_or a 1 / 2 ≡ a / 2 = omega (arith, bit_or-one a) in rw e (ground arith)
bit-bit_or a (suc k) zero = ground (arith, low-bit_or a k)
bit-bit_or a (suc k) (suc i) = rw (half-bit_or a k) (ground (arith, bit-bit_or (a / 2) k i))

-- The complement of the one-bit mask `1 << k` in a word of `w` bits.
abbrev pub not_bit : ℕ → ℕ → ℕ
not_bit w k = 2 ^ w - 1 - 2 ^ k

pow_lt : (w k : ℕ) → k < w → 2 ^ k < 2 ^ w
pow_lt zero k h = absurd (omega arith)
pow_lt (suc w) zero h = omega (arith, pow-suc 2 w, one-le-pow w 2)
pow_lt (suc w) (suc k) h = omega (arith, pow-suc 2 w, pow-suc 2 k, pow_lt w k)

half-not_bit : (w k : ℕ) → k < w → not_bit (suc w) (suc k) / 2 ≡ not_bit w k
half-not_bit w k h = omega (arith, pow-suc 2 w, pow-suc 2 k, pow_lt w k h)

low-not_bit : (w k : ℕ) → k < w → not_bit (suc w) (suc k) % 2 ≡ 1
low-not_bit w k h = omega (arith, pow-suc 2 w, pow-suc 2 k, pow_lt w k h)

bit_and-ones : (w a : ℕ) → a < 2 ^ w → bit_and a (2 ^ w - 1) ≡ a
bit_and-ones zero a h = omega (arith, bit_and-zero a)
bit_and-ones (suc w) a h =
    let half : (2 ^ suc w - 1) / 2 ≡ 2 ^ w - 1 = omega (arith, pow-suc 2 w, one-le-pow w 2) in
    omega (
      arith,
      bit_and-halve a (2 ^ suc w - 1),
      pow-suc 2 w,
      one-le-pow w 2,
      half,
      ap (λ (m : ℕ). bit_and (a / 2) m) half,
      bit_and-ones w (a / 2) (omega (arith, pow-suc 2 w)),
    )

-- `word & !(1 << k)` clears bit `k` and no other.
pub bit-bit_and :
    (w a k i : ℕ) → a < 2 ^ w → k < w → bit (bit_and a (not_bit w k)) i ≡ (not (i == k) && bit a i)
bit-bit_and zero a k i h lt = absurd (omega arith)
bit-bit_and (suc w) a zero i h lt = go i
  where
    half : (2 ^ suc w - 1 - 1) / 2 ≡ 2 ^ w - 1
    half = omega (arith, pow-suc 2 w, one-le-pow w 2)

    value : bit_and a (2 ^ suc w - 1 - 1) ≡ a / 2 * 2
    value = omega (
      arith,
      bit_and-halve a (2 ^ suc w - 1 - 1),
      pow-suc 2 w,
      one-le-pow w 2,
      ap (λ (m : ℕ). bit_and (a / 2) m) half,
      bit_and-ones w (a / 2) (omega (arith, pow-suc 2 w)),
    )

    go : (i : ℕ) → bit (bit_and a (not_bit (suc w) zero)) i ≡ (not (i == 0) && bit a i)
    go zero = rw value (ground arith)
    go (suc i) =
        let e : bit_and a (2 ^ suc w - 1 - 1) / 2 ≡ a / 2 = omega (arith, value) in
        rw e (ground arith)
bit-bit_and (suc w) a (suc k) zero h lt =
    ground (arith, bit_and-halve a (not_bit (suc w) (suc k)), low-not_bit w k)
bit-bit_and (suc w) a (suc k) (suc i) h lt =
    let e : bit_and a (not_bit (suc w) (suc k)) / 2 ≡ bit_and (a / 2) (not_bit w k) = omega (
      arith,
      bit_and-halve a (not_bit (suc w) (suc k)),
      ap (λ (m : ℕ). bit_and (a / 2) m) (half-not_bit w k (omega arith)),
    ) in
    rw e (ground (arith, bit-bit_and w (a / 2) k i (omega (arith, pow-suc 2 w)) (omega arith)))

-- Writes of one bit stay in a word of `w` bits.
pub bit_or-lt : (w a k : ℕ) → a < 2 ^ w → k < w → bit_or a (2 ^ k) < 2 ^ w
bit_or-lt zero a k h lt = absurd (omega arith)
bit_or-lt (suc w) a zero h lt = omega (arith, bit_or-one a, pow-suc 2 w)
bit_or-lt (suc w) a (suc k) h lt = omega (
  arith,
  pow-suc 2 w,
  half-bit_or a k,
  bit_or-lt w (a / 2) k (omega (arith, pow-suc 2 w)) (omega arith),
)

bit_and-le_below : (bound a b : ℕ) → a < bound → bit_and a b ≤ a
bit_and-le_below zero a b h = absurd (omega arith)
bit_and-le_below (suc bound) zero b h = simp bit_and-bitwise (omega arith)
bit_and-le_below (suc bound) (suc a) b h =
    omega (arith, bit_and-halve (suc a) b, bit_and-le_below bound (suc a / 2) (b / 2) (omega arith))

pub bit_and-le : (a b : ℕ) → bit_and a b ≤ a
bit_and-le a b = bit_and-le_below (suc a) a b (omega arith)

-- `word & (1 << k)` is zero exactly if bit `k` is clear.
pub bit_and-mask : (a k : ℕ) → bit_and a (2 ^ k) ≡ (if bit a k then 2 ^ k else 0)
bit_and-mask a zero = ground (arith, bit_and-halve a 1, bit_and-zero (a / 2))
bit_and-mask a (suc k) =
    let e : 2 ^ suc k / 2 ≡ 2 ^ k = omega (arith, pow-suc 2 k) in
    ground (
      arith,
      bit_and-halve a (2 ^ suc k),
      pow-suc 2 k,
      ap (λ (m : ℕ). bit_and (a / 2) m) e,
      bit_and-mask (a / 2) k,
    )

-- `u64::trailing_zeros` of a word of `w` bits: `w` for the word 0.
unfoldable pub trailing_zeros : ℕ → ℕ → ℕ
trailing_zeros zero a = 0
trailing_zeros (suc w) a = if a % 2 == 1 then 0 else suc (trailing_zeros w (a / 2))

-- For a word that is not 0 it is the lowest bit that is set.
pub trailing_zeros_lem :
    (w a : ℕ) → a < 2 ^ w → a ≢ 0 → (trailing_zeros w a < w) × (bit a (trailing_zeros w a) ≡ true)
unfolding trailing_zeros
trailing_zeros_lem zero a h ne = absurd (omega arith)
trailing_zeros_lem (suc w) a h ne =
    let ih : (a / 2 ≢ 0)
        → (trailing_zeros w (a / 2) < w) × (bit (a / 2) (trailing_zeros w (a / 2)) ≡ true) =
      trailing_zeros_lem w (a / 2) (omega (arith, pow-suc 2 w)) in
    elim (Bool-cases (a % 2 == 1)) [
      | inl odd ↦ rw odd (omega arith, odd)
      | inr even ↦ rw even (let (lt, set) = ih (ground arith) in (omega arith, set))
    ]

pub trailing_zeros-least : (w a i : ℕ) → i < trailing_zeros w a → bit a i ≡ false
unfolding trailing_zeros
trailing_zeros-least zero a i h = absurd (omega arith)
trailing_zeros-least (suc w) a zero h = ground arith
trailing_zeros-least (suc w) a (suc i) h = ground (arith, trailing_zeros-least w (a / 2) i)

pub zero-bit : (i : ℕ) → bit 0 i ≡ false
zero-bit zero = refl
zero-bit (suc i) = zero-bit i

pub bit-lt : (w a i : ℕ) → a < 2 ^ w → bit a i ≡ true → i < w
bit-lt zero a i h b =
    let e : a ≡ 0 = omega arith in
    let clear : bit a i ≡ false = subst (λ (n : ℕ). bit n i ≡ false) (sym e) (zero-bit i) in cc
bit-lt (suc w) a zero h b = omega arith
bit-lt (suc w) a (suc i) h b =
    let below : i < w = bit-lt w (a / 2) i (omega (arith, pow-suc 2 w)) b in omega arith

-- A word with no bit set is 0.
pub eq-zero_of_bits : (w a : ℕ) → a < 2 ^ w → ((i : ℕ) → bit a i ≡ false) → a ≡ 0
eq-zero_of_bits zero a h clear = omega arith
eq-zero_of_bits (suc w) a h clear =
    ground
      (arith, clear 0, eq-zero_of_bits w (a / 2) (omega (arith, pow-suc 2 w)) (λ i. clear (suc i)))

-- `word & !(2^k - 1)` rounds down to a multiple of 2^k.
pub bit_and_round_down :
    (w k a : ℕ) → a < 2 ^ w → k ≤ w → bit_and a (2 ^ w - 2 ^ k) ≡ a / 2 ^ k * 2 ^ k
bit_and_round_down w zero a h le = omega (arith, bit_and-ones w a h)
bit_and_round_down zero (suc k) a h le = absurd (omega arith)
bit_and_round_down (suc w) (suc k) a h le =
    let half : (2 ^ suc w - 2 ^ suc k) / 2 ≡ 2 ^ w - 2 ^ k =
      omega (arith, pow-suc 2 w, pow-suc 2 k) in
    let quotient : a / 2 ^ suc k ≡ a / 2 / 2 ^ k =
      ap (λ (m : ℕ). a / m) (pow-suc 2 k ∙ mul_comm (2 ^ k) 2)
      ∙ sym (div-div-eq-div-mul a 2 (2 ^ k)) in
    rw quotient (
      omega (
        arith,
        bit_and-halve a (2 ^ suc w - 2 ^ suc k),
        pow-suc 2 w,
        pow-suc 2 k,
        ap (λ (m : ℕ). bit_and (a / 2) m) half,
        ap (λ (m : ℕ). a / 2 / 2 ^ k * m) (pow-suc 2 k),
        bit_and_round_down w k (a / 2) (omega (arith, pow-suc 2 w)) (omega arith),
      ))
