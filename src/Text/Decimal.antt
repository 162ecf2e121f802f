-- ===== src/Text/Decimal.antt =====
-- The decimal numbers that `{}` prints.
use nea.Base.{
  ℕ, zero, suc, ◌+◌, ◌-◌, ◌*◌, ◌/◌, ◌%◌, ◌^◌, ◌<◌, ◌≡◌, refl, arith, ltb, true, [], ◌∷◌, ◌++◌,
  if◌then◌else◌,
}
use nea.Text.Calls.{Text, avoids}
use nea.Text.Lines.{avoids-append, nonempty}

-- The digits of a number below 10 to the fuel.
unfoldable pub digits : ℕ → ℕ → Text
digits zero n = []
digits (suc fuel) n =
    let rest = digits fuel (n / 10) in
    if ltb n 10 then (48 + n) ∷ [] else rest ++ ((48 + n % 10) ∷ [])

-- An integer of 64 bits has at most 20 digits.
abbrev pub decimal : ℕ → Text
decimal n = digits 20 n

-- The number that digits stand for, behind those already read.
abbrev pub read : ℕ → Text → ℕ
read n [] = n
read n (c ∷ s) = read (n * 10 + (c - 48)) s

read-append : (n : ℕ) (s : Text) (c : ℕ) → read n (s ++ (c ∷ [])) ≡ read n s * 10 + (c - 48)
read-append n [] c = refl
read-append n (d ∷ s) c = read-append (n * 10 + (d - 48)) s c

pow_suc : (k : ℕ) → 10 ^ suc k ≡ 10 ^ k * 10
pow_suc k = omega arith

read-digits : (fuel n : ℕ) → n < 10 ^ fuel → read 0 (digits fuel n) ≡ n
unfolding digits
read-digits zero n lt = omega arith
read-digits (suc fuel) n lt = ground (
  arith,
  pow_suc fuel,
  read-digits fuel (n / 10),
  read-append 0 (digits fuel (n / 10)) (48 + n % 10),
)

pub read-decimal : (n : ℕ) → n < 2 ^ 64 → read 0 (decimal n) ≡ n
read-decimal n lt = read-digits 20 n (omega arith)

pub digits-avoids : (x fuel n : ℕ) → x < 48 → avoids x (digits fuel n) ≡ true
unfolding digits
digits-avoids x zero n lt = refl
digits-avoids x (suc fuel) n lt = ground (
  arith,
  digits-avoids x fuel (n / 10),
  avoids-append x (digits fuel (n / 10)) ((48 + n % 10) ∷ []),
)

ends_nonempty : (s : Text) (c : ℕ) → nonempty (s ++ (c ∷ [])) ≡ true
ends_nonempty [] c = refl
ends_nonempty (d ∷ s) c = refl

pub decimal-nonempty : (n : ℕ) → nonempty (decimal n) ≡ true
unfolding digits
decimal-nonempty n = ground (arith, ends_nonempty (digits 19 (n / 10)) (48 + n % 10))
