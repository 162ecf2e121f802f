-- ===== src/Base/Panics.antt =====
-- What a Rust function returns when it may panic, and the wrap-around of the unsigned types.
-- The release profile is modelled: `+`, `-`, `*` and `as` wrap, a division by zero panics.
use Prim.Native.Nat.{ℕ, ◌+◌, ◌-◌, ◌/◌, ◌%◌, ◌^◌}
use mathlib.Core.Bool.{Bool, true, false}
use nea.Base.Tests.{◌==◌, if◌then◌else◌}

-- Why a thread panics.
pub data Panic : Type 0 where
  assertion_failed divide_by_zero out_of_bounds arithmetic_overflow : Panic
  todo_reached unreachable_reached unwrap_failed explicit_panic : Panic
  memory_exhausted : Panic

pub data Result {ℓ} (A : Type ℓ) : Type ℓ where
  ok : A → Result A
  panic : Panic → Result A

infixl 5 ◌>>=◌ ◌>>◌
abbrev pub ◌>>=◌ {ℓ κ} : {A : Type ℓ} {B : Type κ} → Result A → (A → Result B) → Result B
ok a >>= f = f a
panic p >>= f = panic p

abbrev pub ◌>>◌ {ℓ} : {B : Type ℓ} → Result (Unit {0}) → Result B → Result B
m >> k = m >>= λ _. k

-- `assert!`, with the panic that a failure raises.
abbrev pub ensure : Bool → Panic → Result (Unit {0})
ensure true p = ok tt
ensure false p = panic p

abbrev pub u32 : ℕ → ℕ
u32 n = n % 2 ^ 32

abbrev pub u64 : ℕ → ℕ
u64 n = n % 2 ^ 64

abbrev pub sub32 : ℕ → ℕ → ℕ
sub32 a b = (a + 2 ^ 32 - b % 2 ^ 32) % 2 ^ 32

abbrev pub sub64 : ℕ → ℕ → ℕ
sub64 a b = (a + 2 ^ 64 - b % 2 ^ 64) % 2 ^ 64

-- `a / b` and `a % b` of unsigned integers.
abbrev pub checked_div : ℕ → ℕ → Result ℕ
checked_div a b = if b == 0 then panic divide_by_zero else ok (a / b)

abbrev pub checked_rem : ℕ → ℕ → Result ℕ
checked_rem a b = if b == 0 then panic divide_by_zero else ok (a % b)
