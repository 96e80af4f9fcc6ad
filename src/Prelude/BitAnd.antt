-- ===== src/Prelude/BitAnd.antt =====
-- Laws of `bit_and` at variables, from the digit recursion that it stands for.
use Prim.Native.Nat.{ℕ, zero, suc, ◌+◌, ◌*◌, ◌/◌, ◌%◌, ◌≤◌, min, bit_and, digits, bit_and-bitwise}
use mathlib.Core.Path.{◌≡◌, refl}
use native.Mathlib.Omega.{arith}

abbrev meet_digits : ℕ → ℕ → ℕ → ℕ
meet_digits n a b = digits (λ b. zero) min n a b

meet_digits_fuel : (n m a b : ℕ) → a ≤ n → a ≤ m → meet_digits n a b ≡ meet_digits m a b
meet_digits_fuel zero zero a b p q = refl
meet_digits_fuel zero (suc m) zero b p q = refl
meet_digits_fuel zero (suc m) (suc a) b p q = absurd (omega arith)
meet_digits_fuel (suc n) zero zero b p q = refl
meet_digits_fuel (suc n) zero (suc a) b p q = absurd (omega arith)
meet_digits_fuel (suc n) (suc m) zero b p q = refl
meet_digits_fuel (suc n) (suc m) (suc a) b p q =
    omega (arith, meet_digits_fuel n m (suc a / 2) (b / 2) (omega arith) (omega arith))

zero-bit_and : (b : ℕ) → bit_and 0 b ≡ 0
zero-bit_and b = bit_and-bitwise 0 b

-- The lowest digit, and the rest.
pub bit_and-digit : (a b : ℕ) → bit_and a b ≡ bit_and (a / 2) (b / 2) * 2 + min (a % 2) (b % 2)
bit_and-digit zero b = omega (arith, zero-bit_and b, zero-bit_and (b / 2))
bit_and-digit (suc a) b = omega (
  arith,
  bit_and-bitwise (suc a) b,
  bit_and-bitwise (suc a / 2) (b / 2),
  meet_digits_fuel a (suc a / 2) (suc a / 2) (b / 2) (omega arith) (omega arith),
)

bit_and_comm_fuel : (n a b : ℕ) → a ≤ n → b ≤ n → bit_and a b ≡ bit_and b a
bit_and_comm_fuel zero zero zero p q = refl
bit_and_comm_fuel zero zero (suc b) p q = absurd (omega arith)
bit_and_comm_fuel zero (suc a) b p q = absurd (omega arith)
bit_and_comm_fuel (suc n) a b p q = omega (
  arith,
  bit_and-digit a b,
  bit_and-digit b a,
  bit_and_comm_fuel n (a / 2) (b / 2) (omega arith) (omega arith),
)

pub bit_and_comm : (a b : ℕ) → bit_and a b ≡ bit_and b a
bit_and_comm a b = bit_and_comm_fuel (a + b) a b (omega arith) (omega arith)

pub bit_and-zero : (a : ℕ) → bit_and a 0 ≡ 0
bit_and-zero a = omega (arith, bit_and_comm a 0, zero-bit_and a)
