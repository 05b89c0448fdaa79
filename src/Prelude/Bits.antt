-- ===== src/Prelude/Bits.antt =====
-- `&` with a low mask and `|` of fields that do not overlap, as arithmetic.
use Prim.Native.Nat.{
  ℕ, zero, suc, ◌+◌, ◌-◌, ◌*◌, ◌/◌, ◌%◌, ◌^◌, ◌≤◌, ◌<◌, min, max, bit_and, bit_or, digits,
  bit_and-bitwise, bit_or-bitwise,
}
use mathlib.Core.Path.{◌≡◌, refl, ap}
use native.Mathlib.Nat.{pow-suc, one-le-pow}
use native.Mathlib.Omega.{arith}

-- Enough fuel makes no difference to the digit recursion of `&`.
and_fuel :
    (n m a b : ℕ) → a ≤ n → a ≤ m → digits (λ _. zero) min n a b ≡ digits (λ _. zero) min m a b
and_fuel zero zero a b p q = refl
and_fuel zero (suc m) zero b p q = refl
and_fuel zero (suc m) (suc a) b p q = absurd (omega arith)
and_fuel (suc n) zero zero b p q = refl
and_fuel (suc n) zero (suc a) b p q = absurd (omega arith)
and_fuel (suc n) (suc m) zero b p q = refl
and_fuel (suc n) (suc m) (suc a) b p q =
    omega (arith, and_fuel n m (suc a / 2) (b / 2) (omega arith) (omega arith))

or_fuel : (n m a b : ℕ) → a ≤ n → a ≤ m → digits (λ c. c) max n a b ≡ digits (λ c. c) max m a b
or_fuel zero zero a b p q = refl
or_fuel zero (suc m) zero b p q = refl
or_fuel zero (suc m) (suc a) b p q = absurd (omega arith)
or_fuel (suc n) zero zero b p q = refl
or_fuel (suc n) zero (suc a) b p q = absurd (omega arith)
or_fuel (suc n) (suc m) zero b p q = refl
or_fuel (suc n) (suc m) (suc a) b p q =
    omega (arith, or_fuel n m (suc a / 2) (b / 2) (omega arith) (omega arith))

and_step : (a b : ℕ) → bit_and a b ≡ bit_and (a / 2) (b / 2) * 2 + min (a % 2) (b % 2)
and_step zero b = omega (arith, bit_and-bitwise 0 b, bit_and-bitwise 0 (b / 2))
and_step (suc a) b = omega (
  arith,
  bit_and-bitwise (suc a) b,
  bit_and-bitwise (suc a / 2) (b / 2),
  and_fuel a (suc a / 2) (suc a / 2) (b / 2) (omega arith) (omega arith),
)

or_step : (a b : ℕ) → bit_or a b ≡ bit_or (a / 2) (b / 2) * 2 + max (a % 2) (b % 2)
or_step zero b = omega (arith, bit_or-bitwise 0 b, bit_or-bitwise 0 (b / 2))
or_step (suc a) b = omega (
  arith,
  bit_or-bitwise (suc a) b,
  bit_or-bitwise (suc a / 2) (b / 2),
  or_fuel a (suc a / 2) (suc a / 2) (b / 2) (omega arith) (omega arith),
)

zero-bit_and : (b : ℕ) → bit_and 0 b ≡ 0
zero-bit_and b = bit_and-bitwise 0 b

zero-bit_or : (b : ℕ) → bit_or 0 b ≡ b
zero-bit_or b = bit_or-bitwise 0 b

double-mul : (q k : ℕ) → q * 2 ^ suc k ≡ 2 * (q * 2 ^ k)
double-mul q k = omega (arith, ap (λ (t : ℕ). q * t) (pow-suc 2 k))

mask-bit_and_sum : (k q r : ℕ) → r < 2 ^ k → bit_and (2 ^ k - 1) (q * 2 ^ k + r) ≡ r
mask-bit_and_sum zero q r h = omega (arith, zero-bit_and (q * 2 ^ 0 + r))
mask-bit_and_sum (suc k) q r h = ground (
  arith,
  pow-suc 2 k,
  one-le-pow k 2,
  double-mul q k,
  and_step (2 ^ suc k - 1) (q * 2 ^ suc k + r),
  mask-bit_and_sum k q (r / 2),
)

-- A mask of `k` ones keeps the `k` low bits.
pub mask-bit_and : (k a : ℕ) → bit_and (2 ^ k - 1) a ≡ a % 2 ^ k
mask-bit_and k a = ground (arith, one-le-pow k 2, mask-bit_and_sum k (a / 2 ^ k) (a % 2 ^ k))

-- A field of `k` bits and one that starts above it do not meet.
pub bit_or_disjoint : (k a b : ℕ) → a < 2 ^ k → bit_or a (b * 2 ^ k) ≡ a + b * 2 ^ k
bit_or_disjoint zero zero b h = omega (arith, zero-bit_or (b * 2 ^ 0))
bit_or_disjoint zero (suc a) b h = absurd (omega arith)
bit_or_disjoint (suc k) a b h = ground (
  arith,
  double-mul b k,
  pow-suc 2 k,
  or_step a (b * 2 ^ suc k),
  bit_or_disjoint k (a / 2) b (omega (arith, pow-suc 2 k)),
)

bit_and-zero_fuel : (n a : ℕ) → a ≤ n → bit_and a 0 ≡ 0
bit_and-zero_fuel n zero h = zero-bit_and 0
bit_and-zero_fuel zero (suc a) h = absurd (omega arith)
bit_and-zero_fuel (suc n) (suc a) h =
    omega (arith, and_step (suc a) 0, bit_and-zero_fuel n (suc a / 2) (omega arith))

-- A mask of one bit keeps that bit.
pub bit_and-two_pow : (k q r : ℕ) → r < 2 ^ k → bit_and (q * 2 ^ k + r) (2 ^ k) ≡ q % 2 * 2 ^ k
bit_and-two_pow zero q r h =
    ground (
      arith,
      and_step (q * 2 ^ 0 + r) 1,
      bit_and-zero_fuel ((q + r) / 2) ((q + r) / 2) (omega arith),
    )
bit_and-two_pow (suc k) q r h = ground (
  arith,
  pow-suc 2 k,
  double-mul q k,
  double-mul (q % 2) k,
  and_step (q * 2 ^ suc k + r) (2 ^ suc k),
  bit_and-two_pow k q (r / 2),
)

or-le_fuel : (n a b : ℕ) → a ≤ n → a ≤ bit_or a b
or-le_fuel n zero b h = omega arith
or-le_fuel zero (suc a) b h = absurd (omega arith)
or-le_fuel (suc n) (suc a) b h =
    omega (arith, or_step (suc a) b, or-le_fuel n (suc a / 2) (b / 2) (omega arith))

-- No bit is lost.
pub bit_or-le : (a b : ℕ) → a ≤ bit_or a b
bit_or-le a b = or-le_fuel a a b (omega arith)

-- Numbers of `k` bits stay within `k` bits.
pub bit_or-lt : (k a b : ℕ) → a < 2 ^ k → b < 2 ^ k → bit_or a b < 2 ^ k
bit_or-lt zero zero b h i = omega (arith, zero-bit_or b)
bit_or-lt zero (suc a) b h i = absurd (omega arith)
bit_or-lt (suc k) a b h i = omega (
  arith,
  pow-suc 2 k,
  or_step a b,
  bit_or-lt k (a / 2) (b / 2) (omega (arith, pow-suc 2 k)) (omega (arith, pow-suc 2 k)),
)
