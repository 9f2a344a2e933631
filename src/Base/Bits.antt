-- ===== src/Base/Bits.antt =====
-- `hi << 8 | lo` on two bytes is a sum: bit_or by its lowest digit, eight times.
use Prim.Native.Nat.{
  ℕ, zero, suc, ◌+◌, ◌*◌, ◌/◌, ◌%◌, ◌≤◌, ◌<◌, max, bit_or, digits, bit_or-bitwise,
}
use mathlib.Core.Path.{◌≡◌, refl, ap}
use native.Mathlib.Omega.{arith}

abbrev or_digits : ℕ → ℕ → ℕ → ℕ
or_digits n a b = digits (λ b. b) max n a b

or_digits_fuel : (n m a b : ℕ) → a ≤ n → a ≤ m → or_digits n a b ≡ or_digits m a b
or_digits_fuel zero zero a b p q = refl
or_digits_fuel zero (suc m) zero b p q = refl
or_digits_fuel zero (suc m) (suc a) b p q = absurd (omega arith)
or_digits_fuel (suc n) zero zero b p q = refl
or_digits_fuel (suc n) zero (suc a) b p q = absurd (omega arith)
or_digits_fuel (suc n) (suc m) zero b p q = refl
or_digits_fuel (suc n) (suc m) (suc a) b p q =
    omega (arith, or_digits_fuel n m (suc a / 2) (b / 2) (omega arith) (omega arith))

zero-bit_or : (b : ℕ) → bit_or 0 b ≡ b
zero-bit_or b = bit_or-bitwise 0 b

bit_or_step : (a b : ℕ) → bit_or a b ≡ bit_or (a / 2) (b / 2) * 2 + max (a % 2) (b % 2)
bit_or_step zero b = omega (arith, zero-bit_or b, zero-bit_or (b / 2))
bit_or_step (suc a) b = omega (
  arith,
  bit_or-bitwise (suc a) b,
  bit_or-bitwise (suc a / 2) (b / 2),
  or_digits_fuel a (suc a / 2) (suc a / 2) (b / 2) (omega arith) (omega arith),
)

bit_or-zero_fuel : (n a : ℕ) → a ≤ n → bit_or a 0 ≡ a
bit_or-zero_fuel n zero h = refl
bit_or-zero_fuel zero (suc a) h = absurd (omega arith)
bit_or-zero_fuel (suc n) (suc a) h =
    omega (arith, bit_or_step (suc a) 0, bit_or-zero_fuel n (suc a / 2) (omega arith))

halved : (a b : ℕ) → bit_or a (b / 2) ≡ a + b / 2 → bit_or (a * 2) b ≡ a * 2 + b
halved a b h = omega (arith, bit_or_step (a * 2) b, ap (λ k. bit_or k (b / 2)) half_double, h)
  where
    half_double : a * 2 / 2 ≡ a
    half_double = omega arith

abbrev shifted : ℕ → ℕ → ℕ
shifted zero a = a
shifted (suc k) a = shifted k a * 2

join : (k hi lo : ℕ) → lo < shifted k 1 → bit_or (shifted k hi) lo ≡ shifted k hi + lo
join zero hi lo h =
    omega (arith, bit_or-zero_fuel hi hi (omega arith), ap (λ b. bit_or hi b) none_left)
  where
    none_left : lo ≡ 0
    none_left = omega arith
join (suc k) hi lo h = halved (shifted k hi) lo (join k hi (lo / 2) (omega arith))

pub join_bytes : (hi lo : ℕ) → lo < 256 → bit_or (hi * 256) lo ≡ hi * 256 + lo
join_bytes hi lo h = omega (arith, join 8 hi lo (omega arith), ap (λ a. bit_or a lo) eight)
  where
    eight : shifted 8 hi ≡ hi * 256
    eight = omega arith
