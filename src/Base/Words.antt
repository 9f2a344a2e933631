-- ===== src/Base/Words.antt =====
-- Signed results (`int`, `ssize_t`) and the 8-bit decrement and increment.
use Prim.Native.Nat.{ℕ, ◌+◌, ◌%◌}

-- `negsuc n` is -(n + 1).
pub data ℤ : Type 0 where
  pos : ℕ → ℤ
  negsuc : ℕ → ℤ

-- `x--` and `x++` on a `uint8_t`
abbrev pub pred8 : ℕ → ℕ
pred8 x = (x + 255) % 256

abbrev pub suc8 : ℕ → ℕ
suc8 x = (x + 1) % 256
