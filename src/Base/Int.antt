-- ===== src/Base/Int.antt =====
-- Signed 64-bit quantities that the source compares with zero, as integers.
use Prim.Native.Nat.{ℕ}

-- `negsuc n` is -(n + 1).
pub data ℤ : Type 0 where
  pos : ℕ → ℤ
  negsuc : ℕ → ℤ
