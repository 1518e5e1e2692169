-- ===== src/Base/Integer.antt =====
-- Python's integers.
use Prim.Native.Nat.{ℕ}

-- `negsuc n` is -n - 1.
pub data ℤ : Type 0 where
  pos negsuc : ℕ → ℤ
