-- ===== src/Prelude/Int.antt =====
-- Python's integers, where the program only passes them on.
use Prim.Native.Nat.{ℕ}

-- `negsuc n` is -(n + 1).
pub data ℤ : Type 0 where
  negsuc : ℕ → ℤ
  pos : ℕ → ℤ
