-- ===== src/Base/Int.antt =====
-- The integers that `scanf("%d")` delivers. `negsuc n` is -(n + 1).
use Prim.Native.Nat.{ℕ}

pub data ℤ : Type 0 where
  pos : ℕ → ℤ
  negsuc : ℕ → ℤ
