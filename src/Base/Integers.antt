-- ===== src/Base/Integers.antt =====
-- The integers over the native numbers, under the library's names.
use Prim.Native.Nat.{ℕ}

pub data ℤ : Type 0 where
  pos : ℕ → ℤ
  -- `negsuc n` is `-(n + 1)`.
  negsuc : ℕ → ℤ
