-- ===== src/Prelude/Int.antt =====
-- Signed integers over the native numbers, as far as the drivers compute with them.
use Prim.Native.Nat.{ℕ, suc}

-- `negsuc n` is -(n + 1).
pub data ℤ : Type 0 where
  pos : ℕ → ℤ
  negsuc : ℕ → ℤ

-- The absolute value.
abbrev pub nat_abs : ℤ → ℕ
nat_abs (pos n) = n
nat_abs (negsuc n) = suc n
