-- ===== src/Prelude/Int.antt =====
-- Signed integers over the native numbers, under the library's names: `ssize_t` results and
-- file descriptors, of which the code asks only whether they are negative.
use Prim.Native.Nat.{ℕ}

-- `negsuc n` is -(n + 1).
pub data ℤ : Type 0 where
  pos : ℕ → ℤ
  negsuc : ℕ → ℤ
