-- ===== src/Prelude/Integer.antt =====
-- The integers over the native numbers.
use Prim.Native.Nat.{ℕ}
use mathlib.Core.Bool.{Bool, false}
use zero_comm.Prelude.Tests.{eqb}

pub data ℤ : Type 0 where
  pos negsuc : ℕ → ℤ

-- whether an integer is this number
abbrev pub equals : ℕ → ℤ → Bool
equals n (pos k) = eqb n k
equals n (negsuc k) = false
