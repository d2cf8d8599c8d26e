-- ===== src/Base/Ints.antt =====
-- Integers, where the source subtracts or gives a sign a meaning.
use Prim.Native.Nat.{ℕ, ◌-◌}
use mathlib.Core.Bool.{Bool, false}
use sdim.Base.Tests.{leb, ltb, if◌then◌else◌}

pub data ℤ : Type 0 where
  pos negsuc : ℕ → ℤ

-- The difference of two natural numbers.
unfoldable pub minus : ℕ → ℕ → ℤ
minus a b = if leb b a then pos (a - b) else negsuc (b - a - 1)

-- The test z > n.
unfoldable pub above : ℤ → ℕ → Bool
above (pos m) n = ltb n m
above (negsuc m) n = false
