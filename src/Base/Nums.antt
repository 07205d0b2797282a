-- ===== src/Base/Nums.antt =====
-- JavaScript numbers, as far as the source tells them apart.
use Prim.Native.Nat.{ℕ}
use mathlib.Core.Bool.{Bool}

-- `negsuc n` is -(n + 1).
pub data ℤ : Type 0 where
  pos : ℕ → ℤ
  negsuc : ℕ → ℤ

-- `fraction z` is a number that is no integer, with `Math.trunc` equal to `z`; `infinite true` is
-- -Infinity. The sign of zero is not kept.
pub data Num : Type 0 where
  nan : Num
  infinite : Bool → Num
  integer fraction : ℤ → Num
