-- ===== src/Prelude/Int.antt =====
-- Go's signed integers over the native numbers, and the conversion to `uint32`.
use Prim.Native.Nat.{ℕ, suc, ◌-◌, ◌%◌, ◌^◌, ◌<◌}
use mathlib.Core.Path.{◌≡◌}
use native.Mathlib.Omega.{arith}

-- `negsuc n` is -(n + 1).
pub data ℤ : Type 0 where
  pos : ℕ → ℤ
  negsuc : ℕ → ℤ

abbrev pub u32_mod : ℕ
u32_mod = 2 ^ 32

-- `uint32(i)` keeps the low 32 bits of the two's complement.
unfoldable pub to_u32 : ℤ → ℕ
to_u32 (pos n) = n % u32_mod
to_u32 (negsuc n) = u32_mod - suc (n % u32_mod)

pub to_u32-lt : (i : ℤ) → to_u32 i < u32_mod
unfolding to_u32
to_u32-lt (pos n) = omega arith
to_u32-lt (negsuc n) = omega arith

-- A value that fits is kept.
pub to_u32_exact : (n : ℕ) → n < u32_mod → to_u32 (pos n) ≡ n
unfolding to_u32
to_u32_exact n h = omega arith
