-- ===== src/Base/Int64.antt =====
-- Go's `int64`: integers that wrap at 2 ^ 63.
use Prim.Native.Nat.{ℕ, ◌+◌, ◌-◌, ◌%◌, ◌^◌, ◌<◌}
use mathlib.Core.Path.{◌≡◌}
use native.Mathlib.Omega.{arith}
use helper.Base.Tests.{ltb, if◌then◌else◌}
use helper.Base.Int.{ℤ, pos, negsuc, ◌+ℤ◌, ◌-ℤ◌}

-- The integer of a 64-bit pattern.
abbrev signed : ℕ → ℤ
signed u = if ltb u (2 ^ 63) then pos u else negsuc (2 ^ 64 - 1 - u)

unfoldable pub wrap64 : ℤ → ℤ
wrap64 (pos n) = signed (n % 2 ^ 64)
wrap64 (negsuc n) = signed (2 ^ 64 - 1 - n % 2 ^ 64)

infixl 65 ◌+64◌ ◌-64◌
unfoldable pub ◌+64◌ : ℤ → ℤ → ℤ
unfolding wrap64 ◌+ℤ◌
a +64 b = wrap64 (a +ℤ b)

unfoldable pub ◌-64◌ : ℤ → ℤ → ℤ
unfolding wrap64 ◌-ℤ◌
a -64 b = wrap64 (a -ℤ b)

-- Small sums do not wrap.
pub +64_small : (m n : ℕ) → m + n < 2 ^ 63 → pos m +64 pos n ≡ pos (m + n)
unfolding ◌+64◌
+64_small m n h = ground arith
