-- ===== src/Prelude/Words.antt =====
-- 32-bit words: the conversions between `int32_t` and `uint32_t`, which C++ takes modulo 2^32.
use casual_game.Prelude.Tests.{ltb, if◌then◌else◌}
use casual_game.Prelude.Int.{ℤ, pos, negsuc, ◌≤ℤ◌}
use Prim.Native.Nat.{ℕ, ◌-◌, ◌%◌, ◌^◌}
use mathlib.Core.Path.{◌≡◌, refl}
use native.Mathlib.Omega.{arith}

unfoldable pub to_u32 : ℤ → ℕ
to_u32 (pos n) = n % 2 ^ 32
to_u32 (negsuc n) = 2 ^ 32 - 1 - n % 2 ^ 32

unfoldable pub to_i32 : ℕ → ℤ
to_i32 w = if ltb w (2 ^ 31) then pos w else negsuc (2 ^ 32 - 1 - w)

-- A value of `int32_t` survives the way through `uint32_t`.
pub to_i32-to_u32 :
    (z : ℤ) → negsuc (2 ^ 31 - 1) ≤ℤ z → z ≤ℤ pos (2 ^ 31 - 1) → to_i32 (to_u32 z) ≡ z
unfolding to_i32 to_u32
to_i32-to_u32 (pos n) lo hi = ground arith
to_i32-to_u32 (negsuc n) lo hi = ground arith

pub to_i32-zero : to_i32 0 ≡ pos 0
unfolding to_i32
to_i32-zero = refl
