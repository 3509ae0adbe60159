-- ===== src/Prelude/Int.antt =====
-- Signed integers over the native numbers, and the reading of a 32-bit word as an `int32`.
use gps_data_receiver.Prelude.Tests.{ltb, if◌then◌else◌}
use gps_data_receiver.Prelude.Tests.{◌==◌}
use mathlib.Core.Bool.{Bool, false}
use Prim.Native.Nat.{ℕ, ◌-◌, ◌^◌}

-- `negsuc n` is -(n + 1).
pub data ℤ : Type 0 where
  pos : ℕ → ℤ
  negsuc : ℕ → ℤ

-- int32(w) for a word below 2 ^ 32.
unfoldable pub int32 : ℕ → ℤ
int32 w = if ltb w (2 ^ 31) then pos w else negsuc (2 ^ 32 - w - 1)

abbrev pub is_zero : ℤ → Bool
is_zero (pos n) = n == 0
is_zero (negsuc n) = false
