-- ===== src/Prelude/Integers.antt =====
-- Signed integers over the native numbers, and the conversions of C between integer widths.
use Prim.Native.Nat.{ℕ, ◌-◌, ◌%◌, ◌<◌}
use mathlib.Core.Path.{◌≡◌}
use mathlib.Core.Bool.{Bool, false}
use native.Mathlib.Omega.{arith}
use reachard.Prelude.Tests.{ltb, ◌==◌, if◌then◌else◌}

-- `negsuc n` is -(n + 1).
pub data ℤ : Type 0 where
  pos : ℕ → ℤ
  negsuc : ℕ → ℤ

-- The values of a 32-bit `int`.
abbrev pub IsInt32 : ℤ → Type 0
IsInt32 (pos n) = n < 2147483648
IsInt32 (negsuc n) = n < 2147483648

-- The values of a 64-bit `long`.
abbrev pub IsInt64 : ℤ → Type 0
IsInt64 (pos n) = n < 9223372036854775808
IsInt64 (negsuc n) = n < 9223372036854775808

-- Conversion to `int`: modulo 2 ^ 32, as the compiler documents it.
abbrev pub to_int32 : ℤ → ℤ
to_int32 (pos n) =
    let m = n % 4294967296 in if ltb m 2147483648 then pos m else negsuc (4294967295 - m)
to_int32 (negsuc n) =
    let m = n % 4294967296 in if ltb m 2147483648 then negsuc m else pos (4294967295 - m)

-- Conversion to `uint16_t`.
abbrev pub to_uint16 : ℤ → ℕ
to_uint16 (pos n) = n % 65536
to_uint16 (negsuc n) = 65535 - n % 65536

-- Conversion to `uint64_t`.
abbrev pub to_uint64 : ℤ → ℕ
to_uint64 (pos n) = n % 18446744073709551616
to_uint64 (negsuc n) = 18446744073709551615 - n % 18446744073709551616

abbrev pub is_zero : ℤ → Bool
is_zero (pos n) = n == 0
is_zero (negsuc n) = false

pub to_int32-IsInt32 : (z : ℤ) → IsInt32 (to_int32 z)
to_int32-IsInt32 (pos n) = ground arith
to_int32-IsInt32 (negsuc n) = ground arith

pub to_int32_id : (z : ℤ) → IsInt32 z → to_int32 z ≡ z
to_int32_id (pos n) h = ground arith
to_int32_id (negsuc n) h = ground arith
