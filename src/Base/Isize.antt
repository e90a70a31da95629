-- ===== src/Base/Isize.antt =====
-- `isize` as an integer, on a target with 64-bit pointers: its range, its casts, and the
-- operations of the standard library that the crate uses on it.
use bitvec_sgx.Base.Int.{ℤ, pos, negsuc, pos_part, neg_part, ◌+ℤ◌}
use Prim.Native.Nat.{ℕ, ◌-◌, ◌/◌, ◌%◌, ◌^◌, ◌≤◌, ◌<◌}
use mathlib.Core.Bool.{Bool, true, false}
use bitvec_sgx.Base.Tests.{ltb, if◌then◌else◌}

-- `isize::MIN <= x <= isize::MAX`.
abbrev pub IsIsize : ℤ → Type 0
IsIsize x = (pos_part x < 2 ^ 63) × (neg_part x ≤ 2 ^ 63)

-- `x as usize` and `n as isize`.
abbrev pub as_usize : ℤ → ℕ
as_usize (pos n) = n
as_usize (negsuc n) = 2 ^ 64 - 1 - n

abbrev pub as_isize : ℕ → ℤ
as_isize n = if ltb n (2 ^ 63) then pos n else negsuc (2 ^ 64 - 1 - n)

-- `x as u8`.
abbrev pub as_u8 : ℤ → ℕ
as_u8 (pos n) = n % 2 ^ 8
as_u8 (negsuc n) = 255 - n % 2 ^ 8

-- `x >> k`, which keeps the sign.
abbrev pub shr_isize : ℤ → ℕ → ℤ
shr_isize (pos n) k = pos (n / 2 ^ k)
shr_isize (negsuc n) k = negsuc (n / 2 ^ k)

-- Addition in two's complement, and whether it left the range.
abbrev pub wrap_isize : ℤ → ℤ × Bool
wrap_isize (pos n) = if ltb n (2 ^ 63) then (pos n, false) else (as_isize (n % 2 ^ 64), true)
wrap_isize (negsuc n) =
    if ltb n (2 ^ 63) then (negsuc n, false) else (as_isize (2 ^ 64 - 1 - n % 2 ^ 64), true)

unfoldable pub overflowing_add : ℤ → ℤ → ℤ × Bool
unfolding ◌+ℤ◌
overflowing_add a b = wrap_isize (a +ℤ b)
