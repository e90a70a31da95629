-- ===== src/Store.antt =====
-- src/store.rs: the element types that back a bit slice, and their constants.
pub mod Element
use bitvec_sgx.Base.{
  ℕ, zero, suc, ◌+◌, ◌-◌, ◌*◌, ◌/◌, ◌%◌, ◌^◌, ◌!=◌, ◌==◌, to_ℕ, if◌then◌else◌, ◌≡◌, refl,
}

-- The sealed implementors of `trait BitStore`, on a target with 64-bit pointers.
pub data BitStore : Type 0 where
  u8 u16 u32 u64 usize : BitStore

-- `size_of::<T>()`.
abbrev pub size_of : BitStore → ℕ
size_of u8 = 1
size_of u16 = 2
size_of u32 = 4
size_of u64 = 8
size_of usize = 8

-- The number of low zero bits, of at most `w`.
unfoldable pub trailing_zeros : ℕ → ℕ → ℕ
trailing_zeros zero x = 0
trailing_zeros (suc w) x = if x % 2 == 0 then suc (trailing_zeros w (x / 2)) else 0

abbrev pub bits : BitStore → ℕ
bits t = size_of t * 8

abbrev pub indx : BitStore → ℕ
indx u8 = 3
indx u16 = 4
indx u32 = 5
indx u64 = 6
indx usize = 6

-- `T::INDX` is the number of trailing zeros of `T::BITS`.
indx-trailing_zeros : (t : BitStore) → indx t ≡ trailing_zeros 8 (bits t)
unfolding trailing_zeros
indx-trailing_zeros u8 = refl
indx-trailing_zeros u16 = refl
indx-trailing_zeros u32 = refl
indx-trailing_zeros u64 = refl
indx-trailing_zeros usize = refl

abbrev pub mask : BitStore → ℕ
mask t = bits t - 1

-- `T::FALSE` and `T::TRUE`, which is `!0`.
abbrev pub all_false : BitStore → ℕ
all_false t = 0

abbrev pub all_true : BitStore → ℕ
all_true t = 2 ^ bits t - 1

-- `!x` on a `T`.
abbrev pub not_word : BitStore → ℕ → ℕ
not_word t x = 2 ^ bits t - 1 - x

-- `x << k` and `x >> k` on a `T`, without overflow checks: the amount is taken modulo the width.
abbrev pub shl : BitStore → ℕ → ℕ → ℕ
shl t x k = x * 2 ^ (k % bits t) % 2 ^ bits t

abbrev pub shr : BitStore → ℕ → ℕ → ℕ
shr t x k = x / 2 ^ (k % bits t)

-- `elts::<T>(bits)`: how many elements hold so many bits.
unfoldable pub elts : BitStore → ℕ → ℕ
elts t n = n / bits t + to_ℕ (n % bits t != 0)
