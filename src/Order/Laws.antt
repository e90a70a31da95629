-- ===== src/Order/Laws.antt =====
-- The two orders of the crate, and the default `mask`, keep the invariants of `BitOrder`.
use bitvec_sgx.Base.{ℕ, zero, suc, ◌-◌, ◌*◌, ◌/◌, ◌^◌, ◌≤◌, ◌<◌, ◌≡◌, refl, arith, ap}
use native.Mathlib.Nat.{mod-eq_of_lt, mul-one, one-mul, sub-zero, suc-sub-suc, mul-div_cancel}
use bitvec_sgx.Bits.{pow2, pow2_pos}
use bitvec_sgx.Store.{BitStore, bits, mask, shl, shr, u8, u16, u32, u64, usize}
use bitvec_sgx.Order.{IsBitOrder, default_mask, msb0, lsb0}

pub pow2_lt : (i n : ℕ) → i < n → 2 ^ i < 2 ^ n
pow2_lt i zero h = absurd (omega arith)
pow2_lt zero (suc n) h = omega (arith, pow2 n, pow2_pos n)
pow2_lt (suc i) (suc n) h = omega (arith, pow2 n, pow2 i, pow2_lt i n)

-- `T::from(1) << i` is in range.
pub shl-one : (t : BitStore) (i : ℕ) → i < bits t → shl t 1 i ≡ 2 ^ i
shl-one t i h = rw (one-mul, mod-eq_of_lt h) (mod-eq_of_lt (pow2_lt i (bits t) h))

pub pow2_split : (i n : ℕ) → i ≤ n → 2 ^ n ≡ 2 ^ (n - i) * 2 ^ i
pow2_split zero n h = rw (sub-zero, mul-one)
pow2_split (suc i) zero h = absurd (omega arith)
pow2_split (suc i) (suc n) h =
    rw suc-sub-suc (
      omega (arith, pow2 n, pow2_split i n (omega arith), ap (λ (x : ℕ). 2 ^ (n - i) * x) (pow2 i)))

-- The most significant bit, shifted down.
pow2_shr : (i n : ℕ) → i ≤ n → 2 ^ n / 2 ^ i ≡ 2 ^ (n - i)
pow2_shr i n h = rw (pow2_split i n h) (mul-div_cancel (2 ^ (n - i)) (pow2_pos i))

msb0_mask : (t : BitStore) (i : ℕ) → i < bits t → shr t (shl t 1 (mask t)) i ≡ 2 ^ (mask t - i)
msb0_mask u8 i h = rw (mod-eq_of_lt h) (pow2_shr i 7 (omega arith))
msb0_mask u16 i h = rw (mod-eq_of_lt h) (pow2_shr i 15 (omega arith))
msb0_mask u32 i h = rw (mod-eq_of_lt h) (pow2_shr i 31 (omega arith))
msb0_mask u64 i h = rw (mod-eq_of_lt h) (pow2_shr i 63 (omega arith))
msb0_mask usize i h = rw (mod-eq_of_lt h) (pow2_shr i 63 (omega arith))

-- `Lsb0` keeps the documented invariants of the trait: `at` stays below the width, is injective
-- and onto there, and `mask` is the one-hot value of `at`.
pub lsb0-IsBitOrder : IsBitOrder lsb0
lsb0-IsBitOrder = record {
  at_lt = λ t i h. h;
  at_injective = λ t i j p q e. e;
  at_onto = λ t p h. (p, h, refl);
  one_hot = λ t i h. shl-one t i h;
}

-- `Msb0` keeps the documented invariants of the trait: `at` stays below the width, is injective
-- and onto there, and `mask`, computed by a shift of the top bit, is the one-hot value of `at`.
pub msb0-IsBitOrder : IsBitOrder msb0
msb0-IsBitOrder = record {
  at_lt = λ t i h. omega arith;
  at_injective = λ t i j p q e. omega arith;
  at_onto = λ t p h. (mask t - p, omega arith, omega arith);
  one_hot = λ t i h. msb0_mask t i h;
}

-- The default `mask` of the trait is the one-hot value of `at`, wherever `at` stays below the
-- width.
pub default_mask_lem :
    (at : BitStore → ℕ → ℕ) (t : BitStore) (i : ℕ)
    → at t i < bits t
    → default_mask at t i ≡ 2 ^ at t i
unfolding default_mask
default_mask_lem at t i h = shl-one t (at t i) h
