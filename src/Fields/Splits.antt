-- ===== src/Fields/Splits.antt =====
-- Numbers cut at a bit: quotients and remainders by powers of two.
use native.Mathlib.Nat.{zero-add, suc-add, div-one, div-div-eq-div-mul}
use bitvec_sgx.Base.{ℕ, zero, suc, ◌+◌, ◌*◌, ◌/◌, ◌%◌, ◌^◌, ◌≡◌, sym, ◌∙◌, ap, arith}
use bitvec_sgx.Bits.{pow2, pow2_pos, mod_half, mod_low}

pub pow2_add : (n m : ℕ) → 2 ^ (n + m) ≡ 2 ^ n * 2 ^ m
pow2_add zero m = rw zero-add (omega arith)
pow2_add (suc n) m =
    rw suc-add
      (omega (arith, pow2 n, pow2 (n + m), pow2_add n m, ap (λ (x : ℕ). x * 2 ^ m) (pow2 n)))

-- The low bit and the rest.
pub mod_low_bit : (n v : ℕ) → v % 2 ^ suc n ≡ v % 2 + 2 * (v / 2 % 2 ^ n)
mod_low_bit n v =
    rw (pow2 n) (omega (arith, mod_half (2 ^ n) v (pow2_pos n), mod_low (2 ^ n) v (pow2_pos n)))

pub mod_split : (n m v : ℕ) → v % 2 ^ (n + m) ≡ v % 2 ^ n + 2 ^ n * (v / 2 ^ n % 2 ^ m)
mod_split zero m v = rw (zero-add, div-one) (omega arith)
mod_split (suc n) m v =
    let deeper : v / 2 ^ suc n ≡ v / 2 / 2 ^ n =
      rw (pow2 n) (sym (div-div-eq-div-mul v 2 (2 ^ n))) in
    rw (suc-add, deeper)
      (omega (
        arith,
        mod_low_bit (n + m) v,
        mod_low_bit n v,
        mod_split n m (v / 2),
        ap (λ (x : ℕ). x * (v / 2 / 2 ^ n % 2 ^ m)) (pow2 n),
      ))

-- The top bit and the rest.
pub mod_top_bit : (n v : ℕ) → v % 2 ^ suc n ≡ v % 2 ^ n + 2 ^ n * (v / 2 ^ n % 2)
mod_top_bit n v = ap (λ k. v % 2 ^ k) (omega arith) ∙ mod_split n 1 v
