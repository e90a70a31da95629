-- ===== src/Bits/Words.antt =====
-- Words as numbers: bounds, masks, and the joining of disjoint fields, at every width.
use native.Mathlib.Nat.{mod-eq_of_lt}
use bitvec_sgx.Base.{ℕ, zero, suc, ◌+◌, ◌-◌, ◌*◌, ◌/◌, ◌%◌, ◌^◌, ◌≤◌, ◌<◌}
use bitvec_sgx.Base.{bit_and, bit_or, bit_xor, ◌≡◌, arith}
use bitvec_sgx.Base.{if◌then◌else◌}
use bitvec_sgx.Bits.Digits.{
  zero-bit_and, bit_and-zero, bit_or-zero, bit_and-halve, bit_or-halve, bit_xor-halve,
}
use bitvec_sgx.Bits.Test.{bit, pow2, pow2_pos, shl_half, mod_half, mod_low}

pub bit_or-lt : (n a b : ℕ) → a < 2 ^ n → b < 2 ^ n → bit_or a b < 2 ^ n
bit_or-lt zero a b p q =
    let e : a ≡ 0 = omega arith in let f : b ≡ 0 = omega arith in rw (e, f) (omega arith)
bit_or-lt (suc n) a b p q = omega (
  arith,
  bit_or-halve a b,
  pow2 n,
  bit_or-lt n (a / 2) (b / 2) (omega (arith, pow2 n)) (omega (arith, pow2 n)),
)

pub bit_xor-lt : (n a b : ℕ) → a < 2 ^ n → b < 2 ^ n → bit_xor a b < 2 ^ n
bit_xor-lt zero a b p q =
    let e : a ≡ 0 = omega arith in let f : b ≡ 0 = omega arith in rw (e, f) (omega arith)
bit_xor-lt (suc n) a b p q = omega (
  arith,
  bit_xor-halve a b,
  pow2 n,
  bit_xor-lt n (a / 2) (b / 2) (omega (arith, pow2 n)) (omega (arith, pow2 n)),
)

pub bit_and-lt : (n a b : ℕ) → a < 2 ^ n → bit_and a b < 2 ^ n
bit_and-lt zero a b p = let e : a ≡ 0 = omega arith in rw e (omega (arith, zero-bit_and b))
bit_and-lt (suc n) a b p =
    omega (arith, bit_and-halve a b, pow2 n, bit_and-lt n (a / 2) (b / 2) (omega (arith, pow2 n)))

-- A mask of `k` low ones keeps the remainder by `2 ^ k`.
pub bit_and-low : (k a : ℕ) → bit_and a (2 ^ k - 1) ≡ a % 2 ^ k
bit_and-low zero a = omega (arith, bit_and-zero a)
bit_and-low (suc k) a = ground (
  arith,
  bit_and-halve a (2 ^ suc k - 1),
  pow2 k,
  pow2_pos k,
  mod_half (2 ^ k) a,
  mod_low (2 ^ k) a,
  bit_and-low k (a / 2),
)

-- A mask of ones from bit `k` up clears the low `k` bits.
pub bit_and-high : (n k a : ℕ) → a < 2 ^ n → k ≤ n → bit_and a (2 ^ n - 2 ^ k) ≡ a - a % 2 ^ k
bit_and-high n zero a h l = ground (arith, bit_and-low n a, mod-eq_of_lt h)
bit_and-high zero (suc k) a h l = absurd (omega arith)
bit_and-high (suc n) (suc k) a h l = ground (
  arith,
  bit_and-halve a (2 ^ suc n - 2 ^ suc k),
  pow2 k,
  pow2_pos k,
  pow2 n,
  mod_half (2 ^ k) a,
  mod_low (2 ^ k) a,
  bit_and-high n k (a / 2) (omega (arith, pow2 n)),
)

-- Fields that do not overlap are joined by `|` as by `+`.
pub bit_or-fields : (k q r : ℕ) → r < 2 ^ k → bit_or (q * 2 ^ k) r ≡ q * 2 ^ k + r
bit_or-fields zero q r h = ground (arith, bit_or-zero q)
bit_or-fields (suc k) q r h = ground (
  arith,
  shl_half k q,
  bit_or-halve (q * 2 ^ suc k) r,
  bit_or-fields k q (r / 2) (omega (arith, pow2 k)),
)

-- One bit of a word, as the library reads it: `elt & mask != 0`.
pub bit_and-pow2 : (x p : ℕ) → bit_and x (2 ^ p) ≡ (if bit x p then 2 ^ p else 0)
unfolding bit
bit_and-pow2 x zero = ground (arith, bit_and-halve x 1, bit_and-zero (x / 2))
bit_and-pow2 x (suc p) = ground (arith, bit_and-halve x (2 ^ suc p), pow2 p, bit_and-pow2 (x / 2) p)
