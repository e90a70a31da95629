-- ===== src/Bits/Test.antt =====
-- The `k`th bit of a word, counted from the least significant, and what each operation does to it.
use native.Mathlib.Nat.{
  pow-suc, one-le-pow, mul-one, sub-zero, zero-add, suc-sub-suc, div-one, suc-add,
  div-div-eq-div-mul,
}
use bitvec_sgx.Base.{ℕ, zero, suc, ◌+◌, ◌-◌, ◌*◌, ◌/◌, ◌%◌, ◌^◌, ◌≤◌, ◌<◌}
use bitvec_sgx.Base.{bit_and, bit_or, bit_xor, ◌≡◌, refl, sym, ◌∙◌, ap, arith, Bool, false, not}
use bitvec_sgx.Base.{◌&&◌, ◌||◌, ltb, ◌==◌, if◌then◌else◌}
use bitvec_sgx.Bits.Digits.{bit_and-halve, bit_or-halve, bit_xor-halve}

unfoldable pub bit : ℕ → ℕ → Bool
bit x zero = x % 2 == 1
bit x (suc k) = bit (x / 2) k

pub pow2 : (k : ℕ) → 2 ^ suc k ≡ 2 * 2 ^ k
pow2 k = omega (arith, pow-suc 2 k)

pub pow2_pos : (k : ℕ) → 1 ≤ 2 ^ k
pow2_pos k = one-le-pow k 2 (omega arith)

-- What a digit-wise operation does to its halves.
and_half : (a b : ℕ) → bit_and a b / 2 ≡ bit_and (a / 2) (b / 2)
and_half a b = omega (arith, bit_and-halve a b)

or_half : (a b : ℕ) → bit_or a b / 2 ≡ bit_or (a / 2) (b / 2)
or_half a b = omega (arith, bit_or-halve a b)

xor_half : (a b : ℕ) → bit_xor a b / 2 ≡ bit_xor (a / 2) (b / 2)
xor_half a b = omega (arith, bit_xor-halve a b)

pub bit-bit_and : (a b k : ℕ) → bit (bit_and a b) k ≡ bit a k && bit b k
unfolding bit
bit-bit_and a b zero = ground (arith, bit_and-halve a b)
bit-bit_and a b (suc k) = ap (λ x. bit x k) (and_half a b) ∙ bit-bit_and (a / 2) (b / 2) k

pub bit-bit_or : (a b k : ℕ) → bit (bit_or a b) k ≡ bit a k || bit b k
unfolding bit
bit-bit_or a b zero = ground (arith, bit_or-halve a b)
bit-bit_or a b (suc k) = ap (λ x. bit x k) (or_half a b) ∙ bit-bit_or (a / 2) (b / 2) k

pub bit-bit_xor : (a b k : ℕ) → bit (bit_xor a b) k ≡ (if bit a k then not (bit b k) else bit b k)
unfolding bit
bit-bit_xor a b zero = ground (arith, bit_xor-halve a b)
bit-bit_xor a b (suc k) = ap (λ x. bit x k) (xor_half a b) ∙ bit-bit_xor (a / 2) (b / 2) k

pub bit-zero : (k : ℕ) → bit 0 k ≡ false
unfolding bit
bit-zero zero = refl
bit-zero (suc k) = bit-zero k

-- A word of `n` bits has no bit from `n` on.
pub bit_beyond : (n x k : ℕ) → x < 2 ^ n → n ≤ k → bit x k ≡ false
unfolding bit
bit_beyond zero x k h le = let e : x ≡ 0 = omega arith in ap (λ y. bit y k) e ∙ bit-zero k
bit_beyond (suc n) x zero h le = absurd (omega arith)
bit_beyond (suc n) x (suc k) h le = bit_beyond n (x / 2) k (omega (arith, pow2 n)) (omega arith)

-- Words of `n` bits are equal if their bits are.
pub bit_ext : (n x y : ℕ) → x < 2 ^ n → y < 2 ^ n → ((k : ℕ) → k < n → bit x k ≡ bit y k) → x ≡ y
unfolding bit
bit_ext zero x y p q h = omega arith
bit_ext (suc n) x y p q h = ground (
  arith,
  h 0,
  bit_ext n (x / 2) (y / 2) (omega (arith, pow2 n)) (omega (arith, pow2 n))
      (λ k l. h (suc k) (omega arith)),
)

bit_cong : {x y : ℕ} (k : ℕ) → x ≡ y → bit x k ≡ bit y k
bit_cong k e = ap (λ x. bit x k) e

-- `2 ^ p` has one bit.
pub bit-pow2 : (p k : ℕ) → bit (2 ^ p) k ≡ (p == k)
unfolding bit
bit-pow2 zero zero = refl
bit-pow2 zero (suc k) = ground (arith, bit-zero k)
bit-pow2 (suc p) zero = ground (arith, pow2 p)
bit-pow2 (suc p) (suc k) =
    ground (arith, bit_cong {x = 2 ^ suc p / 2} {y = 2 ^ p} k (omega (arith, pow2 p)), bit-pow2 p k)

-- `x << s` and `x >> s`.
pub shl_half : (s x : ℕ) → x * 2 ^ suc s ≡ 2 * (x * 2 ^ s)
shl_half s x = omega (arith, ap (λ (t : ℕ). x * t) (pow2 s))

pub bit-shl : (s x k : ℕ) → bit (x * 2 ^ s) k ≡ (if ltb k s then false else bit x (k - s))
unfolding bit
bit-shl zero x k = rw (mul-one, sub-zero) (ground arith)
bit-shl (suc s) x zero = ground (arith, shl_half s x)
bit-shl (suc s) x (suc k) = rw suc-sub-suc (
    ground (
      arith,
      bit_cong {x = x * 2 ^ suc s / 2} {y = x * 2 ^ s} k (omega (arith, shl_half s x)),
      bit-shl s x k,
    ))

pub bit-shr : (s x k : ℕ) → bit (x / 2 ^ s) k ≡ bit x (s + k)
unfolding bit
bit-shr zero x k = rw (div-one, zero-add) refl
bit-shr (suc s) x k =
    bit_cong k (rw pow2 (sym (div-div-eq-div-mul x 2 (2 ^ s))))
    ∙ bit-shr s (x / 2) k
    ∙ ap (λ j. bit x j) (sym (suc-add s k))

-- The low `n` bits.
pub mod_half : (d x : ℕ) → 1 ≤ d → x % (2 * d) / 2 ≡ x / 2 % d
mod_half d x h = omega (arith, ap (λ (t : ℕ). d * t) (div-div-eq-div-mul x 2 d))

pub mod_low : (d x : ℕ) → 1 ≤ d → x % (2 * d) % 2 ≡ x % 2
mod_low d x h = omega arith

pub bit-mod : (n x k : ℕ) → bit (x % 2 ^ n) k ≡ ltb k n && bit x k
unfolding bit
bit-mod zero x k = ground (arith, bit_cong {x = x % 1} {y = 0} k (omega arith), bit-zero k)
bit-mod (suc n) x zero = ground (arith, pow2 n, pow2_pos n, mod_low (2 ^ n) x)
bit-mod (suc n) x (suc k) = ground (
  arith,
  bit_cong {x = x % 2 ^ suc n / 2} {y = x / 2 % 2 ^ n} k
      (rw (pow2 n) (mod_half (2 ^ n) x (pow2_pos n))),
  bit-mod n (x / 2) k,
)

-- `!x` on `n` bits.
pub bit-not : (n x k : ℕ) → x < 2 ^ n → bit (2 ^ n - 1 - x) k ≡ ltb k n && not (bit x k)
unfolding bit
bit-not zero x k h = ground (arith, bit_cong {x = 0 - x} {y = 0} k (omega arith), bit-zero k)
bit-not (suc n) x zero h = ground (arith, pow2 n)
bit-not (suc n) x (suc k) h = ground (
  arith,
  bit_cong {x = (2 ^ suc n - 1 - x) / 2} {y = 2 ^ n - 1 - x / 2} k (omega (arith, pow2 n)),
  bit-not n (x / 2) k (omega (arith, pow2 n)),
)
