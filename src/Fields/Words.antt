-- ===== src/Fields/Words.antt =====
-- What the masks and shifts of the field code do to the bits of an element.
use bitvec_sgx.Bits.{bit-shr}
use bitvec_sgx.Store.{shr}
use native.Mathlib.Nat.{mod-eq_of_lt, zero-mul}
use bitvec_sgx.Base.{
  ℕ, ◌+◌, ◌-◌, ◌*◌, ◌%◌, ◌^◌, ◌≤◌, ◌<◌, ◌≡◌, sym, ◌∙◌, ap, arith, false, bit_and, bit_or,
  if◌then◌else◌, ltb, ◌&&◌, min, inl, inr, ==_cases, ◌⊎◌,
}
use bitvec_sgx.Bits.{
  bit, bit_ext, bit-zero, bit-not, bit-mod, bit-shl, bit_and-low, pow2_pos, bit_or-fields,
  zero-bit_or,
}
use bitvec_sgx.Store.{BitStore, size_of, bits, all_true, not_word, shl, usize, u8, u16, u32, u64}
use bitvec_sgx.Order.Laws.{pow2_lt}
use bitvec_sgx.Fields.{mask_for, resize, shl_usize, push}
use bitvec_sgx.Fields.Splits.{pow2_add}

pub pow2_le : (n m : ℕ) → n ≤ m → 2 ^ n ≤ 2 ^ m
pow2_le n m h = ground (arith, pow2_lt n m, ap (λ (k : ℕ). 2 ^ k) {x = n} {y = m})

pub bits_le : (t : BitStore) → (bits t ≤ 64) × (8 ≤ bits t)
bits_le u8 = omega arith
bits_le u16 = omega arith
bits_le u32 = omega arith
bits_le u64 = omega arith
bits_le usize = omega arith

-- `T::TRUE`, `T::TRUE << n`, `T::TRUE >> n`.
pub bit-low_ones : (n p : ℕ) → bit (2 ^ n - 1) p ≡ ltb p n
bit-low_ones n p = ground (arith, bit-not n 0 p, pow2_pos n, bit-zero p)

pub bit-shl_word :
    (t : BitStore) (x n p : ℕ)
    → n < bits t
    → bit (shl t x n) p ≡ ltb p (bits t) && (if ltb p n then false else bit x (p - n))
bit-shl_word t x n p h =
    rw (mod-eq_of_lt h)
      (bit-mod (bits t) (x * 2 ^ n) p ∙ ap (λ b. ltb p (bits t) && b) (bit-shl n x p))

pub bit-shr_word : (t : BitStore) (x n p : ℕ) → n < bits t → bit (shr t x n) p ≡ bit x (n + p)
bit-shr_word t x n p h = rw (mod-eq_of_lt h) (bit-shr n x p)

pub shl-lt : (t : BitStore) (x n : ℕ) → shl t x n < 2 ^ bits t
shl-lt u8 x n = omega arith
shl-lt u16 x n = omega arith
shl-lt u32 x n = omega arith
shl-lt u64 x n = omega arith
shl-lt usize x n = omega arith

mask_for_short : (t : BitStore) (n : ℕ) → n < bits t → not_word t (shl t (all_true t) n) ≡ 2 ^ n - 1
mask_for_short t n h =
    bit_ext (bits t) _ _ (omega (arith, pow2_pos (bits t))) (omega (arith, pow2_lt n (bits t) h))
      (λ p l.
        bit-not (bits t) (shl t (all_true t) n) p (shl-lt t (all_true t) n)
        ∙ ground (
          arith,
          bit-shl_word t (all_true t) n p h,
          bit-low_ones (bits t) (p - n),
          bit-low_ones n p,
        ))

-- `mask_for` has the low `n` bits.
pub mask_for_lem : (t : BitStore) (n : ℕ) → n ≤ bits t → mask_for t n ≡ 2 ^ n - 1
unfolding mask_for
mask_for_lem t n h =
    let byte : n % 2 ^ 8 ≡ n = omega (arith, bits_le t) in
    let full : bits t ≤ n → all_true t ≡ 2 ^ n - 1 =
      λ g. let same : bits t ≡ n = omega arith in ap (λ k. 2 ^ k - 1) same in
    rw byte (ground (arith, mask_for_short t n))

pub masked : (t : BitStore) (x n : ℕ) → n ≤ bits t → bit_and x (mask_for t n) ≡ x % 2 ^ n
masked t x n h = ap (bit_and x) (mask_for_lem t n h) ∙ bit_and-low n x

-- `resize` truncates.
ℕ_le_total : (a b : ℕ) → (a ≤ b) ⊎ (b ≤ a)
ℕ_le_total a b = ground arith

pub resize_lem : (t u : BitStore) (x : ℕ) → x < 2 ^ bits t → resize t u x ≡ x % 2 ^ bits u
unfolding resize
resize_lem t u x h = elim (ℕ_le_total (size_of t) (size_of u)) [
  | inl le ↦
      let width : min (size_of t) (size_of u) * 8 ≡ bits t = omega arith in
      rw width (
        mod-eq_of_lt h
        ∙ sym (mod-eq_of_lt (omega (arith, pow2_le (bits t) (bits u) (omega arith)))))
  | inr ge ↦ let width : min (size_of t) (size_of u) * 8 ≡ bits u = omega arith in rw width
]

mul_lt : (c a b : ℕ) → 1 ≤ c → a < b → a * c < b * c
mul_lt c a b p h = grind arith

-- `accum << width | val`, while what is accumulated fits.
pub push_lem :
    (acc a w val : ℕ)
    → acc < 2 ^ a
    → a + w ≤ 64
    → 0 < w
    → val < 2 ^ w
    → push acc w val ≡ 2 ^ w * acc + val
unfolding push shl_usize
push_lem acc a w val h s p q = elim (==_cases w 64) [
  | inl e ↦
      let none : a ≡ 0 = omega arith in
      let zero_acc : acc ≡ 0 = omega (arith, ap (λ (k : ℕ). 2 ^ k) none) in
      let start : 0 * 2 ^ (w % 64) % 2 ^ 64 ≡ 0 = rw zero-mul in
      rw zero_acc (ap (λ x. bit_or x val) start ∙ zero-bit_or val ∙ omega arith)
  | inr ne ↦
      let short : w % 64 ≡ w = omega arith in
      let fits : acc * 2 ^ w < 2 ^ 64 = omega (
        arith,
        ap (λ (k : ℕ). k) (pow2_add a w),
        pow2_le (a + w) 64 s,
        mul_lt (2 ^ w) acc (2 ^ a) (pow2_pos w) h,
      ) in
      rw (short, mod-eq_of_lt fits) (bit_or-fields w acc val q ∙ omega arith)
]
