-- ===== src/Pointer/Tail.antt =====
-- `BitPtr::tail` computes by itself what `BitIdx::span` gives for the region.
use bitvec_sgx.Base.{
  ℕ, zero, suc, ◌+◌, ◌*◌, ◌%◌, ◌^◌, ◌≤◌, ◌<◌, ◌≡◌, refl, arith, bit_or, bit_and, ◌==◌, to_ℕ, ◌&&◌,
  if◌then◌else◌,
}
use bitvec_sgx.Bits.{bit_or-zero, zero-bit_or}
use bitvec_sgx.Store.{BitStore, bits, indx, mask, u8, u16, u32, u64, usize}
use bitvec_sgx.Indices.{span_idx}
use bitvec_sgx.Indices.Offset.{bit_and-mask}
use bitvec_sgx.Indices.Span.{span_idx-Spans, span_idx-zero}
use bitvec_sgx.Pointer.{BitPtr, max_bits, tail, head, len_of, pointer}
use bitvec_sgx.Pointer.Encoding.{IsBitPtr, IsRegion, parts-IsRegion}

-- The formula of `tail` over an index and a length.
tail_formula : BitStore → ℕ → ℕ → ℕ
tail_formula t h n =
    let at = bit_and ((h + n) % 2 ^ 64) (mask t) in
    if h == 0 && n == 0 then 0 else bit_or (to_ℕ (at == 0) * 2 ^ indx t) at % 2 ^ 8

tail-eq-formula : (t : BitStore) (p : BitPtr) → tail t p ≡ tail_formula t (head t p) (len_of t p)
unfolding tail tail_formula
tail-eq-formula t p = refl

formula-eq-span :
    (t : BitStore) (h n : ℕ) → h < bits t → n ≤ max_bits → tail_formula t h n ≡ (span_idx t h n).1
unfolding tail_formula
formula-eq-span u8 h zero p q =
    ground (arith, bit_and-mask u8 ((h + 0) % 2 ^ 64), zero-bit_or h, span_idx-zero u8 h)
formula-eq-span u8 h (suc n) p q = ground (
  arith,
  bit_and-mask u8 ((h + suc n) % 2 ^ 64),
  bit_or-zero 8,
  zero-bit_or ((h + suc n) % 8),
  span_idx-Spans u8 h (suc n),
)
formula-eq-span u16 h zero p q =
    ground (arith, bit_and-mask u16 ((h + 0) % 2 ^ 64), zero-bit_or h, span_idx-zero u16 h)
formula-eq-span u16 h (suc n) p q = ground (
  arith,
  bit_and-mask u16 ((h + suc n) % 2 ^ 64),
  bit_or-zero 16,
  zero-bit_or ((h + suc n) % 16),
  span_idx-Spans u16 h (suc n),
)
formula-eq-span u32 h zero p q =
    ground (arith, bit_and-mask u32 ((h + 0) % 2 ^ 64), zero-bit_or h, span_idx-zero u32 h)
formula-eq-span u32 h (suc n) p q = ground (
  arith,
  bit_and-mask u32 ((h + suc n) % 2 ^ 64),
  bit_or-zero 32,
  zero-bit_or ((h + suc n) % 32),
  span_idx-Spans u32 h (suc n),
)
formula-eq-span u64 h zero p q =
    ground (arith, bit_and-mask u64 ((h + 0) % 2 ^ 64), zero-bit_or h, span_idx-zero u64 h)
formula-eq-span u64 h (suc n) p q = ground (
  arith,
  bit_and-mask u64 ((h + suc n) % 2 ^ 64),
  bit_or-zero 64,
  zero-bit_or ((h + suc n) % 64),
  span_idx-Spans u64 h (suc n),
)
formula-eq-span usize h zero p q =
    ground (arith, bit_and-mask usize ((h + 0) % 2 ^ 64), zero-bit_or h, span_idx-zero usize h)
formula-eq-span usize h (suc n) p q = ground (
  arith,
  bit_and-mask usize ((h + suc n) % 2 ^ 64),
  bit_or-zero 64,
  zero-bit_or ((h + suc n) % 64),
  span_idx-Spans usize h (suc n),
)

-- For any two 64-bit words, `tail` is the tail that `BitIdx::span` computes from their index
-- and length.
pub tail-eq-span :
    (t : BitStore) (p : BitPtr) → IsBitPtr p → tail t p ≡ (span_idx t (head t p) (len_of t p)).1
tail-eq-span t p v = rw tail-eq-formula (formula-eq-span t (head t p) (len_of t p) r.head_in r.fits)
  where
    r : IsRegion t (pointer t p) (head t p) (len_of t p)
    r = parts-IsRegion t p v
