-- ===== src/Pointer/New.antt =====
-- `BitPtr::new` accepts what can be packed, and panics on all else.
use bitvec_sgx.Base.{
  ℕ, zero, suc, ◌+◌, ◌*◌, ◌/◌, ◌%◌, ◌^◌, ◌≤◌, ◌<◌, ◌≡◌, ◌≢◌, ◌⊎◌, inl, inr, arith, ap, leb, ◌==◌,
  ok, panic,
}
use bitvec_sgx.Bits.{pow2, pow2_pos, mod_half, mod_low}
use bitvec_sgx.Store.{BitStore, size_of, bits, trailing_zeros, u8, u16, u32, u64, usize}
use bitvec_sgx.Indices.{span_idx}
use bitvec_sgx.Indices.Span.{span_idx-Spans, span_idx-zero}
use bitvec_sgx.Pointer.{max_bits, ptr_head_bits, new, new_unchecked}
use bitvec_sgx.Pointer.Encoding.{IsRegion}

-- A word has `k` trailing zeros if it is a multiple of `2 ^ k`.
trailing_zeros_lem : (w k x : ℕ) → k ≤ w → leb k (trailing_zeros w x) ≡ (x % 2 ^ k == 0)
unfolding trailing_zeros
trailing_zeros_lem w zero x h = ground arith
trailing_zeros_lem zero (suc k) x h = absurd (omega arith)
trailing_zeros_lem (suc w) (suc k) x h = ground (
  arith,
  pow2 k,
  pow2_pos k,
  mod_half (2 ^ k) x,
  mod_low (2 ^ k) x,
  trailing_zeros_lem w k (x / 2),
)

-- The alignment that `new` asserts is that of the element type.
pub alignment :
    (t : BitStore) (d : ℕ) → leb (ptr_head_bits t) (trailing_zeros 64 d) ≡ (d % size_of t == 0)
alignment u8 d = trailing_zeros_lem 64 0 d (omega arith)
alignment u16 d = trailing_zeros_lem 64 1 d (omega arith)
alignment u32 d = trailing_zeros_lem 64 2 d (omega arith)
alignment u64 d = trailing_zeros_lem 64 3 d (omega arith)
alignment usize d = trailing_zeros_lem 64 3 d (omega arith)

-- The number of elements that a region touches, and their size in bytes.
abbrev pub touched : BitStore → ℕ → ℕ → ℕ
touched t h n = (span_idx t h n).0

touched-le :
    (t : BitStore) (h n : ℕ) → h < bits t → n ≤ max_bits → touched t h n * size_of t < 2 ^ 63
touched-le t h zero p q =
    let none_touched : touched t h 0 ≡ 0 = ap (λ (r : ℕ × ℕ). r.0) (span_idx-zero t h) in
    rw none_touched (omega arith)
touched-le u8 h (suc n) p q = omega (arith, span_idx-Spans u8 h (suc n))
touched-le u16 h (suc n) p q = omega (arith, span_idx-Spans u16 h (suc n))
touched-le u32 h (suc n) p q = omega (arith, span_idx-Spans u32 h (suc n))
touched-le u64 h (suc n) p q = omega (arith, span_idx-Spans u64 h (suc n))
touched-le usize h (suc n) p q = omega (arith, span_idx-Spans usize h (suc n))

-- A region that can be packed, with an address that is not null and touched elements that end
-- inside the address space, is accepted and packed.
pub new-ok :
    (t : BitStore) (d h n : ℕ)
    → IsRegion t d h n
    → d ≢ 0
    → d + touched t h n * size_of t < 2 ^ 64
    → new t d h n ≡ ok (new_unchecked t d h n)
unfolding new
new-ok t d h n v ne room = ground (arith, alignment t d, v.aligned, v.fits)

-- A non-null 64-bit address that is not aligned, a length beyond `MAX_BITS`, or touched
-- elements that run to the end of the address space or past it, each make `new` panic, for any
-- index below the width.
pub new-panic :
    (t : BitStore) (d h n : ℕ)
    → d ≢ 0
    → d < 2 ^ 64
    → h < bits t
    → (d % size_of t ≢ 0) ⊎ (max_bits < n) ⊎ (2 ^ 64 ≤ d + touched t h n * size_of t)
    → new t d h n ≡ panic
unfolding new
new-panic t d h n ne w l (inl a) = ground (arith, alignment t d)
new-panic t d h n ne w l (inr (inl a)) = ground (arith, alignment t d)
new-panic t d h n ne w l (inr (inr a)) = ground (arith, alignment t d, touched-le t h n)
