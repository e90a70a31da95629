-- ===== src/Slice/Locate.antt =====
-- Indexing finds the right bit: bit `i` of a slice lies `i` steps past its first.
use bitvec_sgx.Base.{ℕ, ◌+◌, ◌*◌, ◌/◌, ◌%◌, ◌^◌, ◌≤◌, ◌<◌, ◌≡◌, sym, ◌∙◌, ap, arith}
use bitvec_sgx.Base.Int.{pos}
use bitvec_sgx.Base.Isize.{as_isize}
use native.Mathlib.Nat.{mod-eq_of_lt}
use bitvec_sgx.Base.Isize.{overflowing_add, as_isize}
use bitvec_sgx.Indices.Offset.{bit_and-mask}
use bitvec_sgx.Store.{BitStore, size_of, bits, u8, u16, u32, u64, usize}
use bitvec_sgx.Indices.{offset}
use bitvec_sgx.Indices.Span.{span_idx-Spans}
use bitvec_sgx.Pointer.{BitPtr, pointer, head, len_of, max_bits}
use bitvec_sgx.Pointer.Encoding.{IsBitPtr, parts-IsRegion}
use bitvec_sgx.Pointer.New.{touched}
use bitvec_sgx.Domain.Locations.{walk, walk_lem}
use bitvec_sgx.Slice.{bitptr, len, locate}

-- A packed region whose elements lie inside the address space.
pub record IsSlice (t : BitStore) (s : BitPtr) : Type 0 where
  pub words : IsBitPtr s
  pub room : pointer t s + touched t (head t s) (len_of t s) * size_of t < 2 ^ 64

-- `BitSlice::bitptr` replaces an empty slice by the canonical one, and changes nothing else.
pub bitptr-of_pos : (t : BitStore) (s : BitPtr) → 0 < len_of t s → bitptr s ≡ s
unfolding bitptr len_of
bitptr-of_pos t s h = ground arith

pub len-eq-len_of : (t : BitStore) (s : BitPtr) → len t s ≡ len_of t s
unfolding len bitptr len_of
len-eq-len_of t s = ground arith

-- An index below the length stays inside the touched elements.
pub element_in :
    (t : BitStore) (h n i : ℕ)
    → h < bits t
    → n ≤ max_bits
    → i < n
    → (h + i) / bits t < touched t h n
element_in u8 h n i p q l = omega (arith, span_idx-Spans u8 h n)
element_in u16 h n i p q l = omega (arith, span_idx-Spans u16 h n)
element_in u32 h n i p q l = omega (arith, span_idx-Spans u32 h n)
element_in u64 h n i p q l = omega (arith, span_idx-Spans u64 h n)
element_in usize h n i p q l = omega (arith, span_idx-Spans usize h n)

-- A jump forward from bit `h`, by quotient and remainder.
pub offset_forward :
    (t : BitStore) (h i : ℕ)
    → h < bits t
    → i < 2 ^ 63
    → offset t h (pos i) ≡ (pos ((h + i) / bits t), (h + i) % bits t)
unfolding offset overflowing_add
offset_forward u8 h i p q = ground (arith, bit_and-mask u8 ((i + h) % 256))
offset_forward u16 h i p q = ground (arith, bit_and-mask u16 ((i + h) % 256))
offset_forward u32 h i p q = ground (arith, bit_and-mask u32 ((i + h) % 256))
offset_forward u64 h i p q = ground (arith, bit_and-mask u64 ((i + h) % 256))
offset_forward usize h i p q = ground (arith, bit_and-mask usize ((i + h) % 256))

pub as_isize-small : (i : ℕ) → i < 2 ^ 63 → as_isize i ≡ pos i
as_isize-small i h = ground arith

below_end :
    (t : BitStore) (a q e : ℕ) → q < e → a + e * size_of t < 2 ^ 64 → a + q * size_of t < 2 ^ 64
below_end u8 a q e p h = omega arith
below_end u16 a q e p h = omega arith
below_end u32 a q e p h = omega arith
below_end u64 a q e p h = omega arith
below_end usize a q e p h = omega arith

-- The element and the bit in it, by quotient and remainder.
pub locate-eq-divmod :
    (t : BitStore) (s : BitPtr) (i : ℕ)
    → IsSlice t s
    → i < len_of t s
    → locate t s i ≡ (pointer t s + (head t s + i) / bits t * size_of t, (head t s + i) % bits t)
unfolding locate
locate-eq-divmod t s i v h =
    let g = parts-IsRegion t s v.words in
    let q = (head t s + i) / bits t in
    let inside = element_in t (head t s) (len_of t s) i g.head_in g.fits h in
    rw
      (
        bitptr-of_pos t s (omega arith),
        as_isize-small i (omega (arith, g.fits)),
        offset_forward t (head t s) i g.head_in (omega (arith, g.fits)),
      )
      (ap (λ a. (a, (head t s + i) % bits t))
        (mod-eq_of_lt
          (below_end t (pointer t s) q (touched t (head t s) (len_of t s)) inside v.room)))

div_parts : (t : BitStore) (n : ℕ) → (n ≡ n / bits t * bits t + n % bits t) × (n % bits t < bits t)
div_parts u8 n = omega arith
div_parts u16 n = omega arith
div_parts u32 n = omega arith
div_parts u64 n = omega arith
div_parts usize n = omega arith

-- For a slice inside the address space and an index below its length, the element and bit that
-- indexing computes are those reached by stepping bit by bit from the first bit of the slice.
pub locate-eq-walk :
    (t : BitStore) (s : BitPtr) (i : ℕ)
    → IsSlice t s
    → i < len_of t s
    → locate t s i ≡ walk t (pointer t s, head t s) i
locate-eq-walk t s i v h =
    let n = head t s + i in
    locate-eq-divmod t s i v h
    ∙ sym (
        walk_lem t (pointer t s) (head t s) i (n / bits t) (n % bits t)
          (parts-IsRegion t s v.words).head_in (div_parts t n).1 (div_parts t n).0)
