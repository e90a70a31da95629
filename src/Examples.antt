-- ===== src/Examples.antt =====
-- Concrete inputs: the theorems at work on them, and runs of the definitions.
pub mod Parts
pub mod Cells
pub mod Bulk
pub mod Ops
pub mod Shifts
pub mod Compare
pub mod Iterators
pub mod Vectors
pub mod Fields
use bitvec_sgx.Examples.Cells.{plain_cells}
use bitvec_sgx.Order.Laws.{msb0-IsBitOrder}
use bitvec_sgx.Slice.Moves.Fill.{for_each-IsRewritten, clone_from_slice-ok}
use bitvec_sgx.Slice.Moves.Reverse.{reverse-ok}
use bitvec_sgx.Slice.Bits.{get_unchecked-set_unchecked, set_unchecked_frame, set_unchecked-IsMemory}
use bitvec_sgx.Base.Isize.{overflowing_add}
use bitvec_sgx.Slice.Ranges.Splits.{
  split_last-some, split_first-some, range_get-some, range_get-none, split_at-IsView,
}
use bitvec_sgx.Base.{
  ap, not, ℕ, zero, suc, ◌+◌, ◌-◌, ◌*◌, ◌/◌, ◌%◌, ◌^◌, ◌≤◌, ◌<◌, ◌≡◌, ◌≢◌, refl, arith, Bool, true,
  false, Option, some, none, inl, inr, bit_and, bit_or, bit_xor, ok, panic, if◌then◌else◌, ◌==◌,
}
use bitvec_sgx.Base.Int.{pos, negsuc}
use bitvec_sgx.Bits.{bit}
use bitvec_sgx.Store.{BitStore, u8, u16, u32, u64, usize, bits, size_of}
use bitvec_sgx.Order.{lsb0, msb0, default_mask}
use bitvec_sgx.Access
use bitvec_sgx.Access.{Radium}
use bitvec_sgx.Indices.{offset, span, span_idx}
use bitvec_sgx.Pointer.{
  BitPtr, new_unchecked, new, pointer, head, len_of, set_len, set_head, set_pointer, tail,
}
use bitvec_sgx.Pointer.Encoding.{IsBitPtr, IsRegion}
use bitvec_sgx.Memory.{Memory, IsMemory}
use bitvec_sgx.Domain.{domain}
use bitvec_sgx.Domain.Live.{domain-Splits, Splits}
use bitvec_sgx.Domain.Locations.{walk}
use bitvec_sgx.Slice.{bitptr, get_unchecked, set_unchecked, swap_unchecked, locate, read}
use bitvec_sgx.Slice.Locate.{locate-eq-walk, IsSlice}
use bitvec_sgx.Slice.Rewrites.{swap_unchecked-IsRewritten, IsRewritten}
use bitvec_sgx.Slice.Ranges.{range, range_get, range_to, split_at, split_first, split_last}
use bitvec_sgx.Slice.Ranges.Views.{IsView}
use bitvec_sgx.Slice.Moves.{reverse, for_each, clone_from_slice}

-- Ten bits from bit 3 of the byte at address 16.
abbrev ten_bits : BitPtr
ten_bits = record { ptr = 16; len = 83 }

-- Every byte holds 0b1011_0001.
abbrev pattern_memory : Memory
pattern_memory a = 0xb1

pattern-IsMemory : IsMemory u8 pattern_memory
pattern-IsMemory a = omega arith

ten_bits-IsBitPtr : IsBitPtr ten_bits
ten_bits-IsBitPtr = record { ptr_word = omega arith; len_word = omega arith }

ten_bits_length : len_of u8 ten_bits ≡ 10
unfolding len_of
ten_bits_length = refl

ten_bits_room :
    pointer u8 ten_bits + (span_idx u8 (head u8 ten_bits) (len_of u8 ten_bits)).0 * size_of u8
    < 2 ^ 64
unfolding pointer head len_of span_idx
ten_bits_room = omega arith

ten_bits-IsSlice : IsSlice u8 ten_bits
ten_bits-IsSlice = record { words = ten_bits-IsBitPtr; room = ten_bits_room }

below_ten : (i : ℕ) → i < 10 → i < len_of u8 ten_bits
below_ten i h = rw ten_bits_length h

-- Runs.
reads : get_unchecked plain_cells msb0 u8 pattern_memory ten_bits 0 ≡ true
unfolding get_unchecked locate bitvec_sgx.Access.get offset overflowing_add bitptr head pointer
reads = refl

-- The theorems, in the order of the development.
get_unchecked-set_unchecked_example :
    get_unchecked plain_cells msb0 u8
      (set_unchecked plain_cells msb0 u8 pattern_memory ten_bits 2 true)
      ten_bits
      7
    ≡ (if 2 == 7 then true else get_unchecked plain_cells msb0 u8 pattern_memory ten_bits 7)
get_unchecked-set_unchecked_example =
    get_unchecked-set_unchecked plain_cells msb0 msb0-IsBitOrder u8 pattern_memory ten_bits 2 7 true
      pattern-IsMemory ten_bits-IsSlice (below_ten 2 (omega arith)) (below_ten 7 (omega arith))

-- Bit 0 of the byte at 16 lies before the slice.
before_slice : (16, 0) ≢ locate u8 ten_bits 2
unfolding locate offset overflowing_add bitptr head pointer
before_slice e = absurd (omega (arith, ap (λ (l : ℕ × ℕ). l.1) e))

domain-Splits_example :
    Splits u8 (pointer u8 ten_bits, head u8 ten_bits) (len_of u8 ten_bits) (domain u8 ten_bits)
domain-Splits_example = domain-Splits u8 ten_bits ten_bits-IsBitPtr

reverse-ok_example :
    (m' : Memory) × (reverse plain_cells msb0 u8 pattern_memory ten_bits ≡ some m')
    × IsRewritten plain_cells msb0 u8 pattern_memory ten_bits
        (λ i.
          get_unchecked plain_cells msb0 u8 pattern_memory ten_bits (len_of u8 ten_bits - 1 - i))
        m'
reverse-ok_example =
    reverse-ok plain_cells msb0 msb0-IsBitOrder u8 pattern_memory ten_bits pattern-IsMemory
      ten_bits-IsSlice

range_get-some_example :
    (sub : BitPtr) × (range_get u8 (range 2 6) ten_bits ≡ some sub)
    × IsView u8 ten_bits 2 (6 - 2) sub
range_get-some_example =
    range_get-some u8 ten_bits ten_bits-IsSlice (range 2 6) (omega arith)
      (rw ten_bits_length (omega arith))
