-- ===== src/Examples/Bulk.antt =====
-- The queries over the domain on twenty bits of bytes.
use bitvec_sgx.Base.{true, ◌%◌, ◌+◌, ◌*◌, ◌<◌, ◌^◌, ◌≡◌, arith, ok, count_range}
use bitvec_sgx.Store.{u8, size_of}
use bitvec_sgx.Order.{msb0}
use bitvec_sgx.Order.Laws.{msb0-IsBitOrder}
use bitvec_sgx.Indices.{span_idx}
use bitvec_sgx.Memory.{Memory, IsMemory}
use bitvec_sgx.Pointer.{BitPtr, pointer, head, len_of}
use bitvec_sgx.Slice.{get_unchecked}
use bitvec_sgx.Slice.Locate.{IsSlice}
use bitvec_sgx.Slice.Bulk.{count_ones, set_all}
use bitvec_sgx.Slice.Bulk.Fill.{set_all-ok}
use bitvec_sgx.Slice.Rewrites.{IsRewritten}
use bitvec_sgx.Slice.Bulk.Queries.{count_ones-ok}
use bitvec_sgx.Examples.Cells.{plain_cells}

-- Twenty bits from bit 3 of the byte at address 16: both edges and one whole byte.
abbrev pub twenty_bits : BitPtr
twenty_bits = record { ptr = 16; len = 163 }

-- The byte at an address is the address.
abbrev pub mixed_memory : Memory
mixed_memory a = a % 256

pub mixed-IsMemory : IsMemory u8 mixed_memory
mixed-IsMemory a = omega arith

twenty_bits_room :
    pointer u8 twenty_bits
      + (span_idx u8 (head u8 twenty_bits) (len_of u8 twenty_bits)).0 * size_of u8
    < 2 ^ 64
unfolding pointer head len_of span_idx
twenty_bits_room = omega arith

pub twenty_bits-IsSlice : IsSlice u8 twenty_bits
twenty_bits-IsSlice = record {
  words = record { ptr_word = omega arith; len_word = omega arith };
  room = twenty_bits_room;
}

count_ones-ok_example :
    count_ones plain_cells msb0 u8 mixed_memory twenty_bits
    ≡ ok (
        count_range
          (len_of u8 twenty_bits)
          0
          (λ i. get_unchecked plain_cells msb0 u8 mixed_memory twenty_bits i))
count_ones-ok_example =
    count_ones-ok plain_cells msb0 msb0-IsBitOrder u8 mixed_memory mixed-IsMemory twenty_bits
      twenty_bits-IsSlice

set_all-ok_example :
    (m' : Memory) × (set_all plain_cells msb0 u8 mixed_memory twenty_bits true ≡ ok m')
    × IsRewritten plain_cells msb0 u8 mixed_memory twenty_bits (λ i. true) m'
set_all-ok_example =
    set_all-ok plain_cells msb0 msb0-IsBitOrder u8 true twenty_bits twenty_bits-IsSlice mixed_memory
      mixed-IsMemory
