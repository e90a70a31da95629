-- ===== src/Examples/Fields.antt =====
-- Fields of twenty bits in bytes.
use bitvec_sgx.Base.{◌≤◌, ◌^◌, ◌%◌, ◌≡◌, arith, ok}
use bitvec_sgx.Store.{u8, u32, bits}
use bitvec_sgx.Order.{lsb0, msb0}
use bitvec_sgx.Memory.{Memory, IsMemory}
use bitvec_sgx.Pointer.{len_of}
use bitvec_sgx.Domain.Locations.{Location}
use bitvec_sgx.Slice.{read, get_unchecked}
use bitvec_sgx.Slice.Rewrites.{IsOutside}
use bitvec_sgx.Fields.Lsb0
use bitvec_sgx.Fields.Msb0
use bitvec_sgx.Fields.Lsb0.RoundTrip.{load_le-store_le-lsb0, load_be-store_be-lsb0}
use bitvec_sgx.Fields.Msb0.RoundTrip.{load_le-store_le-msb0, load_be-store_be-msb0}
use bitvec_sgx.Fields.Numbers.{lsb_number, load_le-eq-lsb_number}
use bitvec_sgx.Examples.Cells.{plain_cells}
use bitvec_sgx.Examples.Bulk.{twenty_bits, twenty_bits-IsSlice, mixed_memory, mixed-IsMemory}

some_bits : 1 ≤ len_of u8 twenty_bits
unfolding len_of
some_bits = omega arith

fits_u32 : len_of u8 twenty_bits ≤ bits u32
unfolding len_of
fits_u32 = omega arith

load_le-store_le-lsb0_example :
    (m' : Memory) × (Lsb0.store_le plain_cells u8 u32 mixed_memory twenty_bits 0xabcdef ≡ ok m')
    × (Lsb0.load_le plain_cells u8 u32 m' twenty_bits ≡ ok (0xabcdef % 2 ^ len_of u8 twenty_bits))
    × IsMemory u8 m'
    × ((l : Location)
        → IsOutside u8 twenty_bits l
        → read plain_cells lsb0 u8 m' l ≡ read plain_cells lsb0 u8 mixed_memory l)
load_le-store_le-lsb0_example =
    load_le-store_le-lsb0 plain_cells u8 u32 mixed_memory twenty_bits 0xabcdef mixed-IsMemory
      twenty_bits-IsSlice some_bits fits_u32

load_be-store_be-lsb0_example :
    (m' : Memory) × (Lsb0.store_be plain_cells u8 u32 mixed_memory twenty_bits 0xabcdef ≡ ok m')
    × (Lsb0.load_be plain_cells u8 u32 m' twenty_bits ≡ ok (0xabcdef % 2 ^ len_of u8 twenty_bits))
    × IsMemory u8 m'
    × ((l : Location)
        → IsOutside u8 twenty_bits l
        → read plain_cells lsb0 u8 m' l ≡ read plain_cells lsb0 u8 mixed_memory l)
load_be-store_be-lsb0_example =
    load_be-store_be-lsb0 plain_cells u8 u32 mixed_memory twenty_bits 0xabcdef mixed-IsMemory
      twenty_bits-IsSlice some_bits fits_u32

load_le-store_le-msb0_example :
    (m' : Memory) × (Msb0.store_le plain_cells u8 u32 mixed_memory twenty_bits 0xabcdef ≡ ok m')
    × (Msb0.load_le plain_cells u8 u32 m' twenty_bits ≡ ok (0xabcdef % 2 ^ len_of u8 twenty_bits))
    × IsMemory u8 m'
    × ((l : Location)
        → IsOutside u8 twenty_bits l
        → read plain_cells msb0 u8 m' l ≡ read plain_cells msb0 u8 mixed_memory l)
load_le-store_le-msb0_example =
    load_le-store_le-msb0 plain_cells u8 u32 mixed_memory twenty_bits 0xabcdef mixed-IsMemory
      twenty_bits-IsSlice some_bits fits_u32

load_be-store_be-msb0_example :
    (m' : Memory) × (Msb0.store_be plain_cells u8 u32 mixed_memory twenty_bits 0xabcdef ≡ ok m')
    × (Msb0.load_be plain_cells u8 u32 m' twenty_bits ≡ ok (0xabcdef % 2 ^ len_of u8 twenty_bits))
    × IsMemory u8 m'
    × ((l : Location)
        → IsOutside u8 twenty_bits l
        → read plain_cells msb0 u8 m' l ≡ read plain_cells msb0 u8 mixed_memory l)
load_be-store_be-msb0_example =
    load_be-store_be-msb0 plain_cells u8 u32 mixed_memory twenty_bits 0xabcdef mixed-IsMemory
      twenty_bits-IsSlice some_bits fits_u32

load_le-eq-lsb_number_example :
    Lsb0.load_le plain_cells u8 u32 mixed_memory twenty_bits
    ≡ ok (
        lsb_number
          (len_of u8 twenty_bits)
          0
          (λ i. get_unchecked plain_cells lsb0 u8 mixed_memory twenty_bits i))
load_le-eq-lsb_number_example =
    load_le-eq-lsb_number plain_cells u8 u32 mixed_memory twenty_bits mixed-IsMemory
      twenty_bits-IsSlice some_bits fits_u32
