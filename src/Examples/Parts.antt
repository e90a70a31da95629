-- ===== src/Examples/Parts.antt =====
-- The theorems on indices, orders, single elements and pointers at concrete inputs.
use bitvec_sgx.Examples.Cells.{plain_cells}
use bitvec_sgx.Base.Isize.{overflowing_add}
use bitvec_sgx.Access.Laws.{get_lem}
use bitvec_sgx.Order.Laws.{msb0-IsBitOrder}
use bitvec_sgx.Indices.Offset.{offset_lem, Lands}
use bitvec_sgx.Pointer.New.{touched}
use bitvec_sgx.Indices.Span.{span-Spans, Spans}
use bitvec_sgx.Base.{◌+◌, ◌*◌, ◌%◌, ◌^◌, ◌<◌, ◌≡◌, refl, arith}
use bitvec_sgx.Base.Int.{negsuc}
use bitvec_sgx.Bits.{bit}
use bitvec_sgx.Store.{u8, u16, u32, bits, size_of}
use bitvec_sgx.Order.{msb0}
use bitvec_sgx.Access
use bitvec_sgx.Indices.{offset, span, span_idx}
use bitvec_sgx.Pointer.{BitPtr, new_unchecked, pointer, head, len_of}
use bitvec_sgx.Pointer.Encoding.{new_unchecked_parts, IsBitPtr, IsRegion}

-- Twenty bits from bit 13 of the `u32` at address 0x40.
abbrev twenty_bits : BitPtr
twenty_bits = record { ptr = 0x41; len = 165 }

twenty_bits-IsBitPtr : IsBitPtr twenty_bits
twenty_bits-IsBitPtr = record { ptr_word = omega arith; len_word = omega arith }

twenty-IsRegion : IsRegion u32 0x40 13 20
twenty-IsRegion = record {
  data_word = omega arith;
  aligned = omega arith;
  head_in = omega arith;
  fits = omega arith;
}

packs_twenty : new_unchecked u32 0x40 13 20 ≡ twenty_bits
unfolding new_unchecked
packs_twenty = refl

offset_back : offset u8 3 (negsuc 11) ≡ (negsuc 1, 7)
unfolding offset overflowing_add
offset_back = refl

span_runs : span_idx u8 3 10 ≡ (2, 5)
unfolding span_idx
span_runs = refl

offset_lem_example : Lands u16 3 (negsuc 40) (offset u16 3 (negsuc 40))
offset_lem_example = offset_lem u16 3 (negsuc 40) (omega arith) (omega arith)

span-Spans_example : Spans u32 (13 % bits u32) 20 (span u32 13 20)
span-Spans_example = span-Spans u32 13 20 (omega arith) (omega arith) (omega arith)

get_lem_example : Access.get plain_cells msb0 u16 0x1234 5 ≡ bit 0x1234 (msb0.at u16 5)
get_lem_example = get_lem plain_cells msb0 msb0-IsBitOrder u16 0x1234 5 (omega arith)

new_unchecked_parts_example :
    (pointer u32 (new_unchecked u32 0x40 13 20) ≡ 0x40)
    × (head u32 (new_unchecked u32 0x40 13 20) ≡ 13)
    × (len_of u32 (new_unchecked u32 0x40 13 20) ≡ 20)
new_unchecked_parts_example = new_unchecked_parts u32 0x40 13 20 twenty-IsRegion

room_for_twenty : 0x40 + touched u32 13 20 * size_of u32 < 2 ^ 64
unfolding span_idx
room_for_twenty = omega arith
