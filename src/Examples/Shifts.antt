-- ===== src/Examples/Shifts.antt =====
-- Shifts of twenty bits in bytes, and of two whole bytes.
use bitvec_sgx.Base.{
  ◌+◌, ◌*◌, none, ◌<◌, ◌^◌, ◌≡◌, sym, ap, arith, refl, Bool, false, [], ◌∷◌, some, Outcome, ok,
  panic,
}
use bitvec_sgx.Store.{u8, size_of}
use bitvec_sgx.Order.{msb0}
use bitvec_sgx.Order.Laws.{msb0-IsBitOrder}
use bitvec_sgx.Pointer.{BitPtr, pointer, head, len_of, elements}
use bitvec_sgx.Indices.{span_idx}
use bitvec_sgx.Domain.{BitDomain, spanning, domain, split_region, as_access_slice, is_spanning}
use bitvec_sgx.Slice.{bitptr, len}
use bitvec_sgx.Slice.Ops.Shifts.{shl_assign, shr_assign}
use bitvec_sgx.Slice.Ops.Shifts.Crawls.{Ends, left, right, shifts-ok}
use bitvec_sgx.Slice.Ops.Shifts.Whole.{shl_assign-panic, shr_assign-none}
use bitvec_sgx.Slice.Locate.{IsSlice}
use bitvec_sgx.Examples.Cells.{plain_cells}
use bitvec_sgx.Examples.Bulk.{twenty_bits, twenty_bits-IsSlice, mixed_memory, mixed-IsMemory}

spans : Outcome BitDomain → Bool
spans (ok d) = is_spanning d
spans panic = false

twenty_bits_edges : (d : BitDomain) → domain u8 (bitptr twenty_bits) ≡ ok d → is_spanning d ≡ false
unfolding spans domain bitptr is_spanning span_idx split_region as_access_slice pointer head len_of
    elements
twenty_bits_edges d e = sym (ap spans e)

shifts-ok_example :
    Ends plain_cells msb0 msb0-IsBitOrder u8 twenty_bits twenty_bits-IsSlice mixed_memory
      mixed-IsMemory 7
      (left plain_cells msb0 msb0-IsBitOrder u8 twenty_bits twenty_bits-IsSlice mixed_memory
        mixed-IsMemory 7)
      (shl_assign plain_cells msb0 u8 1 mixed_memory twenty_bits 7)
    × Ends plain_cells msb0 msb0-IsBitOrder u8 twenty_bits twenty_bits-IsSlice mixed_memory
        mixed-IsMemory 7
        (right plain_cells msb0 msb0-IsBitOrder u8 twenty_bits twenty_bits-IsSlice mixed_memory
          mixed-IsMemory 7)
        (shr_assign plain_cells msb0 u8 1 mixed_memory twenty_bits 7)
shifts-ok_example =
    shifts-ok plain_cells msb0 msb0-IsBitOrder u8 twenty_bits twenty_bits-IsSlice mixed_memory
      mixed-IsMemory 7 twenty_bits_edges 0

-- The two bytes at addresses 16 and 17.
abbrev pub two_bytes : BitPtr
two_bytes = record { ptr = 16; len = 128 }

two_bytes-domain : domain u8 (bitptr two_bytes) ≡ ok (spanning (16 ∷ 17 ∷ []))
unfolding domain bitptr span_idx split_region as_access_slice pointer head len_of elements
two_bytes-domain = refl

two_elements : elements u8 (bitptr two_bytes) < 2 ^ 64
unfolding elements bitptr span_idx head len_of
two_elements = omega arith

three_of_many : 3 < len u8 two_bytes
unfolding len len_of bitptr
three_of_many = omega arith

shl_assign-panic_example : shl_assign plain_cells msb0 u8 1 mixed_memory two_bytes 3 ≡ some panic
shl_assign-panic_example =
    shl_assign-panic plain_cells msb0 u8 mixed_memory two_bytes 3 (omega arith) (16 ∷ 17 ∷ [])
      two_bytes-domain two_elements (omega arith) three_of_many 0

two_bytes_room :
    pointer u8 two_bytes + (span_idx u8 (head u8 two_bytes) (len_of u8 two_bytes)).0 * size_of u8
    < 2 ^ 64
unfolding pointer head len_of span_idx
two_bytes_room = omega arith

two_bytes-IsSlice : IsSlice u8 two_bytes
two_bytes-IsSlice = record {
  words = record { ptr_word = omega arith; len_word = omega arith };
  room = two_bytes_room;
}

many_bits : 3 < len_of u8 two_bytes
unfolding len_of
many_bits = omega arith

shr_assign-none_example : shr_assign plain_cells msb0 u8 9 mixed_memory two_bytes 3 ≡ none
shr_assign-none_example =
    shr_assign-none plain_cells msb0 u8 mixed_memory two_bytes two_bytes-IsSlice 3 (omega arith)
      (omega arith) many_bits (16 ∷ 17 ∷ []) two_bytes-domain refl 9
