-- ===== src/Examples/Iterators.antt =====
-- The iterators, the search and the rotation on twenty bits of bytes.
use bitvec_sgx.Base.{
  ◌+◌, ◌-◌, ◌*◌, ◌/◌, ◌%◌, ◌≤◌, ◌<◌, ◌≡◌, arith, some, none, ok, panic, any_range, suc, ℕ,
}
use bitvec_sgx.Store.{u8}
use bitvec_sgx.Order.{lsb0, msb0}
use bitvec_sgx.Order.Laws.{lsb0-IsBitOrder}
use bitvec_sgx.Pointer
use bitvec_sgx.Pointer.{BitPtr, len_of}
use bitvec_sgx.Slice.Ranges.Views.{IsView, whole-IsView}
use bitvec_sgx.Slice.Iterators.{count}
use bitvec_sgx.Slice.Iterators.Drain.{Ends}
use bitvec_sgx.Slice.Iterators.Tiles.{FrontTiles}
use bitvec_sgx.Slice.Iterators.Iter
use bitvec_sgx.Slice.Iterators.Iter.Laws.{bits_from, bits_back, iter-bits}
use bitvec_sgx.Slice.Iterators.Windows
use bitvec_sgx.Slice.Iterators.Windows.Laws.{AllWindows, windows-AllWindows}
use bitvec_sgx.Slice.Iterators.Windows.Back.{next_back_lem, IsTooLong}
use bitvec_sgx.Slice.Locate.{IsSlice}
use bitvec_sgx.Pointer.{pointer, head}
use bitvec_sgx.Indices.{span_idx}
use bitvec_sgx.Base.{[]}
use bitvec_sgx.Slice.Iterators.Chunks
use bitvec_sgx.Slice.Iterators.Chunks.Laws.{chunks-Tiles}
use bitvec_sgx.Slice.Iterators.ChunksExact
use bitvec_sgx.Slice.Iterators.ChunksExact.Laws.{chunks_exact-Tiles}
use bitvec_sgx.Slice.Iterators.RChunksExact
use bitvec_sgx.Slice.Iterators.RChunksExact.Laws.{nth-IsView}
use bitvec_sgx.Slice.Rotate.{rotate_left, rotate_right}
use bitvec_sgx.Slice.Rotate.Left
use bitvec_sgx.Slice.Rotate.Right
use bitvec_sgx.Slice.Rotate.Left.{rotate_left-ok}
use bitvec_sgx.Slice.Rotate.Right.{rotate_right-ok}
use bitvec_sgx.Slice.Search.{contains}
use bitvec_sgx.Slice.Search.Laws.{occurs, contains_lem}
use bitvec_sgx.Examples.Cells.{plain_cells}
use bitvec_sgx.Examples.Bulk.{twenty_bits, twenty_bits-IsSlice, mixed_memory, mixed-IsMemory}
use bitvec_sgx.Examples.Shifts.{two_bytes}

some_bits : 6 ≤ len_of u8 twenty_bits
unfolding len_of
some_bits = omega arith

iter-bits_example :
    Ends
      (Iter.next plain_cells msb0 u8 mixed_memory)
      (suc (len_of u8 twenty_bits))
      twenty_bits
      (λ bits.
        bits ≡ bits_from plain_cells msb0 u8 mixed_memory twenty_bits 0 (len_of u8 twenty_bits))
    × Ends
        (Iter.next_back plain_cells msb0 u8 mixed_memory)
        (suc (len_of u8 twenty_bits))
        twenty_bits
        (λ bits.
          bits ≡ bits_back plain_cells msb0 u8 mixed_memory twenty_bits (len_of u8 twenty_bits))
    × (Iter.size_hint u8 twenty_bits ≡ (len_of u8 twenty_bits, some (len_of u8 twenty_bits)))
iter-bits_example = iter-bits plain_cells msb0 u8 mixed_memory twenty_bits twenty_bits-IsSlice

chunks-Tiles_example :
    (c : Chunks.Chunks) × (Chunks.chunks u8 twenty_bits 6 ≡ ok c)
    × Ends (Chunks.next u8) (suc (len_of u8 twenty_bits)) c (λ cs.
      FrontTiles u8 twenty_bits 6 0 (len_of u8 twenty_bits) cs
      × (Chunks.size_hint u8 c ≡ (count cs, some (count cs))))
chunks-Tiles_example = chunks-Tiles u8 twenty_bits 6 (omega arith) twenty_bits-IsSlice

chunks_exact-Tiles_example :
    (c : ChunksExact.ChunksExact) × (ChunksExact.chunks_exact u8 twenty_bits 6 ≡ ok c)
    × Ends (ChunksExact.next u8) (suc (len_of u8 twenty_bits / 6)) c (λ cs.
      FrontTiles u8 twenty_bits 6 0 (len_of u8 twenty_bits / 6 * 6) cs
      × (ChunksExact.size_hint u8 c ≡ (count cs, some (count cs))))
    × IsView u8 twenty_bits (len_of u8 twenty_bits / 6 * 6) (len_of u8 twenty_bits % 6) c.extra
chunks_exact-Tiles_example = chunks_exact-Tiles u8 twenty_bits 6 (omega arith) twenty_bits-IsSlice

windows-AllWindows_example :
    (c : Windows.Windows) × (Windows.windows u8 twenty_bits 6 ≡ ok c)
    × Ends (Windows.next u8) (suc (len_of u8 twenty_bits)) c (λ cs.
      AllWindows u8 twenty_bits 6 0 (len_of u8 twenty_bits) cs
      × (Windows.size_hint u8 c ≡ (count cs, some (count cs))))
windows-AllWindows_example = windows-AllWindows u8 twenty_bits 6 (omega arith) twenty_bits-IsSlice

-- Three bits from bit 5 of the byte at address 16.
abbrev three_bits : BitPtr
three_bits = record { ptr = 16; len = 29 }

three_bits-IsSlice : IsSlice u8 three_bits
unfolding pointer head len_of span_idx
three_bits-IsSlice = record {
  words = record { ptr_word = omega arith; len_word = omega arith };
  room = omega arith;
}

abbrev windows_of : BitPtr → Windows.Windows
windows_of inner = record { inner = inner; width = 5 }

next_back_lem_example :
    (5 ≤ 3
      → Ends (Windows.next u8) (suc 3) (windows_of three_bits) (λ cs. count cs ≡ 3 - 5 + 1)
        × Ends (Windows.next_back u8) 1 (windows_of three_bits) (λ cs. cs ≡ []))
    × (◌≡◌ {A = ℕ} 3 0
        → Windows.next_back u8 (windows_of three_bits) ≡ ok (none, windows_of Pointer.empty))
    × (0 < 3
        → 3 < 5
        → (Windows.next u8 (windows_of three_bits) ≡ ok (none, windows_of Pointer.empty))
          × IsTooLong u8 three_bits 5
              (omega arith)
              0
              3
              three_bits
              (Windows.next_back u8 (windows_of three_bits)))
unfolding head len_of
next_back_lem_example =
    next_back_lem u8 three_bits 5 (omega arith) 0 3 three_bits
      (whole-IsView u8 three_bits three_bits-IsSlice) (omega arith) (omega arith)

abbrev whole_pieces : BitPtr → RChunksExact.RChunksExact
whole_pieces inner = record { inner = inner; extra = Pointer.empty; width = 3 }

-- Two pieces of three bits, of the twenty.
nth-IsView_example :
    (◌≡◌ {A = ℕ} 1 0
      → (left : BitPtr) × (RChunksExact.nth u8 (whole_pieces twenty_bits) 1
          ≡ ok (none, whole_pieces left)))
    × (0 < 1
        → (c left : BitPtr) × (RChunksExact.nth u8 (whole_pieces twenty_bits) 1
            ≡ ok (some c, whole_pieces left))
          × IsView u8 twenty_bits (0 + (len_of u8 twenty_bits - 3)) 3 c)
    × ((c left : BitPtr) × (RChunksExact.nth_mut u8 (whole_pieces twenty_bits) 1
          ≡ ok (some c, whole_pieces left))
        × IsView u8 twenty_bits (0 + (len_of u8 twenty_bits - 2 * 3)) 3 c)
nth-IsView_example =
    nth-IsView u8 twenty_bits 3 (omega arith) 0 (len_of u8 twenty_bits) 1 twenty_bits Pointer.empty
      (whole-IsView u8 twenty_bits twenty_bits-IsSlice) some_bits

rotate_left-ok_example :
    (5 ≤ len_of u8 twenty_bits
      → Left.Ends plain_cells lsb0 lsb0-IsBitOrder u8 twenty_bits twenty_bits-IsSlice 5 mixed_memory
          (rotate_left plain_cells lsb0 u8 twenty_bits mixed_memory 5))
    × (len_of u8 twenty_bits < 5
        → rotate_left plain_cells lsb0 u8 twenty_bits mixed_memory 5 ≡ some panic)
rotate_left-ok_example =
    rotate_left-ok plain_cells lsb0 lsb0-IsBitOrder u8 twenty_bits twenty_bits-IsSlice mixed_memory
      5 mixed-IsMemory

rotate_right-ok_example :
    (5 ≤ len_of u8 twenty_bits
      → Right.Ends plain_cells lsb0 lsb0-IsBitOrder u8 twenty_bits twenty_bits-IsSlice 5
          mixed_memory
          (rotate_right plain_cells lsb0 u8 twenty_bits mixed_memory 5))
    × (len_of u8 twenty_bits < 5
        → rotate_right plain_cells lsb0 u8 twenty_bits mixed_memory 5 ≡ some panic)
rotate_right-ok_example =
    rotate_right-ok plain_cells lsb0 lsb0-IsBitOrder u8 twenty_bits twenty_bits-IsSlice mixed_memory
      5 mixed-IsMemory

contains_lem_example :
    (len_of u8 two_bytes ≡ 0
      → contains plain_cells lsb0 u8 mixed_memory twenty_bits msb0 u8 mixed_memory two_bytes
        ≡ some panic)
    × (0 < len_of u8 two_bytes
        → contains plain_cells lsb0 u8 mixed_memory twenty_bits msb0 u8 mixed_memory two_bytes
          ≡ some (
              ok (
                any_range (suc (len_of u8 twenty_bits) - len_of u8 two_bytes) 0 (
                  occurs plain_cells lsb0 u8 mixed_memory twenty_bits msb0 u8 mixed_memory
                    two_bytes))))
contains_lem_example =
    contains_lem plain_cells lsb0 u8 mixed_memory twenty_bits msb0 u8 mixed_memory two_bytes
      twenty_bits-IsSlice
