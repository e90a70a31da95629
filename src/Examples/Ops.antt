-- ===== src/Examples/Ops.antt =====
-- The operators on twenty bits of bytes.
use bitvec_sgx.Base.{
  ◌+◌, ◌^◌, ◌%◌, ◌≡◌, Bool, true, false, not, ◌&&◌, ◌||◌, if◌then◌else◌, ℕ, List, [], ◌∷◌, ok,
}
use mathlib.Core.List.{reverse}
use bitvec_sgx.Store.{u8}
use bitvec_sgx.Order.{lsb0, msb0}
use bitvec_sgx.Order.Laws.{lsb0-IsBitOrder, msb0-IsBitOrder}
use bitvec_sgx.Memory.{Memory}
use bitvec_sgx.Pointer.{len_of}
use bitvec_sgx.Slice.{get_unchecked}
use bitvec_sgx.Slice.Rewrites.{IsRewritten}
use bitvec_sgx.Slice.Ops.{
  add_assign, bitand_assign, bitor_assign, bitxor_assign, not_slice, item, neg,
}
use bitvec_sgx.Slice.Ops.Numbers.{number_down}
use bitvec_sgx.Slice.Ops.Addition.{add_assign_lem}
use bitvec_sgx.Slice.Ops.Inversion.{not_slice-ok}
use bitvec_sgx.Slice.Ops.Negation.{Negates, neg-ok}
use bitvec_sgx.Slice.Ops.Bitwise.{bit_assigns-IsRewritten}
use bitvec_sgx.Fields.Numbers.{lsb_number}
use bitvec_sgx.Examples.Cells.{plain_cells}
use bitvec_sgx.Examples.Bulk.{twenty_bits, twenty_bits-IsSlice, mixed_memory, mixed-IsMemory}

abbrev three_bits : List Bool
three_bits = true ∷ false ∷ true ∷ []

add_assign_lem_example :
    (number_down plain_cells msb0 u8 twenty_bits
        (add_assign plain_cells msb0 u8 mixed_memory twenty_bits three_bits)
      ≡ (number_down plain_cells msb0 u8 twenty_bits mixed_memory
          + lsb_number (len_of u8 twenty_bits) 0 (item (reverse three_bits)))
        % 2 ^ len_of u8 twenty_bits)
    × ((f : ℕ → Bool) × IsRewritten plain_cells msb0 u8 mixed_memory twenty_bits f
          (add_assign plain_cells msb0 u8 mixed_memory twenty_bits three_bits))
add_assign_lem_example =
    add_assign_lem plain_cells msb0 msb0-IsBitOrder u8 twenty_bits twenty_bits-IsSlice mixed_memory
      mixed-IsMemory three_bits

not_slice-ok_example :
    (m' : Memory) × (not_slice plain_cells msb0 u8 mixed_memory twenty_bits ≡ ok m')
    × IsRewritten plain_cells msb0 u8 mixed_memory twenty_bits
        (λ i. not (get_unchecked plain_cells msb0 u8 mixed_memory twenty_bits i))
        m'
not_slice-ok_example =
    not_slice-ok plain_cells msb0 msb0-IsBitOrder u8 twenty_bits twenty_bits-IsSlice mixed_memory
      mixed-IsMemory

abbrev old : ℕ → Bool
old i = get_unchecked plain_cells lsb0 u8 mixed_memory twenty_bits i

bit_assigns-IsRewritten_example :
    IsRewritten plain_cells lsb0 u8 mixed_memory twenty_bits
      (λ i. old i && item three_bits i)
      (bitand_assign plain_cells lsb0 u8 mixed_memory twenty_bits three_bits)
    × IsRewritten plain_cells lsb0 u8 mixed_memory twenty_bits
        (λ i. old i || item three_bits i)
        (bitor_assign plain_cells lsb0 u8 mixed_memory twenty_bits three_bits)
    × IsRewritten plain_cells lsb0 u8 mixed_memory twenty_bits
        (λ i. if old i then not (item three_bits i) else item three_bits i)
        (bitxor_assign plain_cells lsb0 u8 mixed_memory twenty_bits three_bits)
bit_assigns-IsRewritten_example =
    bit_assigns-IsRewritten plain_cells lsb0 lsb0-IsBitOrder u8 twenty_bits twenty_bits-IsSlice
      mixed_memory mixed-IsMemory three_bits

neg-ok_example :
    Negates plain_cells msb0 msb0-IsBitOrder u8 twenty_bits twenty_bits-IsSlice mixed_memory
      (neg plain_cells msb0 u8 mixed_memory twenty_bits)
neg-ok_example =
    neg-ok plain_cells msb0 msb0-IsBitOrder u8 twenty_bits twenty_bits-IsSlice mixed_memory
      mixed-IsMemory
