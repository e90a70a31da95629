-- ===== src/Examples/Compare.antt =====
-- The comparison of slices of different orders.
use bitvec_sgx.Base.{◌≡◌, true, some}
use bitvec_sgx.Store.{u8}
use bitvec_sgx.Order.{lsb0, msb0}
use bitvec_sgx.Slice.{len, get_unchecked}
use bitvec_sgx.Slice.Compare.{Ordering, equal, eq, partial_cmp}
use bitvec_sgx.Slice.Compare.Laws.{opposite, Verdict, partial_cmp_lem}
use bitvec_sgx.Examples.Cells.{plain_cells}
use bitvec_sgx.Examples.Bulk.{twenty_bits, mixed_memory}
use bitvec_sgx.Examples.Shifts.{two_bytes}

partial_cmp_lem_example :
    (x : Ordering) × (partial_cmp plain_cells lsb0 u8 msb0 u8 mixed_memory twenty_bits mixed_memory
        two_bytes
      ≡ some x)
    × Verdict
        (len u8 twenty_bits)
        (λ i. get_unchecked plain_cells lsb0 u8 mixed_memory twenty_bits i)
        (len u8 two_bytes)
        (λ i. get_unchecked plain_cells msb0 u8 mixed_memory two_bytes i)
        x
    × ((y : Ordering)
        → Verdict
            (len u8 twenty_bits)
            (λ i. get_unchecked plain_cells lsb0 u8 mixed_memory twenty_bits i)
            (len u8 two_bytes)
            (λ i. get_unchecked plain_cells msb0 u8 mixed_memory two_bytes i)
            y
        → y ≡ x)
    × (partial_cmp plain_cells msb0 u8 lsb0 u8 mixed_memory two_bytes mixed_memory twenty_bits
        ≡ some (opposite x))
    × (eq plain_cells lsb0 u8 msb0 u8 mixed_memory twenty_bits mixed_memory two_bytes ≡ true
        → x ≡ equal)
    × (x ≡ equal
        → eq plain_cells lsb0 u8 msb0 u8 mixed_memory twenty_bits mixed_memory two_bytes ≡ true)
partial_cmp_lem_example =
    partial_cmp_lem plain_cells lsb0 u8 msb0 u8 mixed_memory twenty_bits mixed_memory two_bytes
