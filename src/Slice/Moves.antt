-- ===== src/Slice/Moves.antt =====
-- src/slice.rs and src/slice/api.rs: the operations that write many bits one at a time.
pub mod Fill
pub mod Reverse
use bitvec_sgx.Base.{
  ℕ, zero, suc, ◌+◌, ◌-◌, Bool, ltb, ◌==◌, if◌then◌else◌, Option, none, some, Outcome, ok, panic,
  assert, ◌>>◌, for_range,
}
use bitvec_sgx.Store.{BitStore}
use bitvec_sgx.Order.{BitOrder}
use bitvec_sgx.Access.{Radium}
use bitvec_sgx.Pointer.{BitPtr}
use bitvec_sgx.Memory.{Memory}
use bitvec_sgx.Slice.{len, get_unchecked, set_unchecked, swap_unchecked, copy_unchecked}
use bitvec_sgx.Slice.Ranges.{range, range_unchecked}

module _ (r : Radium) (o : BitOrder) (t : BitStore) where
  -- `BitSlice::for_each`
  unfoldable pub for_each : Memory → BitPtr → (ℕ → Bool → Bool) → Memory
  unfolding for_range
  for_each m s func =
      for_range (len t s) 0
        (λ idx m.
          let tmp = get_unchecked r o t m s idx in
          let new = func idx tmp in set_unchecked r o t m s idx new)
        m

  -- The loop of `BitSlice::reverse`, with fuel; `none` means that the fuel ran out.
  unfoldable pub reverse_loop : ℕ → Memory → BitPtr → Option Memory
  reverse_loop zero m cur = none
  reverse_loop (suc fuel) m cur =
      let back = len t cur - 1 in
      let rest =
        reverse_loop fuel (swap_unchecked r o t m cur 0 back)
          (range_unchecked t (range 1 back) cur) in
      if ltb (len t cur) 2 then some m else rest

  unfoldable pub reverse : Memory → BitPtr → Option Memory
  unfolding reverse_loop
  reverse m s = reverse_loop (suc (len t s)) m s

-- `BitSlice::clone_from_slice`; the source may have another order and another element type, and
-- lies in memory `from` that the slice does not alias.
unfoldable pub clone_from_slice :
    (r : Radium) (o : BitOrder) (t : BitStore)
    → Memory
    → BitPtr
    → (q : Radium) (p : BitOrder) (u : BitStore) → Memory
    → BitPtr
    → Outcome Memory
unfolding for_range
clone_from_slice r o t m s q p u from src =
    assert (len t s == len u src)
    >> ok (
        for_range (len t s) 0
          (λ idx m. set_unchecked r o t m s idx (get_unchecked q p u from src idx)) m)
