-- ===== src/Slice/Rotate.antt =====
-- src/slice/api.rs: rotation in place. Up to 64 bits at a time are kept in a local `usize`, which
-- has a memory of its own; its address plays no part.
pub mod Left
pub mod Right
use bitvec_sgx.Base.{
  ℕ, zero, suc, ◌+◌, ◌-◌, min, Bool, leb, ◌||◌, ◌==◌, if◌then◌else◌, Option, none, some, Outcome,
  ok, panic, assert, ◌>>=◌, ◌>>◌,
}
use bitvec_sgx.Store.{BitStore, bits, usize}
use bitvec_sgx.Order.{BitOrder}
use bitvec_sgx.Access.{Radium}
use bitvec_sgx.Pointer.{BitPtr, new_unchecked}
use bitvec_sgx.Memory.{Memory}
use bitvec_sgx.Slice.{len}
use bitvec_sgx.Slice.Ranges.{range_from, range_to, range_unchecked, sub_usize}
use bitvec_sgx.Slice.Moves.{clone_from_slice}
use bitvec_sgx.Slice.Ops.Shifts.{crawl_left, crawl_right}

-- `BitSlice::from_element_mut`
unfoldable pub from_element_mut : BitStore → ℕ → BitPtr
from_element_mut t elt = new_unchecked t elt 0 (bits t)

-- `tmp`, and `bits`
abbrev pub tmp : Memory
tmp a = 0

unfoldable pub local_bits : BitPtr
unfolding from_element_mut
local_bits = from_element_mut usize 8

module _ (r : Radium) (o : BitOrder) (t : BitStore) (s : BitPtr) where
  -- One round of `rotate_left`, with the content of `tmp`.
  unfoldable pub round_left : ℕ → Memory × Memory → Outcome (Memory × Memory)
  round_left shamt (m, tmp) = do
    let bits = range_unchecked usize (range_to shamt) local_bits
    tmp ← clone_from_slice r o usize tmp bits r o t m (range_unchecked t (range_to shamt) s)
    let m = crawl_left r o t (len t s - shamt) shamt s m
    let back = range_unchecked t (range_from (sub_usize (len t s) shamt)) s
    m ← clone_from_slice r o t m back r o usize tmp bits
    ok (m, tmp)

  -- One round of `rotate_right`.
  unfoldable pub round_right : ℕ → Memory × Memory → Outcome (Memory × Memory)
  round_right shamt (m, tmp) = do
    let bits = range_unchecked usize (range_to shamt) local_bits
    let back = range_unchecked t (range_from (sub_usize (len t s) shamt)) s
    tmp ← clone_from_slice r o usize tmp bits r o t m back
    let m = crawl_right r o t (len t s - shamt) shamt s m
    m ← clone_from_slice r o t m (range_unchecked t (range_to shamt) s) r o usize tmp bits
    ok (m, tmp)

  -- `while by > 0`, on fuel, for either round.
  unfoldable pub rotate_loop :
      (ℕ → Memory × Memory → Outcome (Memory × Memory))
      → ℕ
      → ℕ
      → Memory × Memory
      → Option (Outcome Memory)
  rotate_loop round zero by st = none
  rotate_loop round (suc fuel) by st =
      let shamt = min (bits usize) by in
      if by == 0 then some (ok st.0) else elim (round shamt st) [
        | panic ↦ some panic
        | ok st' ↦ rotate_loop round fuel (by - shamt) st'
      ]

  -- `BitSlice::rotate_left`
  unfoldable pub rotate_left : Memory → ℕ → Option (Outcome Memory)
  unfolding rotate_loop round_left
  rotate_left m by =
      if leb by (len t s)
      then (if by == 0 || by == len t s
          then some (ok m)
          else rotate_loop round_left (suc by) by (m, tmp))
      else some panic

  -- `BitSlice::rotate_right`
  unfoldable pub rotate_right : Memory → ℕ → Option (Outcome Memory)
  unfolding rotate_loop round_right
  rotate_right m by =
      if leb by (len t s)
      then (if by == 0 || by == len t s
          then some (ok m)
          else rotate_loop round_right (suc by) by (m, tmp))
      else some panic
