-- ===== src/Slice/Ranges.antt =====
-- Subslices: the `BitSliceIndex` implementations for ranges (src/slice/api.rs), and the splits.
-- A subslice is a new reference to the same memory.
pub mod Views
pub mod Splits
pub mod Nested
use bitvec_sgx.Base.{
  ℕ, zero, suc, ◌+◌, ◌-◌, ◌*◌, ◌/◌, ◌%◌, ◌^◌, ◌≤◌, ◌<◌, Bool, true, false, ltb, leb, ◌==◌, ◌||◌,
  if◌then◌else◌, Option, none, some, Outcome, ok, panic, assert, ◌>>=◌, ◌>>◌,
}
use bitvec_sgx.Base.Isize.{as_isize}
use bitvec_sgx.Store.{BitStore}
use bitvec_sgx.Order.{BitOrder}
use bitvec_sgx.Access.{Radium}
use bitvec_sgx.Indices.{offset}
use bitvec_sgx.Pointer
use bitvec_sgx.Pointer.{BitPtr, new_unchecked, pointer, head, len_of, set_len, raw_parts}
use bitvec_sgx.Memory.{Memory, ptr_offset}
use bitvec_sgx.Slice.{bitptr, len, is_empty, get_unchecked}

-- The range types that index a slice.
pub data SliceRange : Type 0 where
  range : ℕ → ℕ → SliceRange
  range_from : ℕ → SliceRange
  range_to : ℕ → SliceRange
  range_inclusive : ℕ → ℕ → SliceRange
  range_to_inclusive : ℕ → SliceRange
  range_full : SliceRange

-- `a - b` and `a + 1` on `usize`.
abbrev pub sub_usize : ℕ → ℕ → ℕ
sub_usize a b = (a + 2 ^ 64 - b) % 2 ^ 64

abbrev pub next_usize : ℕ → ℕ
next_usize a = (a + 1) % 2 ^ 64

module _ (t : BitStore) where
  -- What `Range` and `RangeFrom` build: a region from bit `start` on, `n` bits long.
  unfoldable pub subregion : BitPtr → ℕ → ℕ → BitPtr
  unfolding raw_parts
  subregion s start n =
      let (data_at, h, _) = raw_parts t (bitptr s) in
      let (skip, new_head) = offset t h (as_isize start) in
      new_unchecked t (ptr_offset t data_at skip) new_head n

  -- `get_unchecked`
  unfoldable pub range_unchecked : SliceRange → BitPtr → BitPtr
  unfolding subregion
  range_unchecked (range start end) s = subregion s start (sub_usize end start)
  range_unchecked (range_from start) s = subregion s start (sub_usize (len_of t (bitptr s)) start)
  range_unchecked (range_to end) s = set_len t (bitptr s) end
  range_unchecked (range_inclusive start end) s =
      subregion s start (sub_usize (next_usize end) start)
  range_unchecked (range_to_inclusive end) s = set_len t (bitptr s) (next_usize end)
  range_unchecked range_full s = s

  abbrev range_out : ℕ → ℕ → ℕ → Bool
  range_out start end n = ltb n start || ltb n end || ltb end start

  -- `get`
  unfoldable pub range_get : SliceRange → BitPtr → Option BitPtr
  unfolding range_unchecked
  range_get (range start end) s =
      if range_out start end (len t s) then none else some (range_unchecked (range start end) s)
  range_get (range_from start) s =
      if leb start (len t s) then some (range_unchecked (range_from start) s) else none
  range_get (range_to end) s =
      if leb end (len t s) then some (range_unchecked (range_to end) s) else none
  range_get (range_inclusive start end) s =
      if range_out start (next_usize end) (len t s)
      then none
      else some (range_unchecked (range_inclusive start end) s)
  range_get (range_to_inclusive end) s =
      if leb (next_usize end) (len t s)
      then some (range_unchecked (range_to_inclusive end) s)
      else none
  range_get range_full s = some s

  -- `index`
  unfoldable pub range_index : SliceRange → BitPtr → Outcome BitPtr
  range_index i s = elim (range_get i s) [ some sub ↦ ok sub | none ↦ panic ]

  -- `BitSlice::split_at_unchecked`
  unfoldable pub split_at_unchecked : BitPtr → ℕ → BitPtr × BitPtr
  unfolding range_unchecked
  split_at_unchecked s mid =
      if mid == 0
      then (Pointer.empty, s)
      else if mid == len t s
      then (s, Pointer.empty)
      else (range_unchecked (range_to mid) s, range_unchecked (range_from mid) s)

  -- `BitSlice::split_at`
  unfoldable pub split_at : BitPtr → ℕ → Outcome (BitPtr × BitPtr)
  unfolding split_at_unchecked
  split_at s mid = assert (leb mid (len t s)) >> ok (split_at_unchecked s mid)

module _ (r : Radium) (o : BitOrder) (t : BitStore) where
  -- `BitSlice::split_first`
  unfoldable pub split_first : Memory → BitPtr → Outcome (Option (Bool × BitPtr))
  split_first m s =
      if is_empty t s
      then ok none
      else (do (front, rest) ← split_at t s 1; ok (some (get_unchecked r o t m front 0, rest)))

  -- `BitSlice::split_last`
  unfoldable pub split_last : Memory → BitPtr → Outcome (Option (Bool × BitPtr))
  split_last m s = if len t s == 0 then ok none else (do
    (rest, back) ← split_at t s (len t s - 1)
    ok (some (get_unchecked r o t m back 0, rest)))
