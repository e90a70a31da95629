-- ===== src/Slice.antt =====
-- src/slice.rs and src/slice/api.rs: a `BitSlice` is a reference in the form of a `BitPtr`. What
-- changes bits takes the memory and gives it back.
pub mod Locate
pub mod Bits
pub mod Ranges
pub mod Rewrites
pub mod Moves
pub mod Bulk
pub mod Ops
pub mod Compare
pub mod Iterators
pub mod Rotate
pub mod Search
use bitvec_sgx.Base.{
  ℕ, zero, suc, ◌+◌, ◌-◌, ◌*◌, ◌/◌, ◌%◌, ◌^◌, ◌≤◌, ◌<◌, Bool, true, false, not, ltb, leb, ◌==◌,
  ◌&&◌, ◌||◌, if◌then◌else◌, Option, none, some, Outcome, ok, panic, assert, ◌>>=◌, ◌>>◌, List, [],
  ◌∷◌,
}
use bitvec_sgx.Base.Int.{ℤ, pos, negsuc}
use bitvec_sgx.Base.Isize.{as_isize}
use bitvec_sgx.Store.{BitStore, size_of, bits}
use bitvec_sgx.Order.{BitOrder}
use bitvec_sgx.Access.{Radium}
use bitvec_sgx.Access
use bitvec_sgx.Indices.{BitIdx, offset}
use bitvec_sgx.Pointer
use bitvec_sgx.Pointer.{BitPtr, new_unchecked, pointer, head, len_of, set_len, max_elts}
use bitvec_sgx.Memory.{Memory, write, ptr_offset}

-- `BitPtr::from_bitslice`, as `BitSlice::bitptr`.
unfoldable pub bitptr : BitPtr → BitPtr
bitptr s = if s.len == 0 then Pointer.empty else s

-- `BitSlice::len` and `BitSlice::is_empty`
unfoldable pub len : BitStore → BitPtr → ℕ
unfolding bitptr len_of
len t s = len_of t (bitptr s)

unfoldable pub is_empty : BitStore → BitPtr → Bool
unfolding bitptr len_of
is_empty t s = len_of t (bitptr s) == 0

-- The element and the index there that `get_unchecked` and `set_unchecked` address.
unfoldable pub locate : BitStore → BitPtr → ℕ → ℕ × BitIdx
locate t s index =
    let p = bitptr s in
    let (elt, b) = offset t (head t p) (as_isize index) in (ptr_offset t (pointer t p) elt, b)

module _ (r : Radium) (o : BitOrder) (t : BitStore) where
  -- The bit of memory at an address and an index.
  abbrev pub read : Memory → ℕ × BitIdx → Bool
  read m (a, b) = Access.get r o t (m a) b

  -- `usize::get_unchecked`
  unfoldable pub get_unchecked : Memory → BitPtr → ℕ → Bool
  get_unchecked m s index = let (a, b) = locate t s index in Access.get r o t (m a) b

  -- `BitSlice::set_unchecked`
  unfoldable pub set_unchecked : Memory → BitPtr → ℕ → Bool → Memory
  set_unchecked m s index value =
      let (a, b) = locate t s index in write m a (Access.set r o t (m a) b value)

  -- `usize::get`
  unfoldable pub get : Memory → BitPtr → ℕ → Option Bool
  get m s index = if ltb index (len t s) then some (get_unchecked m s index) else none

  -- `usize::index`
  unfoldable pub index : Memory → BitPtr → ℕ → Outcome Bool
  unfolding get
  index m s i = elim (get m s i) [ some b ↦ ok b | none ↦ panic ]

  -- `BitSlice::set`
  unfoldable pub set : Memory → BitPtr → ℕ → Bool → Outcome Memory
  set m s i value = assert (ltb i (len t s)) >> ok (set_unchecked m s i value)

  -- `BitSlice::first` and `BitSlice::last`
  unfoldable pub first : Memory → BitPtr → Option Bool
  unfolding get
  first m s = get m s 0

  unfoldable pub last : Memory → BitPtr → Option Bool
  last m s = if len t s == 0 then none else some (get_unchecked m s (len t s - 1))

  -- `BitSlice::swap_unchecked`
  unfoldable pub swap_unchecked : Memory → BitPtr → ℕ → ℕ → Memory
  swap_unchecked m s a b =
      let bit_a = get_unchecked m s a in
      let bit_b = get_unchecked m s b in set_unchecked (set_unchecked m s a bit_b) s b bit_a

  -- `BitSlice::swap`
  unfoldable pub swap : Memory → BitPtr → ℕ → ℕ → Outcome Memory
  swap m s a b = do assert (ltb a (len t s)); assert (ltb b (len t s)); ok (swap_unchecked m s a b)

  -- `BitSlice::copy_unchecked`
  unfoldable pub copy_unchecked : Memory → BitPtr → ℕ → ℕ → Memory
  copy_unchecked m s from to = set_unchecked m s to (get_unchecked m s from)
