-- ===== src/Slice/Compare.antt =====
-- src/slice/traits.rs: equality and order of slices, also of different orders and element types.
-- The iterators of the two slices are the bits at their indices.
pub mod Laws
use bitvec_sgx.Base.{
  ℕ, zero, suc, Bool, true, false, not, ◌&&◌, ◌==◌, ltb, min, if◌then◌else◌, Option, some,
  all_range,
}
use bitvec_sgx.Store.{BitStore}
use bitvec_sgx.Order.{BitOrder}
use bitvec_sgx.Access.{Radium}
use bitvec_sgx.Pointer.{BitPtr}
use bitvec_sgx.Memory.{Memory}
use bitvec_sgx.Slice.{len, get_unchecked}

-- `core::cmp::Ordering`
pub data Ordering : Type 0 where
  less : Ordering
  equal : Ordering
  greater : Ordering

abbrev pub same_bit : Bool → Bool → Bool
same_bit a b = if a then b else not b

-- `usize::partial_cmp`
abbrev pub compare_len : ℕ → ℕ → Ordering
compare_len a b = if a == b then equal else if ltb a b then less else greater

-- The loop of `partial_cmp` over the pairs from index `i` on.
unfoldable pub compare_bits : ℕ → ℕ → (ℕ → Bool) → (ℕ → Bool) → Ordering → Ordering
compare_bits zero i f g end = end
compare_bits (suc n) i f g end =
    let rest = compare_bits n (suc i) f g end in
    if f i && not (g i) then greater else if not (f i) && g i then less else rest

module _ (r : Radium) (a : BitOrder) (b : BitStore) (c : BitOrder) (d : BitStore) (m : Memory)
    (s : BitPtr) (m' : Memory) (rhs : BitPtr) where
  -- `PartialEq::eq`
  unfoldable pub eq : Bool
  unfolding all_range
  eq =
      if not (len b s == len d rhs)
      then false
      else all_range (min (len b s) (len d rhs)) 0
          (λ i. same_bit (get_unchecked r a b m s i) (get_unchecked r c d m' rhs i))

  -- `PartialOrd::partial_cmp`
  unfoldable pub partial_cmp : Option Ordering
  unfolding compare_bits
  partial_cmp = some (
      compare_bits (min (len b s) (len d rhs)) 0 (λ i. get_unchecked r a b m s i)
        (λ i. get_unchecked r c d m' rhs i) (compare_len (len b s) (len d rhs)))
