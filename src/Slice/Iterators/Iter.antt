-- ===== src/Slice/Iterators/Iter.antt =====
-- src/slice/iter.rs, `Iter` and `IterMut`: the bits of a slice. The state is the slice that is left;
-- an item is the bit that the reference reads.
pub mod Laws
use bitvec_sgx.Base.{ℕ, ◌+◌, Bool, Option, none, some, Outcome, ok, panic, ◌>>=◌}
use bitvec_sgx.Store.{BitStore}
use bitvec_sgx.Order.{BitOrder}
use bitvec_sgx.Access.{Radium}
use bitvec_sgx.Pointer
use bitvec_sgx.Pointer.{BitPtr}
use bitvec_sgx.Memory.{Memory}
use bitvec_sgx.Slice.{len}
use bitvec_sgx.Slice.Ranges.{range_from, range_get, split_first, split_last}

-- `self.inner = r` and the item `b`, or `None` with the state `kept`.
unfoldable pub advance : BitPtr → Option (Bool × BitPtr) → Option Bool × BitPtr
advance kept none = (none, kept)
advance kept (some (b, r)) = (some b, r)

-- `Iter::size_hint`
unfoldable pub size_hint : BitStore → BitPtr → ℕ × Option ℕ
size_hint t inner = let n = len t inner in (n, some n)

module _ (r : Radium) (o : BitOrder) (t : BitStore) (m : Memory) where
  -- `Iter::next` and `Iter::next_back`
  unfoldable pub next : BitPtr → Outcome (Option Bool × BitPtr)
  unfolding advance
  next inner = do step ← split_first r o t m inner; ok (advance inner step)

  unfoldable pub next_back : BitPtr → Outcome (Option Bool × BitPtr)
  unfolding advance
  next_back inner = do step ← split_last r o t m inner; ok (advance inner step)

  -- `IterMut::next`: the slice is taken out first.
  unfoldable pub next_mut : BitPtr → Outcome (Option Bool × BitPtr)
  unfolding advance
  next_mut inner = do step ← split_first r o t m inner; ok (advance Pointer.empty step)

  -- `Iter::nth`
  unfoldable pub nth : BitPtr → ℕ → Outcome (Option Bool × BitPtr)
  unfolding next
  nth inner n = elim (range_get t (range_from n) inner) [
    | none ↦ ok (none, Pointer.empty)
    | some s ↦ next s
  ]
