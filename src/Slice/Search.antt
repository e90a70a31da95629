-- ===== src/Slice/Search.antt =====
-- src/slice/api.rs: whether a slice contains, starts with or ends with another.
pub mod Laws
use bitvec_sgx.Base.{
  ℕ, zero, suc, ◌-◌, Bool, true, false, leb, ltb, if◌then◌else◌, Option, none, some, Outcome, ok,
  panic,
}
use bitvec_sgx.Store.{BitStore}
use bitvec_sgx.Order.{BitOrder}
use bitvec_sgx.Access.{Radium}
use bitvec_sgx.Pointer.{BitPtr}
use bitvec_sgx.Memory.{Memory}
use bitvec_sgx.Slice.{len}
use bitvec_sgx.Slice.Ranges.{range_from, range_to, range_unchecked}
use bitvec_sgx.Slice.Compare.{eq}
use bitvec_sgx.Slice.Iterators.Windows.{Windows, windows, next}

module _ (r : Radium) (o : BitOrder) (t : BitStore) (m : Memory) (s : BitPtr) (p : BitOrder)
    (u : BitStore) (from : Memory) (query : BitPtr) where
  -- `windows.any(|s| s == query)`, on fuel.
  unfoldable pub any_window : ℕ → Windows → Option (Outcome Bool)
  any_window zero c = none
  any_window (suc fuel) c = elim (next t c) [
    | panic ↦ some panic
    | ok (none, _) ↦ some (ok false)
    | ok (some window, c') ↦
        let rest = any_window fuel c' in
        if eq r o t p u m window from query then some (ok true) else rest
  ]

  -- `BitSlice::contains`
  unfoldable pub contains : Option (Outcome Bool)
  unfolding any_window
  contains =
      if ltb (len t s) (len u query) then some (ok false) else elim (windows t s (len u query)) [
        | panic ↦ some panic
        | ok c ↦ any_window (suc (len t s)) c
      ]

  -- `BitSlice::starts_with`
  unfoldable pub starts_with : Bool
  starts_with =
      if leb (len u query) (len t s)
      then eq r p u o t from query m (range_unchecked t (range_to (len u query)) s)
      else false

  -- `BitSlice::ends_with`
  unfoldable pub ends_with : Bool
  ends_with =
      if leb (len u query) (len t s)
      then eq r p u o t from query m (range_unchecked t (range_from (len t s - len u query)) s)
      else false
