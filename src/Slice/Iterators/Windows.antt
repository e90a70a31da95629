-- ===== src/Slice/Iterators/Windows.antt =====
-- src/slice/iter.rs, `Windows`: the overlapping pieces of a given width.
pub mod Laws
pub mod Back
use bitvec_sgx.Base.{
  ℕ, ◌+◌, ◌-◌, Bool, leb, ltb, ◌||◌, ◌&&◌, ◌==◌, if◌then◌else◌, Option, none, some, Outcome, ok,
  panic, assert, ◌>>=◌, ◌>>◌, not,
}
use bitvec_sgx.Store.{BitStore}
use bitvec_sgx.Pointer
use bitvec_sgx.Pointer.{BitPtr}
use bitvec_sgx.Slice.{len}
use bitvec_sgx.Slice.Ranges.{range, range_from, range_to, range_unchecked, sub_usize}
use bitvec_sgx.Slice.Iterators.{overflowing_add}

pub record Windows : Type 0 where
  pub inner : BitPtr
  pub width : ℕ

module _ (t : BitStore) where
  -- `BitSlice::windows`
  unfoldable pub windows : BitPtr → ℕ → Outcome Windows
  windows s width = assert (not (width == 0)) >> ok (record { inner = s; width = width })

  -- `Windows::next`
  unfoldable pub next : Windows → Outcome (Option BitPtr × Windows)
  next c =
      if ltb (len t c.inner) c.width
      then ok (none, record c { inner = Pointer.empty })
      else ok (
        some (range_unchecked t (range_to c.width) c.inner),
        record c { inner = range_unchecked t (range_from 1) c.inner },
      )

  -- `Windows::size_hint`
  unfoldable pub size_hint : Windows → ℕ × Option ℕ
  size_hint c =
      let n = len t c.inner in
      if ltb n c.width then (0, some 0) else (n - c.width + 1, some (n - c.width + 1))

  -- `Windows::nth`
  unfoldable pub nth : Windows → ℕ → Outcome (Option BitPtr × Windows)
  nth c n =
      let (end, ovf) = overflowing_add c.width n in
      if ltb (len t c.inner) end || ovf
      then ok (none, record c { inner = Pointer.empty })
      else ok (
        some (range_unchecked t (range n end) c.inner),
        record c { inner = range_unchecked t (range_from (n + 1)) c.inner },
      )

  -- `Windows::next_back`
  unfoldable pub next_back : Windows → Outcome (Option BitPtr × Windows)
  next_back c =
      let n = len t c.inner in
      if not (leb 1 n && ltb n c.width)
      then ok (none, record c { inner = Pointer.empty })
      else ok (
        some (range_unchecked t (range_from (sub_usize n c.width)) c.inner),
        record c { inner = range_unchecked t (range_to (n - 1)) c.inner },
      )
