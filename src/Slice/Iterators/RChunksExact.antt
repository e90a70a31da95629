-- ===== src/Slice/Iterators/RChunksExact.antt =====
-- src/slice/iter.rs, `RChunksExact`: pieces of a given width from the back, and what is left over.
pub mod Laws
use bitvec_sgx.Base.{
  ℕ, ◌-◌, ◌/◌, ◌%◌, Bool, leb, ltb, ◌||◌, ◌==◌, if◌then◌else◌, Option, none, some, Outcome, ok,
  panic, assert, ◌>>=◌, ◌>>◌, not,
}
use bitvec_sgx.Store.{BitStore}
use bitvec_sgx.Pointer
use bitvec_sgx.Pointer.{BitPtr}
use bitvec_sgx.Slice.{len}
use bitvec_sgx.Slice.Ranges.{range_from, range_to, range_unchecked, split_at}
use bitvec_sgx.Slice.Iterators.{overflowing_mul}

pub record RChunksExact : Type 0 where
  pub inner : BitPtr
  pub extra : BitPtr
  pub width : ℕ

module _ (t : BitStore) where
  -- `BitSlice::rchunks_exact`
  unfoldable pub rchunks_exact : BitPtr → ℕ → Outcome RChunksExact
  rchunks_exact s chunk_size = do
    assert (not (chunk_size == 0))
    (extra, inner) ← split_at t s (len t s % chunk_size)
    ok (record { inner = inner; extra = extra; width = chunk_size })

  -- `RChunksExact::next`
  unfoldable pub next : RChunksExact → Outcome (Option BitPtr × RChunksExact)
  next c =
      if ltb (len t c.inner) c.width then ok (none, record c { inner = Pointer.empty }) else (do
        (rest, tail) ← split_at t c.inner (len t c.inner - c.width)
        ok (some tail, record c { inner = rest }))

  -- `RChunksExact::size_hint`
  unfoldable pub size_hint : RChunksExact → ℕ × Option ℕ
  size_hint c = let n = len t c.inner / c.width in (n, some n)

  -- `RChunksExact::nth`
  unfoldable pub nth : RChunksExact → ℕ → Outcome (Option BitPtr × RChunksExact)
  unfolding next
  nth c n =
      let (end, ovf) = overflowing_mul c.width n in
      if leb (len t c.inner) end || ovf
      then ok (none, record c { inner = Pointer.empty })
      else next (record c { inner = range_unchecked t (range_from (len t c.inner - end)) c.inner })

  -- `RChunksExactMut::nth`
  unfoldable pub nth_mut : RChunksExact → ℕ → Outcome (Option BitPtr × RChunksExact)
  unfolding next
  nth_mut c n =
      let (end, ovf) = overflowing_mul c.width n in
      if leb (len t c.inner) end || ovf
      then ok (none, record c { inner = Pointer.empty })
      else next (record c { inner = range_unchecked t (range_to (len t c.inner - end)) c.inner })

  -- `RChunksExact::next_back`
  unfoldable pub next_back : RChunksExact → Outcome (Option BitPtr × RChunksExact)
  next_back c =
      if ltb (len t c.inner) c.width
      then ok (none, record c { inner = Pointer.empty })
      else (do (head, rest) ← split_at t c.inner c.width; ok (some head, record c { inner = rest }))
