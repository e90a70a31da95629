-- ===== src/Slice/Iterators/ChunksExact.antt =====
-- src/slice/iter.rs, `ChunksExact`: pieces of a given width from the front, and what is left over.
pub mod Laws
use bitvec_sgx.Base.{
  ℕ, ◌-◌, ◌/◌, ◌%◌, Bool, leb, ltb, ◌||◌, ◌==◌, if◌then◌else◌, Option, none, some, Outcome, ok,
  panic, assert, ◌>>=◌, ◌>>◌, not,
}
use bitvec_sgx.Store.{BitStore}
use bitvec_sgx.Pointer
use bitvec_sgx.Pointer.{BitPtr}
use bitvec_sgx.Slice.{len}
use bitvec_sgx.Slice.Ranges.{range_from, range_unchecked, split_at}
use bitvec_sgx.Slice.Iterators.{overflowing_mul}

pub record ChunksExact : Type 0 where
  pub inner : BitPtr
  pub extra : BitPtr
  pub width : ℕ

module _ (t : BitStore) where
  -- `BitSlice::chunks_exact`
  unfoldable pub chunks_exact : BitPtr → ℕ → Outcome ChunksExact
  chunks_exact s chunk_size = do
    assert (not (chunk_size == 0))
    let rem = len t s % chunk_size
    (inner, extra) ← split_at t s (len t s - rem)
    ok (record { inner = inner; extra = extra; width = chunk_size })

  -- `ChunksExact::next`
  unfoldable pub next : ChunksExact → Outcome (Option BitPtr × ChunksExact)
  next c =
      if ltb (len t c.inner) c.width
      then ok (none, record c { inner = Pointer.empty })
      else (do (head, rest) ← split_at t c.inner c.width; ok (some head, record c { inner = rest }))

  -- `ChunksExact::size_hint`
  unfoldable pub size_hint : ChunksExact → ℕ × Option ℕ
  size_hint c = let n = len t c.inner / c.width in (n, some n)

  -- `ChunksExact::nth`
  unfoldable pub nth : ChunksExact → ℕ → Outcome (Option BitPtr × ChunksExact)
  unfolding next
  nth c n =
      let (start, ovf) = overflowing_mul c.width n in
      if leb (len t c.inner) start || ovf
      then ok (none, record c { inner = Pointer.empty })
      else next (record c { inner = range_unchecked t (range_from start) c.inner })

  -- `ChunksExact::next_back`
  unfoldable pub next_back : ChunksExact → Outcome (Option BitPtr × ChunksExact)
  next_back c =
      if ltb (len t c.inner) c.width then ok (none, record c { inner = Pointer.empty }) else (do
        (rest, tail) ← split_at t c.inner (len t c.inner - c.width)
        ok (some tail, record c { inner = rest }))
