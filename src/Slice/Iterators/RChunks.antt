-- ===== src/Slice/Iterators/RChunks.antt =====
-- src/slice/iter.rs, `RChunks`: pieces of a given width from the back, the last one may be shorter.
pub mod Laws
use bitvec_sgx.Base.{
  ℕ, ◌-◌, ◌%◌, min, Bool, leb, ◌||◌, ◌==◌, if◌then◌else◌, Option, none, some, Outcome, ok, panic,
  assert, ◌>>=◌, ◌>>◌, not,
}
use bitvec_sgx.Store.{BitStore}
use bitvec_sgx.Pointer
use bitvec_sgx.Pointer.{BitPtr}
use bitvec_sgx.Slice.{len}
use bitvec_sgx.Slice.Ranges.{range_to, range_unchecked, split_at}
use bitvec_sgx.Slice.Iterators.{overflowing_mul, pieces}

pub record RChunks : Type 0 where
  pub inner : BitPtr
  pub width : ℕ

module _ (t : BitStore) where
  -- `BitSlice::rchunks`
  unfoldable pub rchunks : BitPtr → ℕ → Outcome RChunks
  rchunks s chunk_size =
      assert (not (chunk_size == 0)) >> ok (record { inner = s; width = chunk_size })

  -- `RChunks::next`
  unfoldable pub next : RChunks → Outcome (Option BitPtr × RChunks)
  next c =
      let n = len t c.inner in
      if n == 0 then ok (none, c) else (do
        (rest, tail) ← split_at t c.inner (n - min n c.width)
        ok (some tail, record c { inner = rest }))

  -- `RChunks::size_hint`
  unfoldable pub size_hint : RChunks → ℕ × Option ℕ
  size_hint c = let out = pieces c.width (len t c.inner) in (out, some out)

  -- `RChunks::nth`
  unfoldable pub nth : RChunks → ℕ → Outcome (Option BitPtr × RChunks)
  unfolding next
  nth c n =
      let (end, ovf) = overflowing_mul c.width n in
      if leb (len t c.inner) end || ovf
      then ok (none, record c { inner = Pointer.empty })
      else next (record c { inner = range_unchecked t (range_to (len t c.inner - end)) c.inner })

  -- `RChunks::next_back`
  unfoldable pub next_back : RChunks → Outcome (Option BitPtr × RChunks)
  next_back c =
      let n = len t c.inner in
      let rem = n % c.width in
      let size = if rem == 0 then c.width else rem in
      if n == 0
      then ok (none, c)
      else (do (head, rest) ← split_at t c.inner size; ok (some head, record c { inner = rest }))
