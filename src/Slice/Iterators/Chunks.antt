-- ===== src/Slice/Iterators/Chunks.antt =====
-- src/slice/iter.rs, `Chunks`: pieces of a given width from the front, the last one may be shorter.
pub mod Laws
use bitvec_sgx.Base.{
  ℕ, ◌-◌, ◌%◌, Bool, leb, ◌||◌, ◌==◌, if◌then◌else◌, Option, none, some, Outcome, ok, panic, assert,
  ◌>>=◌, ◌>>◌, not,
}
use bitvec_sgx.Store.{BitStore}
use bitvec_sgx.Pointer
use bitvec_sgx.Pointer.{BitPtr}
use bitvec_sgx.Slice.{len}
use bitvec_sgx.Slice.Ranges.{range_from, range_unchecked, split_at}
use bitvec_sgx.Slice.Iterators.{overflowing_mul, pieces}

pub record Chunks : Type 0 where
  pub inner : BitPtr
  pub width : ℕ

module _ (t : BitStore) where
  -- `BitSlice::chunks`
  unfoldable pub chunks : BitPtr → ℕ → Outcome Chunks
  chunks s chunk_size =
      assert (not (chunk_size == 0)) >> ok (record { inner = s; width = chunk_size })

  -- `Chunks::next`
  unfoldable pub next : Chunks → Outcome (Option BitPtr × Chunks)
  next c =
      let n = len t c.inner in
      if n == 0
      then ok (none, c)
      else if leb n c.width
      then ok (some c.inner, record c { inner = Pointer.empty })
      else (do (head, rest) ← split_at t c.inner c.width; ok (some head, record c { inner = rest }))

  -- `Chunks::size_hint`
  unfoldable pub size_hint : Chunks → ℕ × Option ℕ
  size_hint c = let out = pieces c.width (len t c.inner) in (out, some out)

  -- `Chunks::nth`
  unfoldable pub nth : Chunks → ℕ → Outcome (Option BitPtr × Chunks)
  unfolding next
  nth c n =
      let (start, ovf) = overflowing_mul c.width n in
      if leb (len t c.inner) start || ovf
      then ok (none, record c { inner = Pointer.empty })
      else next (record c { inner = range_unchecked t (range_from start) c.inner })

  -- `Chunks::next_back`
  unfoldable pub next_back : Chunks → Outcome (Option BitPtr × Chunks)
  next_back c =
      let n = len t c.inner in
      let rem = n % c.width in
      let size = if rem == 0 then c.width else rem in
      if n == 0 then ok (none, c) else (do
        (rest, tail) ← split_at t c.inner (n - size)
        ok (some tail, record c { inner = rest }))
