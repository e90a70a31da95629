-- ===== src/Fields.antt =====
-- src/fields.rs: integers stored in the bits of a slice, `trait BitField`. Its implementations for
-- the two orders are the modules Fields/Lsb0.antt and Fields/Msb0.antt.
pub mod Lsb0
pub mod Msb0
pub mod Splits
pub mod Words
pub mod Chunks
pub mod Assignments
pub mod Elements
pub mod Values
pub mod Regions
pub mod Edges
pub mod Writes
pub mod Sequences
pub mod RoundTrip
pub mod Numbers
use bitvec_sgx.Base.{
  ℕ, ◌+◌, ◌*◌, ◌/◌, ◌%◌, ◌^◌, bit_or, Bool, not, leb, ltb, ◌&&◌, if◌then◌else◌, min, List, [], ◌∷◌,
  Outcome, ok, panic, assert,
}
use bitvec_sgx.Store.{BitStore, size_of, bits, all_true, not_word, shl, usize}
use bitvec_sgx.Access.{Radium}
use bitvec_sgx.Memory.{Memory, write}

-- `mask_for`: the low `len` bits.
unfoldable pub mask_for : BitStore → ℕ → ℕ
mask_for t len =
    let n = len % 2 ^ 8 in if leb (bits t) n then all_true t else not_word t (shl t (all_true t) n)

-- `resize` on a little-endian target: the low bytes that both types have, over zeros.
unfoldable pub resize : BitStore → BitStore → ℕ → ℕ
resize t u value = value % 2 ^ (min (size_of t) (size_of u) * 8)

-- `accum <<= k` and `value >>= k` on `usize`, without overflow checks: the amount is taken modulo
-- the width.
unfoldable pub shl_usize : ℕ → ℕ → ℕ
shl_usize x k = x * 2 ^ (k % 64) % 2 ^ 64

unfoldable pub shr_usize : ℕ → ℕ → ℕ
shr_usize x k = x / 2 ^ (k % 64)

-- `accum <<= width; accum |= val;`
unfoldable pub push : ℕ → ℕ → ℕ → ℕ
unfolding shl_usize
push accum width val = bit_or (shl_usize accum width) val

-- `(1 ..= U::BITS as usize).contains(&len)`
abbrev pub field_fits : BitStore → ℕ → Bool
field_fits u len = leb 1 len && leb len (bits u)

module _ (r : Radium) (t : BitStore) where
  -- `for elt in elts.iter()` and `for elt in elts.iter().rev()` of the loads.
  unfoldable pub load_forward : Memory → List ℕ → ℕ → ℕ
  unfolding push resize
  load_forward m [] accum = accum
  load_forward m (elt ∷ elts) accum =
      load_forward m elts (push accum (bits t) (resize t usize (r.load (m elt))))

  unfoldable pub load_backward : Memory → List ℕ → ℕ → ℕ
  unfolding push resize
  load_backward m [] accum = accum
  load_backward m (elt ∷ elts) accum =
      push (load_backward m elts accum) (bits t) (resize t usize (r.load (m elt)))

  -- The body of the loops of the stores: `elt.store(resize(value)); value >>= T::BITS;`.
  unfoldable pub store_step : ℕ → Memory × ℕ → Memory × ℕ
  unfolding resize shr_usize
  store_step elt (m, value) =
      (write m elt (r.store (m elt) (resize usize t value)), shr_usize value (bits t))

  unfoldable pub store_forward : List ℕ → Memory × ℕ → Memory × ℕ
  unfolding store_step
  store_forward [] s = s
  store_forward (elt ∷ elts) s = store_forward elts (store_step elt s)

  unfoldable pub store_backward : List ℕ → Memory × ℕ → Memory × ℕ
  unfolding store_step
  store_backward [] s = s
  store_backward (elt ∷ elts) s = store_step elt (store_backward elts s)
