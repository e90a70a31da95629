-- ===== src/Fields/Lsb0.antt =====
-- src/fields.rs: `impl BitField for BitSlice<Lsb0, T>`.
pub mod Loads
pub mod Stores
pub mod RoundTrip
use bitvec_sgx.Base.{
  ℕ, ◌-◌, ◌+◌, ◌*◌, bit_and, bit_or, Option, inl, inr, Outcome, ok, assert, ◌>>=◌, ◌>>◌,
}
use bitvec_sgx.Store.{BitStore, bits, all_true, not_word, shl, shr, usize}
use bitvec_sgx.Access.{Radium, clear_bits, set_bits}
use bitvec_sgx.Indices.{BitIdx, BitTail}
use bitvec_sgx.Pointer.{BitPtr}
use bitvec_sgx.Domain.{Splat, domain, splat}
use bitvec_sgx.Memory.{Memory, write}
use bitvec_sgx.Slice.{bitptr, len}
use bitvec_sgx.Slice.Bulk.{if_some}
use bitvec_sgx.Fields.{
  mask_for, resize, shr_usize, push, field_fits, load_forward, load_backward, store_forward,
  store_backward,
}

module _ (r : Radium) (t u : BitStore) where
  -- The match of `load_le`, on the length and the parts of the domain.
  unfoldable pub load_le_parts : Memory → ℕ → Splat → ℕ
  unfolding mask_for resize push load_backward
  load_le_parts m n (inr (h, e, tl)) = resize t u (bit_and (shr t (r.load (m e)) h) (mask_for t n))
  load_le_parts m n (inl (h, b, tl)) =
      let accum =
        if_some tl 0 (λ (tail, w). resize t usize (bit_and (r.load (m tail)) (mask_for t w))) in
      let accum = if_some b accum (λ elts. load_backward r t m elts accum) in
      let accum = if_some h accum (λ (lsedge, head).
        let width = bits t - lsedge in
        push accum width (resize t usize (shr t (r.load (m head)) lsedge))) in
      resize usize u accum

  -- `load_le`
  unfoldable pub load_le : Memory → BitPtr → Outcome ℕ
  unfolding load_le_parts splat
  load_le m s = do
    assert (field_fits u (len t s))
    d ← domain t (bitptr s)
    ok (load_le_parts m (len t s) (splat d))

  -- The match of `load_be`.
  unfoldable pub load_be_parts : Memory → ℕ → Splat → ℕ
  unfolding mask_for resize push load_forward
  load_be_parts m n (inr (h, e, tl)) = resize t u (bit_and (shr t (r.load (m e)) h) (mask_for t n))
  load_be_parts m n (inl (h, b, tl)) =
      let accum = if_some h 0 (λ (h, head). resize t usize (shr t (r.load (m head)) h)) in
      let accum = if_some b accum (λ elts. load_forward r t m elts accum) in
      let accum = if_some tl accum (λ (tail, width).
        push accum width (resize t usize (bit_and (r.load (m tail)) (mask_for t width)))) in
      resize usize u accum

  -- `load_be`
  unfoldable pub load_be : Memory → BitPtr → Outcome ℕ
  unfolding load_be_parts splat
  load_be m s = do
    assert (field_fits u (len t s))
    d ← domain t (bitptr s)
    ok (load_be_parts m (len t s) (splat d))

  -- Writes into the element of an edge: `clear_bits`, then `set_bits`.
  abbrev pub replace : Memory → ℕ → ℕ → ℕ → Memory
  replace m e kept new = write m e (set_bits r (clear_bits r (m e) kept) new)

  -- `if let Some((h, head)) = head`, with the value shifted down behind it (where this is the
  -- last part, the source leaves out the shift, and the shifted value is dropped here).
  unfoldable pub store_head : BitIdx × ℕ → Memory × ℕ → Memory × ℕ
  unfolding mask_for resize shr_usize clear_bits set_bits
  store_head (lsedge, head) (m, value) =
      let width = bits t - lsedge in
      let val = bit_and value (mask_for usize width) in
      (
        replace m head (shr t (all_true t) width) (shl t (resize usize t val) lsedge),
        shr_usize value width,
      )

  -- `if let Some((tail, t)) = tail`, likewise.
  unfoldable pub store_tail : ℕ × BitTail → Memory × ℕ → Memory × ℕ
  unfolding mask_for resize shr_usize clear_bits set_bits
  store_tail (tail, width) (m, value) =
      let val = bit_and value (mask_for usize width) in
      (replace m tail (shl t (all_true t) width) (resize usize t val), shr_usize value width)

  -- `Either::Right`
  unfoldable pub store_inside : Memory → ℕ → ℕ → BitIdx → ℕ → BitTail → Memory
  unfolding mask_for resize clear_bits set_bits
  store_inside m n value h e tl =
      let lsedge = h in
      replace m e (not_word t (shl t (mask_for t n) lsedge)) (shl t (resize u t value) lsedge)

  -- The match of `store_le`, on the masked value.
  unfoldable pub store_le_parts : Memory → ℕ → ℕ → Splat → Memory
  unfolding store_inside store_head store_forward store_tail resize
  store_le_parts m n value (inr (h, e, tl)) = store_inside m n value h e tl
  store_le_parts m n value (inl (h, b, tl)) =
      let s : Memory × ℕ = (m, resize u usize value) in
      let s = if_some h s (λ part. store_head part s) in
      let s = if_some b s (λ elts. store_forward r t elts s) in
      let s = if_some tl s (λ part. store_tail part s) in s.0

  -- `store_le`
  unfoldable pub store_le : Memory → BitPtr → ℕ → Outcome Memory
  unfolding store_le_parts splat mask_for
  store_le m s value = do
    assert (field_fits u (len t s))
    d ← domain t (bitptr s)
    ok (store_le_parts m (len t s) (bit_and value (mask_for u (len t s))) (splat d))

  -- The match of `store_be`.
  unfoldable pub store_be_parts : Memory → ℕ → ℕ → Splat → Memory
  unfolding store_inside store_head store_backward store_tail resize
  store_be_parts m n value (inr (h, e, tl)) = store_inside m n value h e tl
  store_be_parts m n value (inl (h, b, tl)) =
      let s : Memory × ℕ = (m, resize u usize value) in
      let s = if_some tl s (λ part. store_tail part s) in
      let s = if_some b s (λ elts. store_backward r t elts s) in
      let s = if_some h s (λ part. store_head part s) in s.0

  -- `store_be`
  unfoldable pub store_be : Memory → BitPtr → ℕ → Outcome Memory
  unfolding store_be_parts splat mask_for
  store_be m s value = do
    assert (field_fits u (len t s))
    d ← domain t (bitptr s)
    ok (store_be_parts m (len t s) (bit_and value (mask_for u (len t s))) (splat d))
