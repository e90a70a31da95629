-- ===== src/Indices.antt =====
-- src/indices.rs: bit indices, tails and positions within an element. `BitIdx`, `BitTail` and
-- `BitPos` wrap a `u8` and stand here as that number; what `debug_assert!` checks of it is
-- proved where it is built.
pub mod Offset
pub mod Span
use bitvec_sgx.Base.{ℕ, ◌+◌, ◌-◌, ◌*◌, ◌/◌, ◌%◌, ◌^◌, bit_and, bit_or, Bool, Option, none, some}
use bitvec_sgx.Base.{ltb, leb, ◌==◌, to_ℕ, if◌then◌else◌, Outcome, ok, assert, ◌>>◌, ◌&&◌}
use bitvec_sgx.Base.Int.{ℤ, pos, negsuc}
use bitvec_sgx.Base.Isize.{overflowing_add, as_usize, as_isize, as_u8, shr_isize}
use bitvec_sgx.Store.{BitStore, bits, indx, mask}

abbrev pub BitIdx : Type 0
BitIdx = ℕ

abbrev pub BitTail : Type 0
BitTail = ℕ

abbrev pub BitPos : Type 0
BitPos = ℕ

module _ (t : BitStore) where
  -- `BitIdx::new`
  unfoldable pub new_idx : ℕ → Option BitIdx
  new_idx idx = if leb (bits t) idx then none else some idx

  -- `BitPos::new`
  unfoldable pub new_pos : ℕ → Outcome BitPos
  new_pos place = assert (ltb place (bits t)) >> ok place

  -- `TryFrom<u8> for BitIdx`; `none` is its error.
  unfoldable pub try_from : ℕ → Option BitIdx
  try_from idx = if ltb idx (bits t) then some idx else none

  -- `(0 .. T::BITS as isize).contains(&far)`
  abbrev pub in_element : ℤ → Bool
  in_element (pos n) = ltb n (bits t)
  in_element (negsuc n) = Bool.false

  -- `BitIdx::offset`
  unfoldable pub offset : BitIdx → ℤ → ℤ × BitIdx
  offset val by =
      let (far, ovf) = overflowing_add by (pos val) in
      if ovf
      then (let n = as_usize far in (as_isize (n / 2 ^ indx t), bit_and (n % 2 ^ 8) (mask t)))
      else (if in_element far
          then (pos 0, as_u8 far)
          else (shr_isize far (indx t), bit_and (as_u8 far) (mask t)))

  -- `BitTail::span`
  unfoldable pub span : BitTail → ℕ → ℕ × BitTail
  span val len =
      let head = bit_and val (mask t) in
      let bits_in_head = bits t - head in
      let bits_after_head = len - bits_in_head in
      let elts = bits_after_head / 2 ^ indx t in
      let tail = bit_and (bits_after_head % 2 ^ 8) (mask t) in
      let is_zero = to_ℕ (tail == 0) in
      let edges = 2 - is_zero in
      if len == 0
      then (0, val)
      else (if leb len bits_in_head
          then (1, (head + len % 2 ^ 8) % 2 ^ 8)
          else (elts + edges, bit_or (is_zero * 2 ^ indx t) tail))

  -- `BitIdx::span`
  unfoldable pub span_idx : BitIdx → ℕ → ℕ × BitTail
  unfolding span
  span_idx val len = span val len
