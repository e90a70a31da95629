-- ===== src/Pointer.antt =====
-- src/pointer.rs: `BitPtr`, which packs an element address, the index of the first live bit and
-- a length in bits into two words. An address is a 64-bit number, as in `union Pointer`.
pub mod Encoding
pub mod Tail
pub mod Setters
pub mod New
use bitvec_sgx.Base.{
  ℕ, zero, suc, ◌+◌, ◌-◌, ◌*◌, ◌/◌, ◌%◌, ◌^◌, ◌≤◌, ◌<◌, bit_and, bit_or, Bool, true, false,
}
use bitvec_sgx.Base.{
  ltb, leb, ◌==◌, ◌&&◌, to_ℕ, if◌then◌else◌, Outcome, ok, panic, assert, ◌>>◌, ◌>>=◌,
}
use bitvec_sgx.Store.{BitStore, size_of, bits, indx, mask, trailing_zeros}
use bitvec_sgx.Indices.{BitIdx, BitTail, span_idx}

-- The fields of `BitPtr` as they are stored.
pub record BitPtr : Type 0 where
  pub ptr : ℕ
  pub len : ℕ

abbrev pub len_head_bits : ℕ
len_head_bits = 3

abbrev pub len_head_mask : ℕ
len_head_mask = 7

-- `!0 >> 3` and its number of bytes, and one more.
abbrev pub max_bits : ℕ
max_bits = (2 ^ 64 - 1) / 2 ^ len_head_bits

abbrev pub max_elts : ℕ
max_elts = max_bits / 2 ^ 3 + 1

abbrev pub ptr_head_bits : BitStore → ℕ
ptr_head_bits t = indx t - len_head_bits

abbrev pub ptr_head_mask : BitStore → ℕ
ptr_head_mask t = mask t / 2 ^ len_head_bits

abbrev pub ptr_data_mask : BitStore → ℕ
ptr_data_mask t = 2 ^ 64 - 1 - ptr_head_mask t

-- `NonNull::<u8>::dangling()`: the alignment of `u8` as an address.
abbrev pub dangling : ℕ
dangling = 1

-- `BitPtr::empty`
abbrev pub empty : BitPtr
empty = record { ptr = dangling; len = 0 }

module _ (t : BitStore) where
  -- `BitPtr::uninhabited`
  unfoldable pub uninhabited : ℕ → Outcome BitPtr
  uninhabited p = do
    assert (leb (ptr_head_bits t) (trailing_zeros 64 p))
    ok (record { ptr = if p == 0 then dangling else p; len = 0 })

  -- `BitPtr::new_unchecked`
  unfoldable pub new_unchecked : ℕ → BitIdx → ℕ → BitPtr
  new_unchecked data_at head n =
      let ptr_data = bit_and data_at (ptr_data_mask t) in
      let ptr_head = head / 2 ^ len_head_bits in
      let len_head = bit_and head len_head_mask in
      let len_bits = n * 2 ^ len_head_bits % 2 ^ 64 in
      record { ptr = bit_or ptr_data ptr_head; len = bit_or len_bits len_head }

  -- `BitPtr::new`
  unfoldable pub new : ℕ → BitIdx → ℕ → Outcome BitPtr
  unfolding span_idx
  new data_at head n = if data_at == 0 then ok empty else (do
    assert (leb (ptr_head_bits t) (trailing_zeros 64 data_at))
    assert (leb n max_bits)
    let elts = (span_idx t head n).0
    let tail = (data_at + elts * size_of t) % 2 ^ 64
    assert (leb data_at tail)
    ok (new_unchecked data_at head n))

  -- `BitPtr::pointer`
  unfoldable pub pointer : BitPtr → ℕ
  pointer p = bit_and p.ptr (ptr_data_mask t)

  -- `BitPtr::set_pointer`
  unfoldable pub set_pointer : BitPtr → ℕ → BitPtr
  set_pointer p data_at = if data_at == 0 then empty else record p {
    ptr = bit_or (bit_and data_at (ptr_data_mask t)) (bit_and p.ptr (ptr_head_mask t));
  }

  -- `BitPtr::head`
  unfoldable pub head : BitPtr → BitIdx
  head p =
      let ptr_head = bit_and p.ptr (ptr_head_mask t) * 2 ^ len_head_bits % 2 ^ 64 in
      let len_head = bit_and p.len len_head_mask in bit_or ptr_head len_head % 2 ^ 8

  -- `BitPtr::set_head`
  unfoldable pub set_head : BitPtr → BitIdx → BitPtr
  set_head p h = record {
    ptr = bit_or (bit_and p.ptr (ptr_data_mask t)) (h / 2 ^ len_head_bits);
    len = bit_or (bit_and p.len (2 ^ 64 - 1 - len_head_mask)) (bit_and h len_head_mask);
  }

  -- `BitPtr::len`
  unfoldable pub len_of : BitPtr → ℕ
  len_of p = p.len / 2 ^ len_head_bits

  -- `BitPtr::set_len`
  unfoldable pub set_len : BitPtr → ℕ → BitPtr
  set_len p n = record p {
    len = bit_or (n * 2 ^ len_head_bits % 2 ^ 64) (bit_and p.len len_head_mask);
  }

  -- `BitPtr::raw_parts`
  unfoldable pub raw_parts : BitPtr → ℕ × BitIdx × ℕ
  unfolding pointer head len_of
  raw_parts p = (pointer p, head p, len_of p)

  -- `BitPtr::elements`
  unfoldable pub elements : BitPtr → ℕ
  unfolding head len_of span_idx
  elements p = (span_idx t (head p) (len_of p)).0

  -- `BitPtr::tail`
  unfoldable pub tail : BitPtr → BitTail
  unfolding head len_of
  tail p =
      let at = bit_and ((head p + len_of p) % 2 ^ 64) (mask t) in
      if head p == 0 && len_of p == 0 then 0 else bit_or (to_ℕ (at == 0) * 2 ^ indx t) at % 2 ^ 8
