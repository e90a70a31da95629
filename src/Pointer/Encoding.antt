-- ===== src/Pointer/Encoding.antt =====
-- The three parts of a `BitPtr` survive packing, and each setter changes one of them.
use bitvec_sgx.Base.{ℕ, ◌+◌, ◌-◌, ◌*◌, ◌/◌, ◌%◌, ◌^◌, ◌≤◌, ◌<◌, ◌≡◌, arith, bit_and, bit_or}
use bitvec_sgx.Bits.{bit_and-low, bit_and-high, bit_or-fields}
use bitvec_sgx.Store.{BitStore, size_of, bits, u8, u16, u32, u64, usize}
use bitvec_sgx.Pointer.{
  BitPtr, max_bits, new_unchecked, pointer, head, len_of, ptr_head_mask, ptr_data_mask,
}

-- The fields are `usize` words.
pub record IsBitPtr (p : BitPtr) : Type 0 where
  pub ptr_word : p.ptr < 2 ^ 64
  pub len_word : p.len < 2 ^ 64

-- What can be packed: an aligned address, an index in range, and a length that fits.
pub record IsRegion (t : BitStore) (data_at head n : ℕ) : Type 0 where
  pub data_word : data_at < 2 ^ 64
  pub aligned : data_at % size_of t ≡ 0
  pub head_in : head < bits t
  pub fits : n ≤ max_bits

-- The masks of the packing, as arithmetic.
pub and_data_mask :
    (t : BitStore) (x : ℕ) → x < 2 ^ 64 → bit_and x (ptr_data_mask t) ≡ x - x % size_of t
and_data_mask u8 x h = bit_and-high 64 0 x h (omega arith)
and_data_mask u16 x h = bit_and-high 64 1 x h (omega arith)
and_data_mask u32 x h = bit_and-high 64 2 x h (omega arith)
and_data_mask u64 x h = bit_and-high 64 3 x h (omega arith)
and_data_mask usize x h = bit_and-high 64 3 x h (omega arith)

pub and_head_mask : (t : BitStore) (x : ℕ) → bit_and x (ptr_head_mask t) ≡ x % size_of t
and_head_mask u8 x = bit_and-low 0 x
and_head_mask u16 x = bit_and-low 1 x
and_head_mask u32 x = bit_and-low 2 x
and_head_mask u64 x = bit_and-low 3 x
and_head_mask usize x = bit_and-low 3 x

-- The stored words, as sums.
pub pointer-eq :
    (t : BitStore) (p : BitPtr) → p.ptr < 2 ^ 64 → pointer t p ≡ p.ptr - p.ptr % size_of t
unfolding pointer
pointer-eq t p h = and_data_mask t p.ptr h

pub or_three : (q r : ℕ) → r < 8 → bit_or (q * 8) r ≡ q * 8 + r
or_three q r h = bit_or-fields 3 q r h

pub head-eq : (t : BitStore) (p : BitPtr) → head t p ≡ p.ptr % size_of t * 8 + p.len % 8
unfolding head
head-eq u8 p =
    ground (arith, and_head_mask u8 p.ptr, bit_and-low 3 p.len, or_three (p.ptr % 1) (p.len % 8))
head-eq u16 p =
    ground (arith, and_head_mask u16 p.ptr, bit_and-low 3 p.len, or_three (p.ptr % 2) (p.len % 8))
head-eq u32 p =
    ground (arith, and_head_mask u32 p.ptr, bit_and-low 3 p.len, or_three (p.ptr % 4) (p.len % 8))
head-eq u64 p =
    ground (arith, and_head_mask u64 p.ptr, bit_and-low 3 p.len, or_three (p.ptr % 8) (p.len % 8))
head-eq usize p =
    ground (arith, and_head_mask usize p.ptr, bit_and-low 3 p.len, or_three (p.ptr % 8) (p.len % 8))

-- An aligned address leaves room for the high bits of the index.
pub or_head :
    (t : BitStore) (data_at h : ℕ)
    → data_at % size_of t ≡ 0
    → h < size_of t
    → bit_or data_at h ≡ data_at + h
or_head u8 d h a l = ground (arith, bit_or-fields 0 (d / 1) h)
or_head u16 d h a l = ground (arith, bit_or-fields 1 (d / 2) h)
or_head u32 d h a l = ground (arith, bit_or-fields 2 (d / 4) h)
or_head u64 d h a l = ground (arith, bit_or-fields 3 (d / 8) h)
or_head usize d h a l = ground (arith, bit_or-fields 3 (d / 8) h)

pub new_unchecked-eq :
    {t : BitStore} {d h n : ℕ}
    → IsRegion t d h n
    → new_unchecked t d h n ≡ record { ptr = d + h / 8; len = n * 8 + h % 8 }
unfolding new_unchecked
new_unchecked-eq {t} {d} {h} {n} v = ground (
  arith,
  and_data_mask t d,
  v.aligned,
  v.head_in,
  bit_and-low 3 h,
  or_head t d (h / 8),
  or_three n (h % 8),
)

pub size_pos : (t : BitStore) → 1 ≤ size_of t
size_pos u8 = omega arith
size_pos u16 = omega arith
size_pos u32 = omega arith
size_pos u64 = omega arith
size_pos usize = omega arith

-- The low bits of the packed address are the high bits of the index.
pub low_part :
    (t : BitStore) (d h : ℕ)
    → d % size_of t ≡ 0
    → h < bits t
    → ((d + h / 8) % size_of t ≡ h / 8) × (d + h / 8 < d + size_of t)
low_part u8 d h a l = omega arith
low_part u16 d h a l = omega arith
low_part u32 d h a l = omega arith
low_part u64 d h a l = omega arith
low_part usize d h a l = omega arith

ptr_room : (t : BitStore) (d h : ℕ) {n : ℕ} → IsRegion t d h n → d + h / 8 < 2 ^ 64
ptr_room u8 d h v = omega (arith, v.data_word, v.aligned, v.head_in)
ptr_room u16 d h v = omega (arith, v.data_word, v.aligned, v.head_in)
ptr_room u32 d h v = omega (arith, v.data_word, v.aligned, v.head_in)
ptr_room u64 d h v = omega (arith, v.data_word, v.aligned, v.head_in)
ptr_room usize d h v = omega (arith, v.data_word, v.aligned, v.head_in)

pub new_unchecked-IsBitPtr :
    (t : BitStore) (d h n : ℕ) → IsRegion t d h n → IsBitPtr (new_unchecked t d h n)
new_unchecked-IsBitPtr t d h n v =
    rw (new_unchecked-eq v)
      (record { ptr_word = ptr_room t d h v; len_word = omega (arith, v.fits) })

-- An aligned 64-bit address, a bit index below the element width and a length of at most
-- `MAX_BITS`, once packed, are read back unchanged, for every element type.
pub new_unchecked_parts :
    (t : BitStore) (d h n : ℕ)
    → IsRegion t d h n
    → (pointer t (new_unchecked t d h n) ≡ d)
      × (head t (new_unchecked t d h n) ≡ h)
      × (len_of t (new_unchecked t d h n) ≡ n)
unfolding len_of
new_unchecked_parts t d h n v = rw (new_unchecked-eq v) (
    ground (
      arith,
      pointer-eq t (record { ptr = d + h / 8; len = n * 8 + h % 8 }),
      head-eq t (record { ptr = d + h / 8; len = n * 8 + h % 8 }),
      low_part t d h v.aligned v.head_in,
      ptr_room t d h v,
    ))

-- What a `BitPtr` holds can be packed.
pub parts-IsRegion :
    (t : BitStore) (p : BitPtr) → IsBitPtr p → IsRegion t (pointer t p) (head t p) (len_of t p)
unfolding len_of
parts-IsRegion u8 p v =
    rw (pointer-eq u8 p v.ptr_word, head-eq) (omega (arith, v.ptr_word, v.len_word))
parts-IsRegion u16 p v =
    rw (pointer-eq u16 p v.ptr_word, head-eq) (omega (arith, v.ptr_word, v.len_word))
parts-IsRegion u32 p v =
    rw (pointer-eq u32 p v.ptr_word, head-eq) (omega (arith, v.ptr_word, v.len_word))
parts-IsRegion u64 p v =
    rw (pointer-eq u64 p v.ptr_word, head-eq) (omega (arith, v.ptr_word, v.len_word))
parts-IsRegion usize p v =
    rw (pointer-eq usize p v.ptr_word, head-eq) (omega (arith, v.ptr_word, v.len_word))

-- For every element type, any two 64-bit words are what packing their own address, index and
-- length gives: no representation is wasted, and none is shared.
pub new_unchecked_of_parts :
    (t : BitStore) (p : BitPtr)
    → IsBitPtr p
    → new_unchecked t (pointer t p) (head t p) (len_of t p) ≡ p
unfolding len_of
new_unchecked_of_parts t p v =
    rw (new_unchecked-eq (parts-IsRegion t p v))
      (ground (arith, pointer-eq t p v.ptr_word, head-eq t p, size_pos t))
