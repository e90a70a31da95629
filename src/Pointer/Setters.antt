-- ===== src/Pointer/Setters.antt =====
-- `set_len`, `set_head` and `set_pointer` each replace one part of a `BitPtr`.
use bitvec_sgx.Pointer.Encoding.{new_unchecked_of_parts}
use bitvec_sgx.Base.{ap, ◌∙◌, sym}
use bitvec_sgx.Pointer.{new_unchecked}
use bitvec_sgx.Base.{ℕ, ◌+◌, ◌-◌, ◌*◌, ◌/◌, ◌%◌, ◌^◌, ◌≤◌, ◌<◌, ◌≡◌, ◌≢◌, arith}
use bitvec_sgx.Bits.{bit_and-low, bit_and-high}
use bitvec_sgx.Store.{BitStore, size_of, bits, u8, u16, u32, u64, usize}
use bitvec_sgx.Pointer.{BitPtr, max_bits, pointer, head, len_of, set_pointer, set_head, set_len}
use bitvec_sgx.Pointer.Encoding.{
  IsBitPtr, pointer-eq, head-eq, low_part, or_three, and_data_mask, and_head_mask, or_head,
}

pub set_len-eq :
    (t : BitStore) (p : BitPtr) (n : ℕ)
    → n ≤ max_bits
    → set_len t p n ≡ record p { len = n * 8 + p.len % 8 }
unfolding set_len
set_len-eq t p n h = ground (arith, bit_and-low 3 p.len, or_three n (p.len % 8))

-- On any two 64-bit words, setting a length of at most `MAX_BITS` makes it the length and keeps
-- the index and the address.
pub set_len_parts :
    (t : BitStore) (p : BitPtr) (n : ℕ)
    → IsBitPtr p
    → n ≤ max_bits
    → (len_of t (set_len t p n) ≡ n)
      × (head t (set_len t p n) ≡ head t p)
      × (pointer t (set_len t p n) ≡ pointer t p)
unfolding len_of
set_len_parts t p n v h =
    rw (set_len-eq t p n h, head-eq, head-eq)
      (ground (
        arith,
        pointer-eq t p v.ptr_word,
        pointer-eq t (record p { len = n * 8 + p.len % 8 }) v.ptr_word,
      ))

pub set_len-IsBitPtr :
    (t : BitStore) (p : BitPtr) (n : ℕ) → IsBitPtr p → n ≤ max_bits → IsBitPtr (set_len t p n)
set_len-IsBitPtr t p n v h =
    rw (set_len-eq t p n h) (record { ptr_word = v.ptr_word; len_word = omega arith })

-- So it packs the three parts that result.
pub set_len-eq-new_unchecked :
    (t : BitStore) (p : BitPtr) (n : ℕ)
    → IsBitPtr p
    → n ≤ max_bits
    → set_len t p n ≡ new_unchecked t (pointer t p) (head t p) n
set_len-eq-new_unchecked t p n v h =
    let q = set_len t p n in
    let w = set_len-IsBitPtr t p n v h in
    let parts = set_len_parts t p n v h in
    sym (new_unchecked_of_parts t q w) ∙ (λ i. new_unchecked t (parts.2 i) (parts.1 i) (parts.0 i))

base_aligned : (t : BitStore) (x : ℕ) → (x - x % size_of t) % size_of t ≡ 0
base_aligned u8 x = omega arith
base_aligned u16 x = omega arith
base_aligned u32 x = omega arith
base_aligned u64 x = omega arith
base_aligned usize x = omega arith

high_lt : (t : BitStore) (h : ℕ) → h < bits t → h / 8 < size_of t
high_lt u8 h l = omega arith
high_lt u16 h l = omega arith
high_lt u32 h l = omega arith
high_lt u64 h l = omega arith
high_lt usize h l = omega arith

base_room : (t : BitStore) (x h : ℕ) → x < 2 ^ 64 → h < size_of t → x - x % size_of t + h < 2 ^ 64
base_room u8 x h p l = omega arith
base_room u16 x h p l = omega arith
base_room u32 x h p l = omega arith
base_room u64 x h p l = omega arith
base_room usize x h p l = omega arith

set_head-eq :
    (t : BitStore) (p : BitPtr) (h : ℕ)
    → IsBitPtr p
    → h < bits t
    → set_head t p h
      ≡ record { ptr = p.ptr - p.ptr % size_of t + h / 8; len = p.len - p.len % 8 + h % 8 }
unfolding set_head
set_head-eq t p h v l = ground (
  arith,
  and_data_mask t p.ptr v.ptr_word,
  bit_and-high 64 3 p.len v.len_word,
  bit_and-low 3 h,
  base_aligned t p.ptr,
  or_head t (p.ptr - p.ptr % size_of t) (h / 8),
  high_lt t h l,
  or_three (p.len / 8) (h % 8),
)

-- On any two 64-bit words, setting an index below the element width makes it the index and
-- keeps the address and the length.
pub set_head_parts :
    (t : BitStore) (p : BitPtr) (h : ℕ)
    → IsBitPtr p
    → h < bits t
    → (head t (set_head t p h) ≡ h)
      × (pointer t (set_head t p h) ≡ pointer t p)
      × (len_of t (set_head t p h) ≡ len_of t p)
unfolding len_of
set_head_parts t p h v l =
    let base = p.ptr - p.ptr % size_of t in
    let q : BitPtr = record { ptr = base + h / 8; len = p.len - p.len % 8 + h % 8 } in
    rw (set_head-eq t p h v l) (
      ground (
        arith,
        pointer-eq t p v.ptr_word,
        pointer-eq t q (base_room t p.ptr (h / 8) v.ptr_word (high_lt t h l)),
        head-eq t q,
        low_part t base h (base_aligned t p.ptr) l,
      ))

aligned_low :
    (t : BitStore) (d x : ℕ) → d % size_of t ≡ 0 → (d + x % size_of t) % size_of t ≡ x % size_of t
aligned_low u8 d x a = omega arith
aligned_low u16 d x a = omega arith
aligned_low u32 d x a = omega arith
aligned_low u64 d x a = omega arith
aligned_low usize d x a = omega arith

aligned_room :
    (t : BitStore) (d x : ℕ) → d < 2 ^ 64 → d % size_of t ≡ 0 → d + x % size_of t < 2 ^ 64
aligned_room u8 d x w a = omega arith
aligned_room u16 d x w a = omega arith
aligned_room u32 d x w a = omega arith
aligned_room u64 d x w a = omega arith
aligned_room usize d x w a = omega arith

mod_size : (t : BitStore) (x : ℕ) → x % size_of t < size_of t
mod_size u8 x = omega arith
mod_size u16 x = omega arith
mod_size u32 x = omega arith
mod_size u64 x = omega arith
mod_size usize x = omega arith

set_pointer-eq :
    (t : BitStore) (p : BitPtr) (d : ℕ)
    → d < 2 ^ 64
    → d % size_of t ≡ 0
    → d ≢ 0
    → set_pointer t p d ≡ record p { ptr = d + p.ptr % size_of t }
unfolding set_pointer
set_pointer-eq t p d w a ne = ground (
  arith,
  and_data_mask t d w,
  and_head_mask t p.ptr,
  or_head t d (p.ptr % size_of t) a (mod_size t p.ptr),
)

-- On any two 64-bit words, setting a non-null aligned 64-bit address makes it the address and
-- keeps the index and the length.
pub set_pointer_parts :
    (t : BitStore) (p : BitPtr) (d : ℕ)
    → IsBitPtr p
    → d < 2 ^ 64
    → d % size_of t ≡ 0
    → d ≢ 0
    → (pointer t (set_pointer t p d) ≡ d)
      × (head t (set_pointer t p d) ≡ head t p)
      × (len_of t (set_pointer t p d) ≡ len_of t p)
unfolding len_of
set_pointer_parts t p d v w a ne =
    let q : BitPtr = record p { ptr = d + p.ptr % size_of t } in
    rw (set_pointer-eq t p d w a ne) (
      ground (
        arith,
        pointer-eq t q (aligned_room t d p.ptr w a),
        head-eq t q,
        head-eq t p,
        aligned_low t d p.ptr a,
      ))

pub set_pointer-IsBitPtr :
    (t : BitStore) (p : BitPtr) (d : ℕ)
    → IsBitPtr p
    → d < 2 ^ 64
    → d % size_of t ≡ 0
    → d ≢ 0
    → IsBitPtr (set_pointer t p d)
set_pointer-IsBitPtr t p d v w a ne =
    rw (set_pointer-eq t p d w a ne)
      (record { ptr_word = aligned_room t d p.ptr w a; len_word = v.len_word })

pub set_head-IsBitPtr :
    (t : BitStore) (p : BitPtr) (h : ℕ) → IsBitPtr p → h < bits t → IsBitPtr (set_head t p h)
set_head-IsBitPtr t p h v l = rw (set_head-eq t p h v l) (record {
  ptr_word = base_room t p.ptr (h / 8) v.ptr_word (high_lt t h l);
  len_word = omega (arith, v.len_word);
})

-- A length replaces the one set before.
pub set_len-set_len :
    (t : BitStore) (p : BitPtr) (k n : ℕ)
    → k ≤ max_bits
    → n ≤ max_bits
    → set_len t (set_len t p k) n ≡ set_len t p n
set_len-set_len t p k n h l =
    let same : n * 8 + (k * 8 + p.len % 8) % 8 ≡ n * 8 + p.len % 8 = omega arith in
    rw (set_len-eq t p k h, set_len-eq t p n l, set_len-eq t _ n l)
      (ap (λ (x : ℕ). record { ptr = p.ptr; len = x }) same)
