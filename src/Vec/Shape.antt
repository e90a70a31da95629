-- ===== src/Vec/Shape.antt =====
-- The invariant of `BitVec`, what the standard library promises of `Vec<T>`, and what a length
-- needs of the capacity.
use bitvec_sgx.Indices.{span_idx}
use bitvec_sgx.Pointer.{max_bits, len_of, head, BitPtr, elements}
use bitvec_sgx.Memory.{IsMemory, Memory}
use bitvec_sgx.Base.{ℕ, ◌%◌}
use bitvec_sgx.Base.{ℕ, zero, suc, ◌+◌, ◌*◌, ◌%◌, ◌^◌, ◌≤◌, ◌<◌, ◌≡◌, ◌≢◌, refl, ap, arith, ◌⊎◌, ok}
use bitvec_sgx.Store.{BitStore, size_of, bits, u8, u16, u32, u64, usize}
use bitvec_sgx.Indices.Span.{span_idx-Spans, span_idx-zero}
use bitvec_sgx.Pointer.New.{touched}
use bitvec_sgx.Pointer.Encoding.{IsBitPtr}
use bitvec_sgx.Slice.Locate.{IsSlice}
use bitvec_sgx.Vec.{pointer, RawVec, Allocator, BitVec}

-- The parts of a `Vec<T>`: an aligned allocation, which lies in an address space of 57 bits, as
-- the processors of the target have it.
pub record IsRawVec (t : BitStore) (v : RawVec) : Type 0 where
  pub aligned : v.address % size_of t ≡ 0
  pub non_null : v.address ≢ 0
  pub filled : v.length ≤ v.capacity
  pub room : v.address + v.capacity * size_of t < 2 ^ 57

-- The elements of `v` are those of `v'` too, which may lie elsewhere.
pub record IsMoved (t : BitStore) (m : Memory) (v : RawVec) (m' : Memory) (v' : RawVec)
    : Type 0 where
  pub raw : IsRawVec t v'
  pub kept :
      (i : ℕ) → i < v.length → m' (v'.address + i * size_of t) ≡ m (v.address + i * size_of t)
  pub typed : IsMemory t m → IsMemory t m'

-- The documented behaviour of the operations of `Vec<T>`, on a machine that can hold `limit`
-- elements: they keep the elements, and make the room that they are asked for.
pub record IsAllocator (t : BitStore) (a : Allocator) (limit : ℕ) : Type 0 where
  pub creates :
      (n : ℕ)
      → n ≤ limit
      → (v : RawVec) × (a.vec_with_capacity n ≡ ok v)
        × IsRawVec t v
        × (v.length ≡ 0)
        × (n ≤ v.capacity)
  pub pushes :
      (x : ℕ) (m : Memory) (v : RawVec)
      → x < 2 ^ bits t
      → IsRawVec t v
      → v.length < limit
      → (st : Memory × RawVec) × (a.vec_push x (m, v) ≡ ok st)
        × IsMoved t m v st.0 st.1
        × (st.1.length ≡ v.length + 1)
        × (st.0 (st.1.address + v.length * size_of t) ≡ x)
  pub reserves :
      (extra : ℕ) (m : Memory) (v : RawVec)
      → IsRawVec t v
      → v.length + extra ≤ limit
      → (st : Memory × RawVec) × (a.vec_reserve extra (m, v) ≡ ok st)
        × IsMoved t m v st.0 st.1
        × (st.1.length ≡ v.length)
        × (v.length + extra ≤ st.1.capacity)

-- The `Vec<T>` that a bit vector stands for.
abbrev pub raw_of : BitStore → BitVec → RawVec
raw_of t b = record {
  address = pointer t b.pointer;
  length = touched t (head t b.pointer) (len_of t b.pointer);
  capacity = b.capacity;
}

-- The invariant of a bit vector.
pub record IsBitVec (t : BitStore) (b : BitVec) : Type 0 where
  pub words : IsBitPtr b.pointer
  pub raw : IsRawVec t (raw_of t b)

pub elements-eq-touched :
    (t : BitStore) (p : BitPtr) → elements t p ≡ touched t (head t p) (len_of t p)
unfolding elements
elements-eq-touched t p = refl

capacity_room :
    (t : BitStore) (a k c : ℕ) → k ≤ c → a + c * size_of t < 2 ^ 57 → a + k * size_of t < 2 ^ 64
capacity_room u8 a k c h l = omega arith
capacity_room u16 a k c h l = omega arith
capacity_room u32 a k c h l = omega arith
capacity_room u64 a k c h l = omega arith
capacity_room usize a k c h l = omega arith

pub IsBitVec-IsSlice : (t : BitStore) (b : BitVec) → IsBitVec t b → IsSlice t b.pointer
IsBitVec-IsSlice t b v = record {
  words = v.words;
  room = capacity_room t (pointer t b.pointer) _ b.capacity v.raw.filled v.raw.room;
}

pub none_touched : (t : BitStore) (h : ℕ) → touched t h 0 ≡ 0
none_touched t h = ap (λ (r : ℕ × ℕ). r.0) (span_idx-zero t h)

-- A capacity of elements holds its bits, counted in a word.
pub capacity_word : (t : BitStore) (a c : ℕ) → a + c * size_of t < 2 ^ 57 → c * bits t < 2 ^ 64
capacity_word u8 a c l = omega arith
capacity_word u16 a c l = omega arith
capacity_word u32 a c l = omega arith
capacity_word u64 a c l = omega arith
capacity_word usize a c l = omega arith

-- The touched elements have room for the bits.
pub touched_cover :
    (t : BitStore) (h n c : ℕ) → h < bits t → n ≤ max_bits → touched t h n ≤ c → n ≤ c * bits t
touched_cover t h zero c p q l = omega arith
touched_cover u8 h (suc n) c p q l = omega (arith, span_idx-Spans u8 h (suc n))
touched_cover u16 h (suc n) c p q l = omega (arith, span_idx-Spans u16 h (suc n))
touched_cover u32 h (suc n) c p q l = omega (arith, span_idx-Spans u32 h (suc n))
touched_cover u64 h (suc n) c p q l = omega (arith, span_idx-Spans u64 h (suc n))
touched_cover usize h (suc n) c p q l = omega (arith, span_idx-Spans usize h (suc n))

-- Fewer bits touch no more elements.
pub touched_mono :
    (t : BitStore) (h k n : ℕ) → h < bits t → n ≤ max_bits → k ≤ n → touched t h k ≤ touched t h n
touched_mono t h zero n p q l = rw (none_touched t h) (omega arith)
touched_mono u8 h (suc k) n p q l =
    omega (arith, span_idx-Spans u8 h (suc k), span_idx-Spans u8 h n)
touched_mono u16 h (suc k) n p q l =
    omega (arith, span_idx-Spans u16 h (suc k), span_idx-Spans u16 h n)
touched_mono u32 h (suc k) n p q l =
    omega (arith, span_idx-Spans u32 h (suc k), span_idx-Spans u32 h n)
touched_mono u64 h (suc k) n p q l =
    omega (arith, span_idx-Spans u64 h (suc k), span_idx-Spans u64 h n)
touched_mono usize h (suc k) n p q l =
    omega (arith, span_idx-Spans usize h (suc k), span_idx-Spans usize h n)

-- One more bit touches one more element where the bits end one or are none, and else no more.
abbrev OneMore : BitStore → ℕ → ℕ → Type 0
OneMore t h n =
    (touched t h (n + 1) ≤ touched t h n + 1)
    × (0 < n → (span_idx t h n).1 ≢ bits t → touched t h (n + 1) ≡ touched t h n)
    × ((n ≡ 0) ⊎ ((span_idx t h n).1 ≡ bits t) → touched t h (n + 1) ≡ touched t h n + 1)

pub touched_more : (t : BitStore) (h n : ℕ) → h < bits t → n < max_bits → OneMore t h n
touched_more u8 h zero p q = (
  omega (arith, none_touched u8 h, span_idx-Spans u8 h 1),
  λ l e. absurd (omega arith),
  λ e. omega (arith, none_touched u8 h, span_idx-Spans u8 h 1),
)
touched_more u8 h (suc n) p q = (
  omega (arith, span_idx-Spans u8 h (suc n), span_idx-Spans u8 h (suc n + 1)),
  λ _ e. omega (arith, span_idx-Spans u8 h (suc n), span_idx-Spans u8 h (suc n + 1)),
  λ e. ground (arith, span_idx-Spans u8 h (suc n), span_idx-Spans u8 h (suc n + 1)),
)
touched_more u16 h zero p q = (
  omega (arith, none_touched u16 h, span_idx-Spans u16 h 1),
  λ l e. absurd (omega arith),
  λ e. omega (arith, none_touched u16 h, span_idx-Spans u16 h 1),
)
touched_more u16 h (suc n) p q = (
  omega (arith, span_idx-Spans u16 h (suc n), span_idx-Spans u16 h (suc n + 1)),
  λ _ e. omega (arith, span_idx-Spans u16 h (suc n), span_idx-Spans u16 h (suc n + 1)),
  λ e. ground (arith, span_idx-Spans u16 h (suc n), span_idx-Spans u16 h (suc n + 1)),
)
touched_more u32 h zero p q = (
  omega (arith, none_touched u32 h, span_idx-Spans u32 h 1),
  λ l e. absurd (omega arith),
  λ e. omega (arith, none_touched u32 h, span_idx-Spans u32 h 1),
)
touched_more u32 h (suc n) p q = (
  omega (arith, span_idx-Spans u32 h (suc n), span_idx-Spans u32 h (suc n + 1)),
  λ _ e. omega (arith, span_idx-Spans u32 h (suc n), span_idx-Spans u32 h (suc n + 1)),
  λ e. ground (arith, span_idx-Spans u32 h (suc n), span_idx-Spans u32 h (suc n + 1)),
)
touched_more u64 h zero p q = (
  omega (arith, none_touched u64 h, span_idx-Spans u64 h 1),
  λ l e. absurd (omega arith),
  λ e. omega (arith, none_touched u64 h, span_idx-Spans u64 h 1),
)
touched_more u64 h (suc n) p q = (
  omega (arith, span_idx-Spans u64 h (suc n), span_idx-Spans u64 h (suc n + 1)),
  λ _ e. omega (arith, span_idx-Spans u64 h (suc n), span_idx-Spans u64 h (suc n + 1)),
  λ e. ground (arith, span_idx-Spans u64 h (suc n), span_idx-Spans u64 h (suc n + 1)),
)
touched_more usize h zero p q = (
  omega (arith, none_touched usize h, span_idx-Spans usize h 1),
  λ l e. absurd (omega arith),
  λ e. omega (arith, none_touched usize h, span_idx-Spans usize h 1),
)
touched_more usize h (suc n) p q = (
  omega (arith, span_idx-Spans usize h (suc n), span_idx-Spans usize h (suc n + 1)),
  λ _ e. omega (arith, span_idx-Spans usize h (suc n), span_idx-Spans usize h (suc n + 1)),
  λ e. ground (arith, span_idx-Spans usize h (suc n), span_idx-Spans usize h (suc n + 1)),
)
