-- ===== src/Vec/Align/Start.antt =====
-- A bit vector with the bits of its first element before its own.
use bitvec_sgx.Memory.{Memory}
use bitvec_sgx.Order.{IsBitOrder, BitOrder}
use bitvec_sgx.Access.{Radium}
use bitvec_sgx.Base.{ℕ, zero, suc, ◌+◌, ◌≤◌, ◌<◌, ◌≡◌, refl, sym, ◌∙◌, ap, arith}
use bitvec_sgx.Access
use bitvec_sgx.Store.{BitStore, bits, u8, u16, u32, u64, usize}
use bitvec_sgx.Indices.Span.{span_idx-Spans}
use bitvec_sgx.Pointer.{head, len_of, pointer, set_head, max_bits}
use bitvec_sgx.Pointer.New.{touched}
use bitvec_sgx.Pointer.Encoding.{parts-IsRegion}
use bitvec_sgx.Pointer.Setters.{set_len_parts, set_head_parts, set_head-IsBitPtr}
use bitvec_sgx.Slice.{locate, get_unchecked}
use bitvec_sgx.Slice.Locate.{locate-eq-divmod}
use bitvec_sgx.Vec.{BitVec}
use bitvec_sgx.Vec.Shape.{IsBitVec, IsBitVec-IsSlice, none_touched}
use bitvec_sgx.Vec.Contents.{relength, relength-IsBitVec}

-- Bits from `h` on touch as many elements as those from 0 on with `h` more, and no fewer than
-- without them.
abbrev pub FromStart : BitStore → ℕ → ℕ → Type 0
FromStart t h n = (touched t 0 n ≤ touched t h n) × (0 < n → touched t 0 (h + n) ≤ touched t h n)

pub from_start : (t : BitStore) (h n : ℕ) → h < bits t → h + n ≤ max_bits → FromStart t h n
from_start u8 h zero p q =
    (omega (arith, none_touched u8 0, none_touched u8 h), λ l. absurd (omega arith))
from_start u8 h (suc n) p q = (
  omega (arith, span_idx-Spans u8 0 (suc n), span_idx-Spans u8 h (suc n)),
  λ l. omega (arith, span_idx-Spans u8 0 (h + suc n), span_idx-Spans u8 h (suc n)),
)
from_start u16 h zero p q =
    (omega (arith, none_touched u16 0, none_touched u16 h), λ l. absurd (omega arith))
from_start u16 h (suc n) p q = (
  omega (arith, span_idx-Spans u16 0 (suc n), span_idx-Spans u16 h (suc n)),
  λ l. omega (arith, span_idx-Spans u16 0 (h + suc n), span_idx-Spans u16 h (suc n)),
)
from_start u32 h zero p q =
    (omega (arith, none_touched u32 0, none_touched u32 h), λ l. absurd (omega arith))
from_start u32 h (suc n) p q = (
  omega (arith, span_idx-Spans u32 0 (suc n), span_idx-Spans u32 h (suc n)),
  λ l. omega (arith, span_idx-Spans u32 0 (h + suc n), span_idx-Spans u32 h (suc n)),
)
from_start u64 h zero p q =
    (omega (arith, none_touched u64 0, none_touched u64 h), λ l. absurd (omega arith))
from_start u64 h (suc n) p q = (
  omega (arith, span_idx-Spans u64 0 (suc n), span_idx-Spans u64 h (suc n)),
  λ l. omega (arith, span_idx-Spans u64 0 (h + suc n), span_idx-Spans u64 h (suc n)),
)
from_start usize h zero p q =
    (omega (arith, none_touched usize 0, none_touched usize h), λ l. absurd (omega arith))
from_start usize h (suc n) p q = (
  omega (arith, span_idx-Spans usize 0 (suc n), span_idx-Spans usize h (suc n)),
  λ l. omega (arith, span_idx-Spans usize 0 (h + suc n), span_idx-Spans usize h (suc n)),
)

module _ (r : Radium) (o : BitOrder) (lawful : IsBitOrder o) (t : BitStore) where
  -- The vector from the first bit of its first element on, with its length.
  unfoldable pub aligned : BitVec → BitVec
  aligned b = record b { pointer = set_head t b.pointer 0 }

  width_pos : (t : BitStore) → 0 < bits t
  width_pos u8 = omega arith
  width_pos u16 = omega arith
  width_pos u32 = omega arith
  width_pos u64 = omega arith
  width_pos usize = omega arith

  pub aligned-IsBitVec :
      (b : BitVec)
      → IsBitVec t b
      → head t b.pointer + len_of t b.pointer ≤ max_bits
      → IsBitVec t (aligned b)
  unfolding aligned
  aligned-IsBitVec b v h =
      let g = parts-IsRegion t b.pointer v.words in
      let (index, place, length) = set_head_parts t b.pointer 0 v.words (width_pos t) in
      let few = from_start t (head t b.pointer) (len_of t b.pointer) g.head_in h in
      record {
        words = set_head-IsBitPtr t b.pointer 0 v.words (width_pos t);
        raw =
            rw (index, place, length)
              (record {
                aligned = v.raw.aligned;
                non_null = v.raw.non_null;
                filled = omega (arith, few.0, v.raw.filled);
                room = v.raw.room;
              });
      }

  -- The vector that also has the bits before the first one.
  unfoldable pub whole : BitVec → BitVec
  whole b = relength r o t (aligned b) (head t b.pointer + len_of t b.pointer)

  pub whole_parts :
      (b : BitVec)
      → IsBitVec t b
      → head t b.pointer + len_of t b.pointer ≤ max_bits
      → (len_of t (whole b).pointer ≡ head t b.pointer + len_of t b.pointer)
        × (head t (whole b).pointer ≡ 0)
        × (pointer t (whole b).pointer ≡ pointer t b.pointer)
  unfolding whole aligned relength
  whole_parts b v h =
      let (index, place, _) = set_head_parts t b.pointer 0 v.words (width_pos t) in
      let (length, kept, there) =
        set_len_parts t (aligned b).pointer (head t b.pointer + len_of t b.pointer)
          (aligned-IsBitVec b v h).words h in
      (length, kept ∙ index, there ∙ place)

  -- The former bit `i` is its bit `head + i`.
  pub get_unchecked-whole :
      (m : Memory) (b : BitVec) (i : ℕ)
      → IsBitVec t b
      → IsBitVec t (whole b)
      → head t b.pointer + len_of t b.pointer ≤ max_bits
      → i < len_of t b.pointer
      → get_unchecked r o t m (whole b).pointer (head t b.pointer + i)
        ≡ get_unchecked r o t m b.pointer i
  unfolding get_unchecked
  get_unchecked-whole m b i v w h l =
      let (length, index, place) = whole_parts b v h in
      let from : 0 + (head t b.pointer + i) ≡ head t b.pointer + i = omega arith in
      let same : locate t (whole b).pointer (head t b.pointer + i) ≡ locate t b.pointer i =
        locate-eq-divmod t (whole b).pointer (head t b.pointer + i) (IsBitVec-IsSlice t (whole b) w)
          (omega (arith, length))
        ∙ rw (place, index, from) refl
        ∙ sym (locate-eq-divmod t b.pointer i (IsBitVec-IsSlice t b v) l) in
      ap (λ (x : ℕ × ℕ). Access.get r o t (m x.0) x.1) same

  pub aligned-head : (b : BitVec) → IsBitVec t b → head t (aligned b).pointer ≡ 0
  unfolding aligned
  aligned-head b v = (set_head_parts t b.pointer 0 v.words (width_pos t)).0

  pub whole-IsBitVec :
      (b : BitVec)
      → IsBitVec t b
      → head t b.pointer + len_of t b.pointer ≤ max_bits
      → 0 < len_of t b.pointer
      → IsBitVec t (whole b)
  unfolding whole aligned
  whole-IsBitVec b v h l =
      let g = parts-IsRegion t b.pointer v.words in
      let few = from_start t (head t b.pointer) (len_of t b.pointer) g.head_in h in
      relength-IsBitVec r o t (aligned b) (head t b.pointer + len_of t b.pointer)
        (aligned-IsBitVec b v h) h (rw (aligned-head b v) (omega (arith, few.1 l, v.raw.filled)))
