-- ===== src/Indices/Span.antt =====
-- `BitTail::span` counts the elements that a run of bits touches.
use bitvec_sgx.Base.{
  ℕ, ◌+◌, ◌-◌, ◌*◌, ◌/◌, ◌%◌, ◌^◌, ◌≤◌, ◌<◌, ◌≡◌, refl, arith, subst, if◌then◌else◌, ◌==◌,
}
use native.Mathlib.Nat.{mod-eq_of_lt}
use bitvec_sgx.Bits.{bit_or-zero, zero-bit_or}
use bitvec_sgx.Store.{BitStore, bits, u8, u16, u32, u64, usize}
use bitvec_sgx.Indices.{span, span_idx}
use bitvec_sgx.Indices.Offset.{bit_and-mask}

-- What `span` promises of a run of `len` bits that starts at bit `head` of an element: it touches
-- `elts` elements, and ends before bit `tail` of the last one.
abbrev pub Spans : BitStore → ℕ → ℕ → ℕ × ℕ → Type 0
Spans t head len (elts, tail) =
    (1 ≤ elts) × (1 ≤ tail) × (tail ≤ bits t) × (elts * bits t + tail ≡ head + len + bits t)

-- The structure with branches that the comment in `span` gives as its equivalent.
abbrev pub branching : BitStore → ℕ → ℕ × ℕ
branching t after =
    let elts = after / bits t in
    let tail = after % bits t in if tail == 0 then (elts + 1, bits t) else (elts + 2, tail)

pub span-zero : (t : BitStore) (val : ℕ) → span t val 0 ≡ (0, val)
unfolding span
span-zero t val = refl

-- For a tail no greater than the width and a length between 1 and `usize::MAX`, the run of that
-- many bits from the tail (taken modulo the width) touches at least one element, ends in its
-- last element at a tail between 1 and the width, and the whole elements before that plus the
-- tail add up to start plus length.
pub span-Spans :
    (t : BitStore) (val len : ℕ)
    → val ≤ bits t
    → 0 < len
    → len < 2 ^ 64
    → Spans t (val % bits t) len (span t val len)
unfolding span
span-Spans u8 val len h p q = ground (
  arith,
  bit_and-mask u8 val,
  bit_and-mask u8 ((len - (8 - val % 8)) % 256),
  bit_or-zero 8,
  zero-bit_or ((len - (8 - val % 8)) % 256 % 8),
)
span-Spans u16 val len h p q = ground (
  arith,
  bit_and-mask u16 val,
  bit_and-mask u16 ((len - (16 - val % 16)) % 256),
  bit_or-zero 16,
  zero-bit_or ((len - (16 - val % 16)) % 256 % 16),
)
span-Spans u32 val len h p q = ground (
  arith,
  bit_and-mask u32 val,
  bit_and-mask u32 ((len - (32 - val % 32)) % 256),
  bit_or-zero 32,
  zero-bit_or ((len - (32 - val % 32)) % 256 % 32),
)
span-Spans u64 val len h p q = ground (
  arith,
  bit_and-mask u64 val,
  bit_and-mask u64 ((len - (64 - val % 64)) % 256),
  bit_or-zero 64,
  zero-bit_or ((len - (64 - val % 64)) % 256 % 64),
)
span-Spans usize val len h p q = ground (
  arith,
  bit_and-mask usize val,
  bit_and-mask usize ((len - (64 - val % 64)) % 256),
  bit_or-zero 64,
  zero-bit_or ((len - (64 - val % 64)) % 256 % 64),
)

-- When the run leaves its first element, the branchless result is that of the branching
-- structure which the source's comment gives as its equivalent.
pub span-branching :
    (t : BitStore) (val len : ℕ)
    → bits t - val % bits t < len
    → span t val len ≡ branching t (len - (bits t - val % bits t))
unfolding span
span-branching u8 val len h = ground (
  arith,
  bit_and-mask u8 val,
  bit_and-mask u8 ((len - (8 - val % 8)) % 256),
  bit_or-zero 8,
  zero-bit_or ((len - (8 - val % 8)) % 256 % 8),
)
span-branching u16 val len h = ground (
  arith,
  bit_and-mask u16 val,
  bit_and-mask u16 ((len - (16 - val % 16)) % 256),
  bit_or-zero 16,
  zero-bit_or ((len - (16 - val % 16)) % 256 % 16),
)
span-branching u32 val len h = ground (
  arith,
  bit_and-mask u32 val,
  bit_and-mask u32 ((len - (32 - val % 32)) % 256),
  bit_or-zero 32,
  zero-bit_or ((len - (32 - val % 32)) % 256 % 32),
)
span-branching u64 val len h = ground (
  arith,
  bit_and-mask u64 val,
  bit_and-mask u64 ((len - (64 - val % 64)) % 256),
  bit_or-zero 64,
  zero-bit_or ((len - (64 - val % 64)) % 256 % 64),
)
span-branching usize val len h = ground (
  arith,
  bit_and-mask usize val,
  bit_and-mask usize ((len - (64 - val % 64)) % 256),
  bit_or-zero 64,
  zero-bit_or ((len - (64 - val % 64)) % 256 % 64),
)

-- `BitIdx::span` is the span of the index taken as a tail.
pub span_idx-Spans :
    (t : BitStore) (val len : ℕ)
    → val < bits t
    → 0 < len
    → len < 2 ^ 64
    → Spans t val len (span_idx t val len)
unfolding span_idx
span_idx-Spans t val len h p q =
    subst (λ v. Spans t v len (span t val len)) (mod-eq_of_lt h)
      (span-Spans t val len (omega arith) p q)

pub span_idx-zero : (t : BitStore) (val : ℕ) → span_idx t val 0 ≡ (0, val)
unfolding span_idx
span_idx-zero t val = refl
