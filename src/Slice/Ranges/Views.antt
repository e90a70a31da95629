-- ===== src/Slice/Ranges/Views.antt =====
-- A subslice views the same bits of memory, shifted by its start.
use bitvec_sgx.Access
use bitvec_sgx.Memory.{Memory}
use bitvec_sgx.Order.{BitOrder}
use bitvec_sgx.Access.{Radium}
use bitvec_sgx.Pointer.Setters.{set_len-eq-new_unchecked}
use native.Mathlib.Nat.{div-eq_of_lt}
use bitvec_sgx.Indices.{span_idx}
use bitvec_sgx.Base.{
  ==_cases, ==_iff, ne→not_==, inl, inr, ℕ, zero, suc, ◌+◌, ◌*◌, ◌/◌, ◌%◌, ◌^◌, ◌≤◌, ◌<◌, ◌≡◌, refl,
  sym, ◌∙◌, ap, ap₂, arith,
}
use bitvec_sgx.Store.{BitStore, size_of, bits, u8, u16, u32, u64, usize}
use bitvec_sgx.Indices.Span.{span_idx-Spans, span_idx-zero}
use bitvec_sgx.Pointer
use bitvec_sgx.Pointer.{BitPtr, new_unchecked, pointer, head, len_of, set_len, max_bits}
use bitvec_sgx.Pointer.Encoding.{
  new_unchecked_of_parts, IsRegion, parts-IsRegion, new_unchecked_parts, new_unchecked-IsBitPtr,
}
use bitvec_sgx.Pointer.New.{touched}
use bitvec_sgx.Slice.{get_unchecked, bitptr, len, locate}
use native.Mathlib.Nat.{mod-eq_of_lt}
use bitvec_sgx.Slice.Locate.{
  len-eq-len_of, as_isize-small, IsSlice, locate-eq-divmod, offset_forward,
}
use bitvec_sgx.Slice.Ranges.{subregion}

-- `sub` is the `n` bits of `s` from `start` on.
pub record IsView (t : BitStore) (s : BitPtr) (start n : ℕ) (sub : BitPtr) : Type 0 where
  pub slice : IsSlice t sub
  pub length : len_of t sub ≡ n
  pub shifted : (k : ℕ) → k < n → locate t sub k ≡ locate t s (start + k)

-- The first touched element of a subregion is not past the end.
start_in :
    (t : BitStore) (h n i : ℕ)
    → h < bits t
    → n ≤ max_bits
    → i ≤ n
    → (h + i) / bits t ≤ touched t h n
start_in u8 h zero i p q l = omega arith
start_in u8 h (suc n) i p q l = omega (arith, span_idx-Spans u8 h (suc n))
start_in u16 h zero i p q l = omega arith
start_in u16 h (suc n) i p q l = omega (arith, span_idx-Spans u16 h (suc n))
start_in u32 h zero i p q l = omega arith
start_in u32 h (suc n) i p q l = omega (arith, span_idx-Spans u32 h (suc n))
start_in u64 h zero i p q l = omega arith
start_in u64 h (suc n) i p q l = omega (arith, span_idx-Spans u64 h (suc n))
start_in usize h zero i p q l = omega arith
start_in usize h (suc n) i p q l = omega (arith, span_idx-Spans usize h (suc n))

-- The elements that a subregion touches lie among those of the region.
touched_in :
    (t : BitStore) (h n i k : ℕ)
    → h < bits t
    → n ≤ max_bits
    → i + k ≤ n
    → (h + i) / bits t + touched t ((h + i) % bits t) k ≤ touched t h n
touched_in t h n i zero p q l =
    let none_more : touched t ((h + i) % bits t) 0 ≡ 0 =
      ap (λ (r : ℕ × ℕ). r.0) (span_idx-zero t ((h + i) % bits t)) in
    omega (arith, none_more, start_in t h n i p q (omega arith))
touched_in u8 h n i (suc k) p q l =
    omega (arith, span_idx-Spans u8 h n, span_idx-Spans u8 ((h + i) % bits u8) (suc k))
touched_in u16 h n i (suc k) p q l =
    omega (arith, span_idx-Spans u16 h n, span_idx-Spans u16 ((h + i) % bits u16) (suc k))
touched_in u32 h n i (suc k) p q l =
    omega (arith, span_idx-Spans u32 h n, span_idx-Spans u32 ((h + i) % bits u32) (suc k))
touched_in u64 h n i (suc k) p q l =
    omega (arith, span_idx-Spans u64 h n, span_idx-Spans u64 ((h + i) % bits u64) (suc k))
touched_in usize h n i (suc k) p q l =
    omega (arith, span_idx-Spans usize h n, span_idx-Spans usize ((h + i) % bits usize) (suc k))

shift_div :
    (t : BitStore) (h i k : ℕ)
    → ((h + (i + k)) / bits t ≡ (h + i) / bits t + ((h + i) % bits t + k) / bits t)
      × ((h + (i + k)) % bits t ≡ ((h + i) % bits t + k) % bits t)
shift_div u8 h i k = omega arith
shift_div u16 h i k = omega arith
shift_div u32 h i k = omega arith
shift_div u64 h i k = omega arith
shift_div usize h i k = omega arith

aligned_step : (t : BitStore) (a q : ℕ) → a % size_of t ≡ 0 → (a + q * size_of t) % size_of t ≡ 0
aligned_step u8 a q h = omega arith
aligned_step u16 a q h = omega arith
aligned_step u32 a q h = omega arith
aligned_step u64 a q h = omega arith
aligned_step usize a q h = omega arith

mod_bits : (t : BitStore) (n : ℕ) → n % bits t < bits t
mod_bits u8 n = omega arith
mod_bits u16 n = omega arith
mod_bits u32 n = omega arith
mod_bits u64 n = omega arith
mod_bits usize n = omega arith

before_end :
    (t : BitStore) (a q e : ℕ) → q ≤ e → a + e * size_of t < 2 ^ 64 → a + q * size_of t < 2 ^ 64
before_end u8 a q e p h = omega arith
before_end u16 a q e p h = omega arith
before_end u32 a q e p h = omega arith
before_end u64 a q e p h = omega arith
before_end usize a q e p h = omega arith

module _ (t : BitStore) (s : BitPtr) (start n : ℕ) (v : IsSlice t s)
    (h : start + n ≤ len_of t s) where
  -- The address and the index that `subregion` packs.
  abbrev address : ℕ
  address = pointer t s + (head t s + start) / bits t * size_of t

  abbrev place : ℕ
  place = (head t s + start) % bits t

  abbrev packed : BitPtr
  packed = new_unchecked t address place n

  first_element : (head t s + start) / bits t ≤ touched t (head t s) (len_of t s)
  first_element =
      let g = parts-IsRegion t s v.words in
      start_in t (head t s) (len_of t s) start g.head_in g.fits (omega arith)

  address_fits : address < 2 ^ 64
  address_fits =
      before_end t (pointer t s) ((head t s + start) / bits t) (touched t (head t s) (len_of t s))
        first_element v.room

  packed-IsRegion : IsRegion t address place n
  packed-IsRegion =
      let g = parts-IsRegion t s v.words in
      record {
        data_word = address_fits;
        aligned = aligned_step t (pointer t s) ((head t s + start) / bits t) g.aligned;
        head_in = mod_bits t (head t s + start);
        fits = omega (arith, g.fits);
      }

  packed_parts : (pointer t packed ≡ address) × (head t packed ≡ place) × (len_of t packed ≡ n)
  packed_parts = new_unchecked_parts t address place n packed-IsRegion

  packed-IsSlice : IsSlice t packed
  packed-IsSlice = record {
    words = new_unchecked-IsBitPtr t address place n packed-IsRegion;
    room =
        rw (packed_parts.0, packed_parts.1, packed_parts.2)
          (omega (
            arith,
            before_end t (pointer t s) ((head t s + start) / bits t + touched t place n)
                (touched t (head t s) (len_of t s))
                (touched_in t (head t s) (len_of t s) start n (parts-IsRegion t s v.words).head_in
                  (parts-IsRegion t s v.words).fits h)
                v.room,
          ));
  }

  shifted_address :
      (k : ℕ)
      → pointer t packed + (head t packed + k) / bits t * size_of t
        ≡ pointer t s + (head t s + (start + k)) / bits t * size_of t
  shifted_address k =
      rw (packed_parts.0, packed_parts.1)
        (omega (arith, ap (λ (q : ℕ). q * size_of t) (shift_div t (head t s) start k).0))

  shifted_place : (k : ℕ) → (head t packed + k) % bits t ≡ (head t s + (start + k)) % bits t
  shifted_place k = rw packed_parts.1 (sym (shift_div t (head t s) start k).1)

  pub packed-IsView : IsView t s start n packed
  packed-IsView = record {
    slice = packed-IsSlice;
    length = packed_parts.2;
    shifted = λ k l.
        locate-eq-divmod t packed k packed-IsSlice (rw packed_parts.2 l)
        ∙ ap₂ (λ a b. (a, b)) (shifted_address k) (shifted_place k)
        ∙ sym (locate-eq-divmod t s (start + k) v (omega arith));
  }

empty_room :
    (t : BitStore)
    → pointer t Pointer.empty
        + touched t (head t Pointer.empty) (len_of t Pointer.empty) * size_of t
      < 2 ^ 64
unfolding pointer head len_of span_idx
empty_room u8 = omega arith
empty_room u16 = omega arith
empty_room u32 = omega arith
empty_room u64 = omega arith
empty_room usize = omega arith

-- The canonical empty slice.
pub empty-IsSlice : (t : BitStore) → IsSlice t Pointer.empty
empty-IsSlice t = record {
  words = record { ptr_word = omega arith; len_word = omega arith };
  room = empty_room t;
}

pub bitptr-IsSlice : (t : BitStore) (s : BitPtr) → IsSlice t s → IsSlice t (bitptr s)
unfolding bitptr
bitptr-IsSlice t s v = elim (==_cases s.len 0) [
  | inl e ↦ rw ((==_iff s.len 0).1 e) (empty-IsSlice t)
  | inr ne ↦ rw (ne→not_== s.len 0 ne) v
]

bitptr_idem : (s : BitPtr) → bitptr (bitptr s) ≡ bitptr s
unfolding bitptr
bitptr_idem s = ground arith

pub len_of-bitptr : (t : BitStore) (s : BitPtr) → len_of t (bitptr s) ≡ len_of t s
unfolding len
len_of-bitptr t s = len-eq-len_of t s

pub locate-bitptr : (t : BitStore) (s : BitPtr) (i : ℕ) → locate t (bitptr s) i ≡ locate t s i
unfolding locate
locate-bitptr t s i = rw bitptr_idem

IsView-of_bitptr :
    (t : BitStore) (s : BitPtr) (start n : ℕ) (sub : BitPtr)
    → IsView t (bitptr s) start n sub
    → IsView t s start n sub
IsView-of_bitptr t s start n sub v = record {
  slice = v.slice;
  length = v.length;
  shifted = λ k l. v.shifted k l ∙ locate-bitptr t s (start + k);
}

subregion-eq-packed :
    (t : BitStore) (s : BitPtr) (start n : ℕ) (v : IsSlice t (bitptr s))
    (h : start + n ≤ len_of t (bitptr s))
    → subregion t s start n ≡ packed t (bitptr s) start n v h
unfolding subregion
subregion-eq-packed t s start n v h =
    let g = parts-IsRegion t (bitptr s) v.words in
    rw
      (
        as_isize-small start (omega (arith, g.fits)),
        offset_forward t (head t (bitptr s)) start g.head_in (omega (arith, g.fits)),
        mod-eq_of_lt (address_fits t (bitptr s) start n v h),
      )
      refl

-- `subregion` is the view that it is named for.
pub subregion-IsView :
    (t : BitStore) (s : BitPtr) (start n : ℕ)
    → IsSlice t s
    → start + n ≤ len_of t s
    → IsView t s start n (subregion t s start n)
subregion-IsView t s start n v h =
    let w = bitptr-IsSlice t s v in
    let l : start + n ≤ len_of t (bitptr s) = rw (len_of-bitptr t s) h in
    IsView-of_bitptr t s start n (subregion t s start n)
      (rw (subregion-eq-packed t s start n w l) (packed-IsView t (bitptr s) start n w l))

set_len-eq-packed :
    (t : BitStore) (s : BitPtr) (n : ℕ) (v : IsSlice t s) (h : 0 + n ≤ len_of t s)
    → set_len t s n ≡ packed t s 0 n v h
set_len-eq-packed t s n v h =
    let g = parts-IsRegion t s v.words in
    let none_skipped : (head t s + 0) / bits t ≡ 0 = div-eq_of_lt (omega (arith, g.head_in)) in
    let same_head : (head t s + 0) % bits t ≡ head t s + 0 =
      mod-eq_of_lt (omega (arith, g.head_in)) in
    let to_address : pointer t s ≡ address t s 0 n v h =
      omega (arith, none_skipped, ap (λ (q : ℕ). q * size_of t) none_skipped) in
    let to_place : head t s ≡ place t s 0 n v h = omega (arith, same_head) in
    set_len-eq-new_unchecked t s n v.words (omega (arith, g.fits))
    ∙ ap₂ (λ d i. new_unchecked t d i n) to_address to_place

-- Shortening a slice by `set_len` views its start.
pub set_len-IsView :
    (t : BitStore) (s : BitPtr) (n : ℕ)
    → IsSlice t s
    → n ≤ len_of t s
    → IsView t s 0 n (set_len t (bitptr s) n)
set_len-IsView t s n v h =
    let w = bitptr-IsSlice t s v in
    let l : 0 + n ≤ len_of t (bitptr s) = rw (len_of-bitptr t s) (omega arith) in
    IsView-of_bitptr t s 0 n (set_len t (bitptr s) n)
      (rw (set_len-eq-packed t (bitptr s) n w l) (packed-IsView t (bitptr s) 0 n w l))

-- A slice views itself, and the canonical empty slice views no bits of any.
pub whole-IsView : (t : BitStore) (s : BitPtr) → IsSlice t s → IsView t s 0 (len_of t s) s
whole-IsView t s v = record {
  slice = v;
  length = refl;
  shifted = λ k l. ap (λ i. locate t s i) (omega arith);
}

pub empty-IsView : (t : BitStore) (s : BitPtr) (start : ℕ) → IsView t s start 0 Pointer.empty
empty-IsView t s start = record {
  slice = empty-IsSlice t;
  length = unfold len_of in refl;
  shifted = λ k l. absurd (omega arith);
}

-- A bit read through a view is the bit of the viewed slice.
pub get_unchecked-view :
    (r : Radium) (o : BitOrder) (t : BitStore) (m : Memory) {s : BitPtr} {start n : ℕ}
    {sub : BitPtr}
    → IsView t s start n sub
    → (k : ℕ) → k < n
    → get_unchecked r o t m sub k ≡ get_unchecked r o t m s (start + k)
unfolding get_unchecked
get_unchecked-view r o t m v k h = ap (λ (l : ℕ × ℕ). Access.get r o t (m l.0) l.1) (v.shifted k h)

-- From the first bit on with the full length, a subregion is the whole.
pub subregion-whole :
    (t : BitStore) (s : BitPtr) → IsSlice t s → subregion t s 0 (len_of t (bitptr s)) ≡ bitptr s
subregion-whole t s v =
    let w = bitptr-IsSlice t s v in
    let g = parts-IsRegion t (bitptr s) w.words in
    let p = bitptr s in
    let none_skipped : (head t p + 0) / bits t ≡ 0 = div-eq_of_lt (omega (arith, g.head_in)) in
    let same_head : (head t p + 0) % bits t ≡ head t p =
      mod-eq_of_lt (omega (arith, g.head_in)) ∙ omega arith in
    subregion-eq-packed t s 0 (len_of t p) w (omega arith)
    ∙ ap₂ (λ d i. new_unchecked t d i (len_of t p))
        (omega (arith, ap (λ (q : ℕ). q * size_of t) none_skipped)) same_head
    ∙ new_unchecked_of_parts t p w.words
