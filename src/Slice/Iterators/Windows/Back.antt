-- ===== src/Slice/Iterators/Windows/Back.antt =====
-- The views that `Windows` gives by `next_back`.
use bitvec_sgx.Base.{
  ℕ, suc, ◌+◌, ◌-◌, ◌*◌, ◌%◌, ◌^◌, ◌≤◌, ◌<◌, ◌≡◌, refl, sym, ◌∙◌, ap, arith, ◌&&◌, leb, ltb, false,
  true, not, subst, Option, none, some, Outcome, ok, [],
}
use bitvec_sgx.Base.Int.{pos, negsuc}
use bitvec_sgx.Base.Isize.{as_isize, overflowing_add}
use bitvec_sgx.Indices.{offset}
use bitvec_sgx.Indices.Span.{span_idx-Spans}
use bitvec_sgx.Store.{BitStore, size_of, bits, u8, u16, u32, u64, usize}
use bitvec_sgx.Pointer
use bitvec_sgx.Pointer.{BitPtr, len_of, head, pointer, max_bits, new_unchecked}
use bitvec_sgx.Pointer.New.{touched}
use bitvec_sgx.Pointer.Encoding.{
  IsRegion, parts-IsRegion, new_unchecked_parts, new_unchecked-IsBitPtr,
}
use bitvec_sgx.Slice.{bitptr}
use bitvec_sgx.Slice.Locate.{IsSlice, bitptr-of_pos, locate-eq-divmod}
use bitvec_sgx.Slice.Ranges.{range_from, range_to, range_unchecked, subregion, sub_usize}
use bitvec_sgx.Slice.Ranges.Views.{IsView}
use bitvec_sgx.Slice.Ranges.Nested.{len-view, range_to-IsView}
use bitvec_sgx.Slice.Iterators.{count}
use bitvec_sgx.Slice.Iterators.Drain.{Ends, ends_now, Ends-as}
use bitvec_sgx.Slice.Iterators.Windows.{Windows, next, next_back}
use bitvec_sgx.Slice.Iterators.Windows.Laws.{state, next-none, next-AllWindows, AllWindows-count}

-- `-d` as a `usize`, back as an `isize`.
as_isize-back :
    (t : BitStore) (h d : ℕ) → h < bits t → 0 < d → d ≤ h → as_isize (2 ^ 64 - d) ≡ negsuc (d - 1)
as_isize-back u8 h d p q l = ground arith
as_isize-back u16 h d p q l = ground arith
as_isize-back u32 h d p q l = ground arith
as_isize-back u64 h d p q l = ground arith
as_isize-back usize h d p q l = ground arith

-- A jump back from bit `h` that stays in the element.
offset_back :
    (t : BitStore) (h d : ℕ)
    → h < bits t
    → 0 < d
    → d ≤ h
    → offset t h (negsuc (d - 1)) ≡ (pos 0, h - d)
unfolding offset overflowing_add
offset_back u8 h d p q l = ground arith
offset_back u16 h d p q l = ground arith
offset_back u32 h d p q l = ground arith
offset_back u64 h d p q l = ground arith
offset_back usize h d p q l = ground arith

-- A region that begins `d` bits before another in the same element and ends with it touches no other
-- elements.
same_elements :
    (t : BitStore) (h n d : ℕ)
    → h < bits t
    → 0 < n
    → d ≤ h
    → n + d ≤ max_bits
    → touched t (h - d) (n + d) ≡ touched t h n
same_elements u8 h n d p q l f =
    omega (arith, span_idx-Spans u8 (h - d) (n + d), span_idx-Spans u8 h n)
same_elements u16 h n d p q l f =
    omega (arith, span_idx-Spans u16 (h - d) (n + d), span_idx-Spans u16 h n)
same_elements u32 h n d p q l f =
    omega (arith, span_idx-Spans u32 (h - d) (n + d), span_idx-Spans u32 h n)
same_elements u64 h n d p q l f =
    omega (arith, span_idx-Spans u64 (h - d) (n + d), span_idx-Spans u64 h n)
same_elements usize h n d p q l f =
    omega (arith, span_idx-Spans usize (h - d) (n + d), span_idx-Spans usize h n)

module _ (t : BitStore) (inner : BitPtr) (v : IsSlice t inner) (d : ℕ) where
  -- The region that a start of `-d` as a `usize` gives.
  abbrev before : BitPtr
  before = new_unchecked t (pointer t inner) (head t inner - d) (len_of t inner + d)

  subregion-before :
      0 < len_of t inner
      → 0 < d
      → d ≤ head t inner
      → subregion t inner (2 ^ 64 - d) (len_of t inner + d) ≡ before
  unfolding subregion
  subregion-before p q l =
      let g = parts-IsRegion t inner v.words in
      let back : as_isize (2 ^ 64 - d) ≡ negsuc (d - 1) =
        as_isize-back t (head t inner) d g.head_in q l in
      let still : (pointer t inner + 0 * size_of t) % 2 ^ 64 ≡ pointer t inner =
        omega (arith, g.data_word) in
      rw (bitptr-of_pos t inner p, back, offset_back t (head t inner) d g.head_in q l)
        (ap (λ x. new_unchecked t x (head t inner - d) (len_of t inner + d)) still)

  before-IsRegion :
      len_of t inner + d ≤ max_bits
      → IsRegion t (pointer t inner) (head t inner - d) (len_of t inner + d)
  before-IsRegion f =
      let g = parts-IsRegion t inner v.words in
      record {
        data_word = g.data_word;
        aligned = g.aligned;
        head_in = omega (arith, g.head_in);
        fits = f;
      }

  before-IsSlice :
      0 < len_of t inner → d ≤ head t inner → len_of t inner + d ≤ max_bits → IsSlice t before
  before-IsSlice p l f =
      let g = parts-IsRegion t inner v.words in
      let (place, index, length) =
        new_unchecked_parts t (pointer t inner) (head t inner - d) (len_of t inner + d)
          (before-IsRegion f) in
      record {
        words =
            new_unchecked-IsBitPtr t (pointer t inner) (head t inner - d) (len_of t inner + d)
              (before-IsRegion f);
        room =
            rw
              (
                place,
                index,
                length,
                same_elements t (head t inner) (len_of t inner) d g.head_in p l f,
              )
              v.room;
      }

  -- The region ends with the slice.
  before-IsView :
      0 < len_of t inner
      → d ≤ head t inner
      → len_of t inner + d ≤ max_bits
      → IsView t before d (len_of t inner) inner
  before-IsView p l f =
      let (place, index, length) =
        new_unchecked_parts t (pointer t inner) (head t inner - d) (len_of t inner + d)
          (before-IsRegion f) in
      record {
        slice = v;
        length = refl;
        shifted = λ k q.
            let at : head t inner - d + (d + k) ≡ head t inner + k = omega arith in
            locate-eq-divmod t inner k v q
            ∙ sym (
                locate-eq-divmod t before (d + k) (before-IsSlice p l f) (omega (arith, length))
                ∙ rw (place, index, at) refl);
      }

module _ (t : BitStore) (s : BitPtr) (w : ℕ) (h : 0 < w) where
  -- The first `n` bits of the item are not the slice's.
  abbrev pub IsTooLong : ℕ → ℕ → BitPtr → Outcome (Option BitPtr × Windows) → Type 0
  IsTooLong a n inner x =
      (out rest : BitPtr) × (x ≡ ok (some out, state t s w rest))
      × (len_of t out ≡ w)
      × IsView t out (w - n) n inner
      × IsView t s a (n - 1) rest

  item-eq :
      (inner : BitPtr) (n : ℕ) (v : IsSlice t inner)
      → len_of t inner ≡ n
      → 0 < n
      → n < w
      → w ≤ max_bits
      → w - n ≤ head t inner
      → range_unchecked t (range_from (sub_usize n w)) inner ≡ before t inner v (w - n)
  unfolding range_unchecked
  item-eq inner n v e p q f l =
      let start : sub_usize n w ≡ 2 ^ 64 - (w - n) = omega arith in
      let rest : sub_usize (len_of t (bitptr inner)) (sub_usize n w) ≡ len_of t inner + (w - n) =
        rw (bitptr-of_pos t inner (omega arith)) (omega arith) in
      (λ k. subregion t inner (start k) (rest k))
      ∙ subregion-before t inner v (w - n) (omega arith) (omega arith) l

  next_back-IsTooLong :
      (a n : ℕ) (inner : BitPtr)
      → IsView t s a n inner
      → 0 < n
      → n < w
      → w ≤ max_bits
      → w - n ≤ head t inner
      → IsTooLong a n inner (next_back t (state t s w inner))
  unfolding next_back
  next_back-IsTooLong a n inner v p q f l =
      let d = w - n in
      let some_bits : 0 < len_of t inner = omega (arith, v.length) in
      let fits : len_of t inner + d ≤ max_bits = omega (arith, v.length) in
      let (_, _, length) =
        new_unchecked_parts t (pointer t inner) (head t inner - d) (len_of t inner + d)
          (before-IsRegion t inner v.slice d fits) in
      let guard : not (leb 1 n && ltb n w) ≡ false = ground arith in
      (
        before t inner v.slice d,
        range_unchecked t (range_to (n - 1)) inner,
        rw (len-view t s a n inner v, guard, item-eq inner n v.slice v.length p q f l) refl,
        length ∙ omega (arith, v.length),
        subst (λ k. IsView t (before t inner v.slice d) d k inner) v.length
            (before-IsView t inner v.slice d some_bits l fits),
        range_to-IsView t s a n inner v (n - 1) (omega arith),
      )

  -- For a width between one and `MAX_BITS`, on a state whose slice has `n` bits and, where these are
  -- fewer than the width, begins far enough from the first bit of its element. If there are windows
  -- left, calls of `next` give all `n - width + 1` of them, while calls of `next_back` give none. If
  -- there are no bits, `next_back` gives `None`. If there are bits but fewer than the width, `next`
  -- gives `None`, while `next_back` gives an item of `width` bits that begins before the slice and ends
  -- with it, and goes on with one bit less.
  pub next_back_lem :
      (a n : ℕ) (inner : BitPtr)
      → IsView t s a n inner
      → w ≤ max_bits
      → w - n ≤ head t inner
      → (w ≤ n
          → Ends (next t) (suc n) (state t s w inner) (λ cs. count cs ≡ n - w + 1)
            × Ends (next_back t) 1 (state t s w inner) (λ cs. cs ≡ []))
        × (n ≡ 0 → next_back t (state t s w inner) ≡ ok (none, state t s w Pointer.empty))
        × (0 < n
            → n < w
            → (next t (state t s w inner) ≡ ok (none, state t s w Pointer.empty))
              × IsTooLong a n inner (next_back t (state t s w inner)))
  unfolding next_back
  next_back_lem a n inner v f l =
      let none_left : not (leb 1 n && ltb n w) ≡ true
          → next_back t (state t s w inner) ≡ ok (none, state t s w Pointer.empty) =
        λ e. rw (len-view t s a n inner v, e) refl in
      (
        λ p. (
          Ends-as (next t) (suc n) (state t s w inner) _ _
              (next-AllWindows t s w h (suc n) a n inner v (omega arith))
              (λ cs all. ground (arith, AllWindows-count t s w h a n cs all)),
          ends_now (next_back t) 0 (state t s w inner) _ _ (none_left (ground arith)) refl,
        ),
        λ e. none_left (ground arith),
        λ p q. (next-none t s w h a n inner v q, next_back-IsTooLong a n inner v p q f l),
      )
