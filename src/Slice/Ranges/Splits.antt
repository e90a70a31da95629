-- ===== src/Slice/Ranges/Splits.antt =====
-- Indexing by a range and splitting: which arguments are accepted, and what comes back.
use bitvec_sgx.Pointer.Encoding.{parts-IsRegion}
use native.Mathlib.Nat.{add-zero, sub-zero}
use bitvec_sgx.Slice.Ranges.Views.{get_unchecked-view, empty-IsView, whole-IsView}
use bitvec_sgx.Pointer.{set_len}
use bitvec_sgx.Slice.Ranges.{range_unchecked, subregion}
use bitvec_sgx.Base.{ne→not_==, inr, inl, ◌⊎◌, ==_cases}
use bitvec_sgx.Slice.Ranges.{sub_usize}
use bitvec_sgx.Base.{ℕ, ◌-◌, ◌≤◌, ◌<◌, ◌≡◌, refl, ◌∙◌, ap, arith, none, some, ok}
use bitvec_sgx.Store.{BitStore}
use bitvec_sgx.Order.{BitOrder}
use bitvec_sgx.Access.{Radium}
use bitvec_sgx.Pointer
use bitvec_sgx.Pointer.{BitPtr, len_of}
use bitvec_sgx.Memory.{Memory}
use bitvec_sgx.Slice.{bitptr, is_empty, get_unchecked}
use bitvec_sgx.Slice.Locate.{IsSlice, len-eq-len_of}
use bitvec_sgx.Slice.Ranges.{
  SliceRange, range, range_from, range_to, range_inclusive, range_to_inclusive, range_full,
  range_get, next_usize, split_at, split_first, split_last,
}
use bitvec_sgx.Slice.Ranges.Views.{IsView, subregion-IsView, set_len-IsView, len_of-bitptr}

-- The bounds that a range stands for on a slice of `n` bits: its start, and its end.
abbrev pub first_of : SliceRange → ℕ
first_of (range start end) = start
first_of (range_from start) = start
first_of (range_to end) = 0
first_of (range_inclusive start end) = start
first_of (range_to_inclusive end) = 0
first_of range_full = 0

abbrev pub end_of : SliceRange → ℕ → ℕ
end_of (range start end) n = end
end_of (range_from start) n = n
end_of (range_to end) n = end
end_of (range_inclusive start end) n = next_usize end
end_of (range_to_inclusive end) n = next_usize end
end_of range_full n = n

pub sub_usize-eq :
    (t : BitStore) (s : BitPtr) (a b : ℕ)
    → IsSlice t s
    → b ≤ len_of t s
    → a ≤ b
    → sub_usize b a ≡ b - a
sub_usize-eq t s a b v p q = omega (arith, (parts-IsRegion t s v.words).fits)

-- A range within the slice is accepted, and gives the view of its bits.
module _ (t : BitStore) (s : BitPtr) (v : IsSlice t s) where
  pub range_unchecked-IsView :
      (i : SliceRange)
      → first_of i ≤ end_of i (len_of t s)
      → end_of i (len_of t s) ≤ len_of t s
      → IsView t s (first_of i) (end_of i (len_of t s) - first_of i) (range_unchecked t i s)
  unfolding range_unchecked
  range_unchecked-IsView (range a b) p q =
      rw (sub_usize-eq t s a b v q p) (subregion-IsView t s a (b - a) v (omega arith))
  range_unchecked-IsView (range_from a) p q =
      rw (len_of-bitptr t s, sub_usize-eq t s a (len_of t s) v q p)
        (subregion-IsView t s a (len_of t s - a) v (omega arith))
  range_unchecked-IsView (range_to b) p q = rw (sub-zero b) (set_len-IsView t s b v q)
  range_unchecked-IsView (range_inclusive a b) p q =
      rw (sub_usize-eq t s a (next_usize b) v q p)
        (subregion-IsView t s a (next_usize b - a) v (omega arith))
  range_unchecked-IsView (range_to_inclusive b) p q =
      rw sub-zero (set_len-IsView t s (next_usize b) v q)
  range_unchecked-IsView range_full p q = rw sub-zero (whole-IsView t s v)

  pub range_get_in :
      (i : SliceRange)
      → first_of i ≤ end_of i (len_of t s)
      → end_of i (len_of t s) ≤ len_of t s
      → range_get t i s ≡ some (range_unchecked t i s)
  unfolding range_get
  range_get_in (range a b) p q = ground (arith, len-eq-len_of t s)
  range_get_in (range_from a) p q = ground (arith, len-eq-len_of t s)
  range_get_in (range_to b) p q = ground (arith, len-eq-len_of t s)
  range_get_in (range_inclusive a b) p q = ground (arith, len-eq-len_of t s)
  range_get_in (range_to_inclusive b) p q = ground (arith, len-eq-len_of t s)
  range_get_in range_full p q = refl

  -- On a slice inside the address space, a range whose start is at most its end and whose end
  -- is at most the length is accepted, and the subslice is inside the address space, has `end
  -- - start` bits, and locates its bit `k` where the slice locates bit `start + k`.
  pub range_get-some :
      (i : SliceRange)
      → first_of i ≤ end_of i (len_of t s)
      → end_of i (len_of t s) ≤ len_of t s
      → (sub : BitPtr) × (range_get t i s ≡ some sub)
        × IsView t s (first_of i) (end_of i (len_of t s) - first_of i) sub
  range_get-some i p q = (range_unchecked t i s, range_get_in i p q, range_unchecked-IsView i p q)

  -- On a slice inside the address space, a range that ends before its start, or past the
  -- length, gives `None`.
  pub range_get-none :
      (i : SliceRange)
      → (end_of i (len_of t s) < first_of i) ⊎ (len_of t s < end_of i (len_of t s))
      → range_get t i s ≡ none
  unfolding range_get
  range_get-none (range a b) h = ground (arith, len-eq-len_of t s)
  range_get-none (range_from a) h = ground (arith, len-eq-len_of t s)
  range_get-none (range_to b) h = ground (arith, len-eq-len_of t s)
  range_get-none (range_inclusive a b) h = ground (arith, len-eq-len_of t s)
  range_get-none (range_to_inclusive b) h = ground (arith, len-eq-len_of t s)
  range_get-none range_full h = absurd (omega arith)

  nothing_after : (mid : ℕ) → mid ≡ len_of t s → IsView t s mid (len_of t s - mid) Pointer.empty
  nothing_after mid f = let e : len_of t s - mid ≡ 0 = omega arith in rw e (empty-IsView t s mid)

  -- On a slice inside the address space, splitting at a point no greater than the length does
  -- not panic, and gives the view of the first `mid` bits and the view of the remaining ones.
  pub split_at-IsView :
      (mid : ℕ)
      → mid ≤ len_of t s
      → (parts : BitPtr × BitPtr) × (split_at t s mid ≡ ok parts)
        × IsView t s 0 mid parts.0
        × IsView t s mid (len_of t s - mid) parts.1
  unfolding split_at
  split_at-IsView mid h = elim (==_cases mid 0) [
    | inl z ↦ (
      (Pointer.empty, s),
      ground (arith, len-eq-len_of t s),
      rw z (empty-IsView t s 0),
      rw (z, sub-zero) (whole-IsView t s v),
    )
    | inr nz ↦ elim (==_cases mid (len_of t s)) [
      | inl f ↦ (
        (s, Pointer.empty),
        ground (arith, len-eq-len_of t s),
        rw f (whole-IsView t s v),
        nothing_after mid f,
      )
      | inr nf ↦ (
        (set_len t (bitptr s) mid, subregion t s mid (sub_usize (len_of t (bitptr s)) mid)),
        ground (arith, len-eq-len_of t s),
        set_len-IsView t s mid v h,
        rw (len_of-bitptr t s, sub_usize-eq t s mid (len_of t s) v (omega arith) h)
            (subregion-IsView t s mid (len_of t s - mid) v (omega arith)),
      )
    ]
  ]

  module _ (r : Radium) (o : BitOrder) (m : Memory) where
    -- On a slice inside the address space that is not empty, `split_first` gives its bit 0
    -- and the view of the `len - 1` bits after it.
    pub split_first-some :
        0 < len_of t s
        → (rest : BitPtr) × (split_first r o t m s ≡ ok (some (get_unchecked r o t m s 0, rest)))
          × IsView t s 1 (len_of t s - 1) rest
    unfolding split_first is_empty
    split_first-some h =
        let (parts, e, front, rest) = split_at-IsView 1 h in
        (
          parts.1,
          rw (len_of-bitptr t s, ne→not_== (len_of t s) 0 (omega arith), e)
              (ap (λ b. ok (some (b, parts.1))) (get_unchecked-view r o t m front 0 (omega arith))),
          rest,
        )

    -- On a slice inside the address space that is not empty, `split_last` gives its last
    -- bit and the view of the `len - 1` bits before it.
    pub split_last-some :
        0 < len_of t s
        → (rest : BitPtr) × (split_last r o t m s
            ≡ ok (some (get_unchecked r o t m s (len_of t s - 1), rest)))
          × IsView t s 0 (len_of t s - 1) rest
    unfolding split_last
    split_last-some h =
        let (parts, e, rest, back) = split_at-IsView (len_of t s - 1) (omega arith) in
        (
          parts.0,
          rw (len-eq-len_of t s, ne→not_== (len_of t s) 0 (omega arith), e)
              (ap (λ b. ok (some (b, parts.0)))
                (get_unchecked-view r o t m back 0 (omega arith)
                  ∙ ap (λ i. get_unchecked r o t m s i) (add-zero (len_of t s - 1)))),
          rest,
        )
