-- ===== src/Slice/Ranges/Nested.antt =====
-- Subslices of subslices.
use bitvec_sgx.Base.{ℕ, ◌+◌, ◌-◌, ◌≤◌, ◌≡◌, ◌∙◌, ap, arith, ok, subst}
use native.Mathlib.Nat.{add-zero, sub-zero}
use bitvec_sgx.Store.{BitStore}
use bitvec_sgx.Pointer.{BitPtr}
use bitvec_sgx.Slice.{len, locate}
use bitvec_sgx.Slice.Locate.{len-eq-len_of}
use bitvec_sgx.Slice.Ranges.{SliceRange, range_to, range_unchecked, split_at}
use bitvec_sgx.Slice.Ranges.Views.{IsView}
use bitvec_sgx.Slice.Ranges.Splits.{first_of, end_of, range_unchecked-IsView, split_at-IsView}

module _ (t : BitStore) (s : BitPtr) (a n : ℕ) (inner : BitPtr) (v : IsView t s a n inner) where
  pub IsView-trans :
      (b k : ℕ) (sub : BitPtr) → b + k ≤ n → IsView t inner b k sub → IsView t s (a + b) k sub
  IsView-trans b k sub h w = record {
    slice = w.slice;
    length = w.length;
    shifted = λ i l.
        w.shifted i l ∙ v.shifted (b + i) (omega arith) ∙ ap (λ j. locate t s j) (omega arith);
  }

  pub len-view : len t inner ≡ n
  len-view = len-eq-len_of t inner ∙ v.length

  pub split_at-IsView_parts :
      (mid : ℕ)
      → mid ≤ n
      → (parts : BitPtr × BitPtr) × (split_at t inner mid ≡ ok parts)
        × IsView t s a mid parts.0
        × IsView t s (a + mid) (n - mid) parts.1
  split_at-IsView_parts mid h =
      let (parts, e, front, back) = split_at-IsView t inner v.slice mid (omega (arith, v.length)) in
      (
        parts,
        e,
        subst (λ x. IsView t s x mid parts.0) (add-zero a)
            (IsView-trans 0 mid parts.0 (omega arith) front),
        IsView-trans mid (n - mid) parts.1 (omega arith)
            (subst (λ k. IsView t inner mid (k - mid) parts.1) v.length back),
      )

  pub range_unchecked-IsView_in :
      (i : SliceRange)
      → first_of i ≤ end_of i n
      → end_of i n ≤ n
      → IsView t s (a + first_of i) (end_of i n - first_of i) (range_unchecked t i inner)
  range_unchecked-IsView_in i p q =
      IsView-trans (first_of i) (end_of i n - first_of i) (range_unchecked t i inner) (omega arith)
        (subst
          (λ k.
            first_of i ≤ end_of i k
            → end_of i k ≤ k
            → IsView t inner (first_of i) (end_of i k - first_of i) (range_unchecked t i inner))
          v.length (range_unchecked-IsView t inner v.slice i) p q)

  pub range_to-IsView : (k : ℕ) → k ≤ n → IsView t s a k (range_unchecked t (range_to k) inner)
  range_to-IsView k h =
      rw (sub-zero k, add-zero a) at (range_unchecked-IsView_in (range_to k) (omega arith) h)
