-- ===== src/Slice/Iterators/RChunksExact/Laws.antt =====
-- The pieces that `RChunksExact` gives, by `next` and by `nth`.
use bitvec_sgx.Base.{
  lt→ltb, ℕ, zero, suc, ◌+◌, ◌-◌, ◌*◌, ◌%◌, ◌^◌, ◌≤◌, lt→ltb, ◌<◌, ◌≡◌, refl, sym, ◌∙◌, ap, arith,
  leb, ltb, subst, false, none, some, ok,
}
use native.Mathlib.Nat.{mod-eq_of_lt, mul_comm}
use bitvec_sgx.Pointer.Encoding.{parts-IsRegion}
use bitvec_sgx.Slice.Ranges.{range_from, range_unchecked}
use native.Mathlib.Nat.{mod-eq_of_lt, mul_comm, suc-mul, zero-mul}
use bitvec_sgx.Pointer.Encoding.{parts-IsRegion}
use bitvec_sgx.Slice.Ranges.{range_from, range_unchecked}
use bitvec_sgx.Store.{BitStore}
use bitvec_sgx.Pointer
use bitvec_sgx.Pointer.{BitPtr, len_of}
use bitvec_sgx.Slice.{len}
use bitvec_sgx.Slice.Ranges.Views.{IsView}
use bitvec_sgx.Slice.Ranges.Nested.{len-view, split_at-IsView_parts, range_unchecked-IsView_in}
use bitvec_sgx.Slice.Ranges.{range_to}
use bitvec_sgx.Slice.Iterators.RChunksExact.{RChunksExact, next, nth, nth_mut}

module _ (t : BitStore) (s : BitPtr) (w : ℕ) where
  abbrev pub state : BitPtr → BitPtr → RChunksExact
  state inner extra = record { inner = inner; extra = extra; width = w }

  module _ (h : 0 < w) where
    pub next-none :
        (a n : ℕ) (inner extra : BitPtr)
        → IsView t s a n inner
        → n < w
        → next t (state inner extra) ≡ ok (none, state Pointer.empty extra)
    unfolding next
    next-none a n inner extra v l = rw (len-view t s a n inner v, lt→ltb n w l) refl

    -- One piece is taken from the back.
    next-some :
        (a n : ℕ) (inner extra : BitPtr)
        → IsView t s a n inner
        → w ≤ n
        → (c rest : BitPtr) × (next t (state inner extra) ≡ ok (some c, state rest extra))
          × IsView t s (a + (n - w)) w c
          × IsView t s a (n - w) rest
    unfolding next
    next-some a n inner extra v l =
        let (parts, e, front, back) = split_at-IsView_parts t s a n inner v (n - w) (omega arith) in
        let enough : ltb n w ≡ false = ground arith in
        let size : n - (n - w) ≡ w = omega arith in
        (
          parts.1,
          parts.0,
          rw (len-view t s a n inner v, enough, e) refl,
          subst (λ k. IsView t s (a + (n - w)) k parts.1) size back,
          front,
        )

    multiple-le : (k : ℕ) → 0 < k → w ≤ k * w
    multiple-le zero p = absurd (omega arith)
    multiple-le (suc k) p = omega (arith, suc-mul k w)

    nth-next :
        (n k : ℕ) (inner extra : BitPtr)
        → len t inner ≡ n
        → leb n (w * k % 2 ^ 64) ≡ false
        → leb (2 ^ 64) (w * k) ≡ false
        → (nth t (state inner extra) k
            ≡ next t (state (range_unchecked t (range_from (n - w * k % 2 ^ 64)) inner) extra))
          × (nth_mut t (state inner extra) k
              ≡ next t (state (range_unchecked t (range_to (n - w * k % 2 ^ 64)) inner) extra))
    unfolding nth nth_mut
    nth-next n k inner extra e p q = (rw (e, p, q) refl, rw (e, p, q) refl)

    -- For a state that has `n` bits left, from bit `a` of the slice on, at least `k + 1` widths:
    -- `nth(k)` gives `None` for `k = 0`, and the last piece for every other `k`, while `nth(k)`
    -- of the iterator over `&mut` gives the piece that ends `k` widths before the end.
    pub nth-IsView :
        (a n k : ℕ) (inner extra : BitPtr)
        → IsView t s a n inner
        → suc k * w ≤ n
        → (k ≡ 0 → (left : BitPtr) × (nth t (state inner extra) k ≡ ok (none, state left extra)))
          × (0 < k
              → (c left : BitPtr) × (nth t (state inner extra) k ≡ ok (some c, state left extra))
                × IsView t s (a + (n - w)) w c)
          × ((c left : BitPtr) × (nth_mut t (state inner extra) k ≡ ok (some c, state left extra))
              × IsView t s (a + (n - suc k * w)) w c)
    nth-IsView a n k inner extra v l =
        let fits = (parts-IsRegion t inner v.slice.words).fits in
        let total : suc k * w ≡ k * w + w = suc-mul k w in
        let small : w * k < 2 ^ 64 = omega (arith, fits, v.length, mul_comm w k) in
        let start : w * k % 2 ^ 64 ≡ k * w = mod-eq_of_lt small ∙ mul_comm w k in
        let in_range : leb n (w * k % 2 ^ 64) ≡ false = ground (arith, start) in
        let no_overflow : leb (2 ^ 64) (w * k) ≡ false = ground arith in
        let x = w * k % 2 ^ 64 in
        let step = nth-next n k inner extra (len-view t s a n inner v) in_range no_overflow in
        let behind =
          range_unchecked-IsView_in t s a n inner v (range_from (n - x)) (omega arith)
            (omega arith) in
        let before =
          range_unchecked-IsView_in t s a n inner v (range_to (n - x)) (omega arith)
            (omega arith) in
        (
          λ z.
              let none_left : x ≡ 0 = start ∙ ap (λ j. j * w) z ∙ zero-mul w in
              (
                Pointer.empty,
                step.0
                    ∙ (next-none (a + (n - x)) (n - (n - x)) _ extra behind
                        (omega (arith, none_left))),
              ),
          λ p.
              let many : w ≤ x = subst (λ y. w ≤ y) (sym start) (multiple-le k p) in
              let (c, rest, e, tail, left) =
                next-some (a + (n - x)) (n - (n - x)) _ extra behind (omega (arith, start)) in
              (c, rest, step.0 ∙ e, subst (λ b. IsView t s b w c) (omega (arith, start)) tail),
          let (c, rest, e, tail, left) =
                next-some (a + 0) (n - x - 0) _ extra before (omega (arith, start)) in
              (c, rest, step.1 ∙ e, subst (λ b. IsView t s b w c) (omega (arith, start)) tail),
        )
