-- ===== src/Slice/Iterators/Chunks/Laws.antt =====
-- The pieces that `Chunks` gives, from the front.
use bitvec_sgx.Base.{
  ℕ, zero, suc, ◌+◌, ◌-◌, ◌*◌, ◌%◌, ◌^◌, ◌≤◌, ◌<◌, ◌≡◌, refl, sym, ◌∙◌, ap, arith, min, leb, subst,
  ne→not_==, true, false, Bool-cases, ==_cases, inl, inr, none, some, ok,
}
use native.Mathlib.Nat.{mod-eq_of_lt, mul_comm}
use bitvec_sgx.Pointer.Encoding.{parts-IsRegion}
use bitvec_sgx.Slice.Ranges.{range_from}
use bitvec_sgx.Store.{BitStore}
use bitvec_sgx.Pointer
use bitvec_sgx.Pointer.{BitPtr, len_of}
use bitvec_sgx.Slice.Locate.{IsSlice}
use bitvec_sgx.Slice.Ranges.Views.{IsView, empty-IsView, whole-IsView}
use bitvec_sgx.Slice.Ranges.Nested.{len-view, split_at-IsView_parts, range_unchecked-IsView_in}
use bitvec_sgx.Slice.Iterators.{count, pieces}
use bitvec_sgx.Slice.Iterators.Drain.{Ends, ends_now, ends_later, Ends-as}
use bitvec_sgx.Slice.Iterators.Tiles.{FrontTiles, FrontTiles-count}
use bitvec_sgx.Slice.Iterators.Chunks.{Chunks, chunks, next, nth, size_hint}

module _ (t : BitStore) (s : BitPtr) (w : ℕ) (h : 0 < w) where
  abbrev state : BitPtr → Chunks
  state inner = record { inner = inner; width = w }

  next-none :
      (a : ℕ) (inner : BitPtr)
      → IsView t s a 0 inner
      → next t (state inner) ≡ ok (none, state inner)
  unfolding next
  next-none a inner v = rw (len-view t s a 0 inner v) refl

  -- One piece is taken from the front.
  next-some :
      (a n : ℕ) (inner : BitPtr)
      → IsView t s a n inner
      → 0 < n
      → (c rest : BitPtr) × (next t (state inner) ≡ ok (some c, state rest))
        × IsView t s a (min n w) c
        × IsView t s (a + min n w) (n - min n w) rest
  unfolding next
  next-some a n inner v p = elim (Bool-cases (leb n w)) [
    | inl last ↦
        let all : min n w ≡ n = ground arith in
        (
          inner,
          Pointer.empty,
          rw (len-view t s a n inner v, ne→not_== n 0 (omega arith), last) refl,
          rw all v,
          subst (λ k. IsView t s (a + min n w) k Pointer.empty) (omega arith)
              (empty-IsView t s (a + min n w)),
        )
    | inr more ↦
        let all : min n w ≡ w = ground arith in
        let (parts, e, front, back) = split_at-IsView_parts t s a n inner v w (ground arith) in
        (
          parts.0,
          parts.1,
          rw (len-view t s a n inner v, ne→not_== n 0 (omega arith), more, e) refl,
          rw all front,
          rw all back,
        )
  ]

  next-Tiles :
      (fuel a n : ℕ) (inner : BitPtr)
      → IsView t s a n inner
      → n < fuel
      → Ends (next t) fuel (state inner) (FrontTiles t s w a n)
  next-Tiles zero a n inner v p = absurd (omega arith)
  next-Tiles (suc fuel) a n inner v p = elim (==_cases n 0) [
    | inl z ↦
        ends_now (next t) fuel (state inner) (state inner) _
          (next-none a inner (subst (λ n. IsView t s a n inner) z v)) z
    | inr nz ↦
        let (c, rest, e, front, back) = next-some a n inner v (omega arith) in
        ends_later (next t) fuel (state inner) (state rest) c _ _ e
          (next-Tiles fuel (a + min n w) (n - min n w) rest back (omega arith))
          (λ cs tiles. (omega arith, front, tiles))
  ]

  -- For a slice inside the address space and a width of at least one: `chunks` gives an iterator
  -- whose calls of `next`, at most `len + 1` of them, do not panic and yield views of the slice, in
  -- order from its first bit, each of `width` bits but the last one, that cover it. There are as
  -- many as `size_hint` announces.
  pub chunks-Tiles :
      IsSlice t s
      → (c : Chunks) × (chunks t s w ≡ ok c)
        × Ends (next t) (suc (len_of t s)) c (λ cs.
          FrontTiles t s w 0 (len_of t s) cs × (size_hint t c ≡ (count cs, some (count cs))))
  unfolding chunks size_hint
  chunks-Tiles v =
      let whole = whole-IsView t s v in
      (
        state s,
        rw (ne→not_== w 0 (omega arith)) refl,
        Ends-as (next t) (suc (len_of t s)) (state s) _ _
            (next-Tiles (suc (len_of t s)) 0 (len_of t s) s whole (omega arith))
            (λ cs tiles. (
              tiles,
              ap (λ k. (k, some k))
                  (ap (pieces w) (len-view t s 0 (len_of t s) s whole)
                    ∙ sym (FrontTiles-count t s w h 0 (len_of t s) cs tiles)),
            )),
      )

  -- The multiplication of `nth` does not wrap where its result is below the length.
  start_in : (a n k : ℕ) (inner : BitPtr) → IsView t s a n inner → k * w < n → w * k < 2 ^ 64
  start_in a n k inner v l =
      omega (arith, (parts-IsRegion t inner v.slice.words).fits, v.length, mul_comm w k)

  -- For a state that has `n` bits left, from bit `a` of the slice on: `nth(k)` gives the piece
  -- that starts `k` widths further, and leaves the bits behind it; where these widths reach the
  -- end, it gives `None` and leaves nothing.
  pub nth-IsView :
      (a n k : ℕ) (inner : BitPtr)
      → IsView t s a n inner
      → (k * w < n
          → (c rest : BitPtr) × (nth t (state inner) k ≡ ok (some c, state rest))
            × IsView t s (a + k * w) (min (n - k * w) w) c
            × IsView t s (a + k * w + min (n - k * w) w) (n - k * w - min (n - k * w) w) rest)
        × (n ≤ k * w → nth t (state inner) k ≡ ok (none, state Pointer.empty))
  unfolding nth
  nth-IsView a n k inner v = (
    λ l.
        let start : w * k % 2 ^ 64 ≡ k * w =
          mod-eq_of_lt (start_in a n k inner v l) ∙ mul_comm w k in
        let in_range : leb n (w * k % 2 ^ 64) ≡ false = ground (arith, start) in
        let no_overflow : leb (2 ^ 64) (w * k) ≡ false = ground (arith, start_in a n k inner v l) in
        let after =
          range_unchecked-IsView_in t s a n inner v (range_from (w * k % 2 ^ 64))
            (omega (arith, start)) (omega arith) in
        let (c, rest, e, front, back) =
          next-some (a + w * k % 2 ^ 64) (n - w * k % 2 ^ 64) _ after (omega (arith, start)) in
        subst
          (λ x.
            (c rest : BitPtr) × (nth t (state inner) k ≡ ok (some c, state rest))
            × IsView t s (a + x) (min (n - x) w) c
            × IsView t s (a + x + min (n - x) w) (n - x - min (n - x) w) rest)
          start (c, rest, rw (len-view t s a n inner v, in_range, no_overflow) e, front, back),
    λ l. elim (Bool-cases (leb (2 ^ 64) (w * k))) [
      | inl over ↦ rw (len-view t s a n inner v, over) (ground arith)
      | inr fits ↦
          let start : w * k % 2 ^ 64 ≡ k * w = mod-eq_of_lt (ground arith) ∙ mul_comm w k in
          let out : leb n (w * k % 2 ^ 64) ≡ true = ground (arith, start) in
          rw (len-view t s a n inner v, out) refl
    ],
  )
