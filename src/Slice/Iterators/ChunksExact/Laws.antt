-- ===== src/Slice/Iterators/ChunksExact/Laws.antt =====
-- The pieces that `ChunksExact` gives, and the remainder.
use bitvec_sgx.Base.{
  lt→ltb, ℕ, zero, suc, ◌+◌, ◌-◌, ◌*◌, ◌/◌, ◌%◌, ◌≤◌, lt→ltb, ◌<◌, ◌≡◌, refl, sym, ◌∙◌, ap, arith,
  min, ltb, subst, ne→not_==, false, none, some, ok,
}
use native.Mathlib.Nat.{suc-mul, zero-mul}
use native.Mathlib.Nat.{div-add-mod', zero-mul, suc-mul, mul-div_left}
use bitvec_sgx.Store.{BitStore}
use bitvec_sgx.Pointer
use bitvec_sgx.Pointer.{BitPtr, len_of}
use bitvec_sgx.Slice.Locate.{IsSlice}
use bitvec_sgx.Slice.Ranges.Views.{IsView, whole-IsView}
use bitvec_sgx.Slice.Ranges.Nested.{len-view, split_at-IsView_parts}
use bitvec_sgx.Slice.Iterators.{count}
use bitvec_sgx.Slice.Iterators.Drain.{Ends, ends_now, ends_later, Ends-as}
use bitvec_sgx.Slice.Iterators.Tiles.{FrontTiles}
use bitvec_sgx.Slice.Iterators.ChunksExact.{ChunksExact, chunks_exact, next, size_hint}

module _ (t : BitStore) (s : BitPtr) (w : ℕ) (h : 0 < w) where
  abbrev state : BitPtr → BitPtr → ChunksExact
  state inner extra = record { inner = inner; extra = extra; width = w }

  pub next-none :
      (a n : ℕ) (inner extra : BitPtr)
      → IsView t s a n inner
      → n < w
      → next t (state inner extra) ≡ ok (none, state Pointer.empty extra)
  unfolding next
  next-none a n inner extra v l = rw (len-view t s a n inner v, lt→ltb n w l) refl

  -- One piece is taken from the front.
  next-some :
      (a n : ℕ) (inner extra : BitPtr)
      → IsView t s a n inner
      → w ≤ n
      → (c rest : BitPtr) × (next t (state inner extra) ≡ ok (some c, state rest extra))
        × IsView t s a w c
        × IsView t s (a + w) (n - w) rest
  unfolding next
  next-some a n inner extra v l =
      let (parts, e, front, back) = split_at-IsView_parts t s a n inner v w l in
      let enough : ltb n w ≡ false = ground arith in
      (parts.0, parts.1, rw (len-view t s a n inner v, enough, e) refl, front, back)

  next-Tiles :
      (fuel q a n : ℕ) (inner extra : BitPtr)
      → IsView t s a n inner
      → n ≡ q * w
      → q < fuel
      → Ends (next t) fuel (state inner extra) (λ cs. FrontTiles t s w a n cs × (count cs ≡ q))
  next-Tiles zero q a n inner extra v m p = absurd (omega arith)
  next-Tiles (suc fuel) zero a n inner extra v m p =
      let none_left : n ≡ 0 = m ∙ zero-mul w in
      ends_now (next t) fuel (state inner extra) (state Pointer.empty extra) _
        (next-none a n inner extra v (omega arith)) (none_left, refl)
  next-Tiles (suc fuel) (suc q) a n inner extra v m p =
      let total : n ≡ q * w + w = m ∙ suc-mul q w in
      let (c, rest, e, front, back) = next-some a n inner extra v (omega arith) in
      let size : min n w ≡ w = omega arith in
      ends_later (next t) fuel (state inner extra) (state rest extra) c _ _ e
        (next-Tiles fuel q (a + w) (n - w) rest extra back (omega arith) (omega arith))
        (λ cs tiles. (rw size (omega arith, front, tiles.0), ap suc tiles.1))

  -- For a slice inside the address space and a width of at least one: `chunks_exact` gives an
  -- iterator whose calls of `next` do not panic and yield `len / width` views, as `size_hint`
  -- announces, each of `width` bits, in order from the slice's first bit; its `remainder` is the
  -- view of the `len % width` bits behind them.
  pub chunks_exact-Tiles :
      IsSlice t s
      → (c : ChunksExact) × (chunks_exact t s w ≡ ok c)
        × Ends (next t) (suc (len_of t s / w)) c (λ cs.
          FrontTiles t s w 0 (len_of t s / w * w) cs
          × (size_hint t c ≡ (count cs, some (count cs))))
        × IsView t s (len_of t s / w * w) (len_of t s % w) c.extra
  unfolding chunks_exact size_hint
  chunks_exact-Tiles v =
      let n = len_of t s in
      let whole = whole-IsView t s v in
      let kept : n - n % w ≡ n / w * w = omega (arith, div-add-mod' n w) in
      let over : n - (n - n % w) ≡ n % w = omega (arith, div-add-mod' n w) in
      let (parts, e, front, back) =
        split_at-IsView_parts t s 0 n s whole (n - n % w) (omega arith) in
      let inner : IsView t s 0 (n / w * w) parts.0 =
        subst (λ k. IsView t s 0 k parts.0) kept front in
      (
        state parts.0 parts.1,
        rw (ne→not_== w 0 (omega arith), len-view t s 0 n s whole, e) refl,
        Ends-as (next t) (suc (n / w)) (state parts.0 parts.1) _ _
            (next-Tiles (suc (n / w)) (n / w) 0 (n / w * w) parts.0 parts.1 inner refl
              (omega arith))
            (λ cs tiles. (
              tiles.0,
              ap (λ k. (k, some k))
                  (ap (λ k. k / w) (len-view t s 0 (n / w * w) parts.0 inner)
                    ∙ mul-div_left (n / w) h
                    ∙ sym tiles.1),
            )),
        subst (λ k. IsView t s (n / w * w) k parts.1) over
            (subst (λ b. IsView t s b (n - (n - n % w)) parts.1) (omega (arith, kept)) back),
      )
