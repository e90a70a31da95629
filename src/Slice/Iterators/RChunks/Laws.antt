-- ===== src/Slice/Iterators/RChunks/Laws.antt =====
-- The pieces that `RChunks` gives, from the back.
use bitvec_sgx.Base.{
  ℕ, zero, suc, ◌+◌, ◌-◌, ◌<◌, ◌≡◌, refl, sym, ◌∙◌, ap, arith, min, subst, ne→not_==, ==_cases, inl,
  inr, none, some, ok,
}
use bitvec_sgx.Store.{BitStore}
use bitvec_sgx.Pointer.{BitPtr, len_of}
use bitvec_sgx.Slice.Locate.{IsSlice}
use bitvec_sgx.Slice.Ranges.Views.{IsView, whole-IsView}
use bitvec_sgx.Slice.Ranges.Nested.{len-view, split_at-IsView_parts}
use bitvec_sgx.Slice.Iterators.{count, pieces}
use bitvec_sgx.Slice.Iterators.Drain.{Ends, ends_now, ends_later, Ends-as}
use bitvec_sgx.Slice.Iterators.Tiles.{BackTiles, BackTiles-count}
use bitvec_sgx.Slice.Iterators.RChunks.{RChunks, rchunks, next, size_hint}

module _ (t : BitStore) (s : BitPtr) (w : ℕ) (h : 0 < w) where
  abbrev state : BitPtr → RChunks
  state inner = record { inner = inner; width = w }

  next-none :
      (a : ℕ) (inner : BitPtr)
      → IsView t s a 0 inner
      → next t (state inner) ≡ ok (none, state inner)
  unfolding next
  next-none a inner v = rw (len-view t s a 0 inner v) refl

  -- One piece is taken from the back.
  next-some :
      (a n : ℕ) (inner : BitPtr)
      → IsView t s a n inner
      → 0 < n
      → (c rest : BitPtr) × (next t (state inner) ≡ ok (some c, state rest))
        × IsView t s (a + (n - min n w)) (min n w) c
        × IsView t s a (n - min n w) rest
  unfolding next
  next-some a n inner v p =
      let (parts, e, front, back) =
        split_at-IsView_parts t s a n inner v (n - min n w) (omega arith) in
      let size : n - (n - min n w) ≡ min n w = omega arith in
      (
        parts.1,
        parts.0,
        rw (len-view t s a n inner v, ne→not_== n 0 (omega arith), e) refl,
        subst (λ k. IsView t s (a + (n - min n w)) k parts.1) size back,
        front,
      )

  next-Tiles :
      (fuel a n : ℕ) (inner : BitPtr)
      → IsView t s a n inner
      → n < fuel
      → Ends (next t) fuel (state inner) (BackTiles t s w a n)
  next-Tiles zero a n inner v p = absurd (omega arith)
  next-Tiles (suc fuel) a n inner v p = elim (==_cases n 0) [
    | inl z ↦
        ends_now (next t) fuel (state inner) (state inner) _
          (next-none a inner (subst (λ n. IsView t s a n inner) z v)) z
    | inr nz ↦
        let (c, rest, e, back, front) = next-some a n inner v (omega arith) in
        ends_later (next t) fuel (state inner) (state rest) c _ _ e
          (next-Tiles fuel a (n - min n w) rest front (omega arith))
          (λ cs tiles. (omega arith, back, tiles))
  ]

  -- For a slice inside the address space and a width of at least one: `rchunks` gives an iterator
  -- whose calls of `next`, at most `len + 1` of them, do not panic and yield views of the slice,
  -- from its last bit back, each of `width` bits but the last one, that cover it. There are as
  -- many as `size_hint` announces.
  pub rchunks-Tiles :
      IsSlice t s
      → (c : RChunks) × (rchunks t s w ≡ ok c)
        × Ends (next t) (suc (len_of t s)) c (λ cs.
          BackTiles t s w 0 (len_of t s) cs × (size_hint t c ≡ (count cs, some (count cs))))
  unfolding rchunks size_hint
  rchunks-Tiles v =
      let whole = whole-IsView t s v in
      (
        state s,
        rw (ne→not_== w 0 (omega arith)) refl,
        Ends-as (next t) (suc (len_of t s)) (state s) _ _
            (next-Tiles (suc (len_of t s)) 0 (len_of t s) s whole (omega arith))
            (λ cs tiles. (
              tiles,
              ap (λ k. (k, some k))
                  (ap (pieces w) (len-view t s 0 (len_of t s) s whole)
                    ∙ sym (BackTiles-count t s w h 0 (len_of t s) cs tiles)),
            )),
      )
