-- ===== src/Slice/Iterators/Windows/Laws.antt =====
-- The views that `Windows` gives, by `next`.
use bitvec_sgx.Base.{
  lt→ltb, ℕ, zero, suc, ◌+◌, ◌-◌, ◌≤◌, ◌<◌, ◌≡◌, refl, arith, ltb, ne→not_==, if◌then◌else◌, false,
  Bool-cases, inl, inr, none, some, ok, List, [], ◌∷◌,
}
use bitvec_sgx.Slice.Ranges.{range_from, range_unchecked}
use bitvec_sgx.Store.{BitStore}
use bitvec_sgx.Pointer
use bitvec_sgx.Pointer.{BitPtr, len_of}
use bitvec_sgx.Slice.Locate.{IsSlice}
use bitvec_sgx.Slice.Ranges.Views.{IsView, whole-IsView}
use bitvec_sgx.Slice.Ranges.Nested.{len-view, range_to-IsView, range_unchecked-IsView_in}
use bitvec_sgx.Slice.Iterators.{count}
use bitvec_sgx.Slice.Iterators.Drain.{Ends, ends_now, ends_later, Ends-as}
use bitvec_sgx.Slice.Ranges.{range_to, range_from, range_unchecked}
use bitvec_sgx.Slice.Iterators.Windows.{Windows, windows, next, size_hint}

module _ (t : BitStore) (s : BitPtr) (w : ℕ) where
  abbrev pub state : BitPtr → Windows
  state inner = record { inner = inner; width = w }

  -- The views of `w` bits at each bit of the `n` bits from `a` on.
  abbrev pub AllWindows : ℕ → ℕ → List BitPtr → Type 0
  AllWindows a n [] = n < w
  AllWindows a n (c ∷ cs) = (w ≤ n) × IsView t s a w c × AllWindows (a + 1) (n - 1) cs

  module _ (h : 0 < w) where
    pub AllWindows-count :
        (a n : ℕ) (cs : List BitPtr)
        → AllWindows a n cs
        → count cs ≡ (if ltb n w then 0 else n - w + 1)
    AllWindows-count a n [] l = ground arith
    AllWindows-count a n (c ∷ cs) (l, v, rest) =
        ground (arith, AllWindows-count (a + 1) (n - 1) cs rest)

    pub next-none :
        (a n : ℕ) (inner : BitPtr)
        → IsView t s a n inner
        → n < w
        → next t (state inner) ≡ ok (none, state Pointer.empty)
    unfolding next
    next-none a n inner v l = rw (len-view t s a n inner v, lt→ltb n w l) refl

    pub next-some :
        (a n : ℕ) (inner : BitPtr)
        → IsView t s a n inner
        → w ≤ n
        → (c rest : BitPtr) × (next t (state inner) ≡ ok (some c, state rest))
          × IsView t s a w c
          × IsView t s (a + 1) (n - 1) rest
    unfolding next
    next-some a n inner v l =
        let enough : ltb n w ≡ false = ground arith in
        (
          range_unchecked t (range_to w) inner,
          range_unchecked t (range_from 1) inner,
          rw (len-view t s a n inner v, enough) refl,
          range_to-IsView t s a n inner v w l,
          range_unchecked-IsView_in t s a n inner v (range_from 1) (omega arith) (omega arith),
        )

    pub next-AllWindows :
        (fuel a n : ℕ) (inner : BitPtr)
        → IsView t s a n inner
        → n < fuel
        → Ends (next t) fuel (state inner) (AllWindows a n)
    next-AllWindows zero a n inner v p = absurd (omega arith)
    next-AllWindows (suc fuel) a n inner v p = elim (Bool-cases (ltb n w)) [
      | inl short ↦
          ends_now (next t) fuel (state inner) (state Pointer.empty) _
            (next-none a n inner v (ground arith)) (ground arith)
      | inr long ↦
          let enough : w ≤ n = ground arith in
          let (c, rest, e, front, back) = next-some a n inner v enough in
          ends_later (next t) fuel (state inner) (state rest) c _ _ e
            (next-AllWindows fuel (a + 1) (n - 1) rest back (omega arith))
            (λ cs all. (enough, front, all))
    ]

    -- For a slice inside the address space and a width of at least one: `windows` gives an iterator
    -- whose calls of `next` do not panic and yield, in order, the views of `width` bits at every bit
    -- that has so many from it on, as many as `size_hint` announces.
    pub windows-AllWindows :
        IsSlice t s
        → (c : Windows) × (windows t s w ≡ ok c)
          × Ends
              (next t)
              (suc (len_of t s))
              c
              (λ cs. AllWindows 0 (len_of t s) cs × (size_hint t c ≡ (count cs, some (count cs))))
    unfolding windows size_hint
    windows-AllWindows v =
        let n = len_of t s in
        let whole = whole-IsView t s v in
        (
          state s,
          rw (ne→not_== w 0 (omega arith)) refl,
          Ends-as (next t) (suc n) (state s) _ _ (next-AllWindows (suc n) 0 n s whole (omega arith))
              (λ cs all.
                (all, ground (arith, len-view t s 0 n s whole, AllWindows-count 0 n cs all))),
        )
