-- ===== src/Slice/Iterators/Iter/Laws.antt =====
-- The bits that `Iter` gives, from the front and from the back.
use bitvec_sgx.Base.{
  ℕ, zero, suc, ◌+◌, ◌-◌, ◌≤◌, ◌<◌, ◌≡◌, refl, ◌∙◌, ap, arith, subst, Bool, ==_cases, inl, inr,
  none, some, ok, List, [], ◌∷◌,
}
use bitvec_sgx.Slice.Ranges.{range_from, range_unchecked}
use native.Mathlib.Nat.{add-zero, zero-add}
use bitvec_sgx.Store.{BitStore}
use bitvec_sgx.Pointer
use bitvec_sgx.Pointer.{BitPtr, len_of}
use bitvec_sgx.Slice.Locate.{IsSlice}
use bitvec_sgx.Slice.Ranges.Views.{IsView, empty-IsView, whole-IsView}
use bitvec_sgx.Slice.Ranges.Nested.{len-view, range_unchecked-IsView_in}
use bitvec_sgx.Slice.Iterators.Drain.{Ends, ends_now, ends_later}
use bitvec_sgx.Order.{BitOrder}
use bitvec_sgx.Access.{Radium}
use bitvec_sgx.Memory.{Memory}
use bitvec_sgx.Slice.{get_unchecked, is_empty}
use bitvec_sgx.Slice.Ranges.{split_first, split_last, range_from, range_get, range_unchecked}
use bitvec_sgx.Slice.Ranges.Nested.{IsView-trans}
use bitvec_sgx.Slice.Ranges.Views.{get_unchecked-view, len_of-bitptr}
use bitvec_sgx.Slice.Ranges.Splits.{split_first-some, split_last-some, range_get_in, range_get-none}
use bitvec_sgx.Slice.Iterators.Iter.{next, next_back, nth, size_hint}

module _ (r : Radium) (o : BitOrder) (t : BitStore) (m : Memory) (s : BitPtr) where
  -- The `n` bits from bit `a` on, in order and from the last one back.
  abbrev pub bits_from : ℕ → ℕ → List Bool
  bits_from a zero = []
  bits_from a (suc n) = get_unchecked r o t m s a ∷ bits_from (a + 1) n

  abbrev pub bits_back : ℕ → List Bool
  bits_back zero = []
  bits_back (suc n) = get_unchecked r o t m s n ∷ bits_back n

  next-none :
      (a : ℕ) (inner : BitPtr)
      → IsView t s a 0 inner
      → (next r o t m inner ≡ ok (none, inner)) × (next_back r o t m inner ≡ ok (none, inner))
  unfolding next next_back split_first split_last is_empty
  next-none a inner v =
      (rw (len_of-bitptr t inner, v.length) refl, rw (len-view t s a 0 inner v) refl)

  next-some :
      (a n : ℕ) (inner : BitPtr)
      → IsView t s a (suc n) inner
      → (rest : BitPtr) × (next r o t m inner ≡ ok (some (get_unchecked r o t m s a), rest))
        × IsView t s (a + 1) n rest
  unfolding next
  next-some a n inner v =
      let (rest, e, after) = split_first-some t inner v.slice r o m (omega (arith, v.length)) in
      (
        rest,
        rw e (
            ap (λ b. ok (some b, rest))
              (get_unchecked-view r o t m v 0 (omega arith)
                ∙ ap (λ i. get_unchecked r o t m s i) (add-zero a))),
        IsView-trans t s a (suc n) inner v 1 n rest (omega arith)
            (subst (λ k. IsView t inner 1 k rest) (omega (arith, v.length)) after),
      )

  next_back-some :
      (n : ℕ) (inner : BitPtr)
      → IsView t s 0 (suc n) inner
      → (rest : BitPtr) × (next_back r o t m inner ≡ ok (some (get_unchecked r o t m s n), rest))
        × IsView t s 0 n rest
  unfolding next_back
  next_back-some n inner v =
      let (rest, e, before) = split_last-some t inner v.slice r o m (omega (arith, v.length)) in
      (
        rest,
        rw e (
            ap (λ b. ok (some b, rest))
              (ap (λ i. get_unchecked r o t m inner i) (omega (arith, v.length))
                ∙ get_unchecked-view r o t m v n (omega arith)
                ∙ ap (λ i. get_unchecked r o t m s i) (zero-add n))),
        IsView-trans t s 0 (suc n) inner v 0 n rest (omega arith)
            (subst (λ k. IsView t inner 0 k rest) (omega (arith, v.length)) before),
      )

  next-bits :
      (n a : ℕ) (inner : BitPtr)
      → IsView t s a n inner
      → Ends (next r o t m) (suc n) inner (λ bits. bits ≡ bits_from a n)
  next-bits zero a inner v = ends_now (next r o t m) 0 inner inner _ (next-none a inner v).0 refl
  next-bits (suc n) a inner v =
      let (rest, e, after) = next-some a n inner v in
      ends_later (next r o t m) (suc n) inner rest (get_unchecked r o t m s a) _ _ e
        (next-bits n (a + 1) rest after) (λ bits same. ap (λ l. get_unchecked r o t m s a ∷ l) same)

  next_back-bits :
      (n : ℕ) (inner : BitPtr)
      → IsView t s 0 n inner
      → Ends (next_back r o t m) (suc n) inner (λ bits. bits ≡ bits_back n)
  next_back-bits zero inner v =
      ends_now (next_back r o t m) 0 inner inner _ (next-none 0 inner v).1 refl
  next_back-bits (suc n) inner v =
      let (rest, e, before) = next_back-some n inner v in
      ends_later (next_back r o t m) (suc n) inner rest (get_unchecked r o t m s n) _ _ e
        (next_back-bits n rest before) (λ bits same. ap (λ l. get_unchecked r o t m s n ∷ l) same)

  -- For a slice inside the address space, `len + 1` calls of `next` do not panic and give its bits
  -- in order; those of `next_back` give them from the last one back; and `size_hint` is their
  -- number.
  pub iter-bits :
      IsSlice t s
      → Ends (next r o t m) (suc (len_of t s)) s (λ bits. bits ≡ bits_from 0 (len_of t s))
        × Ends (next_back r o t m) (suc (len_of t s)) s (λ bits. bits ≡ bits_back (len_of t s))
        × (size_hint t s ≡ (len_of t s, some (len_of t s)))
  unfolding size_hint
  iter-bits v =
      let whole = whole-IsView t s v in
      (
        next-bits (len_of t s) 0 s whole,
        next_back-bits (len_of t s) s whole,
        rw (len-view t s 0 (len_of t s) s whole) refl,
      )

  -- For a state that views the bits of the slice from bit `a` on: `nth(k)` gives the bit `k` places
  -- further and leaves those behind it; where there are at most `k` bits, it gives `None` and
  -- leaves nothing.
  pub nth-bit :
      (a n k : ℕ) (inner : BitPtr)
      → IsView t s a n inner
      → (k < n
          → (rest : BitPtr) × (nth r o t m inner k
              ≡ ok (some (get_unchecked r o t m s (a + k)), rest))
            × IsView t s (a + k + 1) (n - k - 1) rest)
        × (n ≤ k → (rest : BitPtr) × (nth r o t m inner k ≡ ok (none, rest)) × (len_of t rest ≡ 0))
  unfolding nth
  nth-bit a n k inner v =
      let after : k ≤ n → IsView t s (a + k) (n - k) (range_unchecked t (range_from k) inner) =
        λ h. range_unchecked-IsView_in t s a n inner v (range_from k) h (omega arith) in
      let found : k ≤ n
          → range_get t (range_from k) inner ≡ some (range_unchecked t (range_from k) inner) =
        λ h. range_get_in t inner v.slice (range_from k) (omega (arith, v.length)) (omega arith) in
      (
        λ l.
            let more : n - k ≡ suc (n - k - 1) = omega arith in
            let (rest, e, behind) =
              next-some (a + k) (n - k - 1) (range_unchecked t (range_from k) inner) (
                subst (λ x. IsView t s (a + k) x (range_unchecked t (range_from k) inner)) more
                  (after (omega arith))) in
            (rest, rw (found (omega arith), nth) e, behind),
        λ l. elim (==_cases n k) [
          | inl same ↦
              let none_left : IsView t s (a + k) 0 (range_unchecked t (range_from k) inner) =
                subst (λ x. IsView t s (a + k) x (range_unchecked t (range_from k) inner))
                  (omega arith) (after (omega arith)) in
              (
                range_unchecked t (range_from k) inner,
                rw (found (omega arith), nth) (next-none (a + k) _ none_left).0,
                none_left.length,
              )
          | inr other ↦ (
            Pointer.empty,
            rw (range_get-none t inner v.slice (range_from k) (inl (omega (arith, v.length))), nth)
                refl,
            (empty-IsView t s 0).length,
          )
        ],
      )
