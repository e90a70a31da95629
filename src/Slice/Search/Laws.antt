-- ===== src/Slice/Search/Laws.antt =====
-- `contains` and `starts_with` against a search bit by bit.
use bitvec_sgx.Base.{
  ℕ, zero, suc, ◌+◌, ◌-◌, ◌≤◌, ◌<◌, ◌≡◌, refl, ◌∙◌, ap, ap₂, arith, subst, min, Bool, true, false,
  Bool-cases, ne→not_==, inl, inr, ltb, leb, ◌==◌, ◌&&◌, some, ok, panic, all_range, any_range,
}
use native.Mathlib.Nat.{zero-add}
use bitvec_sgx.Store.{BitStore}
use bitvec_sgx.Order.{BitOrder}
use bitvec_sgx.Access.{Radium}
use bitvec_sgx.Pointer.{BitPtr, len_of}
use bitvec_sgx.Memory.{Memory}
use bitvec_sgx.Slice.{len, get_unchecked}
use bitvec_sgx.Slice.Locate.{IsSlice, len-eq-len_of}
use bitvec_sgx.Slice.Ranges.{range_from, range_to, range_unchecked}
use bitvec_sgx.Slice.Ranges.Views.{IsView, whole-IsView, get_unchecked-view}
use bitvec_sgx.Slice.Ranges.Nested.{range_to-IsView, range_unchecked-IsView_in}
use bitvec_sgx.Slice.Compare.{eq, same_bit}
use bitvec_sgx.Slice.Iterators.Windows.{windows}
use bitvec_sgx.Slice.Iterators.Windows.Laws.{state, next-some, next-none}
use bitvec_sgx.Slice.Search.{any_window, contains, starts_with, ends_with}

all_range-ext :
    (n k : ℕ) (f g : ℕ → Bool)
    → ((i : ℕ) → k ≤ i → i < k + n → f i ≡ g i)
    → all_range n k f ≡ all_range n k g
unfolding all_range
all_range-ext zero k f g e = refl
all_range-ext (suc n) k f g e =
    ap₂ (λ a b. a && b) (e k (omega arith) (omega arith))
      (all_range-ext n (suc k) f g (λ i p q. e i (omega arith) (omega arith)))

module _ (r : Radium) (o : BitOrder) (t : BitStore) (m : Memory) (s : BitPtr) (p : BitOrder)
    (u : BitStore) (from : Memory) (query : BitPtr) where
  -- The query's bits stand in the slice from bit `a` on.
  unfoldable pub occurs : ℕ → Bool
  unfolding all_range
  occurs a =
      all_range (len_of u query) 0
        (λ i. same_bit (get_unchecked r o t m s (a + i)) (get_unchecked r p u from query i))

  same_bit_comm : (a b : Bool) → same_bit a b ≡ same_bit b a
  same_bit_comm a b = ground arith

  eq-occurs :
      (a : ℕ) (window : BitPtr)
      → IsView t s a (len_of u query) window
      → eq r o t p u m window from query ≡ occurs a
  unfolding eq occurs
  eq-occurs a window v =
      rw (len-eq-len_of t window, len-eq-len_of u query, v.length)
        (let k = len_of u query in
          let self : (k == k) ≡ true = ground arith in
          let all : min k k ≡ k = omega arith in
          rw (self, all)
            (all_range-ext k 0 _ _ (λ i b l.
              ap (λ c. same_bit c (get_unchecked r p u from query i))
                (get_unchecked-view r o t m v i (omega arith)))))

  occurs-eq :
      (a : ℕ) (window : BitPtr)
      → IsView t s a (len_of u query) window
      → eq r p u o t from query m window ≡ occurs a
  unfolding eq occurs
  occurs-eq a window v =
      rw (len-eq-len_of t window, len-eq-len_of u query, v.length)
        (let k = len_of u query in
          let self : (k == k) ≡ true = ground arith in
          let all : min k k ≡ k = omega arith in
          rw (self, all)
            (all_range-ext k 0 _ _ (λ i b l.
              same_bit_comm (get_unchecked r p u from query i) (get_unchecked r o t m window i)
              ∙ ap (λ c. same_bit c (get_unchecked r p u from query i))
                  (get_unchecked-view r o t m v i (omega arith)))))

  windows-any :
      (fuel a n : ℕ) (inner : BitPtr) (h : 0 < len_of u query)
      → IsView t s a n inner
      → n < fuel
      → any_window r o t m s p u from query fuel (state t s (len_of u query) inner)
        ≡ some (ok (any_range (suc n - len_of u query) a occurs))
  unfolding any_window any_range
  windows-any zero a n inner h v l = absurd (omega arith)
  windows-any (suc fuel) a n inner h v l =
      let k = len_of u query in
      elim (Bool-cases (ltb n k)) [
        | inl short ↦
            let none_left : suc n - k ≡ 0 = ground arith in
            rw (any_window, next-none t s k h a n inner v (ground arith), none_left) refl
        | inr long ↦
            let (c, rest, e, front, back) = next-some t s k h a n inner v (ground arith) in
            let more : suc n - k ≡ suc (suc (n - 1) - k) = ground arith in
            let next_place : a + 1 ≡ suc a = omega arith in
            let ih =
              subst
                (λ b.
                  any_window r o t m s p u from query fuel (state t s k rest)
                  ≡ some (ok (any_range (suc (n - 1) - k) b occurs)))
                next_place (windows-any fuel (a + 1) (n - 1) rest h back (omega arith)) in
            rw (any_window, e, eq-occurs a c front, more, ih)
              (elim (Bool-cases (occurs a)) [
                | inl here ↦ rw here refl
                | inr not_here ↦ rw not_here refl
              ])
      ]

  contains-proper :
      ltb (len t s) (len u query) ≡ false
      → (len u query == 0) ≡ false
      → contains r o t m s p u from query
        ≡ any_window r o t m s p u from query
            (suc (len t s))
            (record { inner = s; width = len u query })
  unfolding contains windows
  contains-proper e f = rw (e, f) refl

  -- For a slice inside the address space: `contains` panics if the query is empty; else it ends
  -- with whether there is a place where all bits of the query stand.
  pub contains_lem :
      IsSlice t s
      → (len_of u query ≡ 0 → contains r o t m s p u from query ≡ some panic)
        × (0 < len_of u query
            → contains r o t m s p u from query
              ≡ some (ok (any_range (suc (len_of t s) - len_of u query) 0 occurs)))
  unfolding contains windows any_range
  contains_lem v =
      let n = len_of t s in
      let k = len_of u query in
      (
        λ z.
            let fits : ltb n 0 ≡ false = ground arith in
            rw (len-eq-len_of t s, len-eq-len_of u query, z, fits) refl,
        λ h. elim (Bool-cases (ltb n k)) [
          | inl long ↦
              let none_left : suc n - k ≡ 0 = ground arith in
              rw (len-eq-len_of t s, len-eq-len_of u query, long, none_left) refl
          | inr fits ↦
              contains-proper (rw (len-eq-len_of t s, len-eq-len_of u query) fits)
                (rw (len-eq-len_of u query) (ne→not_== k 0 (omega arith)))
              ∙ ap₂
                  (λ n k.
                    any_window r o t m s p u from query (suc n) (record { inner = s; width = k }))
                  (len-eq-len_of t s) (len-eq-len_of u query)
              ∙ windows-any (suc n) 0 n s h (whole-IsView t s v) (omega arith)
        ],
      )

  -- For a slice inside the address space: `starts_with` and `ends_with` hold exactly if the query
  -- is at most as long as the slice, and its bits stand there at the start and at the end.
  pub starts_with_lem :
      IsSlice t s
      → (starts_with r o t m s p u from query ≡ leb (len_of u query) (len_of t s) && occurs 0)
        × (ends_with r o t m s p u from query
            ≡ leb (len_of u query) (len_of t s) && occurs (len_of t s - len_of u query))
  unfolding starts_with ends_with
  starts_with_lem v =
      let n = len_of t s in
      let k = len_of u query in
      let whole = whole-IsView t s v in
      rw (len-eq-len_of t s, len-eq-len_of u query)
        (elim (Bool-cases (leb k n)) [
          | inl fits ↦
              let front = range_to-IsView t s 0 n s whole k (ground arith) in
              let back =
                range_unchecked-IsView_in t s 0 n s whole (range_from (n - k)) (omega arith)
                  (omega arith) in
              let size : n - (n - k) ≡ k = ground arith in
              rw fits (
                occurs-eq 0 (range_unchecked t (range_to k) s) front,
                occurs-eq (n - k) (range_unchecked t (range_from (n - k)) s)
                    (rw (size, zero-add (n - k)) at back),
              )
          | inr long ↦ rw long (refl, refl)
        ])
