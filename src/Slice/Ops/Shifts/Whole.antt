-- ===== src/Slice/Ops/Shifts/Whole.antt =====
-- Shifts of whole elements by less than an element's width.
use bitvec_sgx.Base.{
  ℕ, zero, suc, ◌/◌, ◌≤◌, ◌<◌, ◌≡◌, refl, ◌∙◌, ap, arith, subst, fun_ext, ◌^◌, ◌+◌, List, [], ◌∷◌,
  some, Outcome, ok, panic, true, false, none, bit_and, ◌-◌, ◌+◌, ◌>>=◌, leb, ◌==◌,
}
use bitvec_sgx.Store.{BitStore, bits, indx, u8, u16, u32, u64, usize, size_of}
use bitvec_sgx.Order.{BitOrder}
use bitvec_sgx.Access.{Radium}
use bitvec_sgx.Memory.{Memory}
use bitvec_sgx.Pointer.{BitPtr, pointer, head, len_of, elements}
use bitvec_sgx.Domain.{
  BitDomain, spanning, is_spanning, split_region, as_access_slice, cells, domain,
}
use bitvec_sgx.Domain.Bounds.{AllOk}
use bitvec_sgx.Slice.Ranges.{
  subregion, sub_usize, range_from, range_index, range_get, range_unchecked,
}
use bitvec_sgx.Slice.Locate.{IsSlice, bitptr-of_pos, len-eq-len_of}
use bitvec_sgx.Slice.Ranges.Views.{subregion-whole, bitptr-IsSlice}
use bitvec_sgx.Pointer.Encoding.{parts-IsRegion}
use bitvec_sgx.Slice.{bitptr, len}
use bitvec_sgx.Slice.Ops.Shifts.{
  zero_elements, copy_elements, shr_elements, shr_assign, element_bits, shl_assign, shl_elements,
  element_at, as_slice, body_elements,
}

-- How many elements a region has.
count : List ℕ → ℕ
count [] = 0
count (e ∷ es) = suc (count es)

beyond : (es : List ℕ) (i : ℕ) → count es ≤ i → element_at es i ≡ panic
unfolding element_at count
beyond [] i h = refl
beyond (e ∷ es) zero h = absurd (omega arith)
beyond (e ∷ es) (suc i) h = beyond es i (omega arith)

count-cells : (t : BitStore) (a n : ℕ) → count (cells t a n) ≡ n
unfolding count
count-cells t a zero = refl
count-cells t a (suc n) = ap suc (count-cells t (a + size_of t) n)

-- The body of a spanning domain is all its elements, at least one.
abbrev HasAll : ℕ → List ℕ → BitDomain → Type 0
HasAll e elts (spanning body) = (body ≡ elts) × (1 ≤ e)
HasAll e elts _ = Unit {0}

split_region-HasAll :
    (t : BitStore) (h e tl : ℕ) (elts : List ℕ) → AllOk (HasAll e elts) (split_region t h e tl elts)
unfolding split_region
split_region-HasAll t h e tl [] = ground arith
split_region-HasAll t h e tl (x ∷ []) = ground arith
split_region-HasAll t h e tl (x ∷ y ∷ l) = ground arith

domain-HasAll :
    (t : BitStore) (p : BitPtr)
    → AllOk (HasAll (elements t p) (cells t (pointer t p) (elements t p))) (domain t p)
unfolding domain as_access_slice elements
domain-HasAll t p = split_region-HasAll t (head t p) _ _ _

spanning-cells :
    (t : BitStore) (p : BitPtr) (body : List ℕ)
    → domain t p ≡ ok (spanning body)
    → (body ≡ cells t (pointer t p) (elements t p)) × (1 ≤ elements t p)
spanning-cells t p body e =
    subst (AllOk (HasAll (elements t p) (cells t (pointer t p) (elements t p)))) e
      (domain-HasAll t p)

spanning-count :
    (t : BitStore) (p : BitPtr) (body : List ℕ)
    → domain t p ≡ ok (spanning body)
    → count body ≡ elements t p
spanning-count t p body e =
    ap count (spanning-cells t p body e).0 ∙ count-cells t (pointer t p) (elements t p)

first-cells : (t : BitStore) (a n : ℕ) → 1 ≤ n → element_at (cells t a n) 0 ≡ ok a
unfolding element_at
first-cells t a zero h = absurd (omega arith)
first-cells t a (suc n) h = refl

small_offset : (t : BitStore) (shamt : ℕ) → shamt < bits t → shamt / 2 ^ indx t ≡ 0
small_offset u8 shamt h = omega arith
small_offset u16 shamt h = omega arith
small_offset u32 shamt h = omega arith
small_offset u64 shamt h = omega arith
small_offset usize shamt h = omega arith

second_panics :
    {A B C : Type 0} (a : Outcome A) (b : Outcome B) (k : A → B → Outcome C)
    → b ≡ panic
    → (a >>= λ x. b >>= λ y. k x y) ≡ panic
second_panics (ok x) b k e = rw e refl
second_panics panic b k e = refl

module _ (r : Radium) (o : BitOrder) (t : BitStore) (m : Memory) (s : BitPtr) (shamt : ℕ)
    (small : shamt < bits t) (body : List ℕ) (e : domain t (bitptr s) ≡ ok (spanning body))
    (fits : elements t (bitptr s) < 2 ^ 64) where
  index_beyond : shl_elements r o t m s shamt ≡ panic
  unfolding shl_elements as_slice body_elements
  index_beyond =
      rw (e, small_offset t shamt small)
        (second_panics (element_at body 0) (element_at body (sub_usize (elements t (bitptr s)) 0)) _
          (beyond body _ (omega (arith, spanning-count t (bitptr s) body e))))

  -- A slice that spans whole elements, fewer than `2 ^ 64`, and a shift amount of at least one,
  -- less than an element's width and less than the slice's length: `<<=` panics.
  pub shl_assign-panic :
      1 ≤ shamt → shamt < len t s → (fuel : ℕ) → shl_assign r o t (suc fuel) m s shamt ≡ some panic
  unfolding shl_assign is_spanning
  shl_assign-panic h l fuel =
      let nz : (shamt == 0) ≡ false = ground arith in
      let short : leb (len t s) shamt ≡ false = ground arith in rw (nz, short, e, index_beyond) refl

-- Nothing moves by no element.
no_move :
    (t : BitStore) (from n : ℕ) (m : Memory)
    → zero_elements t from 0 (copy_elements t from from n m) ≡ m
unfolding zero_elements copy_elements
no_move t from n m = fun_ext (λ a. ground (arith, λ (x : from + (a - from) ≡ a). ap m x))

-- All bits of a slice from the first one on are the slice.
range_index_whole :
    (t : BitStore) (s : BitPtr)
    → IsSlice t s
    → 1 ≤ len_of t s
    → range_index t (range_from (element_bits t 0)) s ≡ ok s
unfolding range_index range_get range_unchecked element_bits
range_index_whole t s v h =
    let none_skipped : element_bits t 0 ≡ 0 = omega arith in
    let in_range : leb 0 (len t s) ≡ true = ground arith in
    let all : sub_usize (len_of t (bitptr s)) 0 ≡ len_of t (bitptr s) =
      omega (arith, (parts-IsRegion t (bitptr s) (bitptr-IsSlice t s v).words).fits) in
    let same : subregion t s 0 (sub_usize (len_of t (bitptr s)) 0) ≡ s =
      ap (subregion t s 0) all ∙ subregion-whole t s v ∙ bitptr-of_pos t s h in
    ap (λ n. range_index t (range_from n) s) none_skipped ∙ rw (range_index, in_range, same) refl

module _ (r : Radium) (o : BitOrder) (t : BitStore) (m : Memory) (s : BitPtr) (v : IsSlice t s)
    (shamt : ℕ) (small : shamt < bits t) (h : 1 ≤ shamt) (l : shamt < len_of t s) (body : List ℕ)
    (e : domain t (bitptr s) ≡ ok (spanning body)) where
  same_call : bit_and shamt (indx t) ≡ shamt → shr_elements r o t m s shamt ≡ ok (m, s, shamt)
  unfolding shr_elements as_slice body_elements
  same_call kept =
      let all = spanning-cells t (bitptr s) body e in
      let at_front : element_at body 0 ≡ ok (pointer t (bitptr s)) =
        ap (λ b. element_at b 0) all.0
        ∙ first-cells t (pointer t (bitptr s)) (elements t (bitptr s)) all.1 in
      rw
        (
          e,
          small_offset t shamt small,
          at_front,
          range_index_whole t s v (omega arith),
          no_move t (pointer t (bitptr s)),
          kept,
        )
        refl

  -- A slice in the address space that spans whole elements, and a shift amount of at least one,
  -- less than an element's width and less than the slice's length, which `T::INDX` as a mask
  -- keeps: `>>=` runs out of any fuel.
  pub shr_assign-none :
      bit_and shamt (indx t) ≡ shamt → (fuel : ℕ) → shr_assign r o t fuel m s shamt ≡ none
  unfolding shr_assign is_spanning
  shr_assign-none kept zero = refl
  shr_assign-none kept (suc fuel) =
      let nz : (shamt == 0) ≡ false = ground arith in
      let short : leb (len t s) shamt ≡ false = ground (arith, len-eq-len_of t s) in
      rw (nz, short, e, same_call kept) (shr_assign-none kept fuel)
