-- ===== src/Slice/Compare/Laws.antt =====
-- Laws of the order and the equality of slices.
use bitvec_sgx.Base.{
  ℕ, zero, suc, ◌+◌, ◌<◌, ◌⊎◌, inl, inr, Bool-cases, ◌≡◌, refl, sym, ◌∙◌, ap, arith, Bool, true,
  false, ◌&&◌, min, some, all_range,
}
use bitvec_sgx.Store.{BitStore}
use bitvec_sgx.Order.{BitOrder}
use bitvec_sgx.Access.{Radium}
use bitvec_sgx.Pointer.{BitPtr}
use bitvec_sgx.Memory.{Memory}
use bitvec_sgx.Slice.{len, get_unchecked}
use bitvec_sgx.Slice.Compare.{
  Ordering, less, equal, greater, same_bit, compare_len, compare_bits, eq, partial_cmp,
}

-- `Ordering::reverse`
abbrev pub opposite : Ordering → Ordering
opposite less = greater
opposite equal = equal
opposite greater = less

is_equal : Ordering → Bool
is_equal equal = true
is_equal _ = false

-- What each answer says of `n` bits `f` and `k` bits `g`. The lesser sequence has an unset bit where
-- the other has a set one, at the first index at which they differ, or it is the other's beginning.
module _ (f g : ℕ → Bool) where
  abbrev pub Agree : ℕ → Type 0
  Agree n = (j : ℕ) → j < n → f j ≡ g j

abbrev pub IsBefore : ℕ → (ℕ → Bool) → ℕ → (ℕ → Bool) → Type 0
IsBefore n f k g =
    ((i : ℕ) × (i < n) × (i < k) × (f i ≡ false) × (g i ≡ true) × Agree f g i)
    ⊎ ((n < k) × Agree f g n)

abbrev pub Verdict : ℕ → (ℕ → Bool) → ℕ → (ℕ → Bool) → Ordering → Type 0
Verdict n f k g less = IsBefore n f k g
Verdict n f k g equal = (n ≡ k) × Agree f g n
Verdict n f k g greater = IsBefore k g n f

compare_bits-opposite :
    (n i : ℕ) (f g : ℕ → Bool) (end : Ordering)
    → compare_bits n i g f (opposite end) ≡ opposite (compare_bits n i f g end)
unfolding compare_bits
compare_bits-opposite zero i f g end = refl
compare_bits-opposite (suc n) i f g end = ground (arith, compare_bits-opposite n (suc i) f g end)

compare_len-opposite : (a b : ℕ) → compare_len b a ≡ opposite (compare_len a b)
compare_len-opposite a b = ground arith

is_equal-compare_bits :
    (n i : ℕ) (f g : ℕ → Bool) (end : Ordering)
    → is_equal (compare_bits n i f g end)
      ≡ is_equal end && all_range n i (λ i. same_bit (f i) (g i))
unfolding compare_bits all_range is_equal
is_equal-compare_bits zero i f g end = ground arith
is_equal-compare_bits (suc n) i f g end = ground (arith, is_equal-compare_bits n (suc i) f g end)

equal-is_equal : (x : Ordering) → is_equal x ≡ true → x ≡ equal
unfolding is_equal
equal-is_equal equal h = refl
equal-is_equal less h = absurd (ground arith)
equal-is_equal greater h = absurd (ground arith)

-- No two answers hold of the same bits.
before-equal :
    (f g : ℕ → Bool) (n k : ℕ) → IsBefore n f k g → n ≡ k → Agree f g n → {A : Type 0} → A
before-equal f g n k (inl (i, p, q, a, b, _)) e same = absurd (ground (arith, same i p, a, b))
before-equal f g n k (inr (l, _)) e same = absurd (omega arith)

before-after : (f g : ℕ → Bool) (n k : ℕ) → IsBefore n f k g → IsBefore k g n f → {A : Type 0} → A
before-after f g n k (inl (i, p, q, a, b, same)) (inl (i', p', q', a', b', same')) =
    absurd (ground (arith, a, b, a', b', same i', same' i, λ (e : i ≡ i'). ap f e))
before-after f g n k (inl (i, p, q, a, b, _)) (inr (l, same)) =
    absurd (ground (arith, a, b, same i q))
before-after f g n k (inr (l, same)) (inl (i, p, q, a, b, _)) =
    absurd (ground (arith, a, b, same i q))
before-after f g n k (inr (l, _)) (inr (l', _)) = absurd (omega arith)

Verdict-unique :
    (f g : ℕ → Bool) (n k : ℕ) (x y : Ordering) → Verdict n f k g x → Verdict n f k g y → x ≡ y
Verdict-unique f g n k less less v w = refl
Verdict-unique f g n k less equal v w = before-equal f g n k v w.0 w.1
Verdict-unique f g n k less greater v w = before-after f g n k v w
Verdict-unique f g n k equal less v w = before-equal f g n k w v.0 v.1
Verdict-unique f g n k equal equal v w = refl
Verdict-unique f g n k equal greater v w =
    before-equal g f k n w (sym v.0) (λ j l. sym (v.1 j (omega (arith, v.0))))
Verdict-unique f g n k greater less v w = before-after f g n k w v
Verdict-unique f g n k greater equal v w =
    before-equal g f k n v (sym w.0) (λ j l. sym (w.1 j (omega (arith, w.0))))
Verdict-unique f g n k greater greater v w = refl

compare_len-cases :
    (n k : ℕ)
    → ((n ≡ k) × (compare_len n k ≡ equal))
      ⊎ ((n < k) × (compare_len n k ≡ less))
      ⊎ ((k < n) × (compare_len n k ≡ greater))
compare_len-cases n k = ground arith

compare_len-Verdict :
    (f g : ℕ → Bool) (n k : ℕ) → Agree f g (min n k) → Verdict n f k g (compare_len n k)
compare_len-Verdict f g n k same = elim (compare_len-cases n k) [
  | inl (e, c) ↦ rw c (e, λ j l. same j (omega arith))
  | inr (inl (l, c)) ↦ rw c (inr (l, λ j p. same j (omega arith)))
  | inr (inr (l, c)) ↦ rw c (inr (l, λ j p. sym (same j (omega arith))))
]

one_more : (f g : ℕ → Bool) (i : ℕ) → Agree f g i → f i ≡ g i → Agree f g (suc i)
one_more f g i same e j l = ground (arith, same j, e, λ (x : j ≡ i). ap f x, λ (x : j ≡ i). ap g x)

compare_bits-Verdict :
    (c i : ℕ) (f g : ℕ → Bool) (n k : ℕ)
    → i + c ≡ min n k
    → Agree f g i
    → Verdict n f k g (compare_bits c i f g (compare_len n k))
unfolding compare_bits
compare_bits-Verdict zero i f g n k e same =
    compare_len-Verdict f g n k (λ j l. same j (omega arith))
compare_bits-Verdict (suc c) i f g n k e same =
    let back : Agree g f i = λ j l. sym (same j l) in
    let rest = λ (d : f i ≡ g i).
      compare_bits-Verdict c (suc i) f g n k (omega arith) (one_more f g i same d) in
    elim (Bool-cases (f i)) [
      | inl a ↦ elim (Bool-cases (g i)) [
        | inl b ↦ rw (a, b) (rest (a ∙ sym b))
        | inr b ↦ rw (a, b) (inl (i, omega arith, omega arith, b, a, back))
      ]
      | inr a ↦ elim (Bool-cases (g i)) [
        | inl b ↦ rw (a, b) (inl (i, omega arith, omega arith, a, b, same))
        | inr b ↦ rw (a, b) (rest (a ∙ sym b))
      ]
    ]

module _ (r : Radium) (a : BitOrder) (b : BitStore) (c : BitOrder) (d : BitStore) (m : Memory)
    (s : BitPtr) (m' : Memory) (rhs : BitPtr) where
  abbrev answer : Ordering
  answer =
      compare_bits (min (len b s) (len d rhs)) 0 (λ i. get_unchecked r a b m s i)
        (λ i. get_unchecked r c d m' rhs i) (compare_len (len b s) (len d rhs))

  eq-is_equal : is_equal answer ≡ eq r a b c d m s m' rhs
  unfolding eq is_equal
  eq-is_equal =
      is_equal-compare_bits (min (len b s) (len d rhs)) 0 (λ i. get_unchecked r a b m s i)
        (λ i. get_unchecked r c d m' rhs i) (compare_len (len b s) (len d rhs))
      ∙ ground arith

  -- For any two slices, the answer of `partial_cmp` is the one that holds of their bits: `Less` if the
  -- first has an unset bit where the other has a set one, at the first index at which they differ, or
  -- is a proper beginning of it; `Greater` if the other is so; `Equal` if the lengths and all bits are
  -- the same. No other answer holds of them. With the slices exchanged the answer is the opposite, and
  -- it is `Equal` exactly where `==` holds.
  pub partial_cmp_lem :
      (x : Ordering) × (partial_cmp r a b c d m s m' rhs ≡ some x)
      × Verdict
          (len b s)
          (λ i. get_unchecked r a b m s i)
          (len d rhs)
          (λ i. get_unchecked r c d m' rhs i)
          x
      × ((y : Ordering)
          → Verdict
              (len b s)
              (λ i. get_unchecked r a b m s i)
              (len d rhs)
              (λ i. get_unchecked r c d m' rhs i)
              y
          → y ≡ x)
      × (partial_cmp r c d a b m' rhs m s ≡ some (opposite x))
      × (eq r a b c d m s m' rhs ≡ true → x ≡ equal)
      × (x ≡ equal → eq r a b c d m s m' rhs ≡ true)
  unfolding partial_cmp is_equal
  partial_cmp_lem =
      let f : ℕ → Bool = λ i. get_unchecked r a b m s i in
      let g : ℕ → Bool = λ i. get_unchecked r c d m' rhs i in
      let holds : Verdict (len b s) f (len d rhs) g answer =
        compare_bits-Verdict (min (len b s) (len d rhs)) 0 f g (len b s) (len d rhs) (omega arith)
          (λ j l. absurd (omega arith)) in
      let swapped : min (len d rhs) (len b s) ≡ min (len b s) (len d rhs) = omega arith in
      (
        answer,
        refl,
        holds,
        λ y w. Verdict-unique f g (len b s) (len d rhs) y answer w holds,
        ap some (
            ap (λ n. compare_bits n 0 g f (compare_len (len d rhs) (len b s))) swapped
            ∙ ap (compare_bits (min (len b s) (len d rhs)) 0 g f)
                (compare_len-opposite (len b s) (len d rhs))
            ∙ compare_bits-opposite (min (len b s) (len d rhs)) 0 f g _),
        λ h. equal-is_equal answer (eq-is_equal ∙ h),
        λ h. sym eq-is_equal ∙ ap is_equal h,
      )
