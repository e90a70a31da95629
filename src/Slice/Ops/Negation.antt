-- ===== src/Slice/Ops/Negation.antt =====
-- Unary `-` on a slice is two's-complement negation of the number that it spells.
use bitvec_sgx.Base.{
  ◌≢◌, subst, ℕ, zero, suc, ◌+◌, ◌-◌, ◌*◌, ◌^◌, ◌%◌, ◌≤◌, ◌<◌, ◌≡◌, refl, sym, ◌∙◌, ap, arith, Bool,
  true, false, not, ◌==◌, if◌then◌else◌, to_ℕ, [], ◌∷◌, Outcome, ok, ◌>>=◌, ◌≢◌, inl, inr,
  Bool-cases, ==_cases, any_range,
}
use native.Mathlib.Nat.{zero-add, mod_self}
use bitvec_sgx.Bits.{pow2, pow2_pos}
use bitvec_sgx.Store.{BitStore}
use bitvec_sgx.Order.{BitOrder, IsBitOrder}
use bitvec_sgx.Access.{Radium}
use bitvec_sgx.Memory.{Memory, IsMemory}
use bitvec_sgx.Pointer.{BitPtr, len_of}
use bitvec_sgx.Slice.{len, is_empty, get_unchecked, set_unchecked}
use bitvec_sgx.Slice.Locate.{IsSlice, len-eq-len_of}
use bitvec_sgx.Slice.Rewrites.{
  IsRewritten, Rewritten-as, Rewritten-trans, unchanged, set_unchecked-IsRewritten,
}
use bitvec_sgx.Slice.Bulk.{not_any}
use bitvec_sgx.Slice.Bulk.Queries.{any-ok}
use bitvec_sgx.Slice.Ops.{neg, not_slice, add_assign, item}
use bitvec_sgx.Slice.Ops.Numbers.{
  number_down, lsb_number-ext, lsb_number-lt, lsb_number-last, lsb_number-none, none-lsb_number,
  lsb_number-not,
}
use bitvec_sgx.Slice.Ops.Addition.{add_assign_lem}
use bitvec_sgx.Slice.Ops.Inversion.{not_slice-ok}
use bitvec_sgx.Fields.Numbers.{lsb_number}

-- The negation of `x` on `n` bits, where the most negative number gives zero.
unfoldable pub negated : ℕ → ℕ → ℕ
negated n x = if x + x == 2 ^ n then 0 else (2 ^ n - x) % 2 ^ n

negated-zero : (n : ℕ) → negated n 0 ≡ 0
unfolding negated
negated-zero n = ground (arith, pow2_pos n, mod_self (2 ^ n))

any_range-none :
    (n k : ℕ) (f : ℕ → Bool) → any_range n k f ≡ false → (i : ℕ) → k ≤ i → i < k + n → f i ≡ false
unfolding any_range
any_range-none zero k f e i p q = absurd (omega arith)
any_range-none (suc n) k f e i p q =
    let rest : any_range n (suc k) f ≡ false = ground arith in
    elim (==_cases k i) [
      | inl same ↦ sym (ap f same) ∙ ground arith
      | inr other ↦ any_range-none n (suc k) f rest i (omega (arith, other)) (omega arith)
    ]

none-any_range :
    (n k : ℕ) (f : ℕ → Bool) → ((i : ℕ) → k ≤ i → i < k + n → f i ≡ false) → any_range n k f ≡ false
unfolding any_range
none-any_range zero k f e = refl
none-any_range (suc n) k f e = ground (
  arith,
  e k (omega arith) (omega arith),
  none-any_range n (suc k) f (λ i p q. e i (omega arith) (omega arith)),
)

half : (n : ℕ) → 1 ≤ n → 2 ^ n ≡ 2 * 2 ^ (n - 1)
half zero h = absurd (omega arith)
half (suc n) h = subst (λ k. 2 ^ suc n ≡ 2 * 2 ^ k) (omega arith) (pow2 n)

last_apart :
    (n : ℕ) (f : ℕ → Bool)
    → 1 ≤ n
    → lsb_number n 0 f ≡ lsb_number (n - 1) 0 f + 2 ^ (n - 1) * to_ℕ (f (n - 1))
last_apart zero f h = absurd (omega arith)
last_apart (suc n) f h =
    subst (λ k. lsb_number (suc n) 0 f ≡ lsb_number k 0 f + 2 ^ k * to_ℕ (f k)) (omega arith)
      (lsb_number-last n 0 f ∙ ap (λ k. lsb_number n 0 f + 2 ^ n * to_ℕ (f k)) (zero-add n))

one_item : (n : ℕ) → 1 ≤ n → lsb_number n 0 (item (true ∷ [])) ≡ 1
unfolding lsb_number
one_item zero h = absurd (omega arith)
one_item (suc n) h = omega (arith, lsb_number-none n 1 (item (true ∷ [])) past)
  where
    past : (i : ℕ) → 1 ≤ i → i < 1 + n → item (true ∷ []) i ≡ false
    past zero p q = absurd (omega arith)
    past (suc i) p q = refl

module _ (r : Radium) (o : BitOrder) (lawful : IsBitOrder o) (t : BitStore) (s : BitPtr)
    (v : IsSlice t s) where
  abbrev number : Memory → ℕ
  number = number_down r o t s

  abbrev any_bit : Memory → Bool
  any_bit m = any_range (len_of t s) 0 (λ i. get_unchecked r o t m s i)

  none-number : (m : Memory) → any_bit m ≡ false → number m ≡ 0
  none-number m e =
      lsb_number-none (len_of t s) 0 _ (λ j p q.
        any_range-none (len_of t s) 0 _ e (len_of t s - 1 - j) (omega arith) (omega arith))

  number-none : (m : Memory) → number m ≡ 0 → any_bit m ≡ false
  number-none m e = none-any_range (len_of t s) 0 _ (λ i p q.
      ap (λ j. get_unchecked r o t m s j) (omega arith)
      ∙ none-lsb_number (len_of t s) 0 _ e (len_of t s - 1 - i) (omega arith))

  not_any_lem : (m : Memory) → IsMemory t m → not_any r o t m s ≡ ok (not (any_bit m))
  unfolding not_any
  not_any_lem m w = rw (any-ok r o lawful t m w s v) refl

  -- The number without the slice's first bit.
  abbrev lower : Memory → ℕ
  lower m = lsb_number (len_of t s - 1) 0 (λ j. get_unchecked r o t m s (len_of t s - 1 - j))

  number-first :
      (m : Memory)
      → 1 ≤ len_of t s
      → number m ≡ lower m + 2 ^ (len_of t s - 1) * to_ℕ (get_unchecked r o t m s 0)
  number-first m h =
      last_apart (len_of t s) _ h
      ∙ ap (λ i. lower m + 2 ^ (len_of t s - 1) * to_ℕ (get_unchecked r o t m s i)) (omega arith)

  -- Inversion and the addition of one.
  invert_and_add :
      (m : Memory)
      → IsMemory t m
      → 1 ≤ len_of t s
      → (m' : Memory) × (not_slice r o t m s ≡ ok m')
        × (number (add_assign r o t m' s (true ∷ []))
            ≡ (2 ^ len_of t s - number m) % 2 ^ len_of t s)
        × ((f : ℕ → Bool) × IsRewritten r o t m s f (add_assign r o t m' s (true ∷ [])))
  invert_and_add m w h =
      let p = not_slice-ok r o lawful t s v m w in
      let q = add_assign_lem r o lawful t s v p.0 p.2.memory (true ∷ []) in
      (
        p.0,
        p.1,
        q.0
            ∙ ap (λ x. x % 2 ^ len_of t s)
                (omega (
                  arith,
                  lsb_number-ext (len_of t s) 0
                      (λ j. get_unchecked r o t p.0 s (len_of t s - 1 - j))
                      (λ j. not (get_unchecked r o t m s (len_of t s - 1 - j)))
                      (λ j a b. p.2.inside (len_of t s - 1 - j) (omega arith)),
                  lsb_number-not (len_of t s) 0 (λ j. get_unchecked r o t m s (len_of t s - 1 - j)),
                  one_item (len_of t s) h,
                )),
        (_, Rewritten-trans r o lawful t s v m p.0 _ _ _ p.2 q.1.1),
      )

  -- The outcome is memory where the number is negated and nothing else has changed.
  abbrev pub Negates : Memory → Outcome Memory → Type 0
  Negates m a =
      (m' : Memory) × (a ≡ ok m')
      × (number m' ≡ negated (len_of t s) (number m))
      × ((f : ℕ → Bool) × IsRewritten r o t m s f m')

  -- Nothing is to be done for zero.
  zero-Negates : (m : Memory) → IsMemory t m → number m ≡ 0 → Negates m (ok m)
  unfolding negated
  zero-Negates m w e = (
    m,
    refl,
    e ∙ sym (ap (negated (len_of t s)) e ∙ negated-zero (len_of t s)),
    (_, unchanged r o lawful t s v m w),
  )

  two_steps-Negates :
      (m before : Memory) (f : ℕ → Bool)
      → IsRewritten r o t m s f before
      → number before ≡ number m
      → 1 ≤ len_of t s
      → number m + number m ≢ 2 ^ len_of t s
      → Negates m (do m' ← not_slice r o t before s; ok (add_assign r o t m' s (true ∷ [])))
  unfolding negated
  two_steps-Negates m before f p e h ne =
      let q = invert_and_add before p.memory h in
      (
        _,
        rw q.1 refl,
        q.2 ∙ ground (arith, e, ap (λ x. (2 ^ len_of t s - x) % 2 ^ len_of t s) e),
        (_, Rewritten-trans r o lawful t s v m before _ _ _ p q.3.1),
      )

  -- The number with its first bit cleared.
  number-cleared :
      (m m' : Memory)
      → IsRewritten r o t m s (λ i. if 0 == i then false else get_unchecked r o t m s i) m'
      → 1 ≤ len_of t s
      → get_unchecked r o t m s 0 ≡ true
      → number m ≡ number m' + 2 ^ (len_of t s - 1)
  number-cleared m m' p h e = omega (
    arith,
    number-first m h,
    number-first m' h,
    lsb_number-ext (len_of t s - 1) 0 (λ j. get_unchecked r o t m' s (len_of t s - 1 - j))
        (λ j. get_unchecked r o t m s (len_of t s - 1 - j))
        (λ j a b. p.inside (len_of t s - 1 - j) (omega arith) ∙ ground arith),
    ap (λ b. 2 ^ (len_of t s - 1) * to_ℕ b) e,
    ap (λ b. 2 ^ (len_of t s - 1) * to_ℕ b) (p.inside 0 h),
  )

  same-number :
      (m m' : Memory)
      → IsRewritten r o t m s (λ i. get_unchecked r o t m s i) m'
      → number m' ≡ number m
  same-number m m' p =
      lsb_number-ext (len_of t s) 0 _ _ (λ j a b. p.inside (len_of t s - 1 - j) (omega arith))

  -- The first bit is set: the most negative number apart.
  first_set :
      (m : Memory)
      → IsMemory t m
      → 1 ≤ len_of t s
      → get_unchecked r o t m s 0 ≡ true
      → Negates m (do
        let cleared = set_unchecked r o t m s 0 false
        alone ← not_any r o t cleared s
        if alone then ok cleared else (do
          m' ← not_slice r o t (set_unchecked r o t cleared s 0 true) s
          ok (add_assign r o t m' s (true ∷ []))))
  unfolding negated
  first_set m w h e =
      let cleared = set_unchecked r o t m s 0 false in
      let p =
        set_unchecked-IsRewritten r o lawful t s v m m _ 0 false (unchanged r o lawful t s v m w)
          h in
      let again =
        Rewritten-as r o lawful t s v m _ _ (λ i. get_unchecked r o t m s i)
          (set_unchecked-IsRewritten r o lawful t s v m cleared _ 0 true p h)
          (λ i l. ground (arith, e, λ (z : 0 ≡ i). ap (λ i. get_unchecked r o t m s i) z)) in
      let apart = number-cleared m cleared p h e in
      let doubled = half (len_of t s) h in
      rw (not_any_lem cleared p.memory) (elim (Bool-cases (any_bit cleared)) [
        | inl some_left ↦ rw some_left (
            two_steps-Negates m _ _ again (same-number m _ again) h (λ z.
              ground (arith, number-none cleared (omega (arith, apart, doubled, z)), some_left)))
        | inr none_left ↦ rw none_left (
          cleared,
          refl,
          none-number cleared none_left
              ∙ ground (arith, apart, doubled, none-number cleared none_left),
          (_, p),
        )
      ])

  is_empty_lem : is_empty t s ≡ (len_of t s == 0)
  unfolding is_empty len
  is_empty_lem = ap (λ n. n == 0) (len-eq-len_of t s)

  -- For a lawful order, well-typed memory and a slice inside the address space, `-` does not
  -- panic. It reads the slice as a number from its last bit up and makes it the two's-complement
  -- negation on `len` bits, except that the most negative number gives zero. It changes no bit
  -- outside the slice and keeps memory well typed.
  pub neg-ok : (m : Memory) → IsMemory t m → Negates m (neg r o t m s)
  unfolding neg
  neg-ok m w = elim (Bool-cases (is_empty t s)) [
    | inl is_none ↦
        let none_there : len_of t s ≡ 0 = ground (arith, is_empty_lem) in
        rw is_none
          (zero-Negates m w (lsb_number-none (len_of t s) 0 _ (λ j a b. absurd (omega arith))))
    | inr has_some ↦
        let h : 1 ≤ len_of t s = ground (arith, is_empty_lem) in
        rw (has_some, not_any_lem m w)
          (elim (Bool-cases (any_bit m)) [
            | inr none_set ↦ rw none_set (zero-Negates m w (none-number m none_set))
            | inl some_set ↦ rw some_set (elim (Bool-cases (get_unchecked r o t m s 0)) [
              | inl e ↦ rw e (first_set m w h e)
              | inr e ↦ rw e (
                  two_steps-Negates m m _ (unchanged r o lawful t s v m w) refl h (λ z. omega (
                    arith,
                    z,
                    number-first m h,
                    half (len_of t s) h,
                    lsb_number-lt (len_of t s - 1) 0
                        (λ j. get_unchecked r o t m s (len_of t s - 1 - j)),
                    ap (λ b. 2 ^ (len_of t s - 1) * to_ℕ b) e,
                  )))
            ])
          ])
  ]
