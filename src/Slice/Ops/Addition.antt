-- ===== src/Slice/Ops/Addition.antt =====
-- Addition on slices is addition of the numbers that they spell.
use bitvec_sgx.Base.{
  ℕ, zero, suc, ◌+◌, ◌-◌, ◌*◌, ◌^◌, ◌%◌, ◌≤◌, ◌<◌, ◌≡◌, refl, sym, ◌∙◌, ap, arith, Bool, true,
  false, ◌==◌, if◌then◌else◌, ltb, to_ℕ, subst, List, for_range,
}
use native.Mathlib.Nat.{add-mul-mod_self_left, mod-eq_of_lt, add-zero, zero-add}
use mathlib.Core.List.{reverse}
use bitvec_sgx.Bits.{pow2}
use bitvec_sgx.Store.{BitStore}
use bitvec_sgx.Order.{BitOrder, IsBitOrder}
use bitvec_sgx.Access.{Radium}
use bitvec_sgx.Memory.{Memory, IsMemory}
use bitvec_sgx.Pointer.{BitPtr, len_of}
use bitvec_sgx.Slice.{get_unchecked, set_unchecked}
use bitvec_sgx.Slice.Locate.{IsSlice, len-eq-len_of}
use bitvec_sgx.Slice.Rewrites.{IsRewritten, Rewritten-as, unchanged, set_unchecked-IsRewritten}
use bitvec_sgx.Slice.Ops.{rca1, add_step, add_assign, add_assign_reverse, item}
use bitvec_sgx.Fields.Numbers.{lsb_number}
use bitvec_sgx.Slice.Ops.Numbers.{number_up, number_down, lsb_number-ext, lsb_number-lt}

-- The sum of three bits, and its carry.
abbrev sum_bit : Bool → Bool → Bool → Bool
sum_bit a b c = (rca1 a b c).0

rca1_lem : (a b c : Bool) → to_ℕ (rca1 a b c).0 + 2 * to_ℕ (rca1 a b c).1 ≡ to_ℕ a + to_ℕ b + to_ℕ c
unfolding rca1
rca1_lem true true true = refl
rca1_lem true true false = refl
rca1_lem true false true = refl
rca1_lem true false false = refl
rca1_lem false true true = refl
rca1_lem false true false = refl
rca1_lem false false true = refl
rca1_lem false false false = refl

-- The carry into bit `k`, and the sum's bit `k`.
module _ (f g : ℕ → Bool) where
  carry : ℕ → Bool
  unfolding rca1
  carry zero = false
  carry (suc k) = (rca1 (f k) (g k) (carry k)).1

  sum_at : ℕ → Bool
  unfolding rca1 carry
  sum_at k = (rca1 (f k) (g k) (carry k)).0

  adds_one :
      (k : ℕ)
      → to_ℕ (sum_at k) + 2 * to_ℕ (carry (suc k)) ≡ to_ℕ (f k) + to_ℕ (g k) + to_ℕ (carry k)
  unfolding carry sum_at
  adds_one k = rca1_lem (f k) (g k) (carry k)

  ripple :
      (n k : ℕ)
      → lsb_number n k sum_at + 2 ^ n * to_ℕ (carry (k + n))
        ≡ lsb_number n k f + lsb_number n k g + to_ℕ (carry k)
  unfolding lsb_number
  ripple zero k = omega (arith, ap (λ i. to_ℕ (carry i)) (add-zero k))
  ripple (suc n) k =
      let same : suc k + n ≡ k + suc n = omega arith in
      omega (
        arith,
        ripple n (suc k),
        adds_one k,
        ap (λ i. 2 ^ suc n * to_ℕ (carry i)) same,
        ap (λ (x : ℕ). x * to_ℕ (carry (suc k + n))) (pow2 n),
      )

-- The loop of an addition that visits the slice's bits in the order `place 0`, `place 1`, ...
module _ (r : Radium) (o : BitOrder) (lawful : IsBitOrder o) (t : BitStore) (s : BitPtr)
    (v : IsSlice t s) (m : Memory) (w : IsMemory t m) (addend : List Bool) (place : ℕ → ℕ)
    (in_slice : (j : ℕ) → j < len_of t s → place j < len_of t s)
    (back : (j : ℕ) → j < len_of t s → place (place j) ≡ j) where
  abbrev old : ℕ → Bool
  old j = get_unchecked r o t m s (place j)

  abbrev total : ℕ → Bool
  total = sum_at old (item addend)

  abbrev carried : ℕ → Bool
  carried = carry old (item addend)

  abbrev Added : ℕ → Memory × Bool → Type 0
  Added k st =
      IsRewritten r o t m s
        (λ i. if ltb (place i) k then total (place i) else get_unchecked r o t m s i) st.0
      × (st.1 ≡ carried k)

  placed :
      (k i : ℕ) (y : Bool)
      → k < len_of t s
      → i < len_of t s
      → y ≡ total k
      → (if place k == i
          then y
          else if ltb (place i) k
          then total (place i)
          else get_unchecked r o t m s i)
        ≡ (if ltb (place i) (suc k) then total (place i) else get_unchecked r o t m s i)
  placed k i y h l e = ground (
    arith,
    back k h,
    back i l,
    λ (q : place k ≡ i). ap place q,
    λ (q : place i ≡ k). ap place q,
    λ (q : place i ≡ k). ap total q,
  )

  round :
      (k : ℕ) (st : Memory × Bool)
      → k < len_of t s
      → Added k st
      → Added (suc k) (add_step r o t s (place k) (item addend k) st)
  unfolding add_step carry sum_at
  round k st h p =
      let here : get_unchecked r o t st.0 s (place k) ≡ old k =
        p.0.inside (place k) (in_slice k h) ∙ ground (arith, back k h) in
      let y = (rca1 (get_unchecked r o t st.0 s (place k)) (item addend k) st.1).0 in
      let sum_here : y ≡ total k =
        ap (λ a. (rca1 a (item addend k) st.1).0) here
        ∙ ap (λ c. (rca1 (old k) (item addend k) c).0) p.1 in
      (
        Rewritten-as r o lawful t s v m (set_unchecked r o t st.0 s (place k) y) _ _
            (set_unchecked-IsRewritten r o lawful t s v m st.0 _ (place k) y p.0 (in_slice k h))
            (λ i l. placed k i y h l sum_here),
        ap (λ a. (rca1 a (item addend k) st.1).1) here
            ∙ ap (λ c. (rca1 (old k) (item addend k) c).1) p.1,
      )

  rounds :
      (n k : ℕ) (st : Memory × Bool)
      → k + n ≤ len_of t s
      → Added k st
      → Added (k + n) (for_range n k (λ j st. add_step r o t s (place j) (item addend j) st) st)
  unfolding for_range
  rounds zero k st h p = subst (λ x. Added x st) (sym (add-zero k)) p
  rounds (suc n) k st h p =
      let same : suc k + n ≡ k + suc n = omega arith in
      subst
        (λ x.
          Added x (for_range (suc n) k (λ j st. add_step r o t s (place j) (item addend j) st) st))
        same
        (rounds n (suc k) (add_step r o t s (place k) (item addend k) st) (omega arith)
          (round k st (omega arith) p))

  -- The whole loop.
  addition :
      (n : ℕ)
      → n ≡ len_of t s
      → ((i : ℕ) → i < len_of t s → place i < n)
      → IsRewritten r o t m s
          (λ i. total (place i))
          (for_range n 0 (λ j st. add_step r o t s (place j) (item addend j) st) (m, false)).0
        × ((for_range n 0 (λ j st. add_step r o t s (place j) (item addend j) st) (m, false)).1
            ≡ carried n)
  unfolding carry
  addition n e all =
      let start : Added 0 (m, false) = (
        Rewritten-as r o lawful t s v m m _ _ (unchanged r o lawful t s v m w)
            (λ i l. ground arith),
        refl,
      ) in
      let p = rounds n 0 (m, false) (omega arith) start in
      (
        Rewritten-as r o lawful t s v m _ _ _ p.0 (λ i l. ground (arith, all i l)),
        p.1 ∙ ap carried (zero-add n),
      )

-- Bits that are the sum's spell the sum.
sum_of_bits :
    (f g h : ℕ → Bool) (n : ℕ)
    → ((i : ℕ) → i < n → h i ≡ sum_at f g i)
    → lsb_number n 0 h + 2 ^ n * to_ℕ (carry f g n) ≡ lsb_number n 0 f + lsb_number n 0 g
unfolding carry
sum_of_bits f g h n e = omega (
  arith,
  lsb_number-ext n 0 h (sum_at f g) (λ i p q. e i (omega arith)),
  ripple f g n 0,
  ap (λ i. 2 ^ n * to_ℕ (carry f g i)) (zero-add n),
)

-- A sum with its carry beyond `2 ^ n` is the sum modulo `2 ^ n`.
drop_carry : (n x c y : ℕ) → x < 2 ^ n → x + 2 ^ n * c ≡ y → x ≡ y % 2 ^ n
drop_carry n x c y h e =
    sym (mod-eq_of_lt h) ∙ sym (add-mul-mod_self_left x (2 ^ n) c) ∙ ap (λ z. z % 2 ^ n) e

module _ (r : Radium) (o : BitOrder) (lawful : IsBitOrder o) (t : BitStore) (s : BitPtr)
    (v : IsSlice t s) (m : Memory) (w : IsMemory t m) (addend : List Bool) where
  -- For a lawful order, well-typed memory, a slice inside the address space and any addend, whose
  -- bits past the slice are dropped: the slice's number from its first bit up, with the returned
  -- carry as bit `len`, is the sum of its old number and the addend's; no bit outside the slice
  -- changes and memory stays well typed.
  pub add_assign_reverse_lem :
      (number_up r o t s (add_assign_reverse r o t m s addend).0
          + 2 ^ len_of t s * to_ℕ (add_assign_reverse r o t m s addend).1
        ≡ number_up r o t s m + lsb_number (len_of t s) 0 (item addend))
      × ((f : ℕ → Bool) × IsRewritten r o t m s f (add_assign_reverse r o t m s addend).0)
  unfolding add_assign_reverse
  add_assign_reverse_lem =
      let p =
        addition r o lawful t s v m w addend (λ j. j) (λ j h. h) (λ j h. refl) (len_of t s) refl
          (λ j h. h) in
      rw (len-eq-len_of t s) (
        omega (
          arith,
          ap (λ c. 2 ^ len_of t s * to_ℕ c) p.1,
          sum_of_bits _ (item addend) _ (len_of t s) (λ i h. p.0.inside i h),
        ),
        (_, p.0),
      )

  -- Under the same conditions, `+=` adds from the last bit of both: the slice's number from its
  -- last bit up becomes the sum of its old number and the addend's, modulo `2 ^ len`; no bit
  -- outside the slice changes and memory stays well typed.
  pub add_assign_lem :
      (number_down r o t s (add_assign r o t m s addend)
        ≡ (number_down r o t s m + lsb_number (len_of t s) 0 (item (reverse addend)))
          % 2 ^ len_of t s)
      × ((f : ℕ → Bool) × IsRewritten r o t m s f (add_assign r o t m s addend))
  unfolding add_assign
  add_assign_lem =
      let p =
        addition r o lawful t s v m w (reverse addend) (λ j. len_of t s - 1 - j)
          (λ j h. omega arith) (λ j h. omega arith) (len_of t s) refl (λ j h. omega arith) in
      rw (len-eq-len_of t s, add_assign)
        (
          drop_carry (len_of t s) _ _ _ (lsb_number-lt (len_of t s) 0 _) (
              sum_of_bits _ (item (reverse addend)) _ (len_of t s) (λ i h.
                p.0.inside (len_of t s - 1 - i) (omega arith) ∙ ap (sum_at _ _) (omega arith))),
          (_, p.0),
        )
