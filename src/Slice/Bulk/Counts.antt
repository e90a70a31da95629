-- ===== src/Slice/Bulk/Counts.antt =====
-- Whole elements: comparing a word with all ones or all zeros, and counting its ones, agree with
-- examining its bits in the order's order.
use bitvec_sgx.Base.{
  inr, inl, ==_iff, ==_cases, ℕ, zero, suc, ◌+◌, ◌/◌, ◌%◌, ◌^◌, ◌≤◌, ◌<◌, ◌≡◌, refl, sym, ◌∙◌, ap,
  ap₂, arith, Bool, true, false, not, ltb, ◌==◌, ◌!=◌, ◌&&◌, to_ℕ, all_range, any_range,
  count_range,
}
use native.Mathlib.Nat.{add-zero, zero-add}
use bitvec_sgx.Bits.{pow2_pos, bit, bit_ext, bit-zero, bit-not}
use bitvec_sgx.Store.{BitStore, bits, all_true}
use bitvec_sgx.Store.Element.{ones, count_ones}
use bitvec_sgx.Order.{BitOrder, IsBitOrder}

all_range_elim :
    (n k : ℕ) (f : ℕ → Bool) → all_range n k f ≡ true → (i : ℕ) → k ≤ i → i < k + n → f i ≡ true
unfolding all_range
all_range_elim zero k f h i p q = absurd (omega arith)
all_range_elim (suc n) k f h i p q = ground (
  arith,
  λ (e : all_range n (suc k) f ≡ true) (l : suc k ≤ i).
      all_range_elim n (suc k) f e i l (omega arith),
  λ (e : i ≡ k). ap f e,
)

all_range_intro :
    (n k : ℕ) (f : ℕ → Bool) → ((i : ℕ) → k ≤ i → i < k + n → f i ≡ true) → all_range n k f ≡ true
unfolding all_range
all_range_intro zero k f h = refl
all_range_intro (suc n) k f h =
    ap₂ ◌&&◌ (h k (omega arith) (omega arith))
      (all_range_intro n (suc k) f (λ i p q. h i (omega arith) (omega arith)))

pub any_range-not :
    (n k : ℕ) (f : ℕ → Bool) → any_range n k f ≡ not (all_range n k (λ i. not (f i)))
unfolding all_range any_range
any_range-not zero k f = refl
any_range-not (suc n) k f = ground (arith, any_range-not n (suc k) f)

bool_iff : {b c : Bool} → (b ≡ true → c ≡ true) → (c ≡ true → b ≡ true) → b ≡ c
bool_iff h k = ground arith

unset_of : (b : Bool) → not b ≡ true → b ≡ false
unset_of b h = ground arith

ne-not_eq : (x : ℕ) → (x != 0) ≡ not (x == 0)
ne-not_eq x = ground arith

count_range-ext :
    (n k : ℕ) (f g : ℕ → Bool)
    → ((i : ℕ) → k ≤ i → i < k + n → f i ≡ g i)
    → count_range n k f ≡ count_range n k g
unfolding count_range
count_range-ext zero k f g e = refl
count_range-ext (suc n) k f g e =
    ap₂ ◌+◌ (ap to_ℕ (e k (omega arith) (omega arith)))
      (count_range-ext n (suc k) f g (λ i p q. e i (omega arith) (omega arith)))

count_none : (n k : ℕ) (f : ℕ → Bool) → ((i : ℕ) → f i ≡ false) → count_range n k f ≡ 0
unfolding count_range
count_none zero k f h = refl
count_none (suc n) k f h = ground (arith, h k, count_none n (suc k) f h)

count_plus :
    (n k : ℕ) (f g h : ℕ → Bool)
    → ((i : ℕ) → i < k + n → to_ℕ (f i) ≡ to_ℕ (g i) + to_ℕ (h i))
    → count_range n k f ≡ count_range n k g + count_range n k h
unfolding count_range
count_plus zero k f g h e = refl
count_plus (suc n) k f g h e =
    omega (arith, e k (omega arith), count_plus n (suc k) f g h (λ i p. e i (omega arith)))

pub count_range-not :
    (n k : ℕ) (f : ℕ → Bool) → count_range n k f + count_range n k (λ i. not (f i)) ≡ n
unfolding count_range
count_range-not zero k f = refl
count_range-not (suc n) k f = ground (arith, count_range-not n (suc k) f)

count_past : (n k j : ℕ) (b : Bool) → j < k → count_range n k (λ i. (i == j) && b) ≡ 0
unfolding count_range
count_past zero k j b p = refl
count_past (suc n) k j b p = ground (arith, count_past n (suc k) j b)

count_one :
    (n k j : ℕ) (b : Bool) → k ≤ j → j < k + n → count_range n k (λ i. (i == j) && b) ≡ to_ℕ b
unfolding count_range
count_one zero k j b p q = absurd (omega arith)
count_one (suc n) k j b p q = elim (==_cases k j) [
  | inl e ↦ ground (arith, count_past n (suc k) j b (omega arith))
  | inr ne ↦ ground (arith, count_one n (suc k) j b (omega arith) (omega arith))
]

count_last :
    (n k : ℕ) (f : ℕ → Bool) → count_range (suc n) k f ≡ count_range n k f + to_ℕ (f (k + n))
unfolding count_range
count_last zero k f = ground (arith, ap f (add-zero k))
count_last (suc n) k f =
    ap (λ c. to_ℕ (f k) + c) (count_last n (suc k) f)
    ∙ (let same : suc k + n ≡ k + suc n = omega arith in omega (arith, ap (λ i. to_ℕ (f i)) same))

ones_from :
    (w x k : ℕ) (f : ℕ → Bool) → ((i : ℕ) → f (k + i) ≡ bit x i) → ones w x ≡ count_range w k f
unfolding ones count_range bit
ones_from zero x k f h = refl
ones_from (suc w) x k f h =
    let first : f k ≡ (x % 2 == 1) = ap f (sym (add-zero k)) ∙ h 0 in
    let rest : ones w (x / 2) ≡ count_range w (suc k) f =
      ones_from w (x / 2) (suc k) f
        (λ i. let same : suc k + i ≡ k + suc i = omega arith in ap f same ∙ h (suc i)) in
    ground arith

ones_lem : (w x : ℕ) → ones w x ≡ count_range w 0 (bit x)
ones_lem w x = ones_from w x 0 (bit x) (λ i. ap (bit x) (zero-add i))

module _ (o : BitOrder) (lawful : IsBitOrder o) (t : BitStore) where
  -- Two words agree if their bits at the order's positions do.
  word_ext :
      (x y : ℕ)
      → x < 2 ^ bits t
      → y < 2 ^ bits t
      → ((i : ℕ) → i < bits t → bit x (o.at t i) ≡ bit y (o.at t i))
      → x ≡ y
  word_ext x y p q h = bit_ext (bits t) x y p q (λ k l.
      let at = lawful.at_onto t k l in ap (bit x) (sym at.2) ∙ h at.0 at.1 ∙ ap (bit y) at.2)

  pub bit-all_true : (k : ℕ) → k < bits t → bit (all_true t) k ≡ true
  bit-all_true k h = ground (arith, bit-not (bits t) 0 k, bit-zero k)

  pub all_ones :
      (x : ℕ) → x < 2 ^ bits t → (x == all_true t) ≡ all_range (bits t) 0 (λ i. bit x (o.at t i))
  all_ones x w =
      bool_iff
        (λ e.
          all_range_intro (bits t) 0 (λ i. bit x (o.at t i))
            (λ i p q.
              ap (λ y. bit y (o.at t i)) ((==_iff x (all_true t)).0 e)
              ∙ bit-all_true (o.at t i) (lawful.at_lt t i (omega arith))))
        (λ e. (==_iff x (all_true t)).1 (
          word_ext x (all_true t) w (omega (arith, pow2_pos (bits t))) (λ i h.
            all_range_elim (bits t) 0 (λ i. bit x (o.at t i)) e i (omega arith) (omega arith)
            ∙ sym (bit-all_true (o.at t i) (lawful.at_lt t i h)))))

  all_zeros :
      (x : ℕ) → x < 2 ^ bits t → (x == 0) ≡ all_range (bits t) 0 (λ i. not (bit x (o.at t i)))
  all_zeros x w =
      bool_iff
        (λ e.
          all_range_intro (bits t) 0 (λ i. not (bit x (o.at t i)))
            (λ i p q.
              ap (λ y. not (bit y (o.at t i))) ((==_iff x 0).0 e) ∙ ap not (bit-zero (o.at t i))))
        (λ e. (==_iff x 0).1 (
          word_ext x 0 w (omega (arith, pow2_pos (bits t))) (λ i h.
            unset_of (bit x (o.at t i)) (
              all_range_elim (bits t) 0 (λ i. not (bit x (o.at t i))) e i (omega arith)
                (omega arith))
            ∙ sym (bit-zero (o.at t i)))))

  pub some_ones : (x : ℕ) → x < 2 ^ bits t → (x != 0) ≡ any_range (bits t) 0 (λ i. bit x (o.at t i))
  some_ones x w =
      ne-not_eq x ∙ ap not (all_zeros x w) ∙ sym (any_range-not (bits t) 0 (λ i. bit x (o.at t i)))

  -- Counting in the order's order counts each bit once.
  count_below :
      (f : ℕ → Bool) (p : ℕ)
      → p ≤ bits t
      → count_range (bits t) 0 (λ i. ltb (o.at t i) p && f (o.at t i)) ≡ count_range p 0 f
  unfolding count_range
  count_below f zero h = count_none (bits t) 0 _ (λ i. ground arith)
  count_below f (suc p) h =
      let at = lawful.at_onto t p h in
      count_plus (bits t) 0 _ (λ i. ltb (o.at t i) p && f (o.at t i)) (λ i. (i == at.0) && f p)
        (λ i l. ground (
          arith,
          at.2,
          lawful.at_injective t i at.0 (omega arith) at.1,
          λ (e : o.at t i ≡ p). ap f e,
          λ (e : i ≡ at.0). ap (o.at t) e,
        ))
      ∙ ap₂ ◌+◌ (count_below f p (omega arith))
          (count_one (bits t) 0 at.0 (f p) (omega arith) (omega (arith, at.1)))
      ∙ sym (count_last p 0 f ∙ ap (λ k. count_range p 0 f + to_ℕ (f k)) (zero-add p))

  pub count_ones_lem : (x : ℕ) → count_ones t x ≡ count_range (bits t) 0 (λ i. bit x (o.at t i))
  unfolding count_ones
  count_ones_lem x =
      ones_lem (bits t) x
      ∙ sym (count_below (bit x) (bits t) (omega arith))
      ∙ count_range-ext (bits t) 0 _ _ (λ i p q. ground (arith, lawful.at_lt t i (omega arith)))
