-- ===== src/Slice/Ops/Numbers.antt =====
-- The number that the bits of a slice spell.
use bitvec_sgx.Base.{
  ℕ, zero, suc, ◌+◌, ◌-◌, ◌*◌, ◌^◌, ◌≤◌, ◌<◌, ◌≡◌, refl, ◌∙◌, ap, arith, Bool, true, false, not,
  to_ℕ, to_ℕ-le, ap₂,
}
use native.Mathlib.Nat.{add-zero}
use bitvec_sgx.Bits.{pow2}
use bitvec_sgx.Store.{BitStore}
use bitvec_sgx.Order.{BitOrder}
use bitvec_sgx.Access.{Radium}
use bitvec_sgx.Memory.{Memory}
use bitvec_sgx.Pointer.{BitPtr, len_of}
use bitvec_sgx.Slice.{get_unchecked}
use bitvec_sgx.Fields.Numbers.{lsb_number}

module _ (r : Radium) (o : BitOrder) (t : BitStore) (s : BitPtr) where
  -- From the first bit up.
  abbrev pub number_up : Memory → ℕ
  number_up m = lsb_number (len_of t s) 0 (λ i. get_unchecked r o t m s i)

  -- From the last bit up.
  abbrev pub number_down : Memory → ℕ
  number_down m = lsb_number (len_of t s) 0 (λ j. get_unchecked r o t m s (len_of t s - 1 - j))

-- Numbers by their bits.
pub lsb_number-ext :
    (n k : ℕ) (f g : ℕ → Bool)
    → ((i : ℕ) → k ≤ i → i < k + n → f i ≡ g i)
    → lsb_number n k f ≡ lsb_number n k g
unfolding lsb_number
lsb_number-ext zero k f g e = refl
lsb_number-ext (suc n) k f g e =
    ap₂ (λ b x. to_ℕ b + 2 * x) (e k (omega arith) (omega arith))
      (lsb_number-ext n (suc k) f g (λ i p q. e i (omega arith) (omega arith)))

pub lsb_number-lt : (n k : ℕ) (f : ℕ → Bool) → lsb_number n k f < 2 ^ n
unfolding lsb_number
lsb_number-lt zero k f = omega arith
lsb_number-lt (suc n) k f = omega (arith, pow2 n, to_ℕ-le (f k), lsb_number-lt n (suc k) f)

-- The highest bit apart.
pub lsb_number-last :
    (n k : ℕ) (f : ℕ → Bool) → lsb_number (suc n) k f ≡ lsb_number n k f + 2 ^ n * to_ℕ (f (k + n))
unfolding lsb_number
lsb_number-last zero k f = omega (arith, ap (λ i. to_ℕ (f i)) (add-zero k))
lsb_number-last (suc n) k f =
    let same : suc k + n ≡ k + suc n = omega arith in
    omega (
      arith,
      lsb_number-last n (suc k) f,
      ap (λ i. 2 ^ suc n * to_ℕ (f i)) same,
      ap (λ (x : ℕ). x * to_ℕ (f (suc k + n))) (pow2 n),
    )

-- A number is zero when all its bits are, and only then.
pub lsb_number-none :
    (n k : ℕ) (f : ℕ → Bool) → ((i : ℕ) → k ≤ i → i < k + n → f i ≡ false) → lsb_number n k f ≡ 0
unfolding lsb_number
lsb_number-none zero k f e = refl
lsb_number-none (suc n) k f e = omega (
  arith,
  ap to_ℕ (e k (omega arith) (omega arith)),
  lsb_number-none n (suc k) f (λ i p q. e i (omega arith) (omega arith)),
)

pub none-lsb_number :
    (n k : ℕ) (f : ℕ → Bool) → lsb_number n k f ≡ 0 → (j : ℕ) → j < n → f (k + j) ≡ false
unfolding lsb_number
none-lsb_number zero k f e j h = absurd (omega arith)
none-lsb_number (suc n) k f e zero h = ground (arith, add-zero k)
none-lsb_number (suc n) k f e (suc j) h =
    ap f (omega arith) ∙ none-lsb_number n (suc k) f (omega arith) j (omega arith)

-- Flipping the bits complements the number.
one_of_two : (b : Bool) → to_ℕ (not b) + to_ℕ b ≡ 1
one_of_two true = refl
one_of_two false = refl

pub lsb_number-not :
    (n k : ℕ) (f : ℕ → Bool) → suc (lsb_number n k (λ i. not (f i)) + lsb_number n k f) ≡ 2 ^ n
unfolding lsb_number
lsb_number-not zero k f = refl
lsb_number-not (suc n) k f = omega (arith, pow2 n, lsb_number-not n (suc k) f, one_of_two (f k))
