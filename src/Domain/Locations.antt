-- ===== src/Domain/Locations.antt =====
-- Where the bits of a region lie: bit `i` of a region that starts at bit `h` of the element at
-- `a` is a pair of an element address and an index there.
use bitvec_sgx.Base.{
  ℕ, zero, suc, ◌+◌, ◌*◌, ◌≤◌, ◌<◌, ◌≡◌, refl, ◌∙◌, sym, ap, ap₂, arith, ◌==◌, ==_iff, ne→not_==,
  if◌then◌else◌, List, [], ◌∷◌, ◌++◌,
}
use native.Mathlib.Nat.{zero-add, suc-add, suc-mul, zero-mul, add_comm}
use bitvec_sgx.Domain.{cells}
use bitvec_sgx.Store.{BitStore, size_of, bits, u8, u16, u32, u64, usize}

abbrev pub Location : Type 0
Location = ℕ × ℕ

-- One step in memory order.
abbrev pub next_location : BitStore → Location → Location
next_location t (a, i) = if suc i == bits t then (a + size_of t, 0) else (a, suc i)

next_inside : (t : BitStore) (a i : ℕ) → suc i < bits t → next_location t (a, i) ≡ (a, suc i)
next_inside t a i h = rw (ne→not_== (suc i) (bits t) (omega arith))

next_edge : (t : BitStore) (a i : ℕ) → suc i ≡ bits t → next_location t (a, i) ≡ (a + size_of t, 0)
next_edge t a i h = rw ((==_iff (suc i) (bits t)).1 h)

-- The next `n` locations.
unfoldable pub locations : BitStore → Location → ℕ → List Location
locations t l zero = []
locations t l (suc n) = l ∷ locations t (next_location t l) n

-- The location `n` steps on.
unfoldable pub walk : BitStore → Location → ℕ → Location
walk t l zero = l
walk t l (suc n) = walk t (next_location t l) n

pub locations-add :
    (t : BitStore) (l : Location) (m n : ℕ)
    → locations t l (m + n) ≡ locations t l m ++ locations t (walk t l m) n
unfolding locations walk
locations-add t l zero n = rw zero-add
locations-add t l (suc m) n = rw (suc-add, locations-add t (next_location t l) m n)

pub walk-add : (t : BitStore) (l : Location) (m n : ℕ) → walk t l (m + n) ≡ walk t (walk t l m) n
unfolding walk
walk-add t l zero n = rw zero-add
walk-add t l (suc m) n = rw (suc-add, walk-add t (next_location t l) m n)

-- Within one element.
unfoldable pub within : ℕ → ℕ → ℕ → List Location
within a i zero = []
within a i (suc n) = (a, i) ∷ within a (suc i) n

pub locations-within :
    (t : BitStore) (a i n : ℕ) → i + n ≤ bits t → locations t (a, i) n ≡ within a i n
unfolding locations within
locations-within t a i zero h = refl
locations-within t a i (suc zero) h = refl
locations-within t a i (suc (suc n)) h = ap (◌∷◌ (a, i)) (
    ap (λ l. locations t l (suc n)) (next_inside t a i (omega arith))
    ∙ locations-within t a (suc i) (suc n) (omega arith))

pub walk_inside : (t : BitStore) (a i n : ℕ) → i + n < bits t → walk t (a, i) n ≡ (a, i + n)
unfolding walk
walk_inside t a i zero h = ap (λ j. (a, j)) (omega arith)
walk_inside t a i (suc n) h =
    ap (λ l. walk t l n) (next_inside t a i (omega arith))
    ∙ walk_inside t a (suc i) n (omega arith)
    ∙ ap (λ j. (a, j)) (omega arith)

pub walk_edge :
    (t : BitStore) (a i n : ℕ) → i < bits t → i + n ≡ bits t → walk t (a, i) n ≡ (a + size_of t, 0)
unfolding walk
walk_edge t a i zero l h = absurd (omega arith)
walk_edge t a i (suc zero) l h = next_edge t a i (omega arith)
walk_edge t a i (suc (suc n)) l h =
    ap (λ l. walk t l (suc n)) (next_inside t a i (omega arith))
    ∙ walk_edge t a (suc i) (suc n) (omega arith) (omega arith)

-- Whole elements.
unfoldable pub whole : BitStore → List ℕ → List Location
whole t [] = []
whole t (a ∷ l) = within a 0 (bits t) ++ whole t l

pub bits_pos : (t : BitStore) → 0 < bits t
bits_pos u8 = omega arith
bits_pos u16 = omega arith
bits_pos u32 = omega arith
bits_pos u64 = omega arith
bits_pos usize = omega arith

pub locations-cells :
    (t : BitStore) (a k : ℕ) → locations t (a, 0) (k * bits t) ≡ whole t (cells t a k)
unfolding whole
locations-cells t a zero =
    ap (λ n. locations t (a, 0) n) (zero-mul (bits t)) ∙ (unfold locations in refl)
locations-cells t a (suc k) =
    ap (λ n. locations t (a, 0) n) (suc-mul k (bits t) ∙ add_comm (k * bits t) (bits t))
    ∙ locations-add t (a, 0) (bits t) (k * bits t)
    ∙ ap₂ ◌++◌ (locations-within t a 0 (bits t) (omega arith)) (
        ap (λ l. locations t l (k * bits t)) (walk_edge t a 0 (bits t) (bits_pos t) (omega arith))
        ∙ locations-cells t (a + size_of t) k)

pub walk_cells : (t : BitStore) (a k : ℕ) → walk t (a, 0) (k * bits t) ≡ (a + k * size_of t, 0)
walk_cells t a zero =
    ap (λ n. walk t (a, 0) n) (zero-mul (bits t)) ∙ (unfold walk in ap (λ b. (b, 0)) (omega arith))
walk_cells t a (suc k) =
    ap (λ n. walk t (a, 0) n) (suc-mul k (bits t) ∙ add_comm (k * bits t) (bits t))
    ∙ walk-add t (a, 0) (bits t) (k * bits t)
    ∙ ap (λ l. walk t l (k * bits t)) (walk_edge t a 0 (bits t) (bits_pos t) (omega arith))
    ∙ walk_cells t (a + size_of t) k
    ∙ ap (λ b. (b, 0)) (omega (arith, suc-mul k (size_of t)))

-- The location `n` bits on, by division: what `BitIdx::offset` computes.
pub walk_lem :
    (t : BitStore) (a h n q r : ℕ)
    → h < bits t
    → r < bits t
    → h + n ≡ q * bits t + r
    → walk t (a, h) n ≡ (a + q * size_of t, r)
walk_lem t a h n q r p l e =
    ap (λ l. walk t l n) (sym (walk_inside t a 0 h (omega arith) ∙ ap (λ j. (a, j)) (zero-add h)))
    ∙ sym (walk-add t (a, 0) h n)
    ∙ ap (λ m. walk t (a, 0) m) e
    ∙ walk-add t (a, 0) (q * bits t) r
    ∙ ap (λ l. walk t l r) (walk_cells t a q)
    ∙ walk_inside t (a + q * size_of t) 0 r (omega arith)
    ∙ ap (λ j. (a + q * size_of t, j)) (zero-add r)
