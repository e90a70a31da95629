-- ===== src/Fields/Elements.antt =====
-- One chunk, as bits of an element: its value is a field of the element's word, and a write of the
-- field assigns the chunk's bits.
use native.Mathlib.Nat.{div-div-eq-div-mul}
use bitvec_sgx.Base.{
  ℕ, zero, suc, ◌+◌, ◌-◌, ◌*◌, ◌/◌, ◌%◌, ◌^◌, ◌≤◌, ◌<◌, ◌≡◌, refl, sym, ◌∙◌, ap, arith, to_ℕ, ◌==◌,
  if◌then◌else◌, ltb, leb, ◌&&◌, [], ◌++◌,
}
use bitvec_sgx.Bits.{bit, pow2}
use bitvec_sgx.Store.{BitStore, bits}
use bitvec_sgx.Order.{BitOrder, IsBitOrder, lsb0, msb0}
use bitvec_sgx.Order.Laws.{lsb0-IsBitOrder, msb0-IsBitOrder}
use bitvec_sgx.Access.{Radium}
use bitvec_sgx.Access.Laws.{get_lem}
use bitvec_sgx.Memory.{Memory, IsMemory, write}
use bitvec_sgx.Domain.Locations.{Location}
use bitvec_sgx.Slice.{read}
use bitvec_sgx.Fields.Splits.{mod_low_bit, mod_top_bit, pow2_add}
use bitvec_sgx.Fields.Chunks.{LowBit, first, last, chunk_value, Assignment, assign, high_bit}
use bitvec_sgx.Fields.Assignments.{override, override-append, override-assign, position}

abbrev pub order : LowBit → BitOrder
order first = lsb0
order last = msb0

pub order-IsBitOrder : (k : LowBit) → IsBitOrder (order k)
order-IsBitOrder first = lsb0-IsBitOrder
order-IsBitOrder last = msb0-IsBitOrder

-- The lowest bit of the element that a chunk holds.
abbrev pub lowest : LowBit → BitStore → ℕ → ℕ → ℕ
lowest first t i n = i
lowest last t i n = bits t - (i + n)

-- `m'` is `m` after the writes `a`.
pub record IsStored (r : Radium) (k : LowBit) (t : BitStore) (m : Memory) (a : Assignment)
    (m' : Memory) : Type 0 where
  pub memory : IsMemory t m'
  pub stored :
      (l : Location)
      → l.1 < bits t
      → read r (order k) t m' l ≡ override (read r (order k) t m l) l a

module _ (r : Radium) (k : LowBit) (t : BitStore) where
  pub read_lem :
      (m : Memory) (e j : ℕ)
      → j < bits t
      → read r (order k) t m (e, j) ≡ bit (m e) ((order k).at t j)
  read_lem m e j h = get_lem r (order k) (order-IsBitOrder k) t (m e) j h

  pub no_writes : (m : Memory) → IsMemory t m → IsStored r k t m [] m
  unfolding override
  no_writes m w = record { memory = w; stored = λ l h. refl }

  pub IsStored-append :
      (m m' m'' : Memory) (a b : Assignment)
      → IsStored r k t m a m'
      → IsStored r k t m' b m''
      → IsStored r k t m (a ++ b) m''
  IsStored-append m m' m'' a b p q = record {
    memory = q.memory;
    stored = λ l h.
        q.stored l h
        ∙ ap (λ x. override x l b) (p.stored l h)
        ∙ sym (override-append (read r (order k) t m l) l a b);
  }

-- The word shifted down to the chunk, and cut at its width, is the value.
pub chunk_value-read :
    (r : Radium) (k : LowBit) (t : BitStore) (m : Memory) (e i n : ℕ)
    → i + n ≤ bits t
    → chunk_value k (read r (order k) t m) e i n ≡ m e / 2 ^ lowest k t i n % 2 ^ n
unfolding chunk_value
chunk_value-read r k t m e i zero h = omega arith
chunk_value-read r first t m e i (suc n) h =
    let low : to_ℕ (read r lsb0 t m (e, i)) ≡ m e / 2 ^ i % 2 =
      ap to_ℕ (read_lem r first t m e i (omega arith)) ∙ high_bit (m e) i in
    let shifted : m e / 2 ^ i / 2 ≡ m e / 2 ^ suc i =
      div-div-eq-div-mul (m e) (2 ^ i) 2 ∙ ap (λ x. m e / x) (omega (arith, pow2 i)) in
    omega (
      arith,
      low,
      chunk_value-read r first t m e (suc i) n (omega arith),
      mod_low_bit n (m e / 2 ^ i),
      ap (λ (x : ℕ). x % 2 ^ n) shifted,
    )
chunk_value-read r last t m e i (suc n) h =
    let lo = bits t - (i + suc n) in
    let top : bits t - 1 - i ≡ lo + n = omega arith in
    let high : to_ℕ (read r msb0 t m (e, i)) ≡ m e / 2 ^ lo / 2 ^ n % 2 =
      ap to_ℕ (read_lem r last t m e i (omega arith))
      ∙ high_bit (m e) (bits t - 1 - i)
      ∙ ap (λ x. m e / x % 2) (ap (λ p. 2 ^ p) top ∙ pow2_add lo n)
      ∙ ap (λ x. x % 2) (sym (div-div-eq-div-mul (m e) (2 ^ lo) (2 ^ n))) in
    let same : bits t - (suc i + n) ≡ lo = omega arith in
    omega (
      arith,
      ap (λ (x : ℕ). x * 2 ^ n) high,
      chunk_value-read r last t m e (suc i) n (omega arith),
      ap (λ (x : ℕ). m e / 2 ^ x % 2 ^ n) same,
      mod_top_bit n (m e / 2 ^ lo),
    )

-- `c` is `old` with the `n` bits from `lo` on replaced by the low bits of `v`.
abbrev pub HasField : ℕ → ℕ → ℕ → ℕ → ℕ → ℕ → Type 0
HasField w lo n v old c =
    (p : ℕ) → p < w → bit c p ≡ (if leb lo p && ltb p (lo + n) then bit v (p - lo) else bit old p)

bit_of : {x y : ℕ} (j : ℕ) → x ≡ y → bit x j ≡ bit y j
bit_of j e = ap (λ x. bit x j) e

bit_at : (v : ℕ) {p q : ℕ} → p ≡ q → bit v p ≡ bit v q
bit_at v e = ap (bit v) e

stored_at :
    (r : Radium) (k : LowBit) (t : BitStore) (m : Memory) (v e i n c a j : ℕ)
    → i + n ≤ bits t
    → j < bits t
    → HasField (bits t) (lowest k t i n) n v (m e) c
    → read r (order k) t (write m e c) (a, j) ≡ (
        if (e == a) && leb i j && ltb j (i + n)
        then bit v (position k i n j)
        else read r (order k) t m (a, j))
stored_at r first t m v e i n c a j h l new = ground (
  arith,
  read_lem r first t (write m e c) a j l,
  read_lem r first t m a j l,
  new j l,
  λ (q : e ≡ a). bit_of j (ap m q),
)
stored_at r last t m v e i n c a j h l new =
    let at = bits t - 1 - j in
    ground (
      arith,
      read_lem r last t (write m e c) a j l,
      read_lem r last t m a j l,
      new at (omega arith),
      λ (q : e ≡ a). bit_of at (ap m q),
      λ (x : i ≤ j) (y : j < i + n).
          bit_at v {p = at - (bits t - (i + n))} {q = i + n - 1 - j} (omega arith),
    )

-- A write of such a word stores the chunk.
pub field-IsStored :
    (r : Radium) (k : LowBit) (t : BitStore) (m : Memory) (v e i n c : ℕ)
    → IsMemory t m
    → i + n ≤ bits t
    → c < 2 ^ bits t
    → HasField (bits t) (lowest k t i n) n v (m e) c
    → IsStored r k t m (assign k v e i n) (write m e c)
field-IsStored r k t m v e i n c w h fits new = record {
  memory = λ a. ground (arith, w a);
  stored = λ (a, j) l.
      stored_at r k t m v e i n c a j h l new
      ∙ sym (override-assign k (read r (order k) t m (a, j)) a j v e i n);
}
