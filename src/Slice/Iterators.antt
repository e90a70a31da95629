-- ===== src/Slice/Iterators.antt =====
-- src/slice/iter.rs: the iterators over a slice. The iterators over `&mut` slices hand out the same
-- regions; each has a definition only where its code takes another way.
pub mod Iter
pub mod Windows
pub mod Chunks
pub mod ChunksExact
pub mod RChunks
pub mod RChunksExact
pub mod Drain
pub mod Tiles
use bitvec_sgx.Base.{
  ℕ, zero, suc, ◌+◌, ◌*◌, ◌/◌, ◌%◌, ◌^◌, Bool, leb, ltb, to_ℕ, ◌==◌, if◌then◌else◌, List, [], ◌∷◌,
  Option, none, some, Outcome, ok, panic,
}

-- What a call of an iterator does: it may panic, or gives an item or `None`, and the new state.
abbrev pub Next : Type 0 → Type 0 → Type 0
Next S A = S → Outcome (Option A × S)

-- A `for` loop that collects what the iterator gives; without fuel it gives up.
unfoldable pub drain : {S A : Type 0} → Next S A → ℕ → S → Option (Outcome (List A))
drain next zero s = none
drain next (suc fuel) s = elim (next s) [
  | panic ↦ some panic
  | ok (none, _) ↦ some (ok [])
  | ok (some x, s') ↦ elim (drain next fuel s') [
    | none ↦ none
    | some panic ↦ some panic
    | some (ok xs) ↦ some (ok (x ∷ xs))
  ]
]

-- How many items were collected.
abbrev pub count : {A : Type 0} → List A → ℕ
count [] = 0
count (x ∷ xs) = suc (count xs)

-- `usize::overflowing_mul` and `usize::overflowing_add`
abbrev pub overflowing_mul : ℕ → ℕ → ℕ × Bool
overflowing_mul a b = (a * b % 2 ^ 64, leb (2 ^ 64) (a * b))

abbrev pub overflowing_add : ℕ → ℕ → ℕ × Bool
overflowing_add a b = ((a + b) % 2 ^ 64, leb (2 ^ 64) (a + b))

-- The number of pieces of width `w` that cover `n` bits.
abbrev pub pieces : ℕ → ℕ → ℕ
pieces w n = if n == 0 then 0 else n / w + to_ℕ (ltb 0 (n % w))
