-- ===== src/Slice/Ops.antt =====
-- src/slice/ops.rs, and the addition of src/slice.rs and src/lib.rs: the operators on slices. An
-- operand that is an iterator of `bool` is the list of what it yields.
pub mod Numbers
pub mod Bitwise
pub mod Addition
pub mod Inversion
pub mod Negation
pub mod Shifts
use bitvec_sgx.Base.{
  ℕ, zero, suc, ◌+◌, ◌-◌, Bool, true, false, not, ◌&&◌, ◌||◌, ◌==◌, ◌!=◌, bit_and, if◌then◌else◌,
  min, to_ℕ, List, [], ◌∷◌, ◌++◌, Option, none, some, inl, inr, Outcome, ok, panic, ◌>>=◌, ◌>>◌,
  for_range,
}
use mathlib.Core.List.{reverse}
use bitvec_sgx.Store.{BitStore, bits, not_word}
use bitvec_sgx.Order.{BitOrder}
use bitvec_sgx.Access.{Radium, invert_bit}
use bitvec_sgx.Pointer.{BitPtr}
use bitvec_sgx.Domain.{Splat, domain, splat}
use bitvec_sgx.Memory.{Memory, write}
use bitvec_sgx.Slice.{bitptr, len, is_empty, get_unchecked, set_unchecked}
use bitvec_sgx.Slice.Bulk.{if_some, not_any}

-- `rca1`: the sum and the carry of three bits.
unfoldable pub rca1 : Bool → Bool → Bool → Bool × Bool
rca1 a b c = let yz = to_ℕ a + to_ℕ b + to_ℕ c in (bit_and yz 1 != 0, bit_and yz 2 != 0)

-- How many bits an iterator yields, and the `i`th of it chained with `repeat(false)`.
abbrev pub length : List Bool → ℕ
length [] = 0
length (b ∷ bs) = suc (length bs)

abbrev pub item : List Bool → ℕ → Bool
item [] i = false
item (b ∷ bs) zero = b
item (b ∷ bs) (suc i) = item bs i

module _ (r : Radium) (o : BitOrder) (t : BitStore) where
  -- `set_unchecked(idx, val op bit)` for the first `n` bits of the operand.
  unfoldable pub combine : (Bool → Bool → Bool) → ℕ → Memory → BitPtr → List Bool → Memory
  unfolding for_range
  combine op n m s rhs =
      for_range n 0
        (λ idx m. set_unchecked r o t m s idx (op (get_unchecked r o t m s idx) (item rhs idx))) m

  -- `BitAndAssign::bitand_assign`: the operand is chained with `false`.
  unfoldable pub bitand_assign : Memory → BitPtr → List Bool → Memory
  unfolding combine
  bitand_assign m s rhs = combine (λ a b. a && b) (len t s) m s rhs

  -- `BitOrAssign::bitor_assign`
  unfoldable pub bitor_assign : Memory → BitPtr → List Bool → Memory
  unfolding combine
  bitor_assign m s rhs = combine (λ a b. a || b) (min (length rhs) (len t s)) m s rhs

  -- `BitXorAssign::bitxor_assign`
  unfoldable pub bitxor_assign : Memory → BitPtr → List Bool → Memory
  unfolding combine
  bitxor_assign m s rhs =
      combine (λ a b. if a then not b else b) (min (length rhs) (len t s)) m s rhs

  -- One round of the additions: bit `i` of the slice, the addend's bit, and the carry.
  unfoldable pub add_step : BitPtr → ℕ → Bool → Memory × Bool → Memory × Bool
  unfolding rca1
  add_step s i b (m, c) =
      let a = get_unchecked r o t m s i in
      let (y, z) = rca1 a b c in (set_unchecked r o t m s i y, z)

  -- `BitSlice::add_assign_reverse`, with the carry that it returns.
  unfoldable pub add_assign_reverse : Memory → BitPtr → List Bool → Memory × Bool
  unfolding add_step for_range
  add_assign_reverse m s addend =
      for_range (len t s) 0 (λ i st. add_step s i (item addend i) st) (m, false)

  -- `AddAssign::add_assign`: from the last bit of both.
  unfoldable pub add_assign : Memory → BitPtr → List Bool → Memory
  unfolding add_step for_range
  add_assign m s addend =
      let back = reverse addend in
      let n = len t s in
      (for_range n 0 (λ j st. add_step s (n - 1 - j) (item back j) st) (m, false)).0

  -- `for n in from .. to { e.invert_bit(n) }`
  unfoldable pub element_not : ℕ → ℕ → ℕ → Memory → Memory
  unfolding for_range
  element_not e from to m =
      for_range (to - from) from (λ n m. write m e (invert_bit r o t (m e) n)) m

  unfoldable pub body_not : List ℕ → Memory → Memory
  body_not [] m = m
  body_not (e ∷ body) m = body_not body (write m e (r.store (m e) (not_word t (r.load (m e)))))

  unfoldable pub not_parts : Splat → Memory → Memory
  unfolding element_not body_not
  not_parts (inr (h, e, tl)) m = element_not e h tl m
  not_parts (inl (h, b, tl)) m =
      let m = if_some h m (λ (h, head). element_not head h (bits t) m) in
      let m = if_some b m (λ body. body_not body m) in
      if_some tl m (λ (tail, tl). element_not tail 0 tl m)

  -- `Not::not`
  unfoldable pub not_slice : Memory → BitPtr → Outcome Memory
  unfolding not_parts splat
  not_slice m s = do d ← domain t (bitptr s); ok (not_parts (splat d) m)

  -- `Neg::neg`
  unfoldable pub neg : Memory → BitPtr → Outcome Memory
  unfolding not_slice add_assign
  neg m s = do
    clear ← (if is_empty t s then ok true else not_any r o t m s)
    if clear
        then ok m
        else (if get_unchecked r o t m s 0
            then (do
              let m' = set_unchecked r o t m s 0 false
              alone ← not_any r o t m' s
              if alone then ok m' else (do
                m'' ← not_slice (set_unchecked r o t m' s 0 true) s
                ok (add_assign m'' s (true ∷ []))))
            else (do m'' ← not_slice m s; ok (add_assign m'' s (true ∷ []))))
