-- ===== src/Slice/Ops/Bitwise.antt =====
-- The Boolean operators combine a slice with an operand bit by bit.
use bitvec_sgx.Base.{
  ℕ, zero, suc, ◌≤◌, ◌≡◌, refl, ◌∙◌, ap, arith, Bool, false, not, ◌&&◌, ◌||◌, if◌then◌else◌, ltb,
  min, List, [], ◌∷◌,
}
use bitvec_sgx.Store.{BitStore}
use bitvec_sgx.Order.{BitOrder, IsBitOrder}
use bitvec_sgx.Access.{Radium}
use bitvec_sgx.Memory.{Memory, IsMemory}
use bitvec_sgx.Pointer.{BitPtr, len_of}
use bitvec_sgx.Slice.{get_unchecked}
use bitvec_sgx.Slice.Locate.{IsSlice, len-eq-len_of}
use bitvec_sgx.Slice.Rewrites.{IsRewritten, Rewritten-as}
use bitvec_sgx.Slice.Moves.Fill.{prefix_loop, none_yet}
use bitvec_sgx.Slice.Ops.{combine, bitand_assign, bitor_assign, bitxor_assign, item, length}

-- Past the end of the operand `false` is yielded.
item_beyond : (bs : List Bool) (i : ℕ) → length bs ≤ i → item bs i ≡ false
item_beyond [] i h = refl
item_beyond (b ∷ bs) zero h = absurd (omega arith)
item_beyond (b ∷ bs) (suc i) h = item_beyond bs i (omega arith)

module _ (r : Radium) (o : BitOrder) (lawful : IsBitOrder o) (t : BitStore) (s : BitPtr)
    (v : IsSlice t s) (m : Memory) (w : IsMemory t m) (rhs : List Bool) where
  abbrev old : ℕ → Bool
  old i = get_unchecked r o t m s i

  combine_prefix :
      (op : Bool → Bool → Bool) (n : ℕ)
      → n ≤ len_of t s
      → IsRewritten r o t m s
          (λ i. if ltb i n then op (old i) (item rhs i) else old i)
          (combine r o t op n m s rhs)
  unfolding combine
  combine_prefix op n h =
      Rewritten-as r o lawful t s v m _ _ _
        (prefix_loop r o lawful t s v m (λ idx m'. op (get_unchecked r o t m' s idx) (item rhs idx))
          (λ i. op (old i) (item rhs i))
          (λ k m' l z. ap (λ b. op b (item rhs k)) (z.inside k l ∙ ground arith)) n 0 m
          (omega arith) (none_yet r o lawful t s v m _ w))
        (λ i l. ground arith)

  -- For a lawful order, well-typed memory, a slice inside the address space and any operand,
  -- each of `&=`, `|=` and `^=` makes bit `i` the combination of the old bit and the operand's
  -- bit `i` (`false` where it has ended), changes no bit outside the slice, and keeps memory
  -- well typed.
  pub bit_assigns-IsRewritten :
      IsRewritten r o t m s (λ i. old i && item rhs i) (bitand_assign r o t m s rhs)
      × IsRewritten r o t m s (λ i. old i || item rhs i) (bitor_assign r o t m s rhs)
      × IsRewritten r o t m s
          (λ i. if old i then not (item rhs i) else item rhs i)
          (bitxor_assign r o t m s rhs)
  unfolding bitand_assign bitor_assign bitxor_assign
  bit_assigns-IsRewritten = rw (len-eq-len_of t s) (
    Rewritten-as r o lawful t s v m _ _ _
        (combine_prefix (λ a b. a && b) (len_of t s) (omega arith)) (λ i l. ground arith),
    Rewritten-as r o lawful t s v m _ _ _
        (combine_prefix (λ a b. a || b) (min (length rhs) (len_of t s)) (omega arith))
        (λ i l. ground (arith, item_beyond rhs i)),
    Rewritten-as r o lawful t s v m _ _ _
        (combine_prefix (λ a b. if a then not b else b) (min (length rhs) (len_of t s))
          (omega arith))
        (λ i l. ground (arith, item_beyond rhs i)),
  )
