-- ===== src/Slice/Moves/Reverse.antt =====
-- `BitSlice::reverse` ends, and puts the bits in the opposite order.
use bitvec_sgx.Base.{
  ltb→lt, inr, inl, Bool-cases, ℕ, zero, suc, ◌-◌, ◌≤◌, ◌<◌, ◌≡◌, ap, arith, Bool, ltb, some,
  Option,
}
use bitvec_sgx.Store.{BitStore}
use bitvec_sgx.Order.{BitOrder, IsBitOrder}
use bitvec_sgx.Access.{Radium}
use bitvec_sgx.Memory.{Memory, IsMemory}
use bitvec_sgx.Pointer.{BitPtr, len_of}
use bitvec_sgx.Slice.{len, get_unchecked, swap_unchecked}
use bitvec_sgx.Slice.Locate.{IsSlice, len-eq-len_of}
use bitvec_sgx.Slice.Ranges.{range, range_unchecked}
use bitvec_sgx.Slice.Ranges.Views.{IsView, subregion-IsView, get_unchecked-view}
use bitvec_sgx.Slice.Ranges.Splits.{sub_usize-eq}
use bitvec_sgx.Slice.Rewrites.{
  IsRewritten, Rewritten-as, Rewritten-trans, unchanged, swap_unchecked-IsRewritten,
  view-IsRewritten,
}
use bitvec_sgx.Slice.Moves.{reverse, reverse_loop}

-- The slice that the next round works on.
inner-IsView :
    (t : BitStore) (s : BitPtr)
    → IsSlice t s
    → 2 ≤ len_of t s
    → IsView t s 1 (len_of t s - 1 - 1) (range_unchecked t (range 1 (len_of t s - 1)) s)
unfolding range_unchecked
inner-IsView t s v h =
    rw (sub_usize-eq t s 1 (len_of t s - 1) v (omega arith) (omega arith))
      (subregion-IsView t s 1 (len_of t s - 1 - 1) v (omega arith))

module _ (r : Radium) (o : BitOrder) (lawful : IsBitOrder o) (t : BitStore) where
  abbrev mirrored : Memory → BitPtr → ℕ → Bool
  mirrored m s i = get_unchecked r o t m s (len_of t s - 1 - i)

  abbrev Reversed : Memory → BitPtr → Option Memory → Type 0
  Reversed m s out = (m' : Memory) × (out ≡ some m') × IsRewritten r o t m s (mirrored m s) m'

  -- One round: the ends are swapped, and the inside is reversed.
  round :
      (m m' : Memory) (s sub : BitPtr)
      → IsMemory t m
      → IsSlice t s
      → 2 ≤ len_of t s
      → IsView t s 1 (len_of t s - 1 - 1) sub
      → IsRewritten r o t
          (swap_unchecked r o t m s 0 (len_of t s - 1))
          sub
          (mirrored (swap_unchecked r o t m s 0 (len_of t s - 1)) sub)
          m'
      → IsRewritten r o t m s (mirrored m s) m'
  round m m' s sub w v h view z =
      let back = len_of t s - 1 in
      let m₁ = swap_unchecked r o t m s 0 back in
      let swapped =
        swap_unchecked-IsRewritten r o lawful t s v m 0 back w (omega arith) (omega arith) in
      let after = view-IsRewritten r o lawful t s v m₁ m' sub 1 (back - 1) _ view (omega arith) z in
      Rewritten-as r o lawful t s v m m' _ _
        (Rewritten-trans r o lawful t s v m m₁ m' _ _ swapped after)
        (λ i l. ground (
          arith,
          view.length,
          swapped.inside i l,
          swapped.inside (back - i) (omega arith),
          get_unchecked-view r o t m₁ view (back - 1 - 1 - (i - 1)),
        ))

  reverse_loop-ok :
      (fuel : ℕ) (m : Memory) (s : BitPtr)
      → IsMemory t m
      → IsSlice t s
      → len_of t s < fuel
      → Reversed m s (reverse_loop r o t fuel m s)
  unfolding reverse_loop
  reverse_loop-ok zero m s w v h = absurd (omega arith)
  reverse_loop-ok (suc fuel) m s w v h = elim (Bool-cases (ltb (len_of t s) 2)) [
    | inl short ↦ (
      m,
      ground (arith, len-eq-len_of t s),
      Rewritten-as r o lawful t s v m m _ _ (unchanged r o lawful t s v m w)
          (λ i l. ap (λ k. get_unchecked r o t m s k) (omega (arith, ltb→lt _ _ short))),
    )
    | inr long ↦
        let sub = range_unchecked t (range 1 (len_of t s - 1)) s in
        let two : 2 ≤ len_of t s = ground arith in
        let view = inner-IsView t s v two in
        let swapped =
          swap_unchecked-IsRewritten r o lawful t s v m 0 (len_of t s - 1) w (omega arith)
            (omega arith) in
        let (m', e, z) =
          reverse_loop-ok fuel (swap_unchecked r o t m s 0 (len_of t s - 1)) sub swapped.memory
            view.slice (omega (arith, view.length)) in
        (m', rw (len-eq-len_of t s, long, e), round m m' s sub w v two view z)
  ]

  -- For a lawful order, well-typed memory and a slice inside the address space, the loop
  -- ends; afterwards bit `i` of the slice is the former bit `len - 1 - i`, no bit outside the
  -- slice has changed, and memory is still well typed.
  pub reverse-ok :
      (m : Memory) (s : BitPtr) → IsMemory t m → IsSlice t s → Reversed m s (reverse r o t m s)
  unfolding reverse
  reverse-ok m s w v = reverse_loop-ok (suc (len t s)) m s w v (omega (arith, len-eq-len_of t s))
