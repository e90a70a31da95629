-- ===== src/Slice/Moves/Fill.antt =====
-- Loops that write each bit of a slice once.
use bitvec_sgx.Base.{
  ◌≤◌, ℕ, zero, suc, ◌+◌, ◌<◌, ◌≡◌, refl, ◌∙◌, ap, arith, if◌then◌else◌, Bool, for_range, ltb, ok,
}
use bitvec_sgx.Store.{BitStore}
use bitvec_sgx.Order.{BitOrder, IsBitOrder}
use bitvec_sgx.Access.{Radium}
use bitvec_sgx.Memory.{Memory, IsMemory}
use bitvec_sgx.Pointer.{BitPtr, len_of}
use bitvec_sgx.Slice.{len, get_unchecked, set_unchecked}
use bitvec_sgx.Slice.Locate.{IsSlice, len-eq-len_of}
use bitvec_sgx.Slice.Rewrites.{IsRewritten, set_unchecked-IsRewritten, Rewritten-as, unchanged}
use bitvec_sgx.Slice.Moves.{for_each, clone_from_slice}

module _ (r : Radium) (o : BitOrder) (lawful : IsBitOrder o) (t : BitStore) (s : BitPtr)
    (v : IsSlice t s) where
  -- Bits below `k` are new, and those from `k` on old.
  abbrev pub so_far : (ℕ → Bool) → (ℕ → Bool) → ℕ → ℕ → Bool
  so_far f g k i = if ltb i k then f i else g i

  -- The body writes bit `k`, computed from the memory so far, which still holds the old bit `k`.
  pub prefix_loop :
      (m : Memory) (new : ℕ → Memory → Bool) (f : ℕ → Bool)
      → ((k : ℕ) (m' : Memory)
          → k < len_of t s
          → IsRewritten r o t m s (so_far f (λ i. get_unchecked r o t m s i) k) m'
          → new k m' ≡ f k)
      → (n k : ℕ) (m' : Memory) → k + n ≤ len_of t s
      → IsRewritten r o t m s (so_far f (λ i. get_unchecked r o t m s i) k) m'
      → IsRewritten r o t m s
          (so_far f (λ i. get_unchecked r o t m s i) (k + n))
          (for_range n k (λ idx m'. set_unchecked r o t m' s idx (new idx m')) m')
  unfolding for_range
  prefix_loop m new f step zero k m' e w =
      Rewritten-as r o lawful t s v m m' _ _ w (λ i h. ground arith)
  prefix_loop m new f step (suc n) k m' e w =
      let m'' = set_unchecked r o t m' s k (new k m') in
      let next =
        Rewritten-as r o lawful t s v m m'' _ (so_far f (λ i. get_unchecked r o t m s i) (suc k))
          (set_unchecked-IsRewritten r o lawful t s v m m' _ k (new k m') w (omega arith))
          (λ i h. ground (arith, step k m' (omega arith) w)) in
      Rewritten-as r o lawful t s v m _ _ _
        (prefix_loop m new f step n (suc k) m'' (omega arith) next) (λ i h. ground arith)

  fill_loop :
      (m : Memory) (new : ℕ → Memory → Bool) (f : ℕ → Bool)
      → ((k : ℕ) (m' : Memory)
          → k < len_of t s
          → IsRewritten r o t m s (so_far f (λ i. get_unchecked r o t m s i) k) m'
          → new k m' ≡ f k)
      → (n k : ℕ) (m' : Memory) → k + n ≡ len_of t s
      → IsRewritten r o t m s (so_far f (λ i. get_unchecked r o t m s i) k) m'
      → IsRewritten r o t m s f
          (for_range n k (λ idx m'. set_unchecked r o t m' s idx (new idx m')) m')
  fill_loop m new f step n k m' e w =
      Rewritten-as r o lawful t s v m _ _ f (prefix_loop m new f step n k m' (omega arith) w)
        (λ i h. ground arith)

  pub none_yet :
      (m : Memory) (f : ℕ → Bool)
      → IsMemory t m
      → IsRewritten r o t m s (so_far f (λ i. get_unchecked r o t m s i) 0) m
  none_yet m f w =
      Rewritten-as r o lawful t s v m m _ _ (unchanged r o lawful t s v m w) (λ i h. ground arith)

  -- For a lawful order, well-typed memory and a slice inside the address space, each bit
  -- becomes the function's value at its index and old bit, no bit outside the slice changes,
  -- and memory stays well typed.
  pub for_each-IsRewritten :
      (m : Memory) (func : ℕ → Bool → Bool)
      → IsMemory t m
      → IsRewritten r o t m s (λ i. func i (get_unchecked r o t m s i)) (for_each r o t m s func)
  unfolding for_each
  for_each-IsRewritten m func w = rw (len-eq-len_of t s) (
      fill_loop m (λ idx m'. func idx (get_unchecked r o t m' s idx)) _
        (λ k m' h z. ap (func k) (z.inside k h ∙ ground arith)) (len_of t s) 0 m (omega arith)
        (none_yet m _ w))

  -- For a lawful order, well-typed memory and a slice inside the address space, copying from
  -- a slice of the same length (of any order and element type, in memory that is not aliased)
  -- does not panic, makes bit `i` the source's bit `i`, changes no bit outside the slice, and
  -- keeps memory well typed.
  pub clone_from_slice-ok :
      (m : Memory) (q : Radium) (p : BitOrder) (u : BitStore) (from : Memory) (src : BitPtr)
      → IsMemory t m
      → len_of t s ≡ len_of u src
      → (m' : Memory) × (clone_from_slice r o t m s q p u from src ≡ ok m')
        × IsRewritten r o t m s (λ i. get_unchecked q p u from src i) m'
  unfolding clone_from_slice
  clone_from_slice-ok m q p u from src w e = (
    for_range (len t s) 0 (λ idx m. set_unchecked r o t m s idx (get_unchecked q p u from src idx))
        m,
    ground (arith, len-eq-len_of t s, len-eq-len_of u src),
    rw (len-eq-len_of t s) (
        fill_loop m (λ idx m'. get_unchecked q p u from src idx) _ (λ k m' h z. refl) (len_of t s) 0
          m (omega arith) (none_yet m _ w)),
  )
