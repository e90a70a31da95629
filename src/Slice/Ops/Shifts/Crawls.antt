-- ===== src/Slice/Ops/Shifts/Crawls.antt =====
-- The bit by bit shifts move each bit by the shift amount and clear the rest.
use bitvec_sgx.Base.{
  ℕ, zero, suc, ◌+◌, ◌-◌, ◌≤◌, ◌<◌, ◌≡◌, refl, ap, arith, Bool, false, ◌&&◌, ◌==◌, ltb, leb,
  if◌then◌else◌, Option, some, Outcome, ok, inl, inr, Bool-cases, for_range,
}
use native.Mathlib.Nat.{sub-zero}
use bitvec_sgx.Store.{BitStore}
use bitvec_sgx.Order.{BitOrder, IsBitOrder}
use bitvec_sgx.Access.{Radium}
use bitvec_sgx.Memory.{Memory, IsMemory}
use bitvec_sgx.Pointer.{BitPtr, len_of}
use bitvec_sgx.Domain.{BitDomain, domain, is_spanning}
use bitvec_sgx.Domain.Live.{domain-Splits}
use bitvec_sgx.Slice.{bitptr, get_unchecked, copy_unchecked}
use bitvec_sgx.Slice.Locate.{IsSlice, len-eq-len_of}
use bitvec_sgx.Slice.Rewrites.{
  IsRewritten, Rewritten-as, Rewritten-trans, unchanged, set_unchecked-IsRewritten,
  view-IsRewritten,
}
use bitvec_sgx.Slice.Ranges.{SliceRange, range_from, range_to, range_get, range_index}
use bitvec_sgx.Slice.Ranges.Splits.{range_get-some}
use bitvec_sgx.Slice.Ranges.Views.{IsView, bitptr-IsSlice}
use bitvec_sgx.Slice.Bulk.{set_all}
use bitvec_sgx.Slice.Bulk.Fill.{set_all-ok}
use bitvec_sgx.Slice.Ops.Shifts.{
  crawl_left, crawl_right, shl_crawl, shr_crawl, shl_assign, shr_assign,
}

range_index-ok :
    (t : BitStore) (i : SliceRange) (s sub : BitPtr)
    → range_get t i s ≡ some sub
    → range_index t i s ≡ ok sub
unfolding range_index
range_index-ok t i s sub e = rw (e, range_index) refl

module _ (r : Radium) (o : BitOrder) (lawful : IsBitOrder o) (t : BitStore) (s : BitPtr)
    (v : IsSlice t s) (m : Memory) (w : IsMemory t m) (shamt : ℕ) where
  abbrev pub old : ℕ → Bool
  old i = get_unchecked r o t m s i

  -- Bits below `k` are shifted.
  abbrev pub below : ℕ → ℕ → Bool
  below k i = if ltb i k then old (shamt + i) else old i

  pub left_loop :
      (n k : ℕ) (m' : Memory)
      → shamt + k + n ≤ len_of t s
      → IsRewritten r o t m s (below k) m'
      → IsRewritten r o t m s
          (below (k + n))
          (for_range n k (λ to m. copy_unchecked r o t m s (shamt + to) to) m')
  unfolding for_range copy_unchecked
  left_loop zero k m' h p = Rewritten-as r o lawful t s v m m' _ _ p (λ i l. ground arith)
  left_loop (suc n) k m' h p =
      let next =
        Rewritten-as r o lawful t s v m _ _ (below (suc k))
          (set_unchecked-IsRewritten r o lawful t s v m m' _ k
            (get_unchecked r o t m' s (shamt + k)) p (omega arith))
          (λ i l.
            ground (arith, p.inside (shamt + k), λ (x : k ≡ i). ap (λ j. old (shamt + j)) x)) in
      Rewritten-as r o lawful t s v m _ _ _ (left_loop n (suc k) _ (omega arith) next)
        (λ i l. ground arith)

  -- Bits from `shamt + k` on are shifted.
  abbrev pub from_here : ℕ → ℕ → Bool
  from_here k i = if leb (shamt + k) i then old (i - shamt) else old i

  pub right_loop :
      (k : ℕ) (m' : Memory)
      → shamt + k ≤ len_of t s
      → IsRewritten r o t m s (from_here k) m'
      → IsRewritten r o t m s (from_here 0) (crawl_right r o t k shamt s m')
  unfolding crawl_right copy_unchecked
  right_loop zero m' h p = p
  right_loop (suc k) m' h p = right_loop k _ (omega arith) (
      Rewritten-as r o lawful t s v m _ _ (from_here k)
        (set_unchecked-IsRewritten r o lawful t s v m m' _ (shamt + k) (get_unchecked r o t m' s k)
          p (omega arith))
        (λ i l. ground (arith, p.inside k, λ (x : k ≡ i - shamt). ap old x)))

  -- A part of the slice is cleared.
  clear_part :
      (m' : Memory) (f : ℕ → Bool) (start n : ℕ) (i : SliceRange) (sub : BitPtr)
      → IsRewritten r o t m s f m'
      → start + n ≤ len_of t s
      → IsView t s start n sub
      → (m'' : Memory) × (set_all r o t m' sub false ≡ ok m'')
        × IsRewritten r o t m s (λ i. if leb start i && ltb i (start + n) then false else f i) m''
  clear_part m' f start n i sub p h view =
      let q = set_all-ok r o lawful t false sub view.slice m' p.memory in
      (
        q.0,
        q.1,
        Rewritten-as r o lawful t s v m q.0 _ _
            (Rewritten-trans r o lawful t s v m m' q.0 _ _ p
              (view-IsRewritten r o lawful t s v m' q.0 sub start n _ view h q.2))
            (λ i l. ground (arith, p.inside i l)),
      )

  abbrev Shifted : (ℕ → Bool) → Outcome Memory → Type 0
  Shifted f a = (m' : Memory) × (a ≡ ok m') × IsRewritten r o t m s f m'

  abbrev pub left : ℕ → Bool
  left i = if ltb (shamt + i) (len_of t s) then old (shamt + i) else false

  abbrev pub right : ℕ → Bool
  right i = if ltb i shamt then false else old (i - shamt)

  shl_crawl-Shifted : 0 < shamt → shamt < len_of t s → Shifted left (shl_crawl r o t m s shamt)
  unfolding shl_crawl crawl_left
  shl_crawl-Shifted h l =
      let moved = left_loop (len_of t s - shamt) 0 m (omega arith) (
        Rewritten-as r o lawful t s v m m _ _ (unchanged r o lawful t s v m w)
          (λ i l. ground arith)) in
      let part =
        range_get-some t s v (range_from (len_of t s - shamt)) (omega arith) (omega arith) in
      let q =
        clear_part _ _ (len_of t s - shamt) _ (range_from 0) part.0 moved (omega arith) part.2 in
      (
        q.0,
        rw (len-eq-len_of t s, range_index-ok t _ s part.0 part.1) q.1,
        Rewritten-as r o lawful t s v m q.0 _ _ q.2 (λ i l. ground arith),
      )

  shr_crawl-Shifted : 0 < shamt → shamt < len_of t s → Shifted right (shr_crawl r o t m s shamt)
  unfolding shr_crawl
  shr_crawl-Shifted h l =
      let moved = right_loop (len_of t s - shamt) m (omega arith) (
        Rewritten-as r o lawful t s v m m _ _ (unchanged r o lawful t s v m w)
          (λ i l. ground arith)) in
      let part = range_get-some t s v (range_to shamt) (omega arith) (omega arith) in
      let q = clear_part _ _ 0 _ (range_to 0) part.0 moved (omega arith) part.2 in
      (
        q.0,
        rw (len-eq-len_of t s, range_index-ok t _ s part.0 part.1) q.1,
        Rewritten-as r o lawful t s v m q.0 _ _ q.2 (λ i l. ground (arith, sub-zero i)),
      )

  abbrev pub Ends : (ℕ → Bool) → Option (Outcome Memory) → Type 0
  Ends f a = (m' : Memory) × (a ≡ some (ok m')) × IsRewritten r o t m s f m'

  Ends-by : (f : ℕ → Bool) (a : Outcome Memory) → Shifted f a → Ends f (some a)
  Ends-by f a p = (p.0, ap some p.1, p.2)

  not_moved : shamt ≡ 0 → Ends left (some (ok m)) × Ends right (some (ok m))
  not_moved z =
      let same = unchanged r o lawful t s v m w in
      (
        (
          m,
          refl,
          Rewritten-as r o lawful t s v m m _ _ same
              (λ i l. ground (arith, z, λ (x : i ≡ shamt + i). ap old x)),
        ),
        (
          m,
          refl,
          Rewritten-as r o lawful t s v m m _ _ same
              (λ i l. ground (arith, z, λ (x : i ≡ i - shamt). ap old x)),
        ),
      )

  all_cleared :
      len_of t s ≤ shamt
      → Ends left (some (set_all r o t m s false)) × Ends right (some (set_all r o t m s false))
  all_cleared h =
      let q = set_all-ok r o lawful t false s v m w in
      (
        (q.0, ap some q.1, Rewritten-as r o lawful t s v m q.0 _ _ q.2 (λ i l. ground arith)),
        (q.0, ap some q.1, Rewritten-as r o lawful t s v m q.0 _ _ q.2 (λ i l. ground arith)),
      )

  -- For a lawful order, well-typed memory and a slice inside the address space that does not
  -- span whole elements, both shifts end without a panic. After `<<=` bit `i` is the old bit
  -- `shamt + i`, or `false` past the end; after `>>=` it is the old bit `i - shamt`, or `false`
  -- below `shamt`. No bit outside the slice changes and memory stays well typed.
  pub shifts-ok :
      ((d : BitDomain) → domain t (bitptr s) ≡ ok d → is_spanning d ≡ false)
      → (fuel : ℕ)
      → Ends left (shl_assign r o t (suc fuel) m s shamt)
        × Ends right (shr_assign r o t (suc fuel) m s shamt)
  unfolding shl_assign shr_assign
  shifts-ok edges fuel = elim (Bool-cases (shamt == 0)) [
    | inl z ↦ rw z (not_moved (ground arith))
    | inr nz ↦ elim (Bool-cases (leb (len_of t s) shamt)) [
      | inl long ↦ rw (nz, len-eq-len_of t s, long) (all_cleared (ground arith))
      | inr short ↦
          let d = domain-Splits t (bitptr s) (bitptr-IsSlice t s v).words in
          rw (nz, len-eq-len_of t s, short, d.1, edges d.0 d.1)
            (
              Ends-by left _ (shl_crawl-Shifted (ground arith) (ground arith)),
              Ends-by right _ (shr_crawl-Shifted (ground arith) (ground arith)),
            )
    ]
  ]
