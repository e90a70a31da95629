-- ===== src/Vec/Ops/Shifts.antt =====
-- src/vec/ops.rs: `shl_assign` and `shr_assign`.
use bitvec_sgx.Order.{IsBitOrder, BitOrder}
use bitvec_sgx.Memory.{Memory}
use bitvec_sgx.Access.{Radium}
use bitvec_sgx.Base.{
  ℕ, zero, suc, ◌+◌, ◌-◌, ◌≤◌, ◌≡◌, refl, sym, arith, ok, min, Bool, false, subst, ltb, leb,
  if◌then◌else◌, Bool-cases, inl, inr,
}
use bitvec_sgx.Store.{BitStore}
use bitvec_sgx.Pointer.{head, max_bits}
use bitvec_sgx.Pointer.New.{touched}
use bitvec_sgx.Pointer.Encoding.{parts-IsRegion}
use bitvec_sgx.Slice.Bulk.Fill.{set_all-ok}
use bitvec_sgx.Vec.{Allocator, BitVec, clear}
use bitvec_sgx.Vec.Shape.{IsAllocator, IsBitVec-IsSlice, touched_mono}
use bitvec_sgx.Vec.Contents.{Holds, Holds-as, relength}
use bitvec_sgx.Vec.Stack.{len_held, shorten, truncate-Holds, push-Holds}
use bitvec_sgx.Vec.Edits.{rewritten-Holds}
use bitvec_sgx.Vec.Ops.{shl_assign, lengthen, shr_assign}
use bitvec_sgx.Vec.Ops.Loops.{front-Reaches, back-Reaches, clear_bits-Reaches}

module _ (r : Radium) (o : BitOrder) (lawful : IsBitOrder o) (t : BitStore) where
  -- For a lawful order and a vector that holds `n` bits: `<<=` does not panic, and the vector then
  -- holds the bits from `shamt` on, moved to the front, and no bits where `shamt` is `n` or more.
  pub shl_assign-Holds :
      (shamt : ℕ) (m : Memory) (b : BitVec) (n : ℕ) (f : ℕ → Bool)
      → Holds r o t (m, b) n f
      → (st : Memory × BitVec) × (shl_assign r o t shamt (m, b) ≡ ok st)
        × Holds r o t st (n - shamt) (λ i. f (i + shamt))
  unfolding shl_assign clear
  shl_assign-Holds shamt m b n f h = elim (Bool-cases (leb n shamt)) [
    | inl none_left ↦
        let slice = IsBitVec-IsSlice t b h.vec in
        let (m', e, cleared) = set_all-ok r o lawful t false b.pointer slice m h.memory in
        let (shorter, held) =
          shorten r o t m' b n 0 _ (rewritten-Holds r o lawful t m m' b n f _ h cleared)
            (omega arith) in
        (
          (m', relength r o t b 0),
          rw (len_held r o t (m, b) n f h, none_left, e, shorter) refl,
          Holds-as r o t _ (n - shamt) _ _
              (subst (λ k. Holds r o t (m', relength r o t b 0) k (λ i. false)) (ground arith) held)
              (λ i l. absurd (ground arith)),
        )
    | inr some_left ↦
        let (m1, e1, h1) = front-Reaches r o lawful t b n f m shamt h (ground arith) in
        let (m2, e2, h2) =
          clear_bits-Reaches r o lawful t b n _ m1 (n - shamt) (n - (n - shamt)) h1 (omega arith) in
        let (b', e3, held) = truncate-Holds r o t m2 b n (n - shamt) _ h2 in
        let shorter : min n (n - shamt) ≡ n - shamt = ground arith in
        (
          (m2, b'),
          rw (len_held r o t (m, b) n f h, some_left, e1, e2, e3) refl,
          subst (λ k. Holds r o t (m2, b') k (λ i. f (i + shamt))) shorter
              (Holds-as r o t (m2, b') (min n (n - shamt)) _ _ held (λ i l. ground arith)),
        )
  ]

  module _ (a : Allocator) (limit : ℕ) (laws : IsAllocator t a limit) where
    lengthen-Holds :
        (k : ℕ) (m : Memory) (b : BitVec) (n : ℕ) (f : ℕ → Bool)
        → Holds r o t (m, b) n f
        → n + k ≤ max_bits
        → touched t (head t b.pointer) (n + k) ≤ limit
        → (st : Memory × BitVec) × (lengthen r o t a k (m, b) ≡ ok st)
          × Holds r o t st (n + k) (λ i. if ltb i n then f i else false)
    unfolding lengthen
    lengthen-Holds zero m b n f h p q = (
      (m, b),
      refl,
      subst (λ k. Holds r o t (m, b) k (λ i. if ltb i n then f i else false)) (omega arith)
          (Holds-as r o t (m, b) n _ _ h (λ i l. ground arith)),
    )
    lengthen-Holds (suc k) m b n f h p q =
        let g = parts-IsRegion t b.pointer h.vec.words in
        let fewer =
          touched_mono t (head t b.pointer) (n + 1) (n + suc k) g.head_in p (omega arith) in
        let (st, e, held, same) =
          push-Holds r o t a lawful limit laws false m b n f h (omega arith)
            (omega (arith, fewer)) in
        let sum : n + suc k ≡ n + 1 + k = omega arith in
        let (st', e', held') =
          lengthen-Holds k st.0 st.1 (n + 1) _ held (omega arith)
            (rw same (subst (λ k. touched t (head t b.pointer) k ≤ limit) sum q)) in
        (
          st',
          rw e e',
          subst (λ k. Holds r o t st' k (λ i. if ltb i n then f i else false)) (sym sum)
              (Holds-as r o t st' (n + 1 + k) _ _ held' (λ i l. ground arith)),
        )

    -- For a lawful order, a vector that holds `n` bits, and a machine that can hold the elements for
    -- `shamt` more: `>>=` does not panic, and the vector then holds `shamt` bits that are false, and
    -- the former bits behind them.
    pub shr_assign-Holds :
        (shamt : ℕ) (m : Memory) (b : BitVec) (n : ℕ) (f : ℕ → Bool)
        → Holds r o t (m, b) n f
        → n + shamt ≤ max_bits
        → touched t (head t b.pointer) (n + shamt) ≤ limit
        → (st : Memory × BitVec) × (shr_assign r o t a shamt (m, b) ≡ ok st)
          × Holds r o t st (n + shamt) (λ i. if ltb i shamt then false else f (i - shamt))
    unfolding shr_assign
    shr_assign-Holds shamt m b n f h p q =
        let (st, e, longer) = lengthen-Holds shamt m b n f h p q in
        let (m1, e1, h1) =
          back-Reaches r o lawful t st.1 (n + shamt) _ st.0 n shamt longer (omega arith) p in
        let (m2, e2, h2) =
          clear_bits-Reaches r o lawful t st.1 (n + shamt) _ m1 0 shamt h1 (omega arith) in
        (
          (m2, st.1),
          rw (len_held r o t (m, b) n f h, e, e1, e2) refl,
          Holds-as r o t (m2, st.1) (n + shamt) _ _ h2 (λ i l. ground arith),
        )
