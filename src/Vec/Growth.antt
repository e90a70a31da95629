-- ===== src/Vec/Growth.antt =====
-- src/vec/api.rs: `reserve`, `resize` and `extend_from_slice`.
use bitvec_sgx.Pointer.New.{touched}
use bitvec_sgx.Pointer.{BitPtr, head, len_of, max_bits}
use bitvec_sgx.Memory.{Memory}
use bitvec_sgx.Order.{IsBitOrder, BitOrder}
use bitvec_sgx.Access.{Radium}
use bitvec_sgx.Base.{
  ℕ, ◌+◌, ◌-◌, ◌%◌, ◌^◌, ◌≤◌, ◌<◌, ◌≡◌, refl, ◌∙◌, arith, Outcome, ok, Bool, true, subst, ltb, leb,
  if◌then◌else◌, Bool-cases, inl, inr,
}
use bitvec_sgx.Store.{BitStore}
use bitvec_sgx.Pointer.Encoding.{parts-IsRegion}
use bitvec_sgx.Slice.{get_unchecked}
use bitvec_sgx.Slice.Locate.{len-eq-len_of}
use bitvec_sgx.Slice.Rewrites.{IsRewritten, view-IsRewritten}
use bitvec_sgx.Slice.Ranges.{range_from, range_index}
use bitvec_sgx.Slice.Ranges.Splits.{range_get_in}
use bitvec_sgx.Slice.Moves.Fill.{clone_from_slice-ok}
use bitvec_sgx.Slice.Bulk.Fill.{set_all-ok}
use bitvec_sgx.Vec.{Allocator, BitVec, set_len, reserve, resize, extend_from_slice}
use bitvec_sgx.Vec.Shape.{
  IsAllocator, IsBitVec, IsBitVec-IsSlice, raw_of, touched_mono, elements-eq-touched,
}
use bitvec_sgx.Vec.Contents.{
  Holds, Holds-as, relength, relength-len, relength-IsBitVec, get_unchecked-relength,
  set_len-eq-relength, IsRegrown, with_vec-IsRegrown,
}
use bitvec_sgx.Vec.Stack.{len_held, truncate-Holds}
use bitvec_sgx.Vec.Edits.{behind, behind-IsView, rewritten-Holds}

module _ (r : Radium) (o : BitOrder) (lawful : IsBitOrder o) (t : BitStore) (a : Allocator)
    (limit : ℕ) (laws : IsAllocator t a limit) where
  -- A vector with the same bits and room for `k`.
  abbrev pub IsReserved : ℕ → Memory → BitVec → Outcome (Memory × BitVec) → Type 0
  IsReserved k m b x =
      (st : Memory × BitVec) × (x ≡ ok st)
      × IsRegrown r o t m b st
      × (touched t (head t b.pointer) k ≤ st.1.capacity)

  pub reserve-IsReserved :
      (extra k : ℕ) (m : Memory) (b : BitVec)
      → IsBitVec t b
      → len_of t b.pointer + extra ≡ k
      → k ≤ max_bits
      → touched t (head t b.pointer) k ≤ limit
      → IsReserved k m b (reserve t a extra (m, b))
  unfolding reserve
  reserve-IsReserved extra k m b v e p q =
      let n = len_of t b.pointer in
      let h = head t b.pointer in
      let g = parts-IsRegion t b.pointer v.words in
      let more : touched t h n ≤ touched t h k = touched_mono t h n k g.head_in p (omega arith) in
      let present : leb (touched t h n) (touched t h k) ≡ true = ground arith in
      let in_range : leb k max_bits ≡ true = ground arith in
      let newlen : (n + extra) % 2 ^ 64 ≡ k = omega arith in
      let (out, made, moved, kept, room) =
        laws.reserves (touched t h k - touched t h n) m (raw_of t b) v.raw (omega arith) in
      let (st, f, regrown, capacity) =
        with_vec-IsRegrown r o t (a.vec_reserve (touched t h k - touched t h n)) m b out v made
          moved (omega (arith, kept)) in
      (
        st,
        rw (len-eq-len_of t b.pointer, newlen, elements-eq-touched, in_range, present) f,
        regrown,
        omega (arith, capacity, room),
      )

  -- Room is made for the bits from `n` on, and what is written there is theirs.
  widen :
      (m : Memory) (b : BitVec) (n k : ℕ) (f : ℕ → Bool)
      → Holds r o t (m, b) n f
      → n ≤ k
      → k ≤ max_bits
      → touched t (head t b.pointer) k ≤ limit
      → (st : Memory × BitVec) × (b' : BitVec) × (reserve t a (k - n) (m, b) ≡ ok st)
        × (set_len t st.1 k ≡ ok b')
        × Holds r o t (st.0, b') k (λ i. get_unchecked r o t st.0 b'.pointer i)
        × ((i : ℕ) → i < n → get_unchecked r o t st.0 b'.pointer i ≡ f i)
        × (range_index t (range_from n) b'.pointer ≡ ok (behind r o lawful t b' n))
  unfolding range_index
  widen m b n k f h l p q =
      let (st, e, regrown, room) =
        reserve-IsReserved (k - n) k m b h.vec (omega (arith, h.length)) p q in
      let b' = relength r o t st.1 k in
      let enough : touched t (head t st.1.pointer) k ≤ st.1.capacity = rw regrown.index room in
      let vec = relength-IsBitVec r o t st.1 k regrown.vec p enough in
      let length = relength-len r o t st.1 k regrown.vec p in
      (
        st,
        b',
        e,
        set_len-eq-relength r o t st.1 k regrown.vec p enough,
        record {
          vec = vec;
          memory = regrown.memory h.memory;
          length = length;
          inside = λ i l. refl;
        },
        λ i j.
            get_unchecked-relength r o t st.0 st.1 k i regrown.vec p enough (omega arith)
              (omega (arith, regrown.length, h.length))
            ∙ regrown.inside i (omega (arith, h.length))
            ∙ h.inside i j,
        rw
            (
              range_index,
              range_get_in t b'.pointer (IsBitVec-IsSlice t b' vec) (range_from n)
                  (omega (arith, length)) (omega arith),
            )
            refl,
      )

  -- What is written behind the first `n` bits leaves them.
  behind-Holds :
      (m m' : Memory) (b : BitVec) (n k : ℕ) (f g : ℕ → Bool)
      → Holds r o t (m, b) k (λ i. get_unchecked r o t m b.pointer i)
      → ((i : ℕ) → i < n → get_unchecked r o t m b.pointer i ≡ f i)
      → n ≤ k
      → IsRewritten r o t m (behind r o lawful t b n) g m'
      → Holds r o t (m', b) k (λ i. if ltb i n then f i else g (i - n))
  behind-Holds m m' b n k f g h old l w =
      let view = behind-IsView r o lawful t b k n h.vec h.length l in
      let slice = IsBitVec-IsSlice t b h.vec in
      let whole =
        view-IsRewritten r o lawful t b.pointer slice m m' (behind r o lawful t b n) n (k - n) _
          view (omega (arith, h.length)) w in
      Holds-as r o t (m', b) k _ _ (rewritten-Holds r o lawful t m m' b k _ _ h whole)
        (λ i p. ground (arith, old i))

  -- For a lawful order, a vector that holds `n` bits, a slice in other memory and of any order and
  -- element type, and a machine that can hold the elements for both: `extend_from_slice` does not
  -- panic, and the vector then holds its bits, and the slice's behind them.
  pub extend_from_slice-Holds :
      (d : BitOrder) (u : BitStore) (from : Memory) (other : BitPtr) (m : Memory) (b : BitVec)
      (n : ℕ) (f : ℕ → Bool)
      → Holds r o t (m, b) n f
      → n + len_of u other ≤ max_bits
      → touched t (head t b.pointer) (n + len_of u other) ≤ limit
      → (st : Memory × BitVec) × (extend_from_slice r o t a d u from other (m, b) ≡ ok st)
        × Holds r o t st
            (n + len_of u other)
            (λ i. if ltb i n then f i else get_unchecked r d u from other (i - n))
  unfolding extend_from_slice
  extend_from_slice-Holds d u from other m b n f h p q =
      let k = n + len_of u other in
      let (st, b', reserved, longer, held, old, indexed) = widen m b n k f h (omega arith) p q in
      let rest : k - n ≡ len_of u other = omega arith in
      let view = behind-IsView r o lawful t b' k n held.vec held.length (omega arith) in
      let (m', copied, written) =
        clone_from_slice-ok r o lawful t (behind r o lawful t b' n) view.slice st.0 r d u from other
          held.memory (view.length ∙ rest) in
      let total : k % 2 ^ 64 ≡ k = omega arith in
      (
        (m', b'),
        rw
            (
              len_held r o t (m, b) n f h,
              len-eq-len_of u other,
              subst (λ e. reserve t a e (m, b) ≡ ok st) rest reserved,
              total,
              longer,
              indexed,
              copied,
            )
            refl,
        behind-Holds st.0 m' b' n k f _ held old (omega arith) written,
      )

  -- For a lawful order, a vector that holds `n` bits, and a machine that can hold the elements for
  -- the new length: `resize` does not panic, and the vector then holds the bits below both lengths,
  -- and the given value at every other index.
  pub resize-Holds :
      (k : ℕ) (value : Bool) (m : Memory) (b : BitVec) (n : ℕ) (f : ℕ → Bool)
      → Holds r o t (m, b) n f
      → k ≤ max_bits
      → touched t (head t b.pointer) k ≤ limit
      → (st : Memory × BitVec) × (resize r o t a k value (m, b) ≡ ok st)
        × Holds r o t st k (λ i. if ltb i n then f i else value)
  unfolding resize
  resize-Holds k value m b n f h p q = elim (Bool-cases (ltb k n)) [
    | inl less ↦
        let (b', e, held) = truncate-Holds r o t m b n k f h in
        (
          (m, b'),
          rw (len_held r o t (m, b) n f h, less, e) refl,
          Holds-as r o t (m, b') k _ _ (subst (λ j. Holds r o t (m, b') j f) (ground arith) held)
              (λ i l. ground arith),
        )
    | inr not_less ↦ elim (Bool-cases (ltb n k)) [
      | inl more ↦
          let (st, b', reserved, longer, held, old, indexed) =
            widen m b n k f h (ground arith) p q in
          let view = behind-IsView r o lawful t b' k n held.vec held.length (ground arith) in
          let (m', set, written) =
            set_all-ok r o lawful t value (behind r o lawful t b' n) view.slice st.0 held.memory in
          (
            (m', b'),
            rw (len_held r o t (m, b) n f h, not_less, more, reserved, longer, indexed, set) refl,
            behind-Holds st.0 m' b' n k f _ held old (ground arith) written,
          )
      | inr same ↦ (
        (m, b),
        rw (len_held r o t (m, b) n f h, not_less, same) refl,
        subst (λ j. Holds r o t (m, b) j (λ i. if ltb i n then f i else value)) (ground arith)
            (Holds-as r o t (m, b) n _ _ h (λ i l. ground arith)),
      )
    ]
  ]
