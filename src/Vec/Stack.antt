-- ===== src/Vec/Stack.antt =====
-- src/vec/api.rs: `push`, `pop` and `truncate`.
use bitvec_sgx.Indices.{span_idx}
use bitvec_sgx.Pointer.New.{touched}
use bitvec_sgx.Pointer.Encoding.{parts-IsRegion}
use bitvec_sgx.Memory.{Memory}
use bitvec_sgx.Order.{IsBitOrder, BitOrder}
use bitvec_sgx.Access.{Radium}
use bitvec_sgx.Base.{
  ◌⊎◌, true, leb, false, ℕ, suc, ◌+◌, ◌-◌, ◌^◌, ◌≤◌, ◌<◌, ◌≡◌, ◌≢◌, refl, ◌∙◌, arith, Outcome, ok,
  Bool, subst, ltb, if◌then◌else◌, ◌==◌, min, some, none, ◌||◌, Bool-cases, inl, inr,
}
use bitvec_sgx.Store.{BitStore, bits, u8, u16, u32, u64, usize}
use bitvec_sgx.Pointer
use bitvec_sgx.Pointer.{head, max_bits, len_of}
use bitvec_sgx.Slice.{get_unchecked, set_unchecked, len, is_empty}
use bitvec_sgx.Slice.Locate.{len-eq-len_of}
use bitvec_sgx.Pointer.Tail.{tail-eq-span}
use bitvec_sgx.Slice.Rewrites.{set_unchecked-IsRewritten, unchanged}
use bitvec_sgx.Vec.{Allocator, BitVec, with_vec, set_len, push, pop, truncate}
use bitvec_sgx.Vec.Shape.{
  IsAllocator, IsBitVec, IsBitVec-IsSlice, raw_of, touched_mono, touched_more,
}
use bitvec_sgx.Vec.Contents.{
  relength-head, relength-len, with_vec-IsRegrown, relength-IsBitVec, Holds, relength,
  set_len-eq-relength, get_unchecked-relength, IsRegrown,
}

module _ (r : Radium) (o : BitOrder) (t : BitStore) where
  pub len_held :
      (st : Memory × BitVec) (n : ℕ) (f : ℕ → Bool) → Holds r o t st n f → len t st.1.pointer ≡ n
  len_held st n f h = len-eq-len_of t st.1.pointer ∙ h.length

  -- A shorter length keeps the bits below it.
  pub shorten :
      (m : Memory) (b : BitVec) (n k : ℕ) (f : ℕ → Bool)
      → Holds r o t (m, b) n f
      → k ≤ n
      → (set_len t b k ≡ ok (relength r o t b k)) × Holds r o t (m, relength r o t b k) k f
  shorten m b n k f h l =
      let g = parts-IsRegion t b.pointer h.vec.words in
      let short : k ≤ max_bits = omega (arith, g.fits, h.length) in
      let fewer : touched t (head t b.pointer) k ≤ b.capacity = omega (
        arith,
        h.vec.raw.filled,
        touched_mono t (head t b.pointer) k (len_of t b.pointer) g.head_in g.fits
            (omega (arith, h.length)),
      ) in
      (
        set_len-eq-relength r o t b k h.vec short fewer,
        record {
          vec = relength-IsBitVec r o t b k h.vec short fewer;
          memory = h.memory;
          length = relength-len r o t b k h.vec short;
          inside = λ i p.
              get_unchecked-relength r o t m b k i h.vec short fewer p (omega (arith, h.length))
              ∙ h.inside i (omega arith);
        },
      )

  -- A vector that holds `n` bits, truncated to `k` bits, does not panic and holds the first
  -- `min n k` of them.
  pub truncate-Holds :
      (m : Memory) (b : BitVec) (n k : ℕ) (f : ℕ → Bool)
      → Holds r o t (m, b) n f
      → (b' : BitVec) × (truncate t b k ≡ ok b') × Holds r o t (m, b') (min n k) f
  unfolding truncate
  truncate-Holds m b n k f h = elim (Bool-cases (ltb k n)) [
    | inl less ↦
        let (e, held) = shorten m b n k f h (ground arith) in
        (
          relength r o t b k,
          rw (len_held (m, b) n f h, less) e,
          subst (λ j. Holds r o t (m, relength r o t b k) j f) (ground arith) held,
        )
    | inr more ↦ (
      b,
      rw (len_held (m, b) n f h, more) refl,
      subst (λ j. Holds r o t (m, b) j f) (ground arith) h,
    )
  ]

  zero_fits : (t : BitStore) → 0 < 2 ^ bits t
  zero_fits u8 = omega arith
  zero_fits u16 = omega arith
  zero_fits u32 = omega arith
  zero_fits u64 = omega arith
  zero_fits usize = omega arith

  module _ (a : Allocator) where
    -- From a vector that holds no bits, `pop` gives `None` and changes nothing; from one that
    -- holds `k + 1` it gives the last and leaves the first `k`.
    pub pop-Holds :
        (m : Memory) (b : BitVec) (n : ℕ) (f : ℕ → Bool)
        → Holds r o t (m, b) n f
        → (n ≡ 0 → pop r o t a (m, b) ≡ ok (none, b))
          × ((k : ℕ)
              → n ≡ suc k
              → (b' : BitVec) × (pop r o t a (m, b) ≡ ok (some (f k), b'))
                × Holds r o t (m, b') k f)
    unfolding pop
    pop-Holds m b n f h = (
      λ e. rw (len_held (m, b) n f h, e) refl,
      λ k e.
          let before : suc k - 1 ≡ k = omega arith in
          let some_left : (suc k == 0) ≡ false = ground arith in
          let (shorter, held) = shorten m b n k f h (omega arith) in
          (
            relength r o t b k,
            rw (len_held (m, b) n f h, e, some_left, before, shorter, h.inside k (omega arith))
                refl,
            held,
          ),
    )

    module _ (lawful : IsBitOrder o) (limit : ℕ) (laws : IsAllocator t a limit) where
      -- What `push` does before it writes: the vector has the same bits, and room for one more.
      abbrev IsRoomy : Memory → BitVec → Outcome (Memory × BitVec) → Type 0
      IsRoomy m b x =
          (st : Memory × BitVec) × (x ≡ ok st)
          × IsRegrown r o t m b st
          × (touched t (head t b.pointer) (len_of t b.pointer + 1) ≤ st.1.capacity)

      full : BitVec → Bool
      full b = is_empty t b.pointer || Pointer.tail t b.pointer == bits t

      grown-IsRoomy :
          (m : Memory) (b : BitVec)
          → IsBitVec t b
          → len_of t b.pointer < max_bits
          → touched t (head t b.pointer) (len_of t b.pointer + 1) ≤ limit
          → full b ≡ true
          → IsRoomy m b (with_vec t (a.vec_push 0) (m, b))
      unfolding full is_empty len
      grown-IsRoomy m b v p q fu =
          let g = parts-IsRegion t b.pointer v.words in
          let more = touched_more t (head t b.pointer) (len_of t b.pointer) g.head_in p in
          let ended : (len_of t b.pointer ≡ 0)
              ⊎ ((span_idx t (head t b.pointer) (len_of t b.pointer)).1 ≡ bits t) =
            ground (arith, tail-eq-span t b.pointer v.words, len-eq-len_of t b.pointer) in
          let one = more.2 ended in
          let (out, e, moved, longer, _) =
            laws.pushes 0 m (raw_of t b) (zero_fits t) v.raw (omega arith) in
          let (st, f, regrown, capacity) =
            with_vec-IsRegrown r o t (a.vec_push 0) m b out v e moved (omega (arith, longer)) in
          (st, f, regrown, omega (arith, capacity, longer, moved.raw.filled, one))

      kept-IsRoomy :
          (m : Memory) (b : BitVec)
          → IsBitVec t b
          → len_of t b.pointer < max_bits
          → full b ≡ false
          → IsRoomy m b (ok (m, b))
      unfolding full is_empty len
      kept-IsRoomy m b v p q =
          let g = parts-IsRegion t b.pointer v.words in
          let more = touched_more t (head t b.pointer) (len_of t b.pointer) g.head_in p in
          let inhabited : 0 < len_of t b.pointer = ground (arith, len-eq-len_of t b.pointer) in
          let inner : (span_idx t (head t b.pointer) (len_of t b.pointer)).1 ≢ bits t =
            ground (arith, tail-eq-span t b.pointer v.words) in
          (
            (m, b),
            refl,
            record { vec = v; memory = λ w. w; length = refl; index = refl; inside = λ i l. refl },
            omega (arith, v.raw.filled, more.1 inhabited inner),
          )

      make_room-IsRoomy :
          (m : Memory) (b : BitVec)
          → IsBitVec t b
          → len_of t b.pointer < max_bits
          → touched t (head t b.pointer) (len_of t b.pointer + 1) ≤ limit
          → IsRoomy m b (if full b then with_vec t (a.vec_push 0) (m, b) else ok (m, b))
      make_room-IsRoomy m b v p q = elim (Bool-cases (full b)) [
        | inl e ↦ rw e (grown-IsRoomy m b v p q e)
        | inr e ↦ rw e (kept-IsRoomy m b v p e)
      ]

      -- For a lawful order, a vector that holds `n` bits, fewer than `MAX_BITS`, and a machine that
      -- can hold the elements for one more bit: `push` does not panic, and the vector then
      -- holds the `n` bits, whether its elements moved or not, and behind them the new one. Its first
      -- bit has the same index in its element.
      pub push-Holds :
          (value : Bool) (m : Memory) (b : BitVec) (n : ℕ) (f : ℕ → Bool)
          → Holds r o t (m, b) n f
          → n < max_bits
          → touched t (head t b.pointer) (n + 1) ≤ limit
          → (st : Memory × BitVec) × (push r o t a value (m, b) ≡ ok st)
            × Holds r o t st (n + 1) (λ i. if i == n then value else f i)
            × (head t st.1.pointer ≡ head t b.pointer)
      unfolding push full relength
      push-Holds value m b n f h p q =
          let (st, e, regrown, room) =
            make_room-IsRoomy m b h.vec (omega (arith, h.length)) (rw h.length q) in
          let b' = relength r o t st.1 (n + 1) in
          let in_range : leb n max_bits ≡ true = ground arith in
          let enough : touched t (head t st.1.pointer) (n + 1) ≤ st.1.capacity =
            rw regrown.index
              (subst (λ k. touched t (head t b.pointer) (k + 1) ≤ st.1.capacity) h.length room) in
          let short : n + 1 ≤ max_bits = omega arith in
          let vec = relength-IsBitVec r o t st.1 (n + 1) regrown.vec short enough in
          let length = relength-len r o t st.1 (n + 1) regrown.vec short in
          let slice = IsBitVec-IsSlice t b' vec in
          let written =
            set_unchecked-IsRewritten r o lawful t b'.pointer slice st.0 st.0 _ n value
              (unchanged r o lawful t b'.pointer slice st.0 (regrown.memory h.memory))
              (omega (arith, length)) in
          let old : (i : ℕ) → i < n → get_unchecked r o t st.0 b'.pointer i ≡ f i = λ i l.
            get_unchecked-relength r o t st.0 st.1 (n + 1) i regrown.vec short enough (omega arith)
              (omega (arith, regrown.length, h.length))
            ∙ regrown.inside i (omega (arith, h.length))
            ∙ h.inside i l in
          (
            (set_unchecked r o t st.0 b'.pointer n value, b'),
            rw (len_held (m, b) n f h, in_range, e) refl,
            record {
              vec = vec;
              memory = written.memory;
              length = length;
              inside = λ i l. written.inside i (omega (arith, length)) ∙ ground (arith, old i);
            },
            relength-head r o t st.1 (n + 1) regrown.vec short ∙ regrown.index,
          )
