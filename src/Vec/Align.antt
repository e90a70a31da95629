-- ===== src/Vec/Align.antt =====
-- src/vec.rs: `force_align`.
pub mod Start
use bitvec_sgx.Memory.{IsMemory, Memory}
use bitvec_sgx.Order.{IsBitOrder, BitOrder}
use bitvec_sgx.Access.{Radium}
use bitvec_sgx.Base.{
  ℕ, zero, suc, ◌+◌, ◌≤◌, ◌<◌, ◌≡◌, refl, sym, ◌∙◌, ap, arith, Bool, subst, ==_cases, inl, inr,
  ne→not_==, for_range,
}
use bitvec_sgx.Access
use bitvec_sgx.Store.{BitStore, bits, u8, u16, u32, u64, usize}
use bitvec_sgx.Indices.Span.{span_idx-Spans}
use bitvec_sgx.Pointer.{head, len_of, pointer, set_head, max_bits}
use bitvec_sgx.Pointer.New.{touched}
use bitvec_sgx.Pointer.Encoding.{parts-IsRegion}
use bitvec_sgx.Pointer.Setters.{set_len_parts, set_head_parts, set_head-IsBitPtr, set_len-set_len}
use bitvec_sgx.Slice.{locate, get_unchecked, copy_unchecked}
use bitvec_sgx.Slice.Locate.{locate-eq-divmod}
use bitvec_sgx.Slice.Rewrites.{Rewritten-as, unchanged}
use bitvec_sgx.Slice.Ops.Shifts.Crawls.{left_loop}
use bitvec_sgx.Vec.{BitVec, force_align}
use bitvec_sgx.Vec.Shape.{IsBitVec, IsBitVec-IsSlice, none_touched}
use bitvec_sgx.Vec.Contents.{
  Holds, Holds-as, relength, relength-IsBitVec, relength-len, relength-head,
}
use bitvec_sgx.Vec.Stack.{shorten}
use bitvec_sgx.Vec.Edits.{rewritten-Holds}
use bitvec_sgx.Vec.Align.Start.{
  aligned, whole, aligned-IsBitVec, aligned-head, whole-IsBitVec, whole_parts, get_unchecked-whole,
}

module _ (r : Radium) (o : BitOrder) (lawful : IsBitOrder o) (t : BitStore) where
  Aligned : BitVec → (ℕ → Bool) → Memory × BitVec → Type 0
  Aligned b f st = Holds r o t st (len_of t b.pointer) f × (head t st.1.pointer ≡ 0)

  -- An empty vector.
  empty-Aligned :
      (m : Memory) (b : BitVec) (f : ℕ → Bool)
      → IsBitVec t b
      → IsMemory t m
      → head t b.pointer + len_of t b.pointer ≤ max_bits
      → len_of t b.pointer ≡ 0
      → Aligned b f (m, relength r o t (whole r o lawful t b) (len_of t b.pointer))
  unfolding Aligned whole aligned relength
  empty-Aligned m b f v w h e =
      let start = aligned-IsBitVec r o lawful t b v h in
      let short : len_of t b.pointer ≤ max_bits = omega arith in
      let fits : touched t (head t (aligned r o lawful t b).pointer) 0 ≤ b.capacity =
        rw (none_touched t (head t (aligned r o lawful t b).pointer)) (omega arith) in
      let vec = relength-IsBitVec r o t (aligned r o lawful t b) (len_of t b.pointer) start short (
        subst
          (λ k.
            touched t (head t (aligned r o lawful t b).pointer) k
            ≤ (aligned r o lawful t b).capacity)
          (sym e) fits) in
      rw
        (set_len-set_len t (aligned r o lawful t b).pointer (head t b.pointer + len_of t b.pointer)
          (len_of t b.pointer) h short)
        (
          record {
            vec = vec;
            memory = w;
            length = relength-len r o t (aligned r o lawful t b) (len_of t b.pointer) start short;
            inside = λ i l. absurd (omega arith);
          },
          relength-head r o t (aligned r o lawful t b) (len_of t b.pointer) start short
              ∙ aligned-head r o lawful t b v,
        )

  moved-Aligned :
      (m : Memory) (b : BitVec) (f : ℕ → Bool)
      → Holds r o t (m, b) (len_of t b.pointer) f
      → head t b.pointer + len_of t b.pointer ≤ max_bits
      → 0 < len_of t b.pointer
      → Aligned b f (
        for_range
            (len_of t b.pointer)
            0
            (λ to m.
              copy_unchecked r o t m (whole r o lawful t b).pointer (head t b.pointer + to) to)
            m,
        relength r o t (whole r o lawful t b) (len_of t b.pointer),
      )
  unfolding Aligned
  moved-Aligned m b f h p l =
      let first = head t b.pointer in
      let n = len_of t b.pointer in
      let g = parts-IsRegion t b.pointer h.vec.words in
      let (length, index, place) = whole_parts r o lawful t b h.vec p in
      let vec = whole-IsBitVec r o lawful t b h.vec p l in
      let slice = IsBitVec-IsSlice t (whole r o lawful t b) vec in
      let before : Holds r o t (m, whole r o lawful t b) (first + n)
          (λ i. get_unchecked r o t m (whole r o lawful t b).pointer i) =
        record { vec = vec; memory = h.memory; length = length; inside = λ i l. refl } in
      let moved =
        left_loop r o lawful t (whole r o lawful t b).pointer slice m h.memory first n 0 m
          (omega (arith, length))
          (Rewritten-as r o lawful t (whole r o lawful t b).pointer slice m m _ _
            (unchanged r o lawful t (whole r o lawful t b).pointer slice m h.memory)
            (λ i l. ground arith)) in
      let (_, held) =
        shorten r o t _ (whole r o lawful t b) (first + n) n _
          (rewritten-Holds r o lawful t m _ (whole r o lawful t b) (first + n) _ _ before moved)
          (omega arith) in
      (
        Holds-as r o t _ n _ _ held (λ i q.
            ground (arith, get_unchecked-whole r o lawful t m b i h.vec vec p q, h.inside i q)),
        relength-head r o t (whole r o lawful t b) n vec (omega arith) ∙ index,
      )

  force_align-Aligned :
      (m : Memory) (b : BitVec) (f : ℕ → Bool)
      → Holds r o t (m, b) (len_of t b.pointer) f
      → head t b.pointer + len_of t b.pointer ≤ max_bits
      → Aligned b f (force_align r o t (m, b))
  unfolding Aligned force_align whole aligned relength for_range
  force_align-Aligned m b f h p = elim (==_cases (head t b.pointer) 0) [
    | inl at_start ↦ rw at_start (h, at_start)
    | inr shifted ↦
        rw (ne→not_== (head t b.pointer) 0 shifted) (elim (==_cases (len_of t b.pointer) 0) [
          | inl none_left ↦
              subst
                (λ k. Aligned b f (
                  for_range k 0
                      (λ to m.
                        copy_unchecked r o t m (whole r o lawful t b).pointer
                          (head t b.pointer + to) to)
                      m,
                  relength r o t (whole r o lawful t b) (len_of t b.pointer),
                ))
                (sym none_left) (empty-Aligned m b f h.vec h.memory p none_left)
          | inr some_left ↦ moved-Aligned m b f h p (omega arith)
        ])
  ]

  -- For a lawful order and a vector that holds `n` bits, which with the ones before them in the first
  -- element are at most `MAX_BITS`: after `force_align` the vector holds the same bits, from the first
  -- bit of its first element on.
  pub force_align-Holds :
      (m : Memory) (b : BitVec) (n : ℕ) (f : ℕ → Bool)
      → Holds r o t (m, b) n f
      → head t b.pointer + n ≤ max_bits
      → Holds r o t (force_align r o t (m, b)) n f
        × (head t (force_align r o t (m, b)).1.pointer ≡ 0)
  unfolding Aligned
  force_align-Holds m b n f h p =
      subst
        (λ k.
          Holds r o t (force_align r o t (m, b)) k f
          × (head t (force_align r o t (m, b)).1.pointer ≡ 0))
        h.length
        (force_align-Aligned m b f (subst (λ k. Holds r o t (m, b) k f) (sym h.length) h)
          (omega (arith, h.length)))
