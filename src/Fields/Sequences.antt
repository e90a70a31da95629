-- ===== src/Fields/Sequences.antt =====
-- The stores in sequence: an edge, the body, an edge, in either direction.
use native.Mathlib.Nat.{div-one, add_comm, mod-lt, add-zero}
use mathlib.Core.List.{append-nil}
use bitvec_sgx.Base.{
  ℕ, ◌+◌, ◌/◌, ◌^◌, ◌≤◌, ◌<◌, ◌≡◌, sym, ◌∙◌, ap, arith, List, [], ◌∷◌, ◌++◌, bit_and, subst,
}
use bitvec_sgx.Bits.{pow2_pos}
use bitvec_sgx.Store.{BitStore, bits, usize, shr, shl, all_true, not_word}
use bitvec_sgx.Access.{Radium}
use bitvec_sgx.Memory.{Memory, IsMemory, write}
use bitvec_sgx.Fields.{mask_for, resize}
use bitvec_sgx.Fields.Words.{pow2_le, shl-lt}
use bitvec_sgx.Fields.Chunks.{LowBit, Chunk, width, assign, le_assign, be_assign}
use bitvec_sgx.Fields.Values.{width-append}
use bitvec_sgx.Fields.Elements.{lowest, IsStored, field-IsStored, IsStored-append}
use bitvec_sgx.Fields.Writes.{
  replaced, replaced-lt, high-HasField, low-HasField, inner-HasField, part, Leaves, quotients,
  le_assign-append, be_assign-append,
}

module _ (r : Radium) (k : LowBit) (t : BitStore) where
  abbrev pub Sure : Memory → List Chunk → ℕ → Memory × ℕ → Type 0
  Sure m cs v s = Leaves r t k m (le_assign k v cs) v (width cs) s

  abbrev pub Back : Memory → List Chunk → ℕ → Memory × ℕ → Type 0
  Back m cs v s = Leaves r t k m (be_assign k v cs) v (width cs) s

  pub Sure-append :
      (m : Memory) (v : ℕ) (s s' : Memory × ℕ) (cs ds : List Chunk)
      → width cs < 64
      → Sure m cs v s
      → Sure s.0 ds s.1 s'
      → Sure m (cs ++ ds) v s'
  Sure-append m v s s' cs ds f p q =
      let v' = p.1 f in
      (
        subst (λ a. IsStored r k t m a s'.0) (sym (le_assign-append k v cs ds))
            (IsStored-append r k t m s.0 s'.0 (le_assign k v cs) _ p.0
              (subst (λ x. IsStored r k t s.0 (le_assign k x ds) s'.0) v' q.0)),
        λ l.
            q.1 (omega (arith, width-append cs ds))
            ∙ ap (λ x. x / 2 ^ width ds) v'
            ∙ quotients v (width cs) (width ds)
            ∙ ap (λ x. v / 2 ^ x) (sym (width-append cs ds)),
        q.2,
      )

  pub Back-append :
      (m : Memory) (v : ℕ) (s s' : Memory × ℕ) (cs ds : List Chunk)
      → width ds < 64
      → Back m ds v s
      → Back s.0 cs s.1 s'
      → Back m (cs ++ ds) v s'
  Back-append m v s s' cs ds f p q =
      let v' = p.1 f in
      (
        subst (λ a. IsStored r k t m a s'.0) (sym (be_assign-append k v cs ds))
            (IsStored-append r k t m s.0 s'.0 (be_assign k v ds) _ p.0
              (subst (λ x. IsStored r k t s.0 (be_assign k x cs) s'.0) v' q.0)),
        λ l.
            q.1 (omega (arith, width-append cs ds))
            ∙ ap (λ x. x / 2 ^ width cs) v'
            ∙ quotients v (width ds) (width cs)
            ∙ ap (λ x. v / 2 ^ x) (add_comm (width ds) (width cs) ∙ sym (width-append cs ds)),
        q.2,
      )

  -- One chunk, in either direction.
  pub Sure-one :
      (m : Memory) (v e i n : ℕ) (s : Memory × ℕ)
      → Leaves r t k m (assign k v e i n) v n s
      → Sure m ((e, i, n) ∷ []) v s
  unfolding le_assign width
  Sure-one m v e i n s p = (
    subst (λ a. IsStored r k t m a s.0) (sym (append-nil (assign k v e i n))) p.0,
    λ l. p.1 (omega arith) ∙ ap (λ x. v / 2 ^ x) (sym (add-zero n)),
    p.2,
  )

  pub Back-one :
      (m : Memory) (v e i n : ℕ) (s : Memory × ℕ)
      → Leaves r t k m (assign k v e i n) v n s
      → Back m ((e, i, n) ∷ []) v s
  unfolding be_assign width
  Back-one m v e i n s p = (
    subst (λ x. IsStored r k t m (assign k x e i n) s.0) (sym (div-one v)) p.0,
    λ l. p.1 (omega arith) ∙ ap (λ x. v / 2 ^ x) (sym (add-zero n)),
    p.2,
  )

  -- The three writes of a chunk.
  pub low-IsStored :
      (m : Memory) (e i n v : ℕ)
      → IsMemory t m
      → i + n ≤ bits t
      → lowest k t i n ≡ 0
      → n < bits t
      → IsStored r k t m (assign k v e i n) (
          write m e (
            replaced r
              (m e)
              (shl t (all_true t) n)
              (resize usize t (bit_and v (mask_for usize n)))))
  low-IsStored m e i n v w h z l =
      let new = resize usize t (bit_and v (mask_for usize n)) in
      field-IsStored r k t m v e i n (replaced r (m e) (shl t (all_true t) n) new) w h
        (replaced-lt r t (m e) (shl t (all_true t) n) new (w e) (
          rw (part r t v n (omega arith))
            (omega (arith, mod-lt v (pow2_pos n), pow2_le n (bits t) (omega arith)))))
        (rw z (low-HasField r t (m e) v n l))

  pub high-IsStored :
      (m : Memory) (e i n lo v : ℕ)
      → IsMemory t m
      → i + n ≤ bits t
      → lowest k t i n ≡ lo
      → lo + n ≡ bits t
      → lo < bits t
      → n < bits t
      → IsStored r k t m (assign k v e i n) (
          write m e (
            replaced r
              (m e)
              (shr t (all_true t) n)
              (shl t (resize usize t (bit_and v (mask_for usize n))) lo)))
  high-IsStored m e i n lo v w h z top p q =
      let new = shl t (resize usize t (bit_and v (mask_for usize n))) lo in
      field-IsStored r k t m v e i n (replaced r (m e) (shr t (all_true t) n) new) w h
        (replaced-lt r t (m e) (shr t (all_true t) n) new (w e) (shl-lt t _ lo))
        (rw z (high-HasField r t (m e) v lo n top p q))

  pub inner-IsStored :
      (u : BitStore) (m : Memory) (e i n lo v : ℕ)
      → IsMemory t m
      → i + n ≤ bits t
      → lowest k t i n ≡ lo
      → lo + n ≤ bits t
      → n ≤ bits u
      → v < 2 ^ n
      → lo < bits t
      → IsStored r k t m (assign k v e i n) (
          write m e
            (replaced r (m e) (not_word t (shl t (mask_for t n) lo)) (shl t (resize u t v) lo)))
  inner-IsStored u m e i n lo v w h z top f small l =
      let kept = not_word t (shl t (mask_for t n) lo) in
      let new = shl t (resize u t v) lo in
      field-IsStored r k t m v e i n (replaced r (m e) kept new) w h
        (replaced-lt r t (m e) kept new (w e) (shl-lt t _ lo))
        (rw z (inner-HasField r t u (m e) v lo n top f small l))
