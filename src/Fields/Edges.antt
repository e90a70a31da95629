-- ===== src/Fields/Edges.antt =====
-- The edge elements of a load: a mask or a shift gives the value of the chunk there; and the
-- accumulator over edges and body is the value of all chunks.
use native.Mathlib.Nat.{mod-eq_of_lt, div-one, add-zero, div-lt_iff_lt-mul}
use bitvec_sgx.Base.{
  ℕ, ◌+◌, ◌*◌, ◌/◌, ◌%◌, ◌^◌, ◌≤◌, ◌<◌, ◌≡◌, sym, ◌∙◌, ap, ap₂, arith, List, [], ◌∷◌, ◌++◌, bit_and,
}
use bitvec_sgx.Bits.{pow2_pos}
use bitvec_sgx.Store.{BitStore, bits, shr}
use bitvec_sgx.Access.{Radium}
use bitvec_sgx.Memory.{Memory, IsMemory}
use bitvec_sgx.Fields.{mask_for, resize, push, load_forward, load_backward}
use bitvec_sgx.Fields.Words.{resize_lem, push_lem, pow2_le, masked}
use bitvec_sgx.Fields.Splits.{pow2_add}
use bitvec_sgx.Fields.Chunks.{LowBit, Chunk, chunk_value, chunk_value-lt, width, le_value, be_value}
use bitvec_sgx.Fields.Assignments.{whole_chunks}
use bitvec_sgx.Fields.Elements.{lowest, chunk_value-read}
use bitvec_sgx.Fields.Values.{
  bits_of, le_value-lt, be_value-lt, le_value-append, be_value-append, load_backward_lem,
  load_forward_lem,
}

module _ (r : Radium) (k : LowBit) (t : BitStore) (m : Memory) (w : IsMemory t m) where
  abbrev pub value_at : ℕ → ℕ → ℕ → ℕ
  value_at e i n = chunk_value k (bits_of r k t m w) e i n

  -- The chunk ends at the low bit of the element: it is masked.
  pub low_chunk :
      (e i n : ℕ)
      → i + n ≤ bits t
      → lowest k t i n ≡ 0
      → bit_and (r.load (m e)) (mask_for t n) ≡ value_at e i n
  low_chunk e i n h z =
      masked t (r.load (m e)) n (omega arith)
      ∙ ap (λ x. x % 2 ^ n) (r.load_lem (m e) ∙ sym (div-one (m e)))
      ∙ ap (λ p. m e / 2 ^ p % 2 ^ n) (sym z)
      ∙ sym (chunk_value-read r k t m e i n h)

  -- The chunk ends at the high bit: it is shifted.
  pub high_chunk :
      (e i n lo : ℕ)
      → i + n ≤ bits t
      → lowest k t i n ≡ lo
      → lo + n ≡ bits t
      → lo < bits t
      → shr t (r.load (m e)) lo ≡ value_at e i n
  high_chunk e i n lo h z top l =
      let fits : m e / 2 ^ lo < 2 ^ n =
        (div-lt_iff_lt-mul (pow2_pos lo)).1
          (omega (arith, w e, ap (λ (p : ℕ). 2 ^ p) top, pow2_add lo n)) in
      ap (λ (k : ℕ). r.load (m e) / 2 ^ k) (mod-eq_of_lt l)
      ∙ ap (λ x. x / 2 ^ lo) (r.load_lem (m e))
      ∙ sym (mod-eq_of_lt fits)
      ∙ ap (λ p. m e / 2 ^ p % 2 ^ n) (sym z)
      ∙ sym (chunk_value-read r k t m e i n h)

  -- The chunk is inside: it is shifted and masked.
  pub inner_chunk :
      (e i n lo : ℕ)
      → i + n ≤ bits t
      → lowest k t i n ≡ lo
      → lo < bits t
      → bit_and (shr t (r.load (m e)) lo) (mask_for t n) ≡ value_at e i n
  inner_chunk e i n lo h z l =
      masked t (shr t (r.load (m e)) lo) n (omega arith)
      ∙ ap (λ (k : ℕ). r.load (m e) / 2 ^ k % 2 ^ n) (mod-eq_of_lt l)
      ∙ ap (λ x. x / 2 ^ lo % 2 ^ n) (r.load_lem (m e))
      ∙ ap (λ p. m e / 2 ^ p % 2 ^ n) (sym z)
      ∙ sym (chunk_value-read r k t m e i n h)

  -- `resize` keeps it.
  pub resized :
      (u : BitStore) (e i n x : ℕ)
      → n ≤ bits t
      → n ≤ bits u
      → x ≡ value_at e i n
      → resize t u x ≡ value_at e i n
  resized u e i n x h g q =
      let small = chunk_value-lt k (bits_of r k t m w) e i n in
      ap (resize t u) q
      ∙ resize_lem t u (value_at e i n) (omega (arith, small, pow2_le n (bits t) h))
      ∙ mod-eq_of_lt (omega (arith, small, pow2_le n (bits u) g))

  abbrev pub le : List Chunk → ℕ
  le = le_value k (bits_of r k t m w)

  abbrev pub be : List Chunk → ℕ
  be = be_value k (bits_of r k t m w)

  -- Little endian: the tail, the body from its end, the head.
  pub le_body :
      (body : List ℕ)
      → width (whole_chunks t body) ≤ 64
      → load_backward r t m body 0 ≡ le (whole_chunks t body)
  le_body body h = load_backward_lem r k t m w body 0 0 (omega arith) (omega arith) ∙ omega arith

  pub le_body_tail :
      (body : List ℕ) (e n vt : ℕ)
      → vt ≡ value_at e 0 n
      → width (whole_chunks t body) + n ≤ 64
      → load_backward r t m body vt ≡ le (whole_chunks t body ++ ((e, 0, n) ∷ []))
  unfolding le_value
  le_body_tail body e n vt q h =
      ap (load_backward r t m body) q
      ∙ load_backward_lem r k t m w body (value_at e 0 n) n
          (chunk_value-lt k (bits_of r k t m w) e 0 n) h
      ∙ sym (
          le_value-append k (bits_of r k t m w) (whole_chunks t body) ((e, 0, n) ∷ [])
          ∙ ap (λ x. le (whole_chunks t body) + 2 ^ width (whole_chunks t body) * x) (omega arith))

  pub le_head :
      (e i n vh acc : ℕ) (cs : List Chunk)
      → 0 < n
      → vh ≡ value_at e i n
      → acc ≡ le cs
      → width cs + n ≤ 64
      → push acc n vh ≡ le ((e, i, n) ∷ cs)
  unfolding le_value
  le_head e i n vh acc cs p q g h =
      ap₂ (λ a v. push a n v) g q
      ∙ push_lem (le cs) (width cs) n (value_at e i n) (le_value-lt k (bits_of r k t m w) cs) h p
          (chunk_value-lt k (bits_of r k t m w) e i n)
      ∙ omega arith

  -- Big endian: the head, the body from its start, the tail.
  pub be_body :
      (body : List ℕ)
      → width (whole_chunks t body) ≤ 64
      → load_forward r t m body 0 ≡ be (whole_chunks t body)
  be_body body h = load_forward_lem r k t m w body 0 0 (omega arith) (omega arith) ∙ omega arith

  pub be_head_body :
      (body : List ℕ) (e i n vh : ℕ)
      → vh ≡ value_at e i n
      → n + width (whole_chunks t body) ≤ 64
      → load_forward r t m body vh ≡ be ((e, i, n) ∷ whole_chunks t body)
  unfolding be_value
  be_head_body body e i n vh q h =
      ap (load_forward r t m body) q
      ∙ load_forward_lem r k t m w body (value_at e i n) n
          (chunk_value-lt k (bits_of r k t m w) e i n) h

  pub be_tail :
      (e n vt acc : ℕ) (cs : List Chunk)
      → 0 < n
      → vt ≡ value_at e 0 n
      → acc ≡ be cs
      → width cs + n ≤ 64
      → push acc n vt ≡ be (cs ++ ((e, 0, n) ∷ []))
  unfolding be_value width
  be_tail e n vt acc cs p q g h =
      ap₂ (λ a v. push a n v) g q
      ∙ push_lem (be cs) (width cs) n (value_at e 0 n) (be_value-lt k (bits_of r k t m w) cs) h p
          (chunk_value-lt k (bits_of r k t m w) e 0 n)
      ∙ sym (
          be_value-append k (bits_of r k t m w) cs ((e, 0, n) ∷ [])
          ∙ omega (arith, ap (λ (x : ℕ). 2 ^ x * be cs) (add-zero n)))
