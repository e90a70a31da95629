-- ===== src/Fields/Writes.antt =====
-- The writes of the stores: each element that a store touches gets its chunk's bits and keeps the
-- others.
use bitvec_sgx.Fields.Words.{bit-shr_word}
use native.Mathlib.Nat.{add_comm, div-le_self, mod-lt, mod-eq_of_lt, div-one, div-div-eq-div-mul}
use mathlib.Core.List.{append-nil}
use bitvec_sgx.Base.{
  ℕ, ◌+◌, ◌-◌, ◌/◌, ◌%◌, ◌^◌, ◌≤◌, ◌<◌, ◌≡◌, refl, sym, ◌∙◌, ap, ap₂, arith, false, not, List, [],
  ◌∷◌, ◌++◌, bit_and, ltb, leb, ◌&&◌, if◌then◌else◌, subst,
}
use bitvec_sgx.Bits.{
  bit, bit-mod, bit-not, bit_beyond, bit-bit_and, bit-bit_or, bit_and-lt, bit_or-lt, pow2_pos,
}
use bitvec_sgx.Store.{BitStore, bits, usize, shr, shl, all_true, not_word}
use bitvec_sgx.Access.{Radium, clear_bits, set_bits}
use bitvec_sgx.Memory.{Memory, IsMemory}
use bitvec_sgx.Fields.{mask_for, resize, shr_usize, store_step, store_forward, store_backward}
use bitvec_sgx.Fields.Words.{
  resize_lem, bits_le, pow2_le, masked, mask_for_lem, shl-lt, bit-low_ones, bit-shl_word,
}
use bitvec_sgx.Fields.Splits.{pow2_add}
use bitvec_sgx.Fields.Chunks.{
  LowBit, first, last, Chunk, width, assign, le_assign, be_assign, Assignment,
}
use bitvec_sgx.Fields.Assignments.{whole_chunks}
use bitvec_sgx.Fields.Values.{width-append}
use bitvec_sgx.Fields.Elements.{
  lowest, HasField, IsStored, field-IsStored, IsStored-append, no_writes,
}

pub quotients : (v a b : ℕ) → v / 2 ^ a / 2 ^ b ≡ v / 2 ^ (a + b)
quotients v a b = div-div-eq-div-mul v (2 ^ a) (2 ^ b) ∙ ap (λ x. v / x) (sym (pow2_add a b))

-- `elt.clear_bits(kept); elt.set_bits(new);`
abbrev pub replaced : Radium → ℕ → ℕ → ℕ → ℕ
replaced r c kept new = set_bits r (clear_bits r c kept) new

pub shr_usize-lt : (v n : ℕ) → v < 2 ^ 64 → shr_usize v n < 2 ^ 64
unfolding shr_usize
shr_usize-lt v n h = omega (arith, div-le_self v (2 ^ (n % 64)))

module _ (r : Radium) (t : BitStore) where
  replaced-HasField :
      (c kept new lo n v : ℕ)
      → ((p : ℕ) → p < bits t → bit kept p ≡ not (leb lo p && ltb p (lo + n)))
      → ((p : ℕ)
          → p < bits t
          → bit new p ≡ (if leb lo p && ltb p (lo + n) then bit v (p - lo) else false))
      → HasField (bits t) lo n v c (replaced r c kept new)
  unfolding clear_bits set_bits
  replaced-HasField c kept new lo n v h g p l =
      rw (r.fetch_and_lem, r.fetch_or_lem, bit-bit_or, bit-bit_and) (ground (arith, h p l, g p l))

  pub replaced-lt :
      (c kept new : ℕ) → c < 2 ^ bits t → new < 2 ^ bits t → replaced r c kept new < 2 ^ bits t
  unfolding clear_bits set_bits
  replaced-lt c kept new h g =
      rw (r.fetch_and_lem, r.fetch_or_lem)
        (bit_or-lt (bits t) (bit_and c kept) new (bit_and-lt (bits t) c kept h) g)

  -- The part of the value for one chunk.
  pub part : (v n : ℕ) → n ≤ bits t → resize usize t (bit_and v (mask_for usize n)) ≡ v % 2 ^ n
  part v n h =
      let small : v % 2 ^ n < 2 ^ n = mod-lt v (pow2_pos n) in
      let word = pow2_le n 64 (omega (arith, bits_le t)) in
      ap (resize usize t) (masked usize v n (omega (arith, bits_le t)))
      ∙ resize_lem usize t (v % 2 ^ n) (omega arith)
      ∙ mod-eq_of_lt (omega (arith, pow2_le n (bits t) h))

  bit_part : (v n p : ℕ) → bit (v % 2 ^ n) p ≡ ltb p n && bit v p
  bit_part v n p = bit-mod n v p

  -- At the high end of the element.
  pub high-HasField :
      (c v lo n : ℕ)
      → lo + n ≡ bits t
      → lo < bits t
      → n < bits t
      → HasField (bits t) lo n v c (
          replaced r c
            (shr t (all_true t) n)
            (shl t (resize usize t (bit_and v (mask_for usize n))) lo))
  high-HasField c v lo n e q s =
      replaced-HasField c _ _ lo n v
        (λ p l. ground (arith, bit-shr_word t (all_true t) n p s, bit-low_ones (bits t) (n + p)))
        (λ p l.
          ap (λ x. bit (shl t x lo) p) (part v n (omega arith))
          ∙ ground (arith, bit-shl_word t (v % 2 ^ n) lo p q, bit_part v n (p - lo)))

  -- At the low end.
  pub low-HasField :
      (c v n : ℕ)
      → n < bits t
      → HasField
          (bits t)
          0
          n
          v
          c
          (replaced r c (shl t (all_true t) n) (resize usize t (bit_and v (mask_for usize n))))
  low-HasField c v n h =
      replaced-HasField c _ _ 0 n v
        (λ p l. ground (arith, bit-shl_word t (all_true t) n p h, bit-low_ones (bits t) (p - n)))
        (λ p l.
          ap (λ x. bit x p) (part v n (omega arith)) ∙ ground (arith, bit_part v n p, bit_same v p))
    where
      bit_same : (v p : ℕ) → bit v (p - 0) ≡ bit v p
      bit_same v p = ap (bit v) (omega arith)

  -- Inside, where the value has been cut to the width before.
  pub inner-HasField :
      (u : BitStore) (c v lo n : ℕ)
      → lo + n ≤ bits t
      → n ≤ bits u
      → v < 2 ^ n
      → lo < bits t
      → HasField
          (bits t)
          lo
          n
          v
          c
          (replaced r c (not_word t (shl t (mask_for t n) lo)) (shl t (resize u t v) lo))
  inner-HasField u c v lo n h f small q =
      let same : resize u t v ≡ v =
        resize_lem u t v (omega (arith, pow2_le n (bits u) f))
        ∙ mod-eq_of_lt (omega (arith, pow2_le n (bits t) (omega arith))) in
      replaced-HasField c _ _ lo n v
        (λ p l.
          bit-not (bits t) (shl t (mask_for t n) lo) p (shl-lt t (mask_for t n) lo)
          ∙ ap (λ x. ltb p (bits t) && not (bit (shl t x lo) p)) (mask_for_lem t n (omega arith))
          ∙ ground (arith, bit-shl_word t (2 ^ n - 1) lo p q, bit-low_ones n (p - lo)))
        (λ p l.
          ap (λ x. bit (shl t x lo) p) same
          ∙ ground (arith, bit-shl_word t v lo p q, bit_beyond n v (p - lo) small))

  -- A whole element.
  whole-HasField : (c v : ℕ) → HasField (bits t) 0 (bits t) v c (v % 2 ^ bits t)
  whole-HasField c v p l =
      let same : p - 0 ≡ p = omega arith in ground (arith, bit_part v (bits t) p, ap (bit v) same)

  -- The stores of whole elements.
  lowest_whole : (k : LowBit) → lowest k t 0 (bits t) ≡ 0
  lowest_whole first = refl
  lowest_whole last = omega arith

  stored_element :
      (m : Memory) (e v : ℕ) → v < 2 ^ 64 → r.store (m e) (resize usize t v) ≡ v % 2 ^ bits t
  stored_element m e v h = r.store_lem (m e) (resize usize t v) ∙ resize_lem usize t v h

  pub shifted : (v n : ℕ) → n < 64 → shr_usize v n ≡ v / 2 ^ n
  unfolding shr_usize
  shifted v n h = let short : n % 64 ≡ n = omega arith in rw short

  -- One round.
  step-IsStored :
      (k : LowBit) (m : Memory) (e v : ℕ)
      → IsMemory t m
      → v < 2 ^ 64
      → IsStored r k t m (assign k v e 0 (bits t)) (store_step r t e (m, v)).0
  unfolding store_step
  step-IsStored k m e v w h =
      field-IsStored r k t m v e 0 (bits t) (r.store (m e) (resize usize t v)) w (omega arith)
        (rw (stored_element m e v h) (mod-lt v (pow2_pos (bits t))))
        (rw (stored_element m e v h, lowest_whole k) (whole-HasField (m e) v))

  step-shifts : (m : Memory) (e v : ℕ) → bits t < 64 → (store_step r t e (m, v)).1 ≡ v / 2 ^ bits t
  unfolding store_step
  step-shifts m e v h = shifted v (bits t) h

  step-lt : (m : Memory) (e v : ℕ) → v < 2 ^ 64 → (store_step r t e (m, v)).1 < 2 ^ 64
  unfolding store_step
  step-lt m e v h = shr_usize-lt v (bits t) h

  -- What a loop leaves: the memory with the assignments, and the value without what was stored.
  abbrev pub Leaves : LowBit → Memory → Assignment → ℕ → ℕ → Memory × ℕ → Type 0
  Leaves k m a v n s = IsStored r k t m a s.0 × (n < 64 → s.1 ≡ v / 2 ^ n) × (s.1 < 2 ^ 64)

  pub store_forward-Leaves :
      (k : LowBit) (es : List ℕ) (m : Memory) (v : ℕ)
      → IsMemory t m
      → v < 2 ^ 64
      → width (whole_chunks t es) ≤ 64
      → Leaves k m
          (le_assign k v (whole_chunks t es))
          v
          (width (whole_chunks t es))
          (store_forward r t es (m, v))
  unfolding store_forward le_assign width whole_chunks
  store_forward-Leaves k [] m v w h f = (no_writes r k t m w, λ l. omega arith, h)
  store_forward-Leaves k (e ∷ []) m v w h f =
      let one = step-IsStored k m e v w h in
      (
        subst (λ a. IsStored r k t m a (store_step r t e (m, v)).0)
            (sym (append-nil (assign k v e 0 (bits t)))) one,
        λ l. step-shifts m e v (omega arith) ∙ ap (λ x. v / 2 ^ x) (omega arith),
        step-lt m e v h,
      )
  store_forward-Leaves k (e ∷ e' ∷ es) m v w h f =
      let one = step-IsStored k m e v w h in
      let more : bits t < 64 = omega (arith, bits_le t) in
      let s = store_step r t e (m, v) in
      let rest =
        store_forward-Leaves k (e' ∷ es) s.0 s.1 one.memory (step-lt m e v h) (omega arith) in
      let v' = step-shifts m e v more in
      (
        IsStored-append r k t m s.0 _ (assign k v e 0 (bits t)) _ one (
            subst
              (λ x.
                IsStored r k t s.0 (le_assign k x (whole_chunks t (e' ∷ es)))
                  (store_forward r t (e' ∷ es) s).0)
              v' rest.0),
        λ l.
            rest.1 (omega arith)
            ∙ ap (λ x. x / 2 ^ width (whole_chunks t (e' ∷ es))) v'
            ∙ quotients v (bits t) (width (whole_chunks t (e' ∷ es))),
        rest.2,
      )

  pub store_backward-Leaves :
      (k : LowBit) (es : List ℕ) (m : Memory) (v : ℕ)
      → IsMemory t m
      → v < 2 ^ 64
      → width (whole_chunks t es) ≤ 64
      → Leaves k m
          (be_assign k v (whole_chunks t es))
          v
          (width (whole_chunks t es))
          (store_backward r t es (m, v))
  unfolding store_backward be_assign width whole_chunks
  store_backward-Leaves k [] m v w h f = (no_writes r k t m w, λ l. omega arith, h)
  store_backward-Leaves k (e ∷ es) m v w h f =
      let n = width (whole_chunks t es) in
      let rest = store_backward-Leaves k es m v w h (omega arith) in
      let s = store_backward r t es (m, v) in
      let v' = rest.1 (omega (arith, bits_le t)) in
      let one = step-IsStored k s.0 e s.1 rest.0.memory rest.2 in
      (
        IsStored-append r k t m s.0 _ _ (assign k (v / 2 ^ n) e 0 (bits t)) rest.0 (
            subst (λ x. IsStored r k t s.0 (assign k x e 0 (bits t)) (store_step r t e s).0) v'
              one),
        λ l.
            step-shifts s.0 e s.1 (omega arith)
            ∙ ap (λ x. x / 2 ^ bits t) v'
            ∙ quotients v n (bits t)
            ∙ ap (λ x. v / 2 ^ x) (add_comm n (bits t)),
        step-lt s.0 e s.1 rest.2,
      )

-- Assignments of several chunks, in the two orders.
append-assoc_lem : (a b c : Assignment) → (a ++ b) ++ c ≡ a ++ (b ++ c)
append-assoc_lem [] b c = refl
append-assoc_lem (x ∷ a) b c = ap (◌∷◌ x) (append-assoc_lem a b c)

pub le_assign-append :
    (k : LowBit) (v : ℕ) (cs ds : List Chunk)
    → le_assign k v (cs ++ ds) ≡ le_assign k v cs ++ le_assign k (v / 2 ^ width cs) ds
unfolding le_assign width
le_assign-append k v [] ds = ap (λ x. le_assign k x ds) (sym (div-one v))
le_assign-append k v ((e, i, n) ∷ cs) ds =
    ap (λ a. assign k v e i n ++ a)
      (le_assign-append k (v / 2 ^ n) cs ds
        ∙ ap (λ x. le_assign k (v / 2 ^ n) cs ++ le_assign k x ds) (quotients v n (width cs)))
    ∙ sym (append-assoc_lem (assign k v e i n) (le_assign k (v / 2 ^ n) cs) _)

pub be_assign-append :
    (k : LowBit) (v : ℕ) (cs ds : List Chunk)
    → be_assign k v (cs ++ ds) ≡ be_assign k v ds ++ be_assign k (v / 2 ^ width ds) cs
unfolding be_assign width
be_assign-append k v [] ds = sym (append-nil (be_assign k v ds))
be_assign-append k v ((e, i, n) ∷ cs) ds =
    ap₂ (λ a x. a ++ assign k x e i n) (be_assign-append k v cs ds)
      (ap (λ x. v / 2 ^ x) (width-append cs ds ∙ add_comm (width cs) (width ds))
        ∙ sym (quotients v (width ds) (width cs)))
    ∙ append-assoc_lem (be_assign k v ds) (be_assign k (v / 2 ^ width ds) cs) _
