-- ===== src/Fields/Msb0/Loads.antt =====
-- The loads of `BitSlice<Msb0, T>` give the value of the slice's chunks.
use native.Mathlib.Nat.{mod-eq_of_lt}
use bitvec_sgx.Base.{ℕ, ◌-◌, ◌^◌, ◌≤◌, ◌<◌, ◌≡◌, refl, ◌∙◌, ap, arith, [], ◌∷◌, ◌++◌, ok, bit_and}
use bitvec_sgx.Store.{BitStore, bits, usize, shr}
use bitvec_sgx.Access.{Radium}
use bitvec_sgx.Memory.{Memory, IsMemory}
use bitvec_sgx.Domain.{BitDomain, empty, minor, major, partial_head, partial_tail, spanning, splat}
use bitvec_sgx.Domain.Bounds.{IsBounded}
use bitvec_sgx.Pointer.{BitPtr, len_of}
use bitvec_sgx.Slice.Locate.{IsSlice, len-eq-len_of}
use bitvec_sgx.Fields.{resize, mask_for}
use bitvec_sgx.Fields.Msb0.{load_le, load_be, load_le_parts, load_be_parts}
use bitvec_sgx.Fields.Words.{bits_le, resize_lem, pow2_le}
use bitvec_sgx.Fields.Chunks.{le_value, be_value, last, width}
use bitvec_sgx.Fields.Assignments.{chunks, whole_chunks}
use bitvec_sgx.Fields.Regions.{IsDomainOf}
use bitvec_sgx.Fields.Values.{bits_of, width-append, le_value-lt, be_value-lt}
use bitvec_sgx.Fields.Edges.{
  value_at, low_chunk, high_chunk, inner_chunk, resized, le, be, le_body, le_body_tail, le_head,
  be_body, be_head_body, be_tail,
}

module _ (r : Radium) (t u : BitStore) (m : Memory) (w : IsMemory t m) where
  -- A value of the chunks, as wide as they are, is what `resize` returns.
  returned : (x y n : ℕ) → x ≡ y → y < 2 ^ n → n ≤ bits u → resize usize u x ≡ y
  returned x y n e h g =
      let fits : y < 2 ^ bits u = omega (arith, pow2_le n (bits u) g) in
      let word : y < 2 ^ 64 = omega (arith, pow2_le (bits u) 64 (bits_le u).0) in
      ap (resize usize u) e ∙ resize_lem usize u y word ∙ mod-eq_of_lt fits

  abbrev edge : ℕ → ℕ → ℕ → ℕ
  edge e i n = value_at r last t m w e i n

  to_usize : (e i n x : ℕ) → n ≤ bits t → x ≡ edge e i n → resize t usize x ≡ edge e i n
  to_usize e i n x h q = resized r last t m w usize e i n x h (omega (arith, bits_le t)) q

  inside :
      (e h tl n : ℕ)
      → h ≤ tl
      → tl ≤ bits t
      → tl - h ≡ n
      → n ≤ bits u
      → 0 < tl
      → resize t u (bit_and (shr t (r.load (m e)) (bits t - tl)) (mask_for t n)) ≡ edge e h n
  inside e h tl n p q z f l =
      resized r last t m w u e h n _ (omega arith) f
        (inner_chunk r last t m w e h n (bits t - tl) (omega arith) (omega arith) (omega arith))

  le_parts :
      (d : BitDomain) (n : ℕ)
      → IsBounded t d
      → width (chunks t d) ≡ n
      → n ≤ bits u
      → load_le_parts r t u m n (splat d) ≡ le r last t m w (chunks t d)
  unfolding load_le_parts splat chunks width le_value
  le_parts empty n b e f = returned 0 0 0 refl (omega arith) (omega arith)
  le_parts (minor h e tl) n b z f =
      let same : n ≡ tl - h = omega arith in
      inside e h tl n b.1 b.2 (omega arith) f b.3 ∙ ap (edge e h) same ∙ omega arith
  le_parts (major h e body e' tl) n b z f =
      let cs = chunks t (major h e body e' tl) in
      returned _ (le r last t m w cs) (width cs)
        (le_head r last t m w e h (bits t - h) _ _ (whole_chunks t body ++ ((e', 0, tl) ∷ []))
          (omega arith)
          (to_usize e h (bits t - h) _ (omega arith)
            (low_chunk r last t m w e h (bits t - h) (omega arith) (omega arith)))
          (le_body_tail r last t m w body e' tl _
            (to_usize e' 0 tl _ (omega arith) (
              high_chunk r last t m w e' 0 tl (bits t - tl) (omega arith) (omega arith)
                (omega arith) (omega arith)))
            (omega (arith, bits_le u, width-append (whole_chunks t body) ((e', 0, tl) ∷ []))))
          (omega (arith, bits_le u, width-append (whole_chunks t body) ((e', 0, tl) ∷ []))))
        (le_value-lt last (bits_of r last t m w) cs) (omega arith)
  le_parts (partial_head h e body) n b z f =
      let cs = chunks t (partial_head h e body) in
      returned _ (le r last t m w cs) (width cs)
        (le_head r last t m w e h (bits t - h) _ _ (whole_chunks t body) (omega arith)
          (to_usize e h (bits t - h) _ (omega arith)
            (low_chunk r last t m w e h (bits t - h) (omega arith) (omega arith)))
          (le_body r last t m w body (omega (arith, bits_le u))) (omega (arith, bits_le u)))
        (le_value-lt last (bits_of r last t m w) cs) (omega arith)
  le_parts (partial_tail body e' tl) n b z f =
      let cs = chunks t (partial_tail body e' tl) in
      returned _ (le r last t m w cs) (width cs)
        (le_body_tail r last t m w body e' tl _
          (to_usize e' 0 tl _ (omega arith) (
            high_chunk r last t m w e' 0 tl (bits t - tl) (omega arith) (omega arith) (omega arith)
              (omega arith)))
          (omega (arith, bits_le u, width-append (whole_chunks t body) ((e', 0, tl) ∷ []))))
        (le_value-lt last (bits_of r last t m w) cs) (omega arith)
  le_parts (spanning body) n b z f =
      let cs = whole_chunks t body in
      returned _ (le r last t m w cs) (width cs)
        (le_body r last t m w body (omega (arith, bits_le u)))
        (le_value-lt last (bits_of r last t m w) cs) (omega arith)

  be_parts :
      (d : BitDomain) (n : ℕ)
      → IsBounded t d
      → width (chunks t d) ≡ n
      → n ≤ bits u
      → load_be_parts r t u m n (splat d) ≡ be r last t m w (chunks t d)
  unfolding load_be_parts splat chunks width be_value
  be_parts empty n b e f = returned 0 0 0 refl (omega arith) (omega arith)
  be_parts (minor h e tl) n b z f =
      let same : n ≡ tl - h = omega arith in
      inside e h tl n b.1 b.2 (omega arith) f b.3 ∙ ap (edge e h) same ∙ omega arith
  be_parts (major h e body e' tl) n b z f =
      let cs = chunks t (major h e body e' tl) in
      returned _ (be r last t m w cs) (width cs)
        (be_tail r last t m w e' tl _ _ ((e, h, bits t - h) ∷ whole_chunks t body) (omega arith)
          (to_usize e' 0 tl _ (omega arith) (
            high_chunk r last t m w e' 0 tl (bits t - tl) (omega arith) (omega arith) (omega arith)
              (omega arith)))
          (be_head_body r last t m w body e h (bits t - h) _
            (to_usize e h (bits t - h) _ (omega arith)
              (low_chunk r last t m w e h (bits t - h) (omega arith) (omega arith)))
            (omega (arith, bits_le u, width-append (whole_chunks t body) ((e', 0, tl) ∷ []))))
          (omega (arith, bits_le u, width-append (whole_chunks t body) ((e', 0, tl) ∷ []))))
        (be_value-lt last (bits_of r last t m w) cs) (omega arith)
  be_parts (partial_head h e body) n b z f =
      let cs = chunks t (partial_head h e body) in
      returned _ (be r last t m w cs) (width cs)
        (be_head_body r last t m w body e h (bits t - h) _
          (to_usize e h (bits t - h) _ (omega arith)
            (low_chunk r last t m w e h (bits t - h) (omega arith) (omega arith)))
          (omega (arith, bits_le u)))
        (be_value-lt last (bits_of r last t m w) cs) (omega arith)
  be_parts (partial_tail body e' tl) n b z f =
      let cs = chunks t (partial_tail body e' tl) in
      returned _ (be r last t m w cs) (width cs)
        (be_tail r last t m w e' tl _ _ (whole_chunks t body) (omega arith)
          (to_usize e' 0 tl _ (omega arith) (
            high_chunk r last t m w e' 0 tl (bits t - tl) (omega arith) (omega arith) (omega arith)
              (omega arith)))
          (be_body r last t m w body
            (omega (arith, bits_le u, width-append (whole_chunks t body) ((e', 0, tl) ∷ []))))
          (omega (arith, bits_le u, width-append (whole_chunks t body) ((e', 0, tl) ∷ []))))
        (be_value-lt last (bits_of r last t m w) cs) (omega arith)
  be_parts (spanning body) n b z f =
      let cs = whole_chunks t body in
      returned _ (be r last t m w cs) (width cs)
        (be_body r last t m w body (omega (arith, bits_le u)))
        (be_value-lt last (bits_of r last t m w) cs) (omega arith)

  pub load_le_value :
      (s : BitPtr) (d : BitDomain)
      → IsSlice t s
      → IsDomainOf t s d
      → 1 ≤ len_of t s
      → len_of t s ≤ bits u
      → load_le r t u m s ≡ ok (le r last t m w (chunks t d))
  unfolding load_le
  load_le_value s d v g p q =
      rw (g.found, len-eq-len_of t s) (ground (arith, le_parts d (len_of t s) g.bounded g.wide q))

  pub load_be_value :
      (s : BitPtr) (d : BitDomain)
      → IsSlice t s
      → IsDomainOf t s d
      → 1 ≤ len_of t s
      → len_of t s ≤ bits u
      → load_be r t u m s ≡ ok (be r last t m w (chunks t d))
  unfolding load_be
  load_be_value s d v g p q =
      rw (g.found, len-eq-len_of t s) (ground (arith, be_parts d (len_of t s) g.bounded g.wide q))
