-- ===== src/Fields/Msb0/Stores.antt =====
-- The stores of `BitSlice<Msb0, T>` assign the value to the slice's chunks.
use native.Mathlib.Nat.{mod-eq_of_lt, mod-lt, div-one}
use mathlib.Core.List.{append-nil}
use bitvec_sgx.Base.{
  ℕ, ◌-◌, ◌%◌, ◌^◌, ◌≤◌, ◌<◌, ◌≡◌, sym, ◌∙◌, arith, List, [], ◌∷◌, ◌++◌, ok, subst,
}
use bitvec_sgx.Bits.{pow2_pos}
use bitvec_sgx.Store.{BitStore, bits, usize}
use bitvec_sgx.Access.{Radium}
use bitvec_sgx.Memory.{Memory, IsMemory}
use bitvec_sgx.Domain.{BitDomain, empty, minor, major, partial_head, partial_tail, spanning, splat}
use bitvec_sgx.Domain.Bounds.{IsBounded}
use bitvec_sgx.Pointer.{BitPtr, len_of}
use bitvec_sgx.Slice.Locate.{len-eq-len_of}
use bitvec_sgx.Fields.{resize, store_forward, store_backward}
use bitvec_sgx.Fields.Msb0.{
  store_le, store_be, store_le_parts, store_be_parts, store_head, store_tail, store_inside,
}
use bitvec_sgx.Fields.Words.{bits_le, resize_lem, pow2_le, masked}
use bitvec_sgx.Fields.Chunks.{last, Chunk, width, assign, le_assign, be_assign}
use bitvec_sgx.Fields.Assignments.{chunks, whole_chunks}
use bitvec_sgx.Fields.Regions.{IsDomainOf}
use bitvec_sgx.Fields.Values.{width-append}
use bitvec_sgx.Fields.Elements.{IsStored, no_writes}
use bitvec_sgx.Fields.Writes.{
  Leaves, shifted, shr_usize-lt, store_forward-Leaves, store_backward-Leaves,
}
use bitvec_sgx.Fields.Sequences.{
  Sure-append, Back-append, Sure-one, Back-one, low-IsStored, high-IsStored, inner-IsStored,
}

module _ (r : Radium) (t u : BitStore) where
  head-Leaves :
      (m : Memory) (v e h : ℕ)
      → IsMemory t m
      → v < 2 ^ 64
      → 0 < h
      → h < bits t
      → Leaves r t last m
          (assign last v e h (bits t - h))
          v
          (bits t - h)
          (store_head r t u (h, e) (m, v))
  unfolding store_head
  head-Leaves m v e h w f p q = (
    low-IsStored r last t m e h (bits t - h) v w (omega arith) (omega arith) (omega arith),
    λ l. shifted r t v (bits t - h) l,
    shr_usize-lt v (bits t - h) f,
  )

  tail-Leaves :
      (m : Memory) (v e tl : ℕ)
      → IsMemory t m
      → v < 2 ^ 64
      → tl < bits t
      → 0 < tl
      → Leaves r t last m (assign last v e 0 tl) v tl (store_tail r t u (e, tl) (m, v))
  unfolding store_tail
  tail-Leaves m v e tl w f q s = (
    high-IsStored r last t m e 0 tl (bits t - tl) v w (omega arith) (omega arith) (omega arith)
        (omega arith) q,
    λ l. shifted r t v tl l,
    shr_usize-lt v tl f,
  )

  inside-IsStored :
      (m : Memory) (v e h tl n : ℕ)
      → IsMemory t m
      → h ≤ tl
      → tl ≤ bits t
      → tl - h ≡ n
      → n ≤ bits u
      → v < 2 ^ n
      → 0 < tl
      → IsStored r last t m (assign last v e h n) (store_inside r t u m n v h e tl)
  unfolding store_inside
  inside-IsStored m v e h tl n w p q z f small l =
      inner-IsStored r last t u m e h n (bits t - tl) v w (omega arith) (omega arith) (omega arith)
        f small (omega arith)

  resized : (v n : ℕ) → v < 2 ^ n → n ≤ bits u → resize u usize v ≡ v
  resized v n h f =
      resize_lem u usize v (omega (arith, pow2_le n (bits u) f))
      ∙ mod-eq_of_lt (omega (arith, pow2_le n 64 (omega (arith, bits_le u))))

  abbrev tail_chunk : ℕ → ℕ → List Chunk
  tail_chunk e tl = (e, 0, tl) ∷ []

  abbrev head_chunk : ℕ → ℕ → List Chunk
  head_chunk e h = (e, h, bits t - h) ∷ []

  le_parts :
      (m : Memory) (v : ℕ) (d : BitDomain) (n : ℕ)
      → IsMemory t m
      → IsBounded t d
      → width (chunks t d) ≡ n
      → n ≤ bits u
      → n ≤ 64
      → v < 2 ^ n
      → v < 2 ^ 64
      → resize u usize v ≡ v
      → IsStored r last t m (le_assign last v (chunks t d)) (store_le_parts r t u m n v (splat d))
  unfolding store_le_parts splat chunks width le_assign
  le_parts m v empty n w b z f g small word same = no_writes r last t m w
  le_parts m v (minor h e tl) n w b z f g small word same =
      let long : tl - h ≡ n = omega arith in
      let one = inside-IsStored m v e h tl n w b.1 b.2 long f small b.3 in
      subst (λ a. IsStored r last t m a (store_inside r t u m n v h e tl)) (sym (append-nil _))
        (subst (λ x. IsStored r last t m (assign last v e h x) (store_inside r t u m n v h e tl))
          (sym long) one)
  le_parts m v (major h e body e' tl) n w b z f g small word same =
      let wide = width-append (whole_chunks t body) (tail_chunk e' tl) in
      let s = store_head r t u (h, e) (m, v) in
      let s' = store_forward r t body s in
      let s'' = store_tail r t u (e', tl) s' in
      let front = head-Leaves m v e h w word b.0 b.1 in
      let middle =
        store_forward-Leaves r t last body s.0 s.1 front.0.memory front.2 (omega arith) in
      let back = tail-Leaves s'.0 s'.1 e' tl middle.0.memory middle.2 b.3 b.2 in
      rw (same, store_le_parts)
        (Sure-append r last t m v s s'' (head_chunk e h) (whole_chunks t body ++ tail_chunk e' tl)
          (omega arith) (Sure-one r last t m v e h (bits t - h) s front)
          (Sure-append r last t s.0 s.1 s' s'' (whole_chunks t body) (tail_chunk e' tl)
            (omega arith) middle (Sure-one r last t s'.0 s'.1 e' 0 tl s'' back))).0
  le_parts m v (partial_head h e body) n w b z f g small word same =
      let s = store_head r t u (h, e) (m, v) in
      let front = head-Leaves m v e h w word b.0 b.1 in
      let middle =
        store_forward-Leaves r t last body s.0 s.1 front.0.memory front.2 (omega arith) in
      rw (same, store_le_parts)
        (Sure-append r last t m v s (store_forward r t body s) (head_chunk e h)
          (whole_chunks t body) (omega (arith, bits_le t))
          (Sure-one r last t m v e h (bits t - h) s front) middle).0
  le_parts m v (partial_tail body e' tl) n w b z f g small word same =
      let wide = width-append (whole_chunks t body) (tail_chunk e' tl) in
      let s' = store_forward r t body (m, v) in
      let s'' = store_tail r t u (e', tl) s' in
      let middle = store_forward-Leaves r t last body m v w word (omega arith) in
      let back = tail-Leaves s'.0 s'.1 e' tl middle.0.memory middle.2 b.1 b.0 in
      rw (same, store_le_parts)
        (Sure-append r last t m v s' s'' (whole_chunks t body) (tail_chunk e' tl) (omega arith)
          middle (Sure-one r last t s'.0 s'.1 e' 0 tl s'' back)).0
  le_parts m v (spanning body) n w b z f g small word same =
      rw (same, store_le_parts) (store_forward-Leaves r t last body m v w word (omega arith)).0

  be_parts :
      (m : Memory) (v : ℕ) (d : BitDomain) (n : ℕ)
      → IsMemory t m
      → IsBounded t d
      → width (chunks t d) ≡ n
      → n ≤ bits u
      → n ≤ 64
      → v < 2 ^ n
      → v < 2 ^ 64
      → resize u usize v ≡ v
      → IsStored r last t m (be_assign last v (chunks t d)) (store_be_parts r t u m n v (splat d))
  unfolding store_be_parts splat chunks width be_assign
  be_parts m v empty n w b z f g small word same = no_writes r last t m w
  be_parts m v (minor h e tl) n w b z f g small word same =
      let long : tl - h ≡ n = omega arith in
      let one = inside-IsStored m v e h tl n w b.1 b.2 long f small b.3 in
      subst
        (λ x. IsStored r last t m (assign last x e h (tl - h)) (store_inside r t u m n v h e tl))
        (sym (div-one v))
        (subst (λ x. IsStored r last t m (assign last v e h x) (store_inside r t u m n v h e tl))
          (sym long) one)
  be_parts m v (major h e body e' tl) n w b z f g small word same =
      let wide = width-append (whole_chunks t body) (tail_chunk e' tl) in
      let s = store_tail r t u (e', tl) (m, v) in
      let s' = store_backward r t body s in
      let s'' = store_head r t u (h, e) s' in
      let back = tail-Leaves m v e' tl w word b.3 b.2 in
      let middle = store_backward-Leaves r t last body s.0 s.1 back.0.memory back.2 (omega arith) in
      let front = head-Leaves s'.0 s'.1 e h middle.0.memory middle.2 b.0 b.1 in
      rw (same, store_be_parts)
        (Back-append r last t m v s' s'' (head_chunk e h) (whole_chunks t body ++ tail_chunk e' tl)
          (omega arith)
          (Back-append r last t m v s s' (whole_chunks t body) (tail_chunk e' tl) (omega arith)
            (Back-one r last t m v e' 0 tl s back) middle)
          (Back-one r last t s'.0 s'.1 e h (bits t - h) s'' front)).0
  be_parts m v (partial_head h e body) n w b z f g small word same =
      let s' = store_backward r t body (m, v) in
      let s'' = store_head r t u (h, e) s' in
      let middle = store_backward-Leaves r t last body m v w word (omega arith) in
      let front = head-Leaves s'.0 s'.1 e h middle.0.memory middle.2 b.0 b.1 in
      rw (same, store_be_parts)
        (Back-append r last t m v s' s'' (head_chunk e h) (whole_chunks t body) (omega arith) middle
          (Back-one r last t s'.0 s'.1 e h (bits t - h) s'' front)).0
  be_parts m v (partial_tail body e' tl) n w b z f g small word same =
      let wide = width-append (whole_chunks t body) (tail_chunk e' tl) in
      let s = store_tail r t u (e', tl) (m, v) in
      let back = tail-Leaves m v e' tl w word b.1 b.0 in
      let middle = store_backward-Leaves r t last body s.0 s.1 back.0.memory back.2 (omega arith) in
      rw (same, store_be_parts)
        (Back-append r last t m v s (store_backward r t body s) (whole_chunks t body)
          (tail_chunk e' tl) (omega (arith, bits_le t)) (Back-one r last t m v e' 0 tl s back)
          middle).0
  be_parts m v (spanning body) n w b z f g small word same =
      rw (same, store_be_parts) (store_backward-Leaves r t last body m v w word (omega arith)).0

  pub store_le-IsStored :
      (m : Memory) (s : BitPtr) (d : BitDomain) (value : ℕ)
      → IsMemory t m
      → IsDomainOf t s d
      → 1 ≤ len_of t s
      → len_of t s ≤ bits u
      → (m' : Memory) × (store_le r t u m s value ≡ ok m')
        × IsStored r last t m (le_assign last (value % 2 ^ len_of t s) (chunks t d)) m'
  unfolding store_le
  store_le-IsStored m s d value w g p q =
      let n = len_of t s in
      let v = value % 2 ^ n in
      let small : v < 2 ^ n = mod-lt value (pow2_pos n) in
      let short : n ≤ 64 = omega (arith, bits_le u) in
      let word : v < 2 ^ 64 = omega (arith, pow2_le n 64 short) in
      (
        store_le_parts r t u m n v (splat d),
        rw (g.found, len-eq-len_of t s, masked u value n q) (ground arith),
        le_parts m v d n w g.bounded g.wide q short small word (resized v n small q),
      )

  pub store_be-IsStored :
      (m : Memory) (s : BitPtr) (d : BitDomain) (value : ℕ)
      → IsMemory t m
      → IsDomainOf t s d
      → 1 ≤ len_of t s
      → len_of t s ≤ bits u
      → (m' : Memory) × (store_be r t u m s value ≡ ok m')
        × IsStored r last t m (be_assign last (value % 2 ^ len_of t s) (chunks t d)) m'
  unfolding store_be
  store_be-IsStored m s d value w g p q =
      let n = len_of t s in
      let v = value % 2 ^ n in
      let small : v < 2 ^ n = mod-lt value (pow2_pos n) in
      let short : n ≤ 64 = omega (arith, bits_le u) in
      let word : v < 2 ^ 64 = omega (arith, pow2_le n 64 short) in
      (
        store_be_parts r t u m n v (splat d),
        rw (g.found, len-eq-len_of t s, masked u value n q) (ground arith),
        be_parts m v d n w g.bounded g.wide q short small word (resized v n small q),
      )
