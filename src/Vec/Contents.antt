-- ===== src/Vec/Contents.antt =====
-- What a bit vector holds, after `with_vec` and after a change of the length.
use bitvec_sgx.Memory.{IsMemory, Memory}
use bitvec_sgx.Pointer.{len_of, head, BitPtr, max_bits}
use bitvec_sgx.Order.{BitOrder}
use bitvec_sgx.Access.{Radium}
use bitvec_sgx.Base.{
  subst, ℕ, ◌+◌, ◌*◌, ◌%◌, ◌^◌, ◌≤◌, ◌<◌, ◌≡◌, refl, sym, ◌∙◌, ap, arith, Outcome, ok, Bool,
}
use bitvec_sgx.Access
use bitvec_sgx.Store.{BitStore, size_of, bits}
use bitvec_sgx.Pointer
use bitvec_sgx.Slice.{get_unchecked}
use bitvec_sgx.Pointer.New.{touched}
use bitvec_sgx.Pointer.Encoding.{parts-IsRegion}
use bitvec_sgx.Pointer.Setters.{
  set_pointer_parts, set_pointer-IsBitPtr, set_len_parts, set_len-IsBitPtr,
}
use bitvec_sgx.Slice.Locate.{IsSlice, locate-eq-divmod, element_in}
use bitvec_sgx.Vec.{pointer, RawVec, BitVec, with_vec, set_len, bit_capacity}
use bitvec_sgx.Vec.Shape.{
  IsMoved, IsBitVec, IsBitVec-IsSlice, raw_of, elements-eq-touched, touched_cover, capacity_word,
}

module _ (r : Radium) (o : BitOrder) (t : BitStore) where
  -- A bit vector in memory that holds the `n` bits `f`.
  pub record Holds (st : Memory × BitVec) (n : ℕ) (f : ℕ → Bool) : Type 0 where
    pub vec : IsBitVec t st.1
    pub memory : IsMemory t st.0
    pub length : len_of t st.1.pointer ≡ n
    pub inside : (i : ℕ) → i < n → get_unchecked r o t st.0 st.1.pointer i ≡ f i

  pub Holds-as :
      (st : Memory × BitVec) (n : ℕ) (f g : ℕ → Bool)
      → Holds st n f
      → ((i : ℕ) → i < n → f i ≡ g i)
      → Holds st n g
  Holds-as st n f g h e = record {
    vec = h.vec;
    memory = h.memory;
    length = h.length;
    inside = λ i l. h.inside i l ∙ e i l;
  }

  -- Two slices with the same index of the first bit and the same elements have the same bits.
  pub get_unchecked-moved :
      (m m' : Memory) (s s' : BitPtr)
      → IsSlice t s
      → IsSlice t s'
      → head t s' ≡ head t s
      → ((i : ℕ)
          → i < touched t (head t s) (len_of t s)
          → m' (pointer t s' + i * size_of t) ≡ m (pointer t s + i * size_of t))
      → (i : ℕ) → i < len_of t s
      → i < len_of t s'
      → get_unchecked r o t m' s' i ≡ get_unchecked r o t m s i
  unfolding get_unchecked
  get_unchecked-moved m m' s s' v v' same kept i p q =
      let g = parts-IsRegion t s v.words in
      let inside = element_in t (head t s) (len_of t s) i g.head_in g.fits p in
      rw (locate-eq-divmod t s' i v' q, same, locate-eq-divmod t s i v p)
        (ap (λ x. Access.get r o t x ((head t s + i) % bits t)) (kept _ inside))

  -- What `with_vec` keeps.
  pub record IsRegrown (m : Memory) (b : BitVec) (st : Memory × BitVec) : Type 0 where
    pub vec : IsBitVec t st.1
    pub memory : IsMemory t m → IsMemory t st.0
    pub length : len_of t st.1.pointer ≡ len_of t b.pointer
    pub index : head t st.1.pointer ≡ head t b.pointer
    pub inside :
        (i : ℕ)
        → i < len_of t b.pointer
        → get_unchecked r o t st.0 st.1.pointer i ≡ get_unchecked r o t m b.pointer i

  word_of : (x k : ℕ) → x + k < 2 ^ 57 → x < 2 ^ 64
  word_of x k h = omega arith

  pub with_vec-IsRegrown :
      (func : Memory × RawVec → Outcome (Memory × RawVec))
      → (m : Memory) (b : BitVec) (out : Memory × RawVec) → IsBitVec t b
      → func (m, raw_of t b) ≡ ok out
      → IsMoved t m (raw_of t b) out.0 out.1
      → touched t (head t b.pointer) (len_of t b.pointer) ≤ out.1.length
      → (st : Memory × BitVec) × (with_vec t func (m, b) ≡ ok st)
        × IsRegrown m b st
        × (st.1.capacity ≡ out.1.capacity)
  unfolding with_vec
  with_vec-IsRegrown func m b out v e moved l =
      let address = out.1.address in
      let word = word_of address (out.1.capacity * size_of t) moved.raw.room in
      let p = Pointer.set_pointer t b.pointer address in
      let (place, index, length) =
        set_pointer_parts t b.pointer address v.words word moved.raw.aligned moved.raw.non_null in
      let b' : BitVec = record { pointer = p; capacity = out.1.capacity } in
      let enough : touched t (head t p) (len_of t p) ≤ out.1.capacity =
        rw (index, length) (omega (arith, moved.raw.filled)) in
      let vec : IsBitVec t b' = record {
        words =
            set_pointer-IsBitPtr t b.pointer address v.words word moved.raw.aligned
              moved.raw.non_null;
        raw = rw place (record {
          aligned = moved.raw.aligned;
          non_null = moved.raw.non_null;
          filled = enough;
          room = moved.raw.room;
        });
      } in
      (
        (out.0, b'),
        rw (elements-eq-touched, e) refl,
        record {
          vec = vec;
          memory = moved.typed;
          length = length;
          index = index;
          inside = λ i p.
              get_unchecked-moved m out.0 b.pointer b'.pointer (IsBitVec-IsSlice t b v)
                (IsBitVec-IsSlice t b' vec) index (λ k q. rw place (moved.kept k q)) i p
                (subst (λ n. i < n) (sym length) p);
        },
        refl,
      )

  -- A length that the elements have room for.
  unfoldable pub relength : BitVec → ℕ → BitVec
  relength b n = record b { pointer = Pointer.set_len t b.pointer n }

  pub relength-len :
      (b : BitVec) (n : ℕ) → IsBitVec t b → n ≤ max_bits → len_of t (relength b n).pointer ≡ n
  unfolding relength
  relength-len b n v p = (set_len_parts t b.pointer n v.words p).0

  pub relength-head :
      (b : BitVec) (n : ℕ)
      → IsBitVec t b
      → n ≤ max_bits
      → head t (relength b n).pointer ≡ head t b.pointer
  unfolding relength
  relength-head b n v p = (set_len_parts t b.pointer n v.words p).1

  pub relength-IsBitVec :
      (b : BitVec) (n : ℕ)
      → IsBitVec t b
      → n ≤ max_bits
      → touched t (head t b.pointer) n ≤ b.capacity
      → IsBitVec t (relength b n)
  unfolding relength
  relength-IsBitVec b n v p q =
      let (length, index, place) = set_len_parts t b.pointer n v.words p in
      record {
        words = set_len-IsBitPtr t b.pointer n v.words p;
        raw =
            rw (length, index, place)
              (record {
                aligned = v.raw.aligned;
                non_null = v.raw.non_null;
                filled = q;
                room = v.raw.room;
              });
      }

  pub get_unchecked-relength :
      (m : Memory) (b : BitVec) (n i : ℕ)
      → IsBitVec t b
      → n ≤ max_bits
      → touched t (head t b.pointer) n ≤ b.capacity
      → i < n
      → i < len_of t b.pointer
      → get_unchecked r o t m (relength b n).pointer i ≡ get_unchecked r o t m b.pointer i
  unfolding relength
  get_unchecked-relength m b n i v p q l k =
      let (length, index, place) = set_len_parts t b.pointer n v.words p in
      get_unchecked-moved m m b.pointer (relength b n).pointer (IsBitVec-IsSlice t b v)
        (IsBitVec-IsSlice t (relength b n) (relength-IsBitVec b n v p q)) index
        (λ i h. rw place refl) i k (subst (λ n. i < n) (sym length) l)

  pub set_len-eq-relength :
      (b : BitVec) (n : ℕ)
      → IsBitVec t b
      → n ≤ max_bits
      → touched t (head t b.pointer) n ≤ b.capacity
      → set_len t b n ≡ ok (relength b n)
  unfolding set_len bit_capacity relength
  set_len-eq-relength b n v p q =
      let g = parts-IsRegion t b.pointer v.words in
      ground (
        arith,
        capacity_word t (pointer t b.pointer) b.capacity v.raw.room,
        touched_cover t (head t b.pointer) n b.capacity g.head_in p q,
      )
