-- ===== src/Vec/Creation.antt =====
-- src/vec/api.rs and src/vec/iter.rs: `with_capacity`, `from_iter` and `extend`.
use bitvec_sgx.Memory.{IsMemory, Memory}
use bitvec_sgx.Order.{IsBitOrder, BitOrder}
use bitvec_sgx.Access.{Radium}
use bitvec_sgx.Base.{
  ℕ, zero, suc, ◌+◌, ◌-◌, ◌%◌, ◌^◌, ◌≤◌, ◌<◌, ◌≡◌, ◌≢◌, refl, sym, ◌∙◌, ap, arith, ok, Bool, false,
  subst, ltb, if◌then◌else◌, List, [], ◌∷◌,
}
use bitvec_sgx.Store.{BitStore, size_of}
use bitvec_sgx.Pointer.{max_bits, head, BitPtr, len_of, uninhabited}
use bitvec_sgx.Pointer.New.{alignment, touched}
use bitvec_sgx.Pointer.Encoding.{pointer-eq, head-eq}
use bitvec_sgx.Vec.{pointer, Allocator, BitVec, with_capacity, push_all, from_iter, extend}
use bitvec_sgx.Vec.Shape.{IsAllocator, none_touched, touched_mono}
use bitvec_sgx.Vec.Contents.{Holds, Holds-as}
use bitvec_sgx.Vec.Stack.{push-Holds}
use bitvec_sgx.Vec.Growth.{reserve-IsReserved}
use bitvec_sgx.Slice.Iterators.{count}
use bitvec_sgx.Pointer.Encoding.{parts-IsRegion}

-- The bit at an index of a list, and `false` past its end.
pub bit_of : List Bool → ℕ → Bool
bit_of [] i = false
bit_of (x ∷ xs) zero = x
bit_of (x ∷ xs) (suc i) = bit_of xs i

bit_of_later : (x : Bool) (xs : List Bool) (k : ℕ) → 0 < k → bit_of (x ∷ xs) k ≡ bit_of xs (k - 1)
unfolding bit_of
bit_of_later x xs zero h = absurd (omega arith)
bit_of_later x xs (suc k) h = let e : k ≡ suc k - 1 = omega arith in ap (λ j. bit_of xs j) e

-- `uninhabited` accepts the address of an allocation.
uninhabited-ok :
    (t : BitStore) (d : ℕ)
    → d % size_of t ≡ 0
    → d ≢ 0
    → uninhabited t d ≡ ok (record { ptr = d; len = 0 })
unfolding uninhabited
uninhabited-ok t d e ne = ground (arith, alignment t d)

module _ (r : Radium) (o : BitOrder) (t : BitStore) (a : Allocator) (limit : ℕ)
    (laws : IsAllocator t a limit) where
  -- For a capacity whose elements the machine can hold, `with_capacity` does not panic, and gives
  -- a vector that holds no bits, begins with an element and has room for `n`.
  pub with_capacity-Holds :
      (n : ℕ)
      → touched t 0 n ≤ limit
      → (b : BitVec) × (with_capacity t a n ≡ ok b)
        × (touched t 0 n ≤ b.capacity)
        × (head t b.pointer ≡ 0)
        × ((m : Memory) (f : ℕ → Bool) → IsMemory t m → Holds r o t (m, b) 0 f)
  unfolding with_capacity len_of
  with_capacity-Holds n h =
      let (v, e, raw, none_yet, room) = laws.creates (touched t 0 n) h in
      let p : BitPtr = record { ptr = v.address; len = 0 } in
      let word : v.address < 2 ^ 64 = omega (arith, raw.room) in
      let place : pointer t p ≡ v.address = pointer-eq t p word ∙ omega (arith, raw.aligned) in
      (
        record { pointer = p; capacity = v.capacity },
        rw (e, uninhabited-ok t v.address raw.aligned raw.non_null) refl,
        room,
        head-eq t p ∙ omega (arith, raw.aligned),
        λ m f w. record {
          vec = record {
            words = record { ptr_word = word; len_word = omega arith };
            raw = rw place (record {
              aligned = raw.aligned;
              non_null = raw.non_null;
              filled = rw (none_touched t (head t p)) (omega arith);
              room = raw.room;
            });
          };
          memory = w;
          length = refl;
          inside = λ i l. absurd (omega arith);
        },
      )

  module _ (lawful : IsBitOrder o) where
    push_all-Holds :
        (src : List Bool) (m : Memory) (b : BitVec) (n : ℕ) (f : ℕ → Bool)
        → Holds r o t (m, b) n f
        → n + count src ≤ max_bits
        → touched t (head t b.pointer) (n + count src) ≤ limit
        → (st : Memory × BitVec) × (push_all r o t a src (m, b) ≡ ok st)
          × Holds r o t st (n + count src) (λ i. if ltb i n then f i else bit_of src (i - n))
    unfolding push_all bit_of
    push_all-Holds [] m b n f h p q = (
      (m, b),
      refl,
      subst (λ k. Holds r o t (m, b) k (λ i. if ltb i n then f i else bit_of [] (i - n)))
          (omega arith) (Holds-as r o t (m, b) n _ _ h (λ i l. ground arith)),
    )
    push_all-Holds (bit ∷ src) m b n f h p q =
        let g = parts-IsRegion t b.pointer h.vec.words in
        let fewer =
          touched_mono t (head t b.pointer) (n + 1) (n + suc (count src)) g.head_in p
            (omega arith) in
        let (st, e, held, same) =
          push-Holds r o t a lawful limit laws bit m b n f h (omega arith) (omega (arith, fewer)) in
        let sum : n + suc (count src) ≡ n + 1 + count src = omega arith in
        let (st', e', held') =
          push_all-Holds src st.0 st.1 (n + 1) _ held (omega arith)
            (rw same (subst (λ k. touched t (head t b.pointer) k ≤ limit) sum q)) in
        (
          st',
          rw e e',
          subst (λ k. Holds r o t st' k (λ i. if ltb i n then f i else bit_of (bit ∷ src) (i - n)))
              (sym sum)
              (Holds-as r o t st' (n + 1 + count src) _ _ held' (λ i l. ground (
                arith,
                bit_of_later bit src (i - n),
                λ (x : i - n ≡ 0). ap (λ k. bit_of (bit ∷ src) k) x,
                λ (x : i - n - 1 ≡ i - (n + 1)). ap (λ k. bit_of src k) x,
              ))),
        )

    -- For a lawful order, any items of an iterator, any number that its `size_hint` announces, and a
    -- machine that can hold the elements for both: `from_iter` does not panic, and gives a vector
    -- that holds the items in order.
    pub from_iter-Holds :
        (hint : ℕ) (src : List Bool) (m : Memory)
        → IsMemory t m
        → count src ≤ max_bits
        → touched t 0 hint ≤ limit
        → touched t 0 (count src) ≤ limit
        → (st : Memory × BitVec) × (from_iter r o t a hint src m ≡ ok st)
          × Holds r o t st (count src) (bit_of src)
    unfolding from_iter
    from_iter-Holds hint src m w p q l =
        let zero : 0 + count src ≡ count src = omega arith in
        let (b, e, _, start, empty) = with_capacity-Holds hint q in
        let (st, e', held) =
          push_all-Holds src m b 0 (λ i. false) (empty m _ w) (omega arith) (rw (start, zero) l) in
        (
          st,
          rw e e',
          Holds-as r o t st (count src) _ _
              (subst (λ k. Holds r o t st k (λ i. if ltb i 0 then false else bit_of src (i - 0)))
                zero held)
              (λ i l. ground (arith, λ (x : i - 0 ≡ i). ap (λ k. bit_of src k) x)),
        )

    -- Under the same conditions on a vector that holds `n` bits, `extend` does not panic, and the
    -- vector then holds its bits and the items behind them.
    pub extend-Holds :
        (hint : ℕ) (src : List Bool) (m : Memory) (b : BitVec) (n : ℕ) (f : ℕ → Bool)
        → Holds r o t (m, b) n f
        → n + hint ≤ max_bits
        → n + count src ≤ max_bits
        → touched t (head t b.pointer) (n + hint) ≤ limit
        → touched t (head t b.pointer) (n + count src) ≤ limit
        → (st : Memory × BitVec) × (extend r o t a hint src (m, b) ≡ ok st)
          × Holds r o t st (n + count src) (λ i. if ltb i n then f i else bit_of src (i - n))
    unfolding extend
    extend-Holds hint src m b n f h p p' q q' =
        let (st, e, regrown, room) =
          reserve-IsReserved r o lawful t a limit laws hint (n + hint) m b h.vec
            (ap (λ k. k + hint) h.length) p q in
        let (st', e', held) =
          push_all-Holds src st.0 st.1 n f
            (record {
              vec = regrown.vec;
              memory = regrown.memory h.memory;
              length = regrown.length ∙ h.length;
              inside = λ i l. regrown.inside i (omega (arith, h.length)) ∙ h.inside i l;
            })
            p' (rw regrown.index q') in
        (st', rw e e', held)
