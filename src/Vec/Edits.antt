-- ===== src/Vec/Edits.antt =====
-- src/vec/api.rs: `insert`, `remove` and `swap_remove`.
use bitvec_sgx.Pointer.New.{touched}
use bitvec_sgx.Memory.{Memory}
use bitvec_sgx.Pointer.{head, max_bits, len_of, BitPtr}
use bitvec_sgx.Order.{IsBitOrder, BitOrder}
use bitvec_sgx.Access.{Radium}
use bitvec_sgx.Base.{
  ℕ, ◌+◌, ◌-◌, ◌≤◌, ◌<◌, ◌≡◌, refl, ◌∙◌, ap, arith, ok, panic, Bool, true, false, subst, ltb, leb,
  if◌then◌else◌, ◌==◌, some,
}
use bitvec_sgx.Store.{BitStore}
use bitvec_sgx.Slice.{get_unchecked, swap}
use bitvec_sgx.Slice.Rewrites.{IsRewritten, view-IsRewritten, swap_unchecked-IsRewritten}
use bitvec_sgx.Slice.{swap_unchecked}
use bitvec_sgx.Slice.Ranges.{range_from, range_unchecked}
use bitvec_sgx.Slice.Ranges.Nested.{range_unchecked-IsView_in}
use bitvec_sgx.Slice.Ranges.Views.{IsView, whole-IsView, get_unchecked-view}
use bitvec_sgx.Slice.Rotate.{rotate_left, rotate_right}
use bitvec_sgx.Slice.Rotate.Left.{rotate_left-ok}
use bitvec_sgx.Slice.Rotate.Right.{rotate_right-ok}
use bitvec_sgx.Vec.{Allocator, BitVec, pop_some, insert, remove, swap_remove}
use bitvec_sgx.Vec.Shape.{IsAllocator, IsBitVec, IsBitVec-IsSlice}
use bitvec_sgx.Vec.Contents.{Holds, Holds-as}
use bitvec_sgx.Vec.Stack.{len_held, pop-Holds, push-Holds}

module _ (r : Radium) (o : BitOrder) (lawful : IsBitOrder o) (t : BitStore) where
  -- A vector after a rewrite of its bits.
  pub rewritten-Holds :
      (m m' : Memory) (b : BitVec) (n : ℕ) (f g : ℕ → Bool)
      → Holds r o t (m, b) n f
      → IsRewritten r o t m b.pointer g m'
      → Holds r o t (m', b) n g
  rewritten-Holds m m' b n f g h w = record {
    vec = h.vec;
    memory = w.memory;
    length = h.length;
    inside = λ i l. w.inside i (omega (arith, h.length));
  }

  abbrev pub behind : BitVec → ℕ → BitPtr
  behind b index = range_unchecked t (range_from index) b.pointer

  pub behind-IsView :
      (b : BitVec) (n index : ℕ)
      → IsBitVec t b
      → len_of t b.pointer ≡ n
      → index ≤ n
      → IsView t b.pointer index (n - index) (behind b index)
  behind-IsView b n index v e h =
      let from : 0 + index ≡ index = omega arith in
      subst (λ k. IsView t b.pointer k (n - index) (behind b index)) from
        (range_unchecked-IsView_in t b.pointer 0 n b.pointer
          (subst (λ k. IsView t b.pointer 0 k b.pointer) e
            (whole-IsView t b.pointer (IsBitVec-IsSlice t b v)))
          (range_from index) h (omega arith))

  -- The rotations by one of the bits from `index` on.
  rotate_right-Holds :
      (m : Memory) (b : BitVec) (n index : ℕ) (f : ℕ → Bool)
      → Holds r o t (m, b) n f
      → index < n
      → (m' : Memory) × (rotate_right r o t (behind b index) m 1 ≡ some (ok m'))
        × Holds r o t
            (m', b)
            n
            (λ j. if ltb j index then f j else if j == index then f (n - 1) else f (j - 1))
  rotate_right-Holds m b n index f h l =
      let sub = behind b index in
      let view = behind-IsView b n index h.vec h.length (omega arith) in
      let slice = IsBitVec-IsSlice t b h.vec in
      let (m', e, turned) =
        (rotate_right-ok r o lawful t sub view.slice m 1 h.memory).0 (omega (arith, view.length)) in
      let whole =
        view-IsRewritten r o lawful t b.pointer slice m m' sub index (n - index) _ view
          (omega (arith, h.length)) turned in
      let at : (k : ℕ) → k < n - index → get_unchecked r o t m sub k ≡ f (index + k) =
        λ k p. get_unchecked-view r o t m view k p ∙ h.inside (index + k) (omega arith) in
      (
        m',
        e,
        Holds-as r o t (m', b) n _ _ (rewritten-Holds m m' b n f _ h whole)
            (λ j p. ground (
              arith,
              view.length,
              h.inside j p,
              at (j - index + len_of t sub - 1),
              at (j - index - 1),
              λ (x : index + (j - index + len_of t sub - 1) ≡ n - 1). ap f x,
              λ (x : index + (j - index - 1) ≡ j - 1). ap f x,
            )),
      )

  rotate_left-Holds :
      (m : Memory) (b : BitVec) (n index : ℕ) (f : ℕ → Bool)
      → Holds r o t (m, b) n f
      → index < n
      → (m' : Memory) × (rotate_left r o t (behind b index) m 1 ≡ some (ok m'))
        × Holds r o t
            (m', b)
            n
            (λ j. if ltb j index then f j else if j + 1 == n then f index else f (j + 1))
  rotate_left-Holds m b n index f h l =
      let sub = behind b index in
      let view = behind-IsView b n index h.vec h.length (omega arith) in
      let slice = IsBitVec-IsSlice t b h.vec in
      let (m', e, turned) =
        (rotate_left-ok r o lawful t sub view.slice m 1 h.memory).0 (omega (arith, view.length)) in
      let whole =
        view-IsRewritten r o lawful t b.pointer slice m m' sub index (n - index) _ view
          (omega (arith, h.length)) turned in
      let at : (k : ℕ) → k < n - index → get_unchecked r o t m sub k ≡ f (index + k) =
        λ k p. get_unchecked-view r o t m view k p ∙ h.inside (index + k) (omega arith) in
      (
        m',
        e,
        Holds-as r o t (m', b) n _ _ (rewritten-Holds m m' b n f _ h whole)
            (λ j p. ground (
              arith,
              view.length,
              h.inside j p,
              at (1 + (j - index)),
              at (j - index + 1 - len_of t sub),
              λ (x : index + (1 + (j - index)) ≡ j + 1). ap f x,
              λ (x : index + (j - index + 1 - len_of t sub) ≡ index). ap f x,
            )),
      )

  module _ (a : Allocator) where
    pop_some-Holds :
        (m : Memory) (b : BitVec) (n : ℕ) (f : ℕ → Bool)
        → Holds r o t (m, b) n f
        → 0 < n
        → (b' : BitVec) × (pop_some r o t a (m, b) ≡ ok (f (n - 1), m, b'))
          × Holds r o t (m, b') (n - 1) f
    unfolding pop_some
    pop_some-Holds m b n f h l =
        let (b', e, held) = (pop-Holds r o t a m b n f h).1 (n - 1) (omega arith) in
        (b', rw (pop_some, e) refl, held)

    -- For a lawful order and a vector that holds `n` bits: `remove` at an index below `n` ends
    -- without a panic, gives the bit there, and the vector then holds the bits before and after
    -- it; `remove` at any other index panics.
    pub remove-Holds :
        (index : ℕ) (m : Memory) (b : BitVec) (n : ℕ) (f : ℕ → Bool)
        → Holds r o t (m, b) n f
        → (index < n
            → (st : Memory × BitVec) × (remove r o t a index (m, b)
                ≡ some (ok (f index, st.0, st.1)))
              × Holds r o t st (n - 1) (λ j. if ltb j index then f j else f (j + 1)))
          × (n ≤ index → remove r o t a index (m, b) ≡ some panic)
    unfolding remove
    remove-Holds index m b n f h = (
      λ l.
          let in_range : ltb index n ≡ true = ground arith in
          let inhabited : (n == 0) ≡ false = ground arith in
          let (m', e, turned) = rotate_left-Holds m b n index f h l in
          let (b', popped, held) = pop_some-Holds m' b n _ turned (omega arith) in
          (
            (m', b'),
            rw (remove, len_held r o t (m, b) n f h, inhabited, in_range, e, popped)
                (ap (λ x. some (ok (x, m', b'))) (ground arith)),
            Holds-as r o t (m', b') (n - 1) _ _ held (λ j p. ground arith),
          ),
      λ l. rw (len_held r o t (m, b) n f h) (ground arith),
    )

    -- For a lawful order and a vector that holds `n` bits: `swap_remove` at an index below `n`
    -- gives the bit there without a panic, and the vector then holds the others with the last in
    -- its place; `swap_remove` at any other index panics.
    pub swap_remove-Holds :
        (index : ℕ) (m : Memory) (b : BitVec) (n : ℕ) (f : ℕ → Bool)
        → Holds r o t (m, b) n f
        → (index < n
            → (st : Memory × BitVec) × (swap_remove r o t a index (m, b) ≡ ok (f index, st.0, st.1))
              × Holds r o t st (n - 1) (λ j. if j == index then f (n - 1) else f j))
          × (n ≤ index → swap_remove r o t a index (m, b) ≡ panic)
    unfolding swap_remove swap
    swap_remove-Holds index m b n f h = (
      λ l.
          let in_range : ltb index n ≡ true = ground arith in
          let inhabited : (n == 0) ≡ false = ground arith in
          let last_in : ltb (n - 1) n ≡ true = ground arith in
          let swapped = rewritten-Holds m _ b n f _ h (
            swap_unchecked-IsRewritten r o lawful t b.pointer (IsBitVec-IsSlice t b h.vec) m index
              (n - 1) h.memory (omega (arith, h.length)) (omega (arith, h.length))) in
          let (b', popped, held) = pop_some-Holds _ b n _ swapped (omega arith) in
          (
            (_, b'),
            rw (swap_remove, len_held r o t (m, b) n f h, inhabited, in_range, last_in, popped)
                (ap (λ x. ok (x, swap_unchecked r o t m b.pointer index (n - 1), b'))
                  (ground (arith, h.inside index))),
            Holds-as r o t _ (n - 1) _ _ held (λ j p. ground (arith, h.inside j, h.inside (n - 1))),
          ),
      λ l. rw (len_held r o t (m, b) n f h) (ground arith),
    )

    -- For a lawful order, a vector that holds `n` bits, fewer than `MAX_BITS`, and a machine that
    -- can hold the elements for one more bit: `insert` at an index up to `n` ends without a
    -- panic, and the vector then holds the bits before the index, the new one and the others
    -- behind it; `insert` at a greater index panics.
    pub insert-Holds :
        (limit : ℕ)
        → IsAllocator t a limit
        → (index : ℕ) (value : Bool) (m : Memory) (b : BitVec) (n : ℕ) (f : ℕ → Bool)
        → Holds r o t (m, b) n f
        → n < max_bits
        → touched t (head t b.pointer) (n + 1) ≤ limit
        → (index ≤ n
            → (st : Memory × BitVec) × (insert r o t a index value (m, b) ≡ some (ok st))
              × Holds r o t st
                  (n + 1)
                  (λ j. if ltb j index then f j else if j == index then value else f (j - 1)))
          × (n < index → insert r o t a index value (m, b) ≡ some panic)
    unfolding insert
    insert-Holds limit laws index value m b n f h p q = (
      λ l.
          let in_range : leb index n ≡ true = ground arith in
          let (st, e', longer, _) = push-Holds r o t a lawful limit laws value m b n f h p q in
          let (m', e, turned) = rotate_right-Holds st.0 st.1 (n + 1) index _ longer (omega arith) in
          (
            (m', st.1),
            rw (len_held r o t (m, b) n f h, in_range, e', e) refl,
            Holds-as r o t (m', st.1) (n + 1) _ _ turned (λ j p. ground arith),
          ),
      λ l. rw (len_held r o t (m, b) n f h) (ground arith),
    )
