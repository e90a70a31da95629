-- ===== src/Slice/Rotate/Left.antt =====
-- `rotate_left`: its rounds, its loop, and the whole.
use bitvec_sgx.Base.{
  ℕ, zero, suc, ◌+◌, ◌-◌, ◌≤◌, ◌<◌, ◌≡◌, refl, sym, ◌∙◌, ap, arith, min, subst, Bool, true, false,
  ltb, leb, ◌||◌, ◌==◌, if◌then◌else◌, Option, some, Outcome, ok, panic, Bool-cases, ==_cases, ◌⊎◌,
  ne→not_==, inl, inr,
}
use bitvec_sgx.Store.{BitStore, bits, usize}
use bitvec_sgx.Order.{BitOrder, IsBitOrder}
use bitvec_sgx.Access.{Radium}
use bitvec_sgx.Pointer.{BitPtr, new_unchecked, pointer, head, len_of}
use bitvec_sgx.Indices.{span_idx}
use bitvec_sgx.Memory.{Memory, IsMemory}
use bitvec_sgx.Slice.{len, get_unchecked}
use bitvec_sgx.Slice.Locate.{IsSlice, len-eq-len_of}
use bitvec_sgx.Slice.Rewrites.{
  IsRewritten, Rewritten-as, Rewritten-trans, unchanged, view-IsRewritten,
}
use bitvec_sgx.Slice.Ranges.{range_from, range_to, range_unchecked}
use bitvec_sgx.Slice.Ranges.Views.{IsView, whole-IsView, get_unchecked-view}
use bitvec_sgx.Slice.Ranges.Nested.{range_to-IsView, range_unchecked-IsView_in}
use bitvec_sgx.Slice.Ranges.Splits.{sub_usize-eq}
use bitvec_sgx.Slice.Moves.Fill.{clone_from_slice-ok}
use bitvec_sgx.Slice.Ops.Shifts.{crawl_left}
use bitvec_sgx.Slice.Ops.Shifts.Crawls.{left_loop}
use bitvec_sgx.Slice.Rotate.{
  from_element_mut, local_bits, tmp, round_left, rotate_loop, rotate_left,
}

pub local_bits-IsSlice : IsSlice usize local_bits
unfolding local_bits from_element_mut new_unchecked pointer head len_of span_idx
local_bits-IsSlice = record {
  words = record { ptr_word = omega arith; len_word = omega arith };
  room = omega arith;
}

pub local_bits-len : len_of usize local_bits ≡ 64
unfolding local_bits from_element_mut new_unchecked len_of
local_bits-len = refl

pub tmp-IsMemory : IsMemory usize tmp
tmp-IsMemory a = omega arith

module _ (r : Radium) (o : BitOrder) (lawful : IsBitOrder o) (t : BitStore) (s : BitPtr)
    (v : IsSlice t s) where
  -- Bit `i` of the slice after a rotation to the left by `by`.
  abbrev pub left_by : ℕ → Memory → ℕ → Bool
  left_by by m i =
      if ltb (i + by) (len_of t s)
      then get_unchecked r o t m s (by + i)
      else get_unchecked r o t m s (i + by - len_of t s)

  Rotates : ℕ → Memory → Outcome (Memory × Memory) → Type 0
  Rotates by m a =
      (st : Memory × Memory) × (a ≡ ok st)
      × IsRewritten r o t m s (left_by by m) st.0
      × IsMemory usize st.1

  round_left-Rotates :
      (shamt : ℕ) (m local : Memory)
      → IsMemory t m
      → IsMemory usize local
      → shamt ≤ 64
      → shamt < len_of t s
      → Rotates shamt m (round_left r o t s shamt (m, local))
  unfolding round_left Rotates crawl_left
  round_left-Rotates shamt m local w z p q =
      let n = len_of t s in
      let kept =
        range_to-IsView usize local_bits 0 64 local_bits
          (subst (λ k. IsView usize local_bits 0 k local_bits) local_bits-len
            (whole-IsView usize local_bits local_bits-IsSlice))
          shamt p in
      let whole = whole-IsView t s v in
      let front = range_to-IsView t s 0 n s whole shamt (omega arith) in
      let back =
        range_unchecked-IsView_in t s 0 n s whole (range_from (n - shamt)) (omega arith)
          (omega arith) in
      let (local', e, saved) =
        clone_from_slice-ok r o lawful usize (range_unchecked usize (range_to shamt) local_bits)
          kept.slice local r o t m (range_unchecked t (range_to shamt) s) z
          (kept.length ∙ sym front.length) in
      let moved = left_loop r o lawful t s v m w shamt (n - shamt) 0 m (omega arith) (
        Rewritten-as r o lawful t s v m m _ _ (unchanged r o lawful t s v m w)
          (λ i l. ground arith)) in
      let (m', f, put) =
        clone_from_slice-ok r o lawful t (range_unchecked t (range_from (n - shamt)) s) back.slice _
          r o usize local' (range_unchecked usize (range_to shamt) local_bits) moved.memory
          (omega (arith, back.length, kept.length)) in
      let last : (i : ℕ)
          → n - shamt ≤ i
          → i < n
          → get_unchecked r o usize local' (range_unchecked usize (range_to shamt) local_bits)
              (i - (0 + (n - shamt)))
            ≡ get_unchecked r o t m s (i + shamt - n) =
        λ i a b.
          saved.inside (i - (0 + (n - shamt))) (omega (arith, kept.length))
          ∙ get_unchecked-view r o t m front (i - (0 + (n - shamt))) (omega arith)
          ∙ ap (λ j. get_unchecked r o t m s j) (omega arith) in
      (
        (m', local'),
        rw (len-eq-len_of t s, sub_usize-eq t s shamt n v (omega arith) (omega arith), e, f) refl,
        Rewritten-as r o lawful t s v m m' _ _
            (Rewritten-trans r o lawful t s v m _ m' _ _ moved
              (view-IsRewritten r o lawful t s v _ m' _ _ _ _ back (omega arith) put))
            (λ i l. ground (arith, moved.inside i l, last i)),
        saved.memory,
      )

  -- A rotation by `a` and one by `b` are one by their sum.
  left_by_trans :
      (a b : ℕ) (m m' : Memory) (i : ℕ)
      → a + b < len_of t s
      → IsRewritten r o t m s (left_by a m) m'
      → i < len_of t s
      → left_by b m' i ≡ left_by (a + b) m i
  left_by_trans a b m m' i h p l =
      let n = len_of t s in
      ground (
        arith,
        p.inside (b + i),
        p.inside (i + b - n),
        λ (x : a + (b + i) ≡ a + b + i). ap (λ j. get_unchecked r o t m s j) x,
        λ (x : b + i + a - n ≡ i + (a + b) - n). ap (λ j. get_unchecked r o t m s j) x,
        λ (x : a + (i + b - n) ≡ i + (a + b) - n). ap (λ j. get_unchecked r o t m s j) x,
      )

  abbrev pub Ends : ℕ → Memory → Option (Outcome Memory) → Type 0
  Ends by m a = (m' : Memory) × (a ≡ some (ok m')) × IsRewritten r o t m s (left_by by m) m'

  left_loop-Ends :
      (fuel by : ℕ) (m local : Memory)
      → IsMemory t m
      → IsMemory usize local
      → by < fuel
      → by < len_of t s
      → Ends by m (rotate_loop r o t s (round_left r o t s) fuel by (m, local))
  unfolding rotate_loop Rotates
  left_loop-Ends zero by m local w z p q = absurd (omega arith)
  left_loop-Ends (suc fuel) by m local w z p q = elim (==_cases by 0) [
    | inl none_left ↦ (
      m,
      rw none_left refl,
      Rewritten-as r o lawful t s v m m _ _ (unchanged r o lawful t s v m w)
          (λ i l. ground (arith, λ (x : i ≡ by + i). ap (λ j. get_unchecked r o t m s j) x)),
    )
    | inr more ↦
        let shamt = min (bits usize) by in
        let (st, e, first, local_typed) =
          round_left-Rotates shamt m local w z (omega arith) (omega arith) in
        let (m', f, rest) =
          left_loop-Ends fuel (by - shamt) st.0 st.1 first.memory local_typed (omega arith)
            (omega arith) in
        let total : shamt + (by - shamt) ≡ by = omega arith in
        (
          m',
          rw (ne→not_== by 0 more, e, f) refl,
          Rewritten-as r o lawful t s v m m' _ _
              (Rewritten-trans r o lawful t s v m st.0 m' _ _ first rest)
              (λ i l.
                left_by_trans shamt (by - shamt) m st.0 i (omega arith) first l
                ∙ ap (λ k. left_by k m i) total),
        )
  ]

  rotate_left-proper :
      (m : Memory) (by : ℕ)
      → leb by (len t s) ≡ true
      → (by == 0 || by == len t s) ≡ false
      → rotate_left r o t s m by ≡ rotate_loop r o t s (round_left r o t s) (suc by) by (m, tmp)
  unfolding rotate_left
  rotate_left-proper m by e f = rw (e, f) refl

  -- For a lawful order, well-typed memory and a slice inside the address space: a rotation to the
  -- left by at most the length ends without a panic; bit `i` of the slice is then the former bit
  -- `i + by`, counted on from bit 0 past the end; no bit outside the slice has changed, and memory
  -- is still well typed. A rotation by more panics.
  pub rotate_left-ok :
      (m : Memory) (by : ℕ)
      → IsMemory t m
      → (by ≤ len_of t s → Ends by m (rotate_left r o t s m by))
        × (len_of t s < by → rotate_left r o t s m by ≡ some panic)
  unfolding rotate_left
  rotate_left-ok m by w =
      let n = len_of t s in
      let in_range : by ≤ n → leb by n ≡ true = λ h. ground arith in
      let still : (i : ℕ)
          → i < n
          → (by ≡ 0) ⊎ (by ≡ n)
          → get_unchecked r o t m s i ≡ left_by by m i =
        λ i l c. ground (
          arith,
          λ (x : i ≡ by + i). ap (λ j. get_unchecked r o t m s j) x,
          λ (x : i ≡ i + by - n). ap (λ j. get_unchecked r o t m s j) x,
        ) in
      (
        λ h. elim (Bool-cases (by == 0 || by == n)) [
          | inl trivial ↦ (
            m,
            rw (len-eq-len_of t s, in_range h, trivial) refl,
            Rewritten-as r o lawful t s v m m _ _ (unchanged r o lawful t s v m w)
                (λ i l. still i l (ground arith)),
          )
          | inr proper ↦
              let (m', e, z) =
                left_loop-Ends (suc by) by m tmp w tmp-IsMemory (omega arith) (ground arith) in
              (
                m',
                rotate_left-proper m by (rw (len-eq-len_of t s) (in_range h))
                      (rw (len-eq-len_of t s) proper)
                    ∙ e,
                z,
              )
        ],
        λ h. rw (len-eq-len_of t s) (ground arith),
      )
