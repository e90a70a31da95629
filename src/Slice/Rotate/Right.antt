-- ===== src/Slice/Rotate/Right.antt =====
-- `rotate_right`: its rounds, its loop, and the whole.
use bitvec_sgx.Base.{
  ℕ, zero, suc, ◌+◌, ◌-◌, ◌≤◌, ◌<◌, ◌≡◌, refl, sym, ◌∙◌, ap, arith, min, subst, Bool, true, false,
  ltb, leb, ◌||◌, ◌==◌, if◌then◌else◌, Option, some, Outcome, ok, panic, Bool-cases, ==_cases, ◌⊎◌,
  ne→not_==, inl, inr,
}
use native.Mathlib.Nat.{sub-zero}
use bitvec_sgx.Store.{BitStore, bits, usize}
use bitvec_sgx.Order.{BitOrder, IsBitOrder}
use bitvec_sgx.Access.{Radium}
use bitvec_sgx.Pointer.{BitPtr, len_of}
use bitvec_sgx.Memory.{Memory, IsMemory}
use bitvec_sgx.Slice.{len, get_unchecked}
use bitvec_sgx.Slice.Locate.{IsSlice, len-eq-len_of}
use bitvec_sgx.Slice.Rewrites.{
  IsRewritten, Rewritten-as, Rewritten-trans, unchanged, view-IsRewritten,
}
use bitvec_sgx.Slice.Ranges.{range_from, range_to, range_unchecked}
use bitvec_sgx.Slice.Ranges.Views.{IsView, whole-IsView, get_unchecked-view}
use bitvec_sgx.Slice.Ranges.Nested.{range_to-IsView, range_unchecked-IsView_in}
use bitvec_sgx.Slice.Ranges.Splits.{sub_usize-eq}
use bitvec_sgx.Slice.Moves.Fill.{clone_from_slice-ok}
use bitvec_sgx.Slice.Ops.Shifts.{crawl_right}
use bitvec_sgx.Slice.Ops.Shifts.Crawls.{right_loop}
use bitvec_sgx.Slice.Rotate.Left.{local_bits-IsSlice, local_bits-len, tmp-IsMemory}
use bitvec_sgx.Slice.Rotate.{local_bits, tmp, round_right, rotate_loop, rotate_right}

module _ (r : Radium) (o : BitOrder) (lawful : IsBitOrder o) (t : BitStore) (s : BitPtr)
    (v : IsSlice t s) where
  -- Bit `i` of the slice after a rotation to the right by `by`.
  abbrev pub right_by : ℕ → Memory → ℕ → Bool
  right_by by m i =
      if ltb i by
      then get_unchecked r o t m s (i + len_of t s - by)
      else get_unchecked r o t m s (i - by)

  Rotates : ℕ → Memory → Outcome (Memory × Memory) → Type 0
  Rotates by m a =
      (st : Memory × Memory) × (a ≡ ok st)
      × IsRewritten r o t m s (right_by by m) st.0
      × IsMemory usize st.1

  round_right-Rotates :
      (shamt : ℕ) (m local : Memory)
      → IsMemory t m
      → IsMemory usize local
      → shamt ≤ 64
      → shamt < len_of t s
      → Rotates shamt m (round_right r o t s shamt (m, local))
  unfolding round_right Rotates crawl_right
  round_right-Rotates shamt m local w z p q =
      let n = len_of t s in
      let kept =
        range_to-IsView usize local_bits 0 64 local_bits
          (subst (λ k. IsView usize local_bits 0 k local_bits) local_bits-len
            (whole-IsView usize local_bits local_bits-IsSlice))
          shamt p in
      let whole = whole-IsView t s v in
      let front = range_to-IsView t s 0 n s whole shamt (omega arith) in
      let back =
        range_unchecked-IsView_in t s 0 n s whole (range_from (n - shamt)) (omega arith)
          (omega arith) in
      let (local', e, saved) =
        clone_from_slice-ok r o lawful usize (range_unchecked usize (range_to shamt) local_bits)
          kept.slice local r o t m (range_unchecked t (range_from (n - shamt)) s) z
          (omega (arith, kept.length, back.length)) in
      let moved = right_loop r o lawful t s v m w shamt (n - shamt) m (omega arith) (
        Rewritten-as r o lawful t s v m m _ _ (unchanged r o lawful t s v m w)
          (λ i l. ground arith)) in
      let (m', f, put) =
        clone_from_slice-ok r o lawful t (range_unchecked t (range_to shamt) s) front.slice _ r o
          usize local' (range_unchecked usize (range_to shamt) local_bits) moved.memory
          (front.length ∙ sym kept.length) in
      let first : (i : ℕ)
          → i < shamt
          → get_unchecked r o usize local' (range_unchecked usize (range_to shamt) local_bits) i
            ≡ get_unchecked r o t m s (i + n - shamt) =
        λ i a.
          saved.inside i (omega (arith, kept.length))
          ∙ get_unchecked-view r o t m back i (omega arith)
          ∙ ap (λ j. get_unchecked r o t m s j) (omega arith) in
      (
        (m', local'),
        rw (len-eq-len_of t s, sub_usize-eq t s shamt n v (omega arith) (omega arith), e, f) refl,
        Rewritten-as r o lawful t s v m m' _ _
            (Rewritten-trans r o lawful t s v m _ m' _ _ moved
              (view-IsRewritten r o lawful t s v _ m' _ _ _ _ front (omega arith) put))
            (λ i l. ground (arith, moved.inside i l, first i, first (i - 0), sub-zero i)),
        saved.memory,
      )

  -- A rotation by `a` and one by `b` are one by their sum.
  right_by_trans :
      (a b : ℕ) (m m' : Memory) (i : ℕ)
      → a + b < len_of t s
      → IsRewritten r o t m s (right_by a m) m'
      → i < len_of t s
      → right_by b m' i ≡ right_by (a + b) m i
  right_by_trans a b m m' i h p l =
      let n = len_of t s in
      ground (
        arith,
        p.inside (i + n - b),
        p.inside (i - b),
        λ (x : i + n - b - a ≡ i + n - (a + b)). ap (λ j. get_unchecked r o t m s j) x,
        λ (x : i - b + n - a ≡ i + n - (a + b)). ap (λ j. get_unchecked r o t m s j) x,
        λ (x : i - b - a ≡ i - (a + b)). ap (λ j. get_unchecked r o t m s j) x,
      )

  abbrev pub Ends : ℕ → Memory → Option (Outcome Memory) → Type 0
  Ends by m a = (m' : Memory) × (a ≡ some (ok m')) × IsRewritten r o t m s (right_by by m) m'

  right_loop-Ends :
      (fuel by : ℕ) (m local : Memory)
      → IsMemory t m
      → IsMemory usize local
      → by < fuel
      → by < len_of t s
      → Ends by m (rotate_loop r o t s (round_right r o t s) fuel by (m, local))
  unfolding rotate_loop Rotates
  right_loop-Ends zero by m local w z p q = absurd (omega arith)
  right_loop-Ends (suc fuel) by m local w z p q = elim (==_cases by 0) [
    | inl none_left ↦ (
      m,
      rw none_left refl,
      Rewritten-as r o lawful t s v m m _ _ (unchanged r o lawful t s v m w)
          (λ i l. ground (arith, λ (x : i ≡ i - by). ap (λ j. get_unchecked r o t m s j) x)),
    )
    | inr more ↦
        let shamt = min (bits usize) by in
        let (st, e, first, local_typed) =
          round_right-Rotates shamt m local w z (omega arith) (omega arith) in
        let (m', f, rest) =
          right_loop-Ends fuel (by - shamt) st.0 st.1 first.memory local_typed (omega arith)
            (omega arith) in
        let total : shamt + (by - shamt) ≡ by = omega arith in
        (
          m',
          rw (ne→not_== by 0 more, e, f) refl,
          Rewritten-as r o lawful t s v m m' _ _
              (Rewritten-trans r o lawful t s v m st.0 m' _ _ first rest)
              (λ i l.
                right_by_trans shamt (by - shamt) m st.0 i (omega arith) first l
                ∙ ap (λ k. right_by k m i) total),
        )
  ]

  rotate_right-proper :
      (m : Memory) (by : ℕ)
      → leb by (len t s) ≡ true
      → (by == 0 || by == len t s) ≡ false
      → rotate_right r o t s m by ≡ rotate_loop r o t s (round_right r o t s) (suc by) by (m, tmp)
  unfolding rotate_right
  rotate_right-proper m by e f = rw (e, f) refl

  -- For a lawful order, well-typed memory and a slice inside the address space: a rotation to the
  -- right by at most the length ends without a panic; bit `i` of the slice is then the former bit
  -- `i - by`, counted back from the end below bit 0; no bit outside the slice has changed, and
  -- memory is still well typed. A rotation by more panics.
  pub rotate_right-ok :
      (m : Memory) (by : ℕ)
      → IsMemory t m
      → (by ≤ len_of t s → Ends by m (rotate_right r o t s m by))
        × (len_of t s < by → rotate_right r o t s m by ≡ some panic)
  unfolding rotate_right
  rotate_right-ok m by w =
      let n = len_of t s in
      let in_range : by ≤ n → leb by n ≡ true = λ h. ground arith in
      let still : (i : ℕ)
          → i < n
          → (by ≡ 0) ⊎ (by ≡ n)
          → get_unchecked r o t m s i ≡ right_by by m i =
        λ i l c. ground (
          arith,
          λ (x : i ≡ i - by). ap (λ j. get_unchecked r o t m s j) x,
          λ (x : i ≡ i + n - by). ap (λ j. get_unchecked r o t m s j) x,
        ) in
      (
        λ h. elim (Bool-cases (by == 0 || by == n)) [
          | inl trivial ↦ (
            m,
            rw (len-eq-len_of t s, in_range h, trivial) refl,
            Rewritten-as r o lawful t s v m m _ _ (unchanged r o lawful t s v m w)
                (λ i l. still i l (ground arith)),
          )
          | inr proper ↦
              let (m', e, z) =
                right_loop-Ends (suc by) by m tmp w tmp-IsMemory (omega arith) (ground arith) in
              (
                m',
                rotate_right-proper m by (rw (len-eq-len_of t s) (in_range h))
                      (rw (len-eq-len_of t s) proper)
                    ∙ e,
                z,
              )
        ],
        λ h. rw (len-eq-len_of t s) (ground arith),
      )
