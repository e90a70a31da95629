-- ===== src/Vec/Ops/Loops.antt =====
-- src/vec/ops.rs: the loops of the shifts, on what a bit vector holds.
use bitvec_sgx.Order.{IsBitOrder, BitOrder}
use bitvec_sgx.Memory.{Memory}
use bitvec_sgx.Access.{Radium}
use bitvec_sgx.Base.{
  ◌&&◌, ℕ, zero, suc, ◌+◌, ◌-◌, ◌^◌, ◌≤◌, ◌<◌, ◌≡◌, refl, ap, arith, Outcome, ok, min, Bool, true,
  false, subst, ltb, leb, if◌then◌else◌, ◌==◌,
}
use bitvec_sgx.Store.{BitStore}
use bitvec_sgx.Pointer.{max_bits}
use bitvec_sgx.Slice.{set_unchecked, index, set, get}
use bitvec_sgx.Slice.Rewrites.{set_unchecked-IsRewritten, unchanged}
use bitvec_sgx.Vec.{BitVec}
use bitvec_sgx.Vec.Shape.{IsBitVec-IsSlice}
use bitvec_sgx.Vec.Contents.{Holds, Holds-as}
use bitvec_sgx.Vec.Stack.{len_held}
use bitvec_sgx.Vec.Edits.{rewritten-Holds}
use bitvec_sgx.Vec.Ops.{each, each_back, move_bit, saturating_add}

-- A loop ends in a state that its rounds lead to.
abbrev pub Reaches : (Memory → Type 0) → Outcome Memory → Type 0
Reaches P x = (m' : Memory) × (x ≡ ok m') × P m'

each-Reaches :
    (body : ℕ → Memory → Outcome Memory) (P : ℕ → Memory → Type 0) (n a : ℕ) (m : Memory)
    → P a m
    → ((i : ℕ) (m : Memory) → a ≤ i → i < a + n → P i m → Reaches (P (i + 1)) (body i m))
    → Reaches (P (a + n)) (each body n a m)
unfolding each
each-Reaches body P zero a m p step = (m, refl, subst (λ k. P k m) (omega arith) p)
each-Reaches body P (suc n) a m p step =
    let (m', e, q) = step a m (omega arith) (omega arith) p in
    let next : a + 1 ≡ suc a = omega arith in
    let sum : suc a + n ≡ a + suc n = omega arith in
    let (m'', f, z) =
      each-Reaches body P n (suc a) m' (subst (λ k. P k m') next q)
        (λ i m l h. step i m (omega arith) (omega arith)) in
    (m'', rw e f, subst (λ k. P k m'') sum z)

each_back-Reaches :
    (body : ℕ → Memory → Outcome Memory) (P : ℕ → Memory → Type 0) (n : ℕ) (m : Memory)
    → P n m
    → ((i : ℕ) (m : Memory) → i < n → P (i + 1) m → Reaches (P i) (body i m))
    → Reaches (P 0) (each_back body n m)
unfolding each_back
each_back-Reaches body P zero m p step = (m, refl, p)
each_back-Reaches body P (suc n) m p step =
    let next : suc n ≡ n + 1 = omega arith in
    let (m', e, q) = step n m (omega arith) (subst (λ k. P k m) next p) in
    let (m'', f, z) = each_back-Reaches body P n m' q (λ i m l. step i m (omega arith)) in
    (m'', rw e f, z)

module _ (r : Radium) (o : BitOrder) (lawful : IsBitOrder o) (t : BitStore) (b : BitVec)
    (n : ℕ) where
  abbrev pub Keeps : (ℕ → Bool) → Memory → Type 0
  Keeps f m = Holds r o t (m, b) n f

  set-Reaches :
      (f : ℕ → Bool) (m : Memory) (i : ℕ) (value : Bool)
      → Keeps f m
      → i < n
      → Reaches (Keeps (λ j. if i == j then value else f j)) (set r o t m b.pointer i value)
  unfolding set
  set-Reaches f m i value h l =
      let slice = IsBitVec-IsSlice t b h.vec in
      let in_range : ltb i n ≡ true = ground arith in
      let whole =
        set_unchecked-IsRewritten r o lawful t b.pointer slice m m _ i value
          (unchanged r o lawful t b.pointer slice m h.memory) (omega (arith, h.length)) in
      (
        set_unchecked r o t m b.pointer i value,
        rw (len_held r o t (m, b) n f h, in_range) refl,
        Holds-as r o t _ n _ _ (rewritten-Holds r o lawful t m _ b n f _ h whole)
            (λ j p. ap (λ x. if i == j then value else x) (h.inside j p)),
      )

  index-held :
      (f : ℕ → Bool) (m : Memory) (i : ℕ) → Keeps f m → i < n → index r o t m b.pointer i ≡ ok (f i)
  unfolding index get
  index-held f m i h p =
      let in_range : ltb i n ≡ true = ground arith in
      rw (index, get, len_held r o t (m, b) n f h, in_range, h.inside i p) refl

  move_bit-Reaches :
      (f : ℕ → Bool) (m : Memory) (from to : ℕ)
      → Keeps f m
      → from < n
      → to < n
      → Reaches (Keeps (λ j. if to == j then f from else f j)) (move_bit r o t b.pointer from to m)
  unfolding move_bit
  move_bit-Reaches f m from to h p q =
      rw (move_bit, index-held f m from h p) (set-Reaches f m to (f from) h q)

  -- Setting bits to false one by one.
  pub clear_bits-Reaches :
      (f : ℕ → Bool) (m : Memory) (a k : ℕ)
      → Keeps f m
      → a + k ≤ n
      → Reaches
          (Keeps (λ j. if leb a j && ltb j (a + k) then false else f j))
          (each (λ idx m. set r o t m b.pointer idx false) k a m)
  clear_bits-Reaches f m a k h l =
      each-Reaches _ (λ i. Keeps (λ j. if leb a j && ltb j i then false else f j)) k a m
        (Holds-as r o t (m, b) n _ _ h (λ j p. ground arith))
        (λ i m p q h.
          let (m', e, held) = set-Reaches _ m i false h (omega arith) in
          (m', e, Holds-as r o t (m', b) n _ _ held (λ j below. ground arith)))

  -- The bits from `shamt` on move to the front.
  pub front-Reaches :
      (f : ℕ → Bool) (m : Memory) (shamt : ℕ)
      → Keeps f m
      → shamt ≤ n
      → Reaches
          (Keeps (λ j. if ltb (j + shamt) n then f (j + shamt) else f j))
          (each (λ idx m. move_bit r o t b.pointer idx (idx - shamt) m) (n - shamt) shamt m)
  front-Reaches f m shamt h l =
      let moved : ℕ → Memory → Type 0 =
        λ i. Keeps (λ j. if ltb (j + shamt) i then f (j + shamt) else f j) in
      let all : shamt + (n - shamt) ≡ n = omega arith in
      subst
        (λ k.
          Reaches (moved k)
            (each (λ idx m. move_bit r o t b.pointer idx (idx - shamt) m) (n - shamt) shamt m))
        all
        (each-Reaches _ moved (n - shamt) shamt m
          (Holds-as r o t (m, b) n _ _ h (λ j p. ground arith))
          (λ i m p q h.
            let (m', e, held) = move_bit-Reaches _ m i (i - shamt) h (omega arith) (omega arith) in
            (
              m',
              e,
              Holds-as r o t (m', b) n _ _ held
                  (λ j below. ground (arith, λ (x : i ≡ j + shamt). ap f x)),
            )))

  -- The first `k` bits move back by `shamt`, from the last one on.
  pub back-Reaches :
      (f : ℕ → Bool) (m : Memory) (k shamt : ℕ)
      → Keeps f m
      → k + shamt ≤ n
      → n ≤ max_bits
      → Reaches
          (Keeps (λ j. if leb shamt j && ltb j (k + shamt) then f (j - shamt) else f j))
          (each_back (λ idx m. move_bit r o t b.pointer idx (saturating_add idx shamt) m) k m)
  back-Reaches f m k shamt h l fits =
      let (m', e, held) =
        each_back-Reaches _
          (λ i. Keeps (λ j. if leb (i + shamt) j && ltb j (k + shamt) then f (j - shamt) else f j))
          k m (Holds-as r o t (m, b) n _ _ h (λ j p. ground arith))
          (λ i m p h.
            let (m', e, held) = move_bit-Reaches _ m i (i + shamt) h (omega arith) (omega arith) in
            let inside : min (i + shamt) (2 ^ 64 - 1) ≡ i + shamt = ground arith in
            (
              m',
              rw inside e,
              Holds-as r o t (m', b) n _ _ held
                  (λ j below. ground (arith, λ (x : i ≡ j - shamt). ap f x)),
            )) in
      (m', e, Holds-as r o t (m', b) n _ _ held (λ j below. ground arith))
