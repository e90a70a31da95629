-- ===== src/Slice/Ops/Inversion.antt =====
-- `!` on a slice flips each of its bits.
use bitvec_sgx.Base.{
  ℕ, zero, suc, ◌+◌, ◌-◌, ◌≤◌, ◌<◌, ◌≡◌, refl, sym, ◌∙◌, ap, arith, Bool, true, false, not, ◌&&◌,
  ◌==◌, ltb, leb, List, [], ◌∷◌, ◌++◌, ok, if◌then◌else◌, for_range, inl, inr, Bool-cases, subst,
}
use native.Mathlib.Nat.{sub-zero}
use bitvec_sgx.Bits.{bit-not, pow2_pos}
use bitvec_sgx.Store.{BitStore, bits, not_word}
use bitvec_sgx.Order.{BitOrder, IsBitOrder}
use bitvec_sgx.Access.{Radium, invert_bit}
use bitvec_sgx.Access
use bitvec_sgx.Access.Laws.{get_lem, bit-invert_bit, invert_bit-lt}
use bitvec_sgx.Memory.{Memory, IsMemory, write}
use bitvec_sgx.Pointer.{BitPtr, pointer, head, len_of}
use bitvec_sgx.Domain.{BitDomain, empty, minor, major, partial_head, partial_tail, spanning, splat}
use bitvec_sgx.Domain.Locations.{Location, locations, next_location, walk, within, whole}
use bitvec_sgx.Domain.Live.{live, domain-Splits}
use bitvec_sgx.Domain.Bounds.{IsBounded, domain-IsBounded, IsBounded-ok}
use bitvec_sgx.Slice.{bitptr, read, get_unchecked, locate}
use bitvec_sgx.Slice.Bits.{locate_in, locate_injective}
use bitvec_sgx.Slice.Locate.{IsSlice, locate-eq-walk}
use bitvec_sgx.Slice.Rewrites.{IsRewritten}
use bitvec_sgx.Slice.Ranges.Views.{bitptr-IsSlice, len_of-bitptr, locate-bitptr}
use bitvec_sgx.Slice.Bulk.Locations.{elem, same, same-eq, walk-elem}
use bitvec_sgx.Slice.Bulk.Fill.{slice_bits, not_elem, elem-locate}
use bitvec_sgx.Slice.Ops.{not_slice, not_parts, element_not, body_not}

-- Whether a location occurs an odd number of times.
odd : Location → List Location → Bool
odd l [] = false
odd l (x ∷ xs) = if same x l then not (odd l xs) else odd l xs

odd-append :
    (l : Location) (ls ms : List Location)
    → odd l (ls ++ ms) ≡ (if odd l ls then not (odd l ms) else odd l ms)
unfolding odd
odd-append l [] ms = refl
odd-append l (x ∷ xs) ms = ground (arith, odd-append l xs ms)

odd-within : (a b e i n : ℕ) → odd (a, b) (within e i n) ≡ (e == a) && leb i b && ltb b (i + n)
unfolding odd within
odd-within a b e i zero = ground arith
odd-within a b e i (suc n) = ground (arith, odd-within a b e (suc i) n)

-- `m'` is `m` with each bit of `ls` flipped as often as it occurs.
record IsFlipped (r : Radium) (o : BitOrder) (t : BitStore) (m : Memory) (ls : List Location)
    (m' : Memory) : Type 0 where
  memory : IsMemory t m'
  flipped :
      (l : Location)
      → l.1 < bits t
      → read r o t m' l ≡ (if odd l ls then not (read r o t m l) else read r o t m l)

module _ (r : Radium) (o : BitOrder) (lawful : IsBitOrder o) (t : BitStore) where
  abbrev Flipped : Memory → List Location → Memory → Type 0
  Flipped m ls m' = IsFlipped r o t m ls m'

  abbrev InBounds : List Location → Type 0
  InBounds ls = (l : Location) → elem l ls ≡ true → l.1 < bits t

  no_locations : (m : Memory) → IsMemory t m → Flipped m [] m
  unfolding odd
  no_locations m w = record { memory = w; flipped = λ l h. refl }

  Flipped-append :
      (m m' m'' : Memory) (ls ms : List Location)
      → Flipped m ls m'
      → Flipped m' ms m''
      → Flipped m (ls ++ ms) m''
  Flipped-append m m' m'' ls ms p q = record {
    memory = q.memory;
    flipped = λ l h. ground (arith, p.flipped l h, q.flipped l h, odd-append l ls ms);
  }

  in_element :
      (c b b' : ℕ)
      → b < bits t
      → b' < bits t
      → Access.get r o t (invert_bit r o t c b) b'
        ≡ (if b == b' then not (Access.get r o t c b') else Access.get r o t c b')
  in_element c b b' p q = ground (
    arith,
    get_lem r o lawful t (invert_bit r o t c b) b' q,
    get_lem r o lawful t c b' q,
    bit-invert_bit r o lawful t c b (o.at t b') p,
    lawful.at_injective t b b' p q,
  )

  one_bit :
      (m : Memory) (e i : ℕ)
      → IsMemory t m
      → i < bits t
      → Flipped m ((e, i) ∷ []) (write m e (invert_bit r o t (m e) i))
  unfolding odd
  one_bit m e i w h = record {
    memory = λ a. ground (arith, w a, invert_bit-lt r o lawful t (m e) i (w e) h);
    flipped = λ (a, b) p. ground (arith, in_element (m e) i b h p);
  }

  element_not-Flipped :
      (e n i : ℕ) (m : Memory)
      → IsMemory t m
      → i + n ≤ bits t
      → Flipped m (within e i n) (for_range n i (λ k m. write m e (invert_bit r o t (m e) k)) m)
  unfolding for_range within
  element_not-Flipped e zero i m w h = no_locations m w
  element_not-Flipped e (suc n) i m w h =
      let first = one_bit m e i w (omega arith) in
      Flipped-append m (write m e (invert_bit r o t (m e) i)) _ ((e, i) ∷ []) (within e (suc i) n)
        first (element_not-Flipped e n (suc i) _ first.memory (omega arith))

  one_element :
      (m : Memory) (e : ℕ)
      → IsMemory t m
      → Flipped m (within e 0 (bits t)) (write m e (r.store (m e) (not_word t (r.load (m e)))))
  one_element m e w = record {
    memory =
        λ a. ground (arith, w a, r.store_lem (m e) (not_word t (r.load (m e))), pow2_pos (bits t));
    flipped = λ (a, b) h. ground (
      arith,
      odd-within a b e 0 (bits t),
      r.store_lem (m e) (not_word t (r.load (m e))),
      r.load_lem (m e),
      get_lem r o lawful t (not_word t (m e)) b h,
      get_lem r o lawful t (m e) b h,
      bit-not (bits t) (m e) (o.at t b) (w e),
      lawful.at_lt t b h,
    );
  }

  body_not-Flipped :
      (m : Memory) (body : List ℕ) → IsMemory t m → Flipped m (whole t body) (body_not r o t body m)
  unfolding body_not whole
  body_not-Flipped m [] w = no_locations m w
  body_not-Flipped m (e ∷ body) w =
      let first = one_element m e w in
      Flipped-append m _ _ (within e 0 (bits t)) (whole t body) first
        (body_not-Flipped (write m e (r.store (m e) (not_word t (r.load (m e))))) body first.memory)

  range_not :
      (m : Memory) (e from to : ℕ)
      → IsMemory t m
      → from ≤ bits t
      → to ≤ bits t
      → Flipped m (within e from (to - from)) (element_not r o t e from to m)
  unfolding element_not
  range_not m e from to w p q = element_not-Flipped e (to - from) from m w (omega arith)

  body_then_tail :
      (m : Memory) (body : List ℕ) (last tl : ℕ)
      → IsMemory t m
      → tl ≤ bits t
      → Flipped m
          (whole t body ++ within last 0 tl)
          (element_not r o t last 0 tl (body_not r o t body m))
  body_then_tail m body last tl w h =
      let inner = body_not-Flipped m body w in
      Flipped-append m (body_not r o t body m) _ (whole t body) (within last 0 tl) inner (
        subst
          (λ n.
            Flipped (body_not r o t body m) (within last 0 n)
              (element_not r o t last 0 tl (body_not r o t body m)))
          (sub-zero tl) (range_not (body_not r o t body m) last 0 tl inner.memory (omega arith) h))

  not_parts-Flipped :
      (m : Memory) (d : BitDomain)
      → IsMemory t m
      → IsBounded t d
      → Flipped m (live t d) (not_parts r o t (splat d) m)
  unfolding not_parts splat live
  not_parts-Flipped m empty w h = no_locations m w
  not_parts-Flipped m (minor i e tl) w h =
      range_not m e i tl w (omega (arith, h)) (omega (arith, h))
  not_parts-Flipped m (major i first body last tl) w h =
      let inner = range_not m first i (bits t) w (omega (arith, h)) (omega arith) in
      Flipped-append m _ _ (within first i (bits t - i)) (whole t body ++ within last 0 tl) inner
        (body_then_tail _ body last tl inner.memory (omega (arith, h)))
  not_parts-Flipped m (partial_head i first body) w h =
      let inner = range_not m first i (bits t) w (omega (arith, h)) (omega arith) in
      Flipped-append m _ _ (within first i (bits t - i)) (whole t body) inner
        (body_not-Flipped _ body inner.memory)
  not_parts-Flipped m (partial_tail body last tl) w h =
      body_then_tail m body last tl w (omega (arith, h))
  not_parts-Flipped m (spanning body) w h = body_not-Flipped m body w

-- Locations that are all different occur at most once.
odd-distinct :
    (t : BitStore) (x l : Location) (n : ℕ)
    → ((i j : ℕ) → i < n → j < n → walk t l i ≡ walk t l j → i ≡ j)
    → odd x (locations t l n) ≡ elem x (locations t l n)
unfolding odd elem locations walk
odd-distinct t x l zero d = refl
odd-distinct t x l (suc n) d =
    let rest =
      odd-distinct t x (next_location t l) n
        (λ i j p q e. omega (arith, d (suc i) (suc j) (omega arith) (omega arith) e)) in
    elim (Bool-cases (same l x)) [
      | inl e ↦ (elim (Bool-cases (elem x (locations t (next_location t l) n))) [
        | inl f ↦
            (let k = walk-elem t (next_location t l) x n f in
              absurd (
                omega (
                  arith,
                  d 0 (suc k.0) (omega arith) (omega (arith, k.1)) (sym (same-eq x l e) ∙ k.2),
                )))
        | inr f ↦ ground (arith, rest)
      ])
      | inr e ↦ ground (arith, rest)
    ]

module _ (r : Radium) (o : BitOrder) (lawful : IsBitOrder o) (t : BitStore) (s : BitPtr)
    (g : IsSlice t s) (m : Memory) (w : IsMemory t m) where
  odd-slice_bits :
      (l : Location)
      → odd l (slice_bits r o lawful t true s g) ≡ elem l (slice_bits r o lawful t true s g)
  odd-slice_bits l =
      let same_place : (i : ℕ) → i < len_of t (bitptr s) → walk t _ i ≡ locate t s i =
        λ i h. sym (locate-eq-walk t (bitptr s) i (bitptr-IsSlice t s g) h) ∙ locate-bitptr t s i in
      let within_s : (i : ℕ) → i < len_of t (bitptr s) → i < len_of t s =
        λ i h. rw (sym (len_of-bitptr t s)) h in
      odd-distinct t l (pointer t (bitptr s), head t (bitptr s)) (len_of t (bitptr s))
        (λ i j p q e.
          locate_injective t s i j g (within_s i p) (within_s j q)
            (ap (λ (l : Location). l.0) (sym (same_place i p) ∙ e ∙ same_place j q))
            (ap (λ (l : Location). l.1) (sym (same_place i p) ∙ e ∙ same_place j q)))

  -- For a lawful order, well-typed memory and a slice inside the address space, `!` does not
  -- panic, flips every bit of the slice, changes no bit outside the slice, and keeps memory well
  -- typed.
  pub not_slice-ok :
      (m' : Memory) × (not_slice r o t m s ≡ ok m')
      × IsRewritten r o t m s (λ i. not (get_unchecked r o t m s i)) m'
  unfolding not_slice get_unchecked
  not_slice-ok =
      let d = domain-Splits t (bitptr s) (bitptr-IsSlice t s g).words in
      let bounded =
        IsBounded-ok t _ d.0 (domain-IsBounded t (bitptr s) (bitptr-IsSlice t s g).words) d.1 in
      let all =
        subst (λ ls. IsFlipped r o t m ls (not_parts r o t (splat d.0) m)) d.2
          (not_parts-Flipped r o lawful t m d.0 w bounded) in
      (
        not_parts r o t (splat d.0) m,
        rw d.1 refl,
        record {
          memory = all.memory;
          inside = λ i h.
              all.flipped (locate t s i) (locate_in t s i g h)
              ∙ ap
                  (λ b.
                    if b then not (read r o t m (locate t s i)) else read r o t m (locate t s i))
                  (odd-slice_bits (locate t s i) ∙ elem-locate r o lawful t true s g i h);
          outside = λ l out.
              all.flipped l out.0
              ∙ ap (λ b. if b then not (read r o t m l) else read r o t m l)
                  (odd-slice_bits l ∙ not_elem r o lawful t true s g l out);
        },
      )
