-- ===== src/Slice/Bulk/Fill.antt =====
-- `set_all` over the domain writes exactly the bits of the slice.
use bitvec_sgx.Base.{
  ℕ, zero, suc, ◌-◌, ◌<◌, ◌≡◌, refl, sym, ◌∙◌, ap, arith, Bool, true, false, List, [], ◌∷◌, ◌++◌,
  ok, if◌then◌else◌, for_range, inl, inr, Bool-cases, subst,
}
use native.Mathlib.Nat.{sub-zero}
use bitvec_sgx.Bits.{bit, bit-zero, pow2_pos}
use bitvec_sgx.Store.{BitStore, bits, all_true, all_false}
use bitvec_sgx.Order.{BitOrder, IsBitOrder}
use bitvec_sgx.Access.{Radium}
use bitvec_sgx.Access
use bitvec_sgx.Access.Laws.{get_lem, set-lt}
use bitvec_sgx.Memory.{Memory, IsMemory, write}
use bitvec_sgx.Pointer.{BitPtr, pointer, head, len_of}
use bitvec_sgx.Domain.{BitDomain, empty, minor, major, partial_head, partial_tail, spanning, splat}
use bitvec_sgx.Domain.Locations.{Location, locations, within, whole}
use bitvec_sgx.Domain.Live.{live, domain-Splits}
use bitvec_sgx.Slice.{bitptr, read, get_unchecked, locate}
use bitvec_sgx.Slice.Bits.{read-write, locate_in}
use bitvec_sgx.Slice.Locate.{IsSlice, locate-eq-walk}
use bitvec_sgx.Slice.Rewrites.{IsRewritten, IsOutside}
use bitvec_sgx.Slice.Ranges.Views.{bitptr-IsSlice, len_of-bitptr, locate-bitptr}
use bitvec_sgx.Slice.Bulk.{set_all, set_parts, element_set, body_store}
use bitvec_sgx.Slice.Bulk.Locations.{
  elem, elem-append, elem-within, same_self, elem-walk, walk-elem,
}
use bitvec_sgx.Slice.Bulk.Counts.{bit-all_true}

-- `m'` is `m` with every bit of `ls` set to `v`.
record IsFilled (r : Radium) (o : BitOrder) (t : BitStore) (m : Memory) (ls : List Location)
    (v : Bool) (m' : Memory) : Type 0 where
  memory : IsMemory t m'
  filled :
      (l : Location) → l.1 < bits t → read r o t m' l ≡ (if elem l ls then v else read r o t m l)

module _ (r : Radium) (o : BitOrder) (lawful : IsBitOrder o) (t : BitStore) (v : Bool) where
  abbrev Filled : Memory → List Location → Memory → Type 0
  Filled m ls m' = IsFilled r o t m ls v m'

  abbrev InBounds : List Location → Type 0
  InBounds ls = (l : Location) → elem l ls ≡ true → l.1 < bits t

  no_locations : (m : Memory) → IsMemory t m → Filled m [] m
  unfolding elem
  no_locations m w = record { memory = w; filled = λ l h. refl }

  Filled-append :
      (m m' m'' : Memory) (ls ms : List Location)
      → Filled m ls m'
      → Filled m' ms m''
      → Filled m (ls ++ ms) m''
  Filled-append m m' m'' ls ms p q = record {
    memory = q.memory;
    filled = λ l h. ground (arith, p.filled l h, q.filled l h, elem-append l ls ms);
  }

  one_bit :
      (m : Memory) (e i : ℕ)
      → IsMemory t m
      → i < bits t
      → Filled m ((e, i) ∷ []) (write m e (Access.set r o t (m e) i v))
  unfolding elem
  one_bit m e i w h = record {
    memory = λ a. ground (arith, w a, set-lt r o lawful t (m e) i v (w e) h);
    filled = λ (a, b) p. ground (arith, read-write r o lawful t m e i a b v w h p);
  }

  element_bits :
      (m : Memory) (e i n : ℕ)
      → IsMemory t m
      → InBounds (within e i n)
      → Filled m (within e i n) (for_range n i (λ k m. write m e (Access.set r o t (m e) k v)) m)
  unfolding for_range within elem
  element_bits m e i zero w h = no_locations m w
  element_bits m e i (suc n) w h =
      let first = one_bit m e i w (h (e, i) (ground (arith, same_self (e, i)))) in
      Filled-append m (write m e (Access.set r o t (m e) i v)) _ ((e, i) ∷ []) (within e (suc i) n)
        first
        (element_bits (write m e (Access.set r o t (m e) i v)) e (suc i) n first.memory
          (λ l p. h l (ground (arith, p))))

  element_set-Filled :
      (m : Memory) (e from to : ℕ)
      → IsMemory t m
      → InBounds (within e from (to - from))
      → Filled m (within e from (to - from)) (element_set r o t e from to v m)
  unfolding element_set
  element_set-Filled m e from to w p = element_bits m e from (to - from) w p

  abbrev word : ℕ
  word = if v then all_true t else all_false t

  bit-word : (k : ℕ) → k < bits t → bit word k ≡ v
  bit-word k h = elim v as (λ v. bit (if v then all_true t else all_false t) k ≡ v) [
    | true ↦ bit-all_true o lawful t k h
    | false ↦ bit-zero k
  ]

  one_element :
      (m : Memory) (e : ℕ)
      → IsMemory t m
      → Filled m (within e 0 (bits t)) (write m e (r.store (m e) word))
  one_element m e w = record {
    memory = λ a. ground (arith, w a, r.store_lem (m e) word, pow2_pos (bits t));
    filled = λ (a, b) h. ground (
      arith,
      elem-within a b e 0 (bits t),
      r.store_lem (m e) word,
      get_lem r o lawful t word b h,
      bit-word (o.at t b) (lawful.at_lt t b h),
    );
  }

  body_store-Filled :
      (m : Memory) (body : List ℕ)
      → IsMemory t m
      → Filled m (whole t body) (body_store r o t body v m)
  unfolding body_store whole
  body_store-Filled m [] w = no_locations m w
  body_store-Filled m (e ∷ body) w =
      let first = one_element m e w in
      Filled-append m (write m e (r.store (m e) word)) _ (within e 0 (bits t)) (whole t body) first
        (body_store-Filled (write m e (r.store (m e) word)) body first.memory)

  front_in : (ls ms : List Location) → InBounds (ls ++ ms) → InBounds ls
  front_in ls ms h l p = h l (ground (arith, elem-append l ls ms))

  back_in : (ls ms : List Location) → InBounds (ls ++ ms) → InBounds ms
  back_in ls ms h l p = h l (ground (arith, elem-append l ls ms))

  body_then_tail :
      (m : Memory) (body : List ℕ) (last tl : ℕ)
      → IsMemory t m
      → InBounds (whole t body ++ within last 0 tl)
      → Filled m
          (whole t body ++ within last 0 tl)
          (element_set r o t last 0 tl v (body_store r o t body v m))
  body_then_tail m body last tl w h =
      let inner = body_store-Filled m body w in
      Filled-append m (body_store r o t body v m) _ (whole t body) (within last 0 tl) inner (
        subst
          (λ n.
            Filled (body_store r o t body v m) (within last 0 n)
              (element_set r o t last 0 tl v (body_store r o t body v m)))
          (sub-zero tl)
          (element_set-Filled (body_store r o t body v m) last 0 tl inner.memory (
            subst (λ n. InBounds (within last 0 n)) (sym (sub-zero tl))
              (back_in (whole t body) (within last 0 tl) h))))

  set_parts-Filled :
      (m : Memory) (d : BitDomain)
      → IsMemory t m
      → InBounds (live t d)
      → Filled m (live t d) (set_parts r o t (splat d) v m)
  unfolding set_parts splat live
  set_parts-Filled m empty w h = no_locations m w
  set_parts-Filled m (minor i e tl) w h = element_set-Filled m e i tl w h
  set_parts-Filled m (major i first body last tl) w h =
      let front = within first i (bits t - i) in
      let back = whole t body ++ within last 0 tl in
      let m' = element_set r o t first i (bits t) v m in
      let inner = element_set-Filled m first i (bits t) w (front_in front back h) in
      Filled-append m m' _ front back inner
        (body_then_tail m' body last tl inner.memory (back_in front back h))
  set_parts-Filled m (partial_head i first body) w h =
      let front = within first i (bits t - i) in
      let m' = element_set r o t first i (bits t) v m in
      let inner = element_set-Filled m first i (bits t) w (front_in front (whole t body) h) in
      Filled-append m m' _ front (whole t body) inner (body_store-Filled m' body inner.memory)
  set_parts-Filled m (partial_tail body last tl) w h = body_then_tail m body last tl w h
  set_parts-Filled m (spanning body) w h = body_store-Filled m body w

  module _ (s : BitPtr) (g : IsSlice t s) where
    abbrev pub slice_bits : List Location
    slice_bits = locations t (pointer t (bitptr s), head t (bitptr s)) (len_of t (bitptr s))

    pub elem-locate : (i : ℕ) → i < len_of t s → elem (locate t s i) slice_bits ≡ true
    elem-locate i h =
        let p : i < len_of t (bitptr s) = rw (len_of-bitptr t s) h in
        ap (λ l. elem l slice_bits)
          (sym (locate-bitptr t s i) ∙ locate-eq-walk t (bitptr s) i (bitptr-IsSlice t s g) p)
        ∙ elem-walk t _ (len_of t (bitptr s)) i p

    locate-elem :
        (l : Location) → elem l slice_bits ≡ true → (i : ℕ) × (i < len_of t s) × (l ≡ locate t s i)
    locate-elem l h =
        let k = walk-elem t _ l (len_of t (bitptr s)) h in
        (
          k.0,
          omega (arith, k.1, len_of-bitptr t s),
          k.2
              ∙ sym (locate-eq-walk t (bitptr s) k.0 (bitptr-IsSlice t s g) k.1)
              ∙ locate-bitptr t s k.0,
        )

    slice_bits-InBounds : InBounds slice_bits
    slice_bits-InBounds l h =
        let k = locate-elem l h in
        subst (λ (x : Location). x.1 < bits t) (sym k.2) (locate_in t s k.0 g k.1)

    pub not_elem : (l : Location) → IsOutside t s l → elem l slice_bits ≡ false
    not_elem l out = elim (Bool-cases (elem l slice_bits)) [
      | inl e ↦ (let k = locate-elem l e in absurd (out.1 k.0 k.1 k.2))
      | inr e ↦ e
    ]

    Filled-IsRewritten :
        (m m' : Memory) → Filled m slice_bits m' → IsRewritten r o t m s (λ i. v) m'
    unfolding get_unchecked
    Filled-IsRewritten m m' f = record {
      memory = f.memory;
      inside = λ i h.
          f.filled (locate t s i) (locate_in t s i g h)
          ∙ ap (λ b. if b then v else read r o t m (locate t s i)) (elem-locate i h);
      outside =
          λ l out. f.filled l out.0 ∙ ap (λ b. if b then v else read r o t m l) (not_elem l out);
    }

    -- For a lawful order, well-typed memory and a slice inside the address space, `set_all` does
    -- not panic, makes every bit of the slice the value, changes no bit outside the slice, and
    -- keeps memory well typed.
    pub set_all-ok :
        (m : Memory)
        → IsMemory t m
        → (m' : Memory) × (set_all r o t m s v ≡ ok m') × IsRewritten r o t m s (λ i. v) m'
    unfolding set_all
    set_all-ok m w =
        let d = domain-Splits t (bitptr s) (bitptr-IsSlice t s g).words in
        (
          set_parts r o t (splat d.0) v m,
          rw d.1 refl,
          Filled-IsRewritten m (set_parts r o t (splat d.0) v m) (
              subst (λ ls. Filled m ls (set_parts r o t (splat d.0) v m)) d.2
                (set_parts-Filled m d.0 w (subst InBounds (sym d.2) slice_bits-InBounds))),
        )
