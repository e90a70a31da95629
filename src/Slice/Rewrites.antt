-- ===== src/Slice/Rewrites.antt =====
-- What an operation on a slice does to memory, in one predicate: the new bits of the slice, and
-- that no bit outside it changed.
use bitvec_sgx.Base.{
  ltb, ◌&&◌, ◌⊎◌, subst, leb, ℕ, ◌+◌, ◌-◌, ◌≤◌, ◌<◌, ◌≡◌, ◌≢◌, refl, sym, ◌∙◌, ap, arith, ◌==◌,
  if◌then◌else◌, Bool,
}
use bitvec_sgx.Store.{BitStore, bits}
use bitvec_sgx.Order.{BitOrder, IsBitOrder}
use bitvec_sgx.Access.{Radium}
use bitvec_sgx.Domain.Locations.{Location}
use bitvec_sgx.Memory.{Memory, IsMemory}
use bitvec_sgx.Pointer.{BitPtr, len_of}
use bitvec_sgx.Slice.{read, get_unchecked, set_unchecked, swap_unchecked, locate}
use bitvec_sgx.Slice.Locate.{IsSlice}
use bitvec_sgx.Slice.Bits.{
  get_unchecked-set_unchecked, set_unchecked_frame, set_unchecked-IsMemory, locate_injective,
  locate_in,
}
use bitvec_sgx.Slice.Ranges.Views.{IsView, get_unchecked-view}

-- A bit of memory that is none of the slice's.
abbrev pub IsOutside : BitStore → BitPtr → Location → Type 0
IsOutside t s l = (l.1 < bits t) × ((i : ℕ) → i < len_of t s → l ≢ locate t s i)

-- `m'` is `m` with bit `i` of the slice `s` replaced by `f i`.
pub record IsRewritten (r : Radium) (o : BitOrder) (t : BitStore) (m : Memory) (s : BitPtr)
    (f : ℕ → Bool) (m' : Memory) : Type 0 where
  pub memory : IsMemory t m'
  pub inside : (i : ℕ) → i < len_of t s → get_unchecked r o t m' s i ≡ f i
  pub outside : (l : Location) → IsOutside t s l → read r o t m' l ≡ read r o t m l

module _ (r : Radium) (o : BitOrder) (lawful : IsBitOrder o) (t : BitStore) (s : BitPtr)
    (v : IsSlice t s) where
  abbrev Rewritten : Memory → (ℕ → Bool) → Memory → Type 0
  Rewritten m f m' = IsRewritten r o t m s f m'

  pub unchanged : (m : Memory) → IsMemory t m → Rewritten m (λ i. get_unchecked r o t m s i) m
  unchanged m w = record { memory = w; inside = λ i h. refl; outside = λ l h. refl }

  -- One more write.
  pub set_unchecked-IsRewritten :
      (m m' : Memory) (f : ℕ → Bool) (i : ℕ) (b : Bool)
      → Rewritten m f m'
      → i < len_of t s
      → Rewritten m (λ j. if i == j then b else f j) (set_unchecked r o t m' s i b)
  set_unchecked-IsRewritten m m' f i b w h = record {
    memory = set_unchecked-IsMemory r o lawful t m' s i b w.memory v h;
    inside = λ j l.
        get_unchecked-set_unchecked r o lawful t m' s i j b w.memory v h l
        ∙ ap (λ c. if i == j then b else c) (w.inside j l);
    outside = λ l out.
        set_unchecked_frame r o lawful t m' s i b l w.memory v h out.0 (out.1 i h)
        ∙ w.outside l out;
  }

  -- The same bits by another description.
  pub Rewritten-as :
      (m m' : Memory) (f g : ℕ → Bool)
      → Rewritten m f m'
      → ((i : ℕ) → i < len_of t s → f i ≡ g i)
      → Rewritten m g m'
  Rewritten-as m m' f g w e = record {
    memory = w.memory;
    inside = λ i h. w.inside i h ∙ e i h;
    outside = w.outside;
  }

  -- A second rewrite of the same slice.
  pub Rewritten-trans :
      (m m' m'' : Memory) (f g : ℕ → Bool)
      → Rewritten m f m'
      → Rewritten m' g m''
      → Rewritten m g m''
  Rewritten-trans m m' m'' f g w w' = record {
    memory = w'.memory;
    inside = w'.inside;
    outside = λ l h. w'.outside l h ∙ w.outside l h;
  }

  -- For a lawful order, well-typed memory, a slice inside the address space and two indices
  -- below its length, the swap exchanges the two bits, keeps the other bits of the slice and
  -- every bit outside it, and keeps memory well typed.
  pub swap_unchecked-IsRewritten :
      (m : Memory) (a b : ℕ)
      → IsMemory t m
      → a < len_of t s
      → b < len_of t s
      → Rewritten m
          (λ j.
            if b == j
            then get_unchecked r o t m s a
            else if a == j
            then get_unchecked r o t m s b
            else get_unchecked r o t m s j)
          (swap_unchecked r o t m s a b)
  unfolding swap_unchecked
  swap_unchecked-IsRewritten m a b w p q =
      set_unchecked-IsRewritten m (set_unchecked r o t m s a (get_unchecked r o t m s b)) _ b
        (get_unchecked r o t m s a)
        (set_unchecked-IsRewritten m m _ a (get_unchecked r o t m s b) (unchanged m w) p) q

  -- Bits of the slice before or after a view are not the view's.
  beside_view :
      (sub : BitPtr) (start n i : ℕ)
      → IsView t s start n sub
      → start + n ≤ len_of t s
      → i < len_of t s
      → (i < start) ⊎ (start + n ≤ i)
      → IsOutside t sub (locate t s i)
  beside_view sub start n i view h p c = (
    locate_in t s i v p,
    λ k l e.
        let k_in : k < n = subst (λ x. k < x) view.length l in
        let same : i ≡ start + k =
          locate_injective t s i (start + k) v p (omega arith)
            (ap (λ (x : Location). x.0) (e ∙ view.shifted k k_in))
            (ap (λ (x : Location). x.1) (e ∙ view.shifted k k_in)) in
        omega arith,
  )

  IsOutside-view :
      (sub : BitPtr) (start n : ℕ) (l : Location)
      → IsView t s start n sub
      → start + n ≤ len_of t s
      → IsOutside t s l
      → IsOutside t sub l
  IsOutside-view sub start n l view h out = (
    out.0,
    λ k p e.
        let k_in : k < n = subst (λ x. k < x) view.length p in
        out.1 (start + k) (omega arith) (e ∙ view.shifted k k_in),
  )

  within_view :
      (m' : Memory) (sub : BitPtr) (start n i : ℕ)
      → IsView t s start n sub
      → start ≤ i
      → i < start + n
      → get_unchecked r o t m' s i ≡ get_unchecked r o t m' sub (i - start)
  within_view m' sub start n i view p q =
      let back : start + (i - start) ≡ i = omega arith in
      sym (
        get_unchecked-view r o t m' view (i - start) (omega arith)
        ∙ ap (λ k. get_unchecked r o t m' s k) back)

  kept_beside_view :
      (m m' : Memory) (sub : BitPtr) (start n i : ℕ) (f : ℕ → Bool)
      → IsView t s start n sub
      → start + n ≤ len_of t s
      → IsRewritten r o t m sub f m'
      → i < len_of t s
      → (i < start) ⊎ (start + n ≤ i)
      → get_unchecked r o t m' s i ≡ get_unchecked r o t m s i
  unfolding get_unchecked
  kept_beside_view m m' sub start n i f view h w p c =
      w.outside (locate t s i) (beside_view sub start n i view h p c)

  -- A rewrite of a view rewrites the viewed slice at the bits of the view.
  pub view-IsRewritten :
      (m m' : Memory) (sub : BitPtr) (start n : ℕ) (f : ℕ → Bool)
      → IsView t s start n sub
      → start + n ≤ len_of t s
      → IsRewritten r o t m sub f m'
      → Rewritten m
          (λ i.
            if leb start i && ltb i (start + n) then f (i - start) else get_unchecked r o t m s i)
          m'
  view-IsRewritten m m' sub start n f view h w = record {
    memory = w.memory;
    inside = λ i p. ground (
      arith,
      view.length,
      within_view m' sub start n i view,
      w.inside (i - start),
      kept_beside_view m m' sub start n i f view h w p,
    );
    outside = λ l out. w.outside l (IsOutside-view sub start n l view h out);
  }
