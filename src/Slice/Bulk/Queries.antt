-- ===== src/Slice/Bulk/Queries.antt =====
-- The queries over the domain agree with examining the slice bit by bit.
use bitvec_sgx.Base.{
  ℕ, ◌+◌, ◌-◌, ◌≡◌, refl, sym, ◌∙◌, ap, arith, Bool, true, false, not, ◌==◌, ◌!=◌, ◌&&◌, ◌||◌, to_ℕ,
  all_range, any_range, count_range, List, [], ◌∷◌, ◌++◌, ok,
}
use bitvec_sgx.Bits.{bit}
use bitvec_sgx.Store.{all_true, all_false, BitStore, bits}
use bitvec_sgx.Store.Element
use bitvec_sgx.Order.{BitOrder, IsBitOrder}
use bitvec_sgx.Access.{Radium}
use bitvec_sgx.Access
use bitvec_sgx.Access.Laws.{get_lem}
use bitvec_sgx.Memory.{Memory, IsMemory}
use bitvec_sgx.Pointer.{BitPtr, pointer, head, len_of}
use bitvec_sgx.Domain.{BitDomain, empty, minor, major, partial_head, partial_tail, spanning, splat}
use bitvec_sgx.Domain.Locations.{Location, locations, within, whole, walk}
use bitvec_sgx.Domain.Live.{live, domain-Splits}
use bitvec_sgx.Slice.{bitptr, read, get_unchecked}
use bitvec_sgx.Slice.Locate.{IsSlice, locate-eq-walk, len-eq-len_of}
use bitvec_sgx.Slice.Ranges.Views.{bitptr-IsSlice, len_of-bitptr, locate-bitptr}
use bitvec_sgx.Slice.Bulk.{
  all, any, not_all, some_set, count_ones, count_zeros, all_parts, any_parts, count_parts, body_all,
  body_any, body_count, element_all, element_any, element_count,
}
use bitvec_sgx.Slice.Bulk.Locations.{
  fold_range, fold_list, fold_range-ext, fold_list-append, fold_list-within, fold_list-locations,
  all_range-fold, any_range-fold, count_range-fold,
}
use bitvec_sgx.Slice.Bulk.Counts.{all_ones, some_ones, count_ones_lem, count_range-not}

module _ (r : Radium) (o : BitOrder) (lawful : IsBitOrder o) (t : BitStore) (m : Memory)
    (w : IsMemory t m) where
  -- A fold over the live bits of a domain is one over the bits of the slice by index.
  pub live-eq-range {ℓ} :
      {A : Type ℓ} (unit : A) (op : A → A → A) (f : Bool → A) (s : BitPtr) (d : BitDomain)
      → IsSlice t s
      → live t d ≡ locations t (pointer t (bitptr s), head t (bitptr s)) (len_of t (bitptr s))
      → fold_list unit op (λ l. f (read r o t m l)) (live t d)
        ≡ fold_range unit op (len_of t s) 0 (λ i. f (get_unchecked r o t m s i))
  unfolding get_unchecked walk
  live-eq-range unit op f s d v e =
      let p = bitptr s in
      let start : Location = (pointer t p, head t p) in
      ap (fold_list unit op (λ l. f (read r o t m l))) e
      ∙ fold_list-locations unit op t (λ l. f (read r o t m l)) start (len_of t p) 0
      ∙ ap (λ n. fold_range unit op n 0 (λ i. f (read r o t m (walk t start i))))
          (len_of-bitptr t s)
      ∙ fold_range-ext unit op (len_of t s) 0 _ _ (λ i g h.
        ap (λ l. f (read r o t m l))
          (sym (locate-eq-walk t p i (bitptr-IsSlice t s v) (rw (len_of-bitptr t s) (omega arith)))
            ∙ locate-bitptr t s i))

  -- A whole element, as its live bits.
  element-eq-within {ℓ} :
      {A : Type ℓ} (unit : A) (op : A → A → A) (f : Bool → A) (e : ℕ)
      → fold_range unit op (bits t) 0 (λ i. f (bit (m e) (o.at t i)))
        ≡ fold_list unit op (λ l. f (read r o t m l)) (within e 0 (bits t))
  element-eq-within unit op f e =
      fold_range-ext unit op (bits t) 0 _ _
        (λ i g h. ap f (sym (get_lem r o lawful t (m e) i (omega arith))))
      ∙ sym (fold_list-within unit op (λ l. f (read r o t m l)) e 0 (bits t))

  abbrev all_live : List Location → Bool
  all_live = fold_list true ◌&&◌ (read r o t m)

  all_live-append : (ls ms : List Location) → all_live (ls ++ ms) ≡ all_live ls && all_live ms
  all_live-append =
      fold_list-append true ◌&&◌ (λ a. ground arith) (λ a b c. ground arith) (read r o t m)

  all_element :
      (e from to : ℕ) → element_all r o t m e from to ≡ all_live (within e from (to - from))
  unfolding all_range Element.get Access.get
  all_element e from to =
      all_range-fold (to - from) from _
      ∙ sym (fold_list-within true ◌&&◌ (read r o t m) e from (to - from))

  all_word : (e : ℕ) → (r.load (m e) == all_true t) ≡ all_live (within e 0 (bits t))
  all_word e =
      ap (λ x. x == all_true t) (r.load_lem (m e))
      ∙ all_ones o lawful t (m e) (w e)
      ∙ all_range-fold (bits t) 0 (λ i. bit (m e) (o.at t i))
      ∙ element-eq-within true ◌&&◌ (λ b. b) e

  all_body : (body : List ℕ) → body_all r o t m body ≡ all_live (whole t body)
  unfolding body_all whole fold_list
  all_body [] = refl
  all_body (e ∷ body) =
      ground
        (arith, all_word e, all_body body, all_live-append (within e 0 (bits t)) (whole t body))

  all_parts_lem : (d : BitDomain) → all_parts r o t m (splat d) ≡ all_live (live t d)
  unfolding all_parts splat live fold_list
  all_parts_lem empty = refl
  all_parts_lem (minor h e tl) = all_element e h tl
  all_parts_lem (major h first body last tl) = ground (
    arith,
    all_element first h (bits t),
    all_body body,
    all_element last 0 tl,
    all_live-append (within first h (bits t - h)) (whole t body ++ within last 0 tl),
    all_live-append (whole t body) (within last 0 tl),
  )
  all_parts_lem (partial_head h first body) = ground (
    arith,
    all_element first h (bits t),
    all_body body,
    all_live-append (within first h (bits t - h)) (whole t body),
  )
  all_parts_lem (partial_tail body last tl) = ground (
    arith,
    all_element last 0 tl,
    all_body body,
    all_live-append (whole t body) (within last 0 tl),
  )
  all_parts_lem (spanning body) = ground (arith, all_body body)

  -- For a lawful order, well-typed memory and a slice inside the address space, `all` does not
  -- panic, and its answer over elements is the conjunction of the slice's bits by index.
  pub all-ok :
      (s : BitPtr)
      → IsSlice t s
      → all r o t m s ≡ ok (all_range (len_of t s) 0 (λ i. get_unchecked r o t m s i))
  unfolding all
  all-ok s v =
      let g = domain-Splits t (bitptr s) (bitptr-IsSlice t s v).words in
      rw g.1 (
        ap ok (
          all_parts_lem g.0
          ∙ live-eq-range true ◌&&◌ (λ b. b) s g.0 v g.2
          ∙ sym (all_range-fold (len_of t s) 0 (λ i. get_unchecked r o t m s i))))

  abbrev any_live : List Location → Bool
  any_live = fold_list false ◌||◌ (read r o t m)

  any_live-append : (ls ms : List Location) → any_live (ls ++ ms) ≡ any_live ls || any_live ms
  any_live-append =
      fold_list-append false ◌||◌ (λ a. ground arith) (λ a b c. ground arith) (read r o t m)

  any_element :
      (e from to : ℕ) → element_any r o t m e from to ≡ any_live (within e from (to - from))
  unfolding any_range Element.get Access.get
  any_element e from to =
      any_range-fold (to - from) from _
      ∙ sym (fold_list-within false ◌||◌ (read r o t m) e from (to - from))

  any_word : (e : ℕ) → (r.load (m e) != all_false t) ≡ any_live (within e 0 (bits t))
  any_word e =
      ap (λ x. x != all_false t) (r.load_lem (m e))
      ∙ some_ones o lawful t (m e) (w e)
      ∙ any_range-fold (bits t) 0 (λ i. bit (m e) (o.at t i))
      ∙ element-eq-within false ◌||◌ (λ b. b) e

  any_body : (body : List ℕ) → body_any r o t m body ≡ any_live (whole t body)
  unfolding body_any whole fold_list
  any_body [] = refl
  any_body (e ∷ body) =
      ground
        (arith, any_word e, any_body body, any_live-append (within e 0 (bits t)) (whole t body))

  any_parts_lem : (d : BitDomain) → any_parts r o t m (splat d) ≡ any_live (live t d)
  unfolding any_parts splat live fold_list
  any_parts_lem empty = refl
  any_parts_lem (minor h e tl) = any_element e h tl
  any_parts_lem (major h first body last tl) = ground (
    arith,
    any_element first h (bits t),
    any_body body,
    any_element last 0 tl,
    any_live-append (within first h (bits t - h)) (whole t body ++ within last 0 tl),
    any_live-append (whole t body) (within last 0 tl),
  )
  any_parts_lem (partial_head h first body) = ground (
    arith,
    any_element first h (bits t),
    any_body body,
    any_live-append (within first h (bits t - h)) (whole t body),
  )
  any_parts_lem (partial_tail body last tl) = ground (
    arith,
    any_element last 0 tl,
    any_body body,
    any_live-append (whole t body) (within last 0 tl),
  )
  any_parts_lem (spanning body) = ground (arith, any_body body)

  -- For a lawful order, well-typed memory and a slice inside the address space, `any` does not
  -- panic, and its answer over elements is the disjunction of the slice's bits by index.
  pub any-ok :
      (s : BitPtr)
      → IsSlice t s
      → any r o t m s ≡ ok (any_range (len_of t s) 0 (λ i. get_unchecked r o t m s i))
  unfolding any
  any-ok s v =
      let g = domain-Splits t (bitptr s) (bitptr-IsSlice t s v).words in
      rw g.1 (
        ap ok (
          any_parts_lem g.0
          ∙ live-eq-range false ◌||◌ (λ b. b) s g.0 v g.2
          ∙ sym (any_range-fold (len_of t s) 0 (λ i. get_unchecked r o t m s i))))

  abbrev count_live : List Location → ℕ
  count_live = fold_list 0 ◌+◌ (λ l. to_ℕ (read r o t m l))

  count_live-append :
      (ls ms : List Location) → count_live (ls ++ ms) ≡ count_live ls + count_live ms
  count_live-append =
      fold_list-append 0 ◌+◌ (λ a. ground arith) (λ a b c. ground arith)
        (λ l. to_ℕ (read r o t m l))

  count_element :
      (e from to : ℕ) → element_count r o t m e from to ≡ count_live (within e from (to - from))
  unfolding count_range Element.get Access.get
  count_element e from to =
      count_range-fold (to - from) from _
      ∙ sym (fold_list-within 0 ◌+◌ (λ l. to_ℕ (read r o t m l)) e from (to - from))

  count_word : (e : ℕ) → Element.count_ones t (r.load (m e)) ≡ count_live (within e 0 (bits t))
  count_word e =
      ap (Element.count_ones t) (r.load_lem (m e))
      ∙ count_ones_lem o lawful t (m e)
      ∙ count_range-fold (bits t) 0 (λ i. bit (m e) (o.at t i))
      ∙ element-eq-within 0 ◌+◌ to_ℕ e

  count_body : (body : List ℕ) → body_count r o t m body ≡ count_live (whole t body)
  unfolding body_count whole fold_list
  count_body [] = refl
  count_body (e ∷ body) =
      ground (
        arith,
        count_word e,
        count_body body,
        count_live-append (within e 0 (bits t)) (whole t body),
      )

  count_parts_lem : (d : BitDomain) → count_parts r o t m (splat d) ≡ count_live (live t d)
  unfolding count_parts splat live fold_list
  count_parts_lem empty = refl
  count_parts_lem (minor h e tl) = count_element e h tl
  count_parts_lem (major h first body last tl) = ground (
    arith,
    count_element first h (bits t),
    count_body body,
    count_element last 0 tl,
    count_live-append (within first h (bits t - h)) (whole t body ++ within last 0 tl),
    count_live-append (whole t body) (within last 0 tl),
  )
  count_parts_lem (partial_head h first body) = ground (
    arith,
    count_element first h (bits t),
    count_body body,
    count_live-append (within first h (bits t - h)) (whole t body),
  )
  count_parts_lem (partial_tail body last tl) = ground (
    arith,
    count_element last 0 tl,
    count_body body,
    count_live-append (whole t body) (within last 0 tl),
  )
  count_parts_lem (spanning body) = ground (arith, count_body body)

  -- For a lawful order, well-typed memory and a slice inside the address space, `count_ones`
  -- does not panic, and its sum of population counts is the number of indices of the slice
  -- whose bit is set.
  pub count_ones-ok :
      (s : BitPtr)
      → IsSlice t s
      → count_ones r o t m s ≡ ok (count_range (len_of t s) 0 (λ i. get_unchecked r o t m s i))
  unfolding count_ones
  count_ones-ok s v =
      let g = domain-Splits t (bitptr s) (bitptr-IsSlice t s v).words in
      rw g.1 (
        ap ok (
          count_parts_lem g.0
          ∙ live-eq-range 0 ◌+◌ to_ℕ s g.0 v g.2
          ∙ sym (count_range-fold (len_of t s) 0 (λ i. get_unchecked r o t m s i))))

  -- Under the same conditions, `some` does not panic, and is set exactly if some bit of the slice
  -- is set and not every bit is.
  pub some_set-ok :
      (s : BitPtr)
      → IsSlice t s
      → some_set r o t m s
        ≡ ok (
            any_range (len_of t s) 0 (λ i. get_unchecked r o t m s i)
            && not (all_range (len_of t s) 0 (λ i. get_unchecked r o t m s i)))
  unfolding some_set not_all
  some_set-ok s v = rw (any-ok s v, all-ok s v) (ground arith)

  -- Under the same conditions, `count_zeros` does not panic, and is the number of indices of the
  -- slice whose bit is clear.
  pub count_zeros-ok :
      (s : BitPtr)
      → IsSlice t s
      → count_zeros r o t m s
        ≡ ok (count_range (len_of t s) 0 (λ i. not (get_unchecked r o t m s i)))
  unfolding count_zeros
  count_zeros-ok s v =
      rw (count_ones-ok s v, len-eq-len_of t s)
        (ap ok (omega (arith, count_range-not (len_of t s) 0 (λ i. get_unchecked r o t m s i))))
