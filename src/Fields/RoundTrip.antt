-- ===== src/Fields/RoundTrip.antt =====
-- A field that was stored is loaded back, and nothing else changes.
use bitvec_sgx.Base.{
  ℕ, zero, suc, ◌+◌, ◌/◌, ◌%◌, ◌^◌, ◌≤◌, ◌<◌, ◌≡◌, refl, sym, ◌∙◌, ap, arith, Bool, true, false,
  List, [], ◌∷◌, ◌++◌, subst,
}
use bitvec_sgx.Store.{BitStore, bits}
use bitvec_sgx.Access.{Radium}
use bitvec_sgx.Memory.{Memory}
use bitvec_sgx.Pointer.{BitPtr, len_of}
use bitvec_sgx.Domain.{BitDomain, empty, minor, major, partial_head, partial_tail, spanning}
use bitvec_sgx.Domain.Bounds.{IsBounded}
use bitvec_sgx.Domain.Locations.{Location}
use bitvec_sgx.Slice.{read}
use bitvec_sgx.Slice.Locate.{IsSlice}
use bitvec_sgx.Slice.Rewrites.{IsOutside}
use bitvec_sgx.Slice.Bulk.Locations.{elem}
use bitvec_sgx.Slice.Bulk.Fill.{not_elem}
use bitvec_sgx.Fields.Chunks.{
  LowBit, first, last, Chunk, width, assign, le_assign, be_assign, le_value, be_value, Assignment,
  Agrees, le_value-assign, be_value-assign,
}
use bitvec_sgx.Fields.Assignments.{
  chunks, whole_chunks, override, occurs, occurs_in, times-le_assign, times-be_assign, IsOnce,
  Agrees-override, override_absent, occurs_in-chunks,
}
use bitvec_sgx.Fields.Elements.{order, order-IsBitOrder, IsStored}
use bitvec_sgx.Fields.Regions.{IsDomainOf}

-- Assigned locations lie inside their elements.
abbrev KeysIn : BitStore → Assignment → Type 0
KeysIn t [] = Unit {0}
KeysIn t ((l, b) ∷ a) = (l.1 < bits t) × KeysIn t a

abbrev ChunksIn : BitStore → List Chunk → Type 0
ChunksIn t [] = Unit {0}
ChunksIn t ((e, i, n) ∷ cs) = (i + n ≤ bits t) × ChunksIn t cs

KeysIn-append : (t : BitStore) (a b : Assignment) → KeysIn t a → KeysIn t b → KeysIn t (a ++ b)
KeysIn-append t [] b h g = g
KeysIn-append t (x ∷ a) b h g = (h.0, KeysIn-append t a b h.1 g)

assign-KeysIn :
    (t : BitStore) (k : LowBit) (v e i n : ℕ) → i + n ≤ bits t → KeysIn t (assign k v e i n)
unfolding assign
assign-KeysIn t k v e i zero h = tt
assign-KeysIn t first v e i (suc n) h =
    (omega arith, assign-KeysIn t first (v / 2) e (suc i) n (omega arith))
assign-KeysIn t last v e i (suc n) h =
    (omega arith, assign-KeysIn t last v e (suc i) n (omega arith))

le_assign-KeysIn :
    (t : BitStore) (k : LowBit) (v : ℕ) (cs : List Chunk)
    → ChunksIn t cs
    → KeysIn t (le_assign k v cs)
unfolding le_assign
le_assign-KeysIn t k v [] h = tt
le_assign-KeysIn t k v ((e, i, n) ∷ cs) h =
    KeysIn-append t (assign k v e i n) (le_assign k (v / 2 ^ n) cs) (assign-KeysIn t k v e i n h.0)
      (le_assign-KeysIn t k (v / 2 ^ n) cs h.1)

be_assign-KeysIn :
    (t : BitStore) (k : LowBit) (v : ℕ) (cs : List Chunk)
    → ChunksIn t cs
    → KeysIn t (be_assign k v cs)
unfolding be_assign
be_assign-KeysIn t k v [] h = tt
be_assign-KeysIn t k v ((e, i, n) ∷ cs) h =
    KeysIn-append t (be_assign k v cs) (assign k (v / 2 ^ width cs) e i n)
      (be_assign-KeysIn t k v cs h.1) (assign-KeysIn t k (v / 2 ^ width cs) e i n h.0)

whole-ChunksIn :
    (t : BitStore) (es : List ℕ) (ds : List Chunk)
    → ChunksIn t ds
    → ChunksIn t (whole_chunks t es ++ ds)
unfolding whole_chunks
whole-ChunksIn t [] ds h = h
whole-ChunksIn t (e ∷ es) ds h = (omega arith, whole-ChunksIn t es ds h)

body-ChunksIn : (t : BitStore) (es : List ℕ) → ChunksIn t (whole_chunks t es)
unfolding whole_chunks
body-ChunksIn t [] = tt
body-ChunksIn t (e ∷ es) = (omega arith, body-ChunksIn t es)

bounded-ChunksIn : (t : BitStore) (d : BitDomain) → IsBounded t d → ChunksIn t (chunks t d)
unfolding chunks
bounded-ChunksIn t empty b = tt
bounded-ChunksIn t (minor h e tl) b = (omega arith, tt)
bounded-ChunksIn t (major h e body e' tl) b =
    (omega arith, whole-ChunksIn t body ((e', 0, tl) ∷ []) (omega arith, tt))
bounded-ChunksIn t (partial_head h e body) b = (omega arith, body-ChunksIn t body)
bounded-ChunksIn t (partial_tail body e' tl) b =
    whole-ChunksIn t body ((e', 0, tl) ∷ []) (omega arith, tt)
bounded-ChunksIn t (spanning body) b = body-ChunksIn t body

Agrees-ext :
    (t : BitStore) (look look' : Location → Bool) (a : Assignment)
    → KeysIn t a
    → ((l : Location) → l.1 < bits t → look' l ≡ look l)
    → Agrees look a
    → Agrees look' a
Agrees-ext t look look' [] h e g = tt
Agrees-ext t look look' ((l, b) ∷ a) h e g = (e l h.0 ∙ g.0, Agrees-ext t look look' a h.1 e g.1)

occurs_not : (l : Location) (ls : List Location) → elem l ls ≡ false → occurs l ls ≡ 0
unfolding elem occurs
occurs_not l [] h = refl
occurs_not l (x ∷ ls) h = ground (arith, occurs_not l ls)

module _ (r : Radium) (k : LowBit) (t : BitStore) (m m' : Memory) where
  -- What was assigned once is read.
  read_back :
      (a : Assignment)
      → IsOnce a
      → KeysIn t a
      → IsStored r k t m a m'
      → Agrees (read r (order k) t m') a
  read_back a once keys p =
      Agrees-ext t (λ l. override (read r (order k) t m l) l a) (read r (order k) t m') a keys
        p.stored (Agrees-override (read r (order k) t m) a once)

  module _ (s : BitPtr) (d : BitDomain) (g : IsDomainOf t s d) (v : ℕ) where
    pub le_read_back :
        IsStored r k t m (le_assign k v (chunks t d)) m'
        → le_value k (read r (order k) t m') (chunks t d) ≡ v % 2 ^ len_of t s
    le_read_back p =
        let cs = chunks t d in
        le_value-assign k (read r (order k) t m') v cs (
          read_back (le_assign k v cs)
            (λ l. subst (λ (x : ℕ). x ≤ 1) (sym (times-le_assign k l v cs)) (g.once l))
            (le_assign-KeysIn t k v cs (bounded-ChunksIn t d g.bounded)) p)
        ∙ ap (λ n. v % 2 ^ n) g.wide

    pub be_read_back :
        IsStored r k t m (be_assign k v (chunks t d)) m'
        → be_value k (read r (order k) t m') (chunks t d) ≡ v % 2 ^ len_of t s
    be_read_back p =
        let cs = chunks t d in
        be_value-assign k (read r (order k) t m') v cs (
          read_back (be_assign k v cs)
            (λ l. subst (λ (x : ℕ). x ≤ 1) (sym (times-be_assign k l v cs)) (g.once l))
            (be_assign-KeysIn t k v cs (bounded-ChunksIn t d g.bounded)) p)
        ∙ ap (λ n. v % 2 ^ n) g.wide

    -- Outside the slice nothing is assigned.
    outside_chunks : IsSlice t s → (l : Location) → IsOutside t s l → occurs_in l (chunks t d) ≡ 0
    outside_chunks sl l out =
        occurs_in-chunks t l d
        ∙ ap (occurs l) g.alive
        ∙ occurs_not l _ (not_elem r (order k) (order-IsBitOrder k) t true s sl l out)

    pub le_outside :
        IsSlice t s
        → IsStored r k t m (le_assign k v (chunks t d)) m'
        → (l : Location) → IsOutside t s l
        → read r (order k) t m' l ≡ read r (order k) t m l
    le_outside sl p l out =
        p.stored l out.0
        ∙ override_absent (read r (order k) t m l) l _
            (times-le_assign k l v (chunks t d) ∙ outside_chunks sl l out)

    pub be_outside :
        IsSlice t s
        → IsStored r k t m (be_assign k v (chunks t d)) m'
        → (l : Location) → IsOutside t s l
        → read r (order k) t m' l ≡ read r (order k) t m l
    be_outside sl p l out =
        p.stored l out.0
        ∙ override_absent (read r (order k) t m l) l _
            (times-be_assign k l v (chunks t d) ∙ outside_chunks sl l out)
