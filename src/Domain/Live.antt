-- ===== src/Domain/Live.antt =====
-- The live bits of a domain, in memory order, are those of the region that it came from.
use native.Mathlib.Nat.{suc-mul}
use bitvec_sgx.Base.{
  subst, ℕ, zero, suc, ◌+◌, ◌-◌, ◌*◌, ◌≤◌, ◌<◌, ◌≡◌, ◌≢◌, refl, ◌∙◌, sym, ap, ap₂, arith, ==_cases,
  List, [], ◌∷◌, ◌++◌, inl, inr, Outcome, ok,
}
use bitvec_sgx.Store.{BitStore, size_of, bits}
use bitvec_sgx.Indices.{span_idx}
use bitvec_sgx.Indices.Span.{Spans, span_idx-Spans, span_idx-zero}
use bitvec_sgx.Pointer.{BitPtr, pointer, head, len_of, elements, max_bits}
use bitvec_sgx.Pointer.Encoding.{IsBitPtr, IsRegion, parts-IsRegion}
use bitvec_sgx.Domain.{
  BitDomain, empty, minor, major, partial_head, partial_tail, spanning, cells, split_last_from,
  split_region, domain,
}
use bitvec_sgx.Domain.Locations.{
  Location, locations, within, whole, locations-add, locations-within, walk_edge, walk_cells,
  locations-cells,
}

unfoldable pub live : BitStore → BitDomain → List Location
live t empty = []
live t (minor h e tl) = within e h (tl - h)
live t (major h first body last tl) =
    within first h (bits t - h) ++ (whole t body ++ within last 0 tl)
live t (partial_head h first body) = within first h (bits t - h) ++ whole t body
live t (partial_tail body last tl) = whole t body ++ within last 0 tl
live t (spanning body) = whole t body

-- The split succeeds, and its live bits are the `n` from `l` on, in order.
abbrev pub Splits : BitStore → Location → ℕ → Outcome BitDomain → Type 0
Splits t l n o = (d : BitDomain) × (o ≡ ok d) × (live t d ≡ locations t l n)

split_last-cells :
    (t : BitStore) (a k : ℕ)
    → split_last_from a (cells t (a + size_of t) k) ≡ (a + k * size_of t, cells t a k)
split_last-cells t a zero = ap (λ b. (b, [])) (omega arith)
split_last-cells t a (suc k) =
    ap (λ (r : ℕ × List ℕ). (r.0, a ∷ r.1)) (split_last-cells t (a + size_of t) k)
    ∙ ap (λ b. (b, cells t a (suc k))) (omega (arith, suc-mul k (size_of t)))

-- From the edge of an element: whole elements, then the start of one.
from_edge :
    (t : BitStore) (a k tl : ℕ)
    → tl ≤ bits t
    → locations t (a, 0) (k * bits t + tl)
      ≡ whole t (cells t a k) ++ within (a + k * size_of t) 0 tl
from_edge t a k tl h =
    locations-add t (a, 0) (k * bits t) tl
    ∙ ap₂ ◌++◌ (locations-cells t a k) (
        ap (λ l. locations t l tl) (walk_cells t a k)
        ∙ locations-within t (a + k * size_of t) 0 tl (omega arith))

-- From inside an element: the rest of it, then what follows.
from_inside :
    (t : BitStore) (a h m : ℕ)
    → h < bits t
    → locations t (a, h) (bits t - h + m)
      ≡ within a h (bits t - h) ++ locations t (a + size_of t, 0) m
from_inside t a h m p =
    locations-add t (a, h) (bits t - h) m
    ∙ ap₂ ◌++◌ (locations-within t a h (bits t - h) (omega arith))
        (ap (λ l. locations t l m) (walk_edge t a h (bits t - h) p (omega arith)))

module _ (t : BitStore) (a h : ℕ) (h_in : h < bits t) where
  abbrev Cut : ℕ → ℕ → ℕ → Type 0
  Cut e tl n = Splits t (a, h) n (split_region t h e tl (cells t a e))

  -- Both edges are element edges.
  split_spanning : (k n : ℕ) → h ≡ 0 → suc k * bits t ≡ n → Cut (suc k) (bits t) n
  unfolding split_region live
  split_spanning k n z e = (
    spanning (cells t a (suc k)),
    ground arith,
    sym (locations-cells t a (suc k)) ∙ ap₂ (λ i m. locations t (a, i) m) (sym z) e,
  )

  split_partial_head : (k n : ℕ) → h ≢ 0 → bits t - h + k * bits t ≡ n → Cut (suc k) (bits t) n
  unfolding split_region live
  split_partial_head k n z e = (
    partial_head h a (cells t (a + size_of t) k),
    ground arith,
    ap (λ l. within a h (bits t - h) ++ l) (sym (locations-cells t (a + size_of t) k))
        ∙ sym (from_inside t a h (k * bits t) h_in)
        ∙ ap (λ m. locations t (a, h) m) e,
  )

  split_partial_tail : (k tl n : ℕ) → h ≡ 0 → tl < bits t → k * bits t + tl ≡ n → Cut (suc k) tl n
  unfolding split_region live
  split_partial_tail k tl n z l e = (
    partial_tail (cells t a k) (a + k * size_of t) tl,
    ground (arith, split_last-cells t a k),
    sym (from_edge t a k tl (omega arith)) ∙ ap₂ (λ i m. locations t (a, i) m) (sym z) e,
  )

  split_minor : (tl n : ℕ) → h ≢ 0 → tl < bits t → tl ≡ h + n → Cut 1 tl n
  unfolding split_region live
  split_minor tl n z l e = (
    minor h a tl,
    ground arith,
    ap (λ m. within a h m) (let d : tl - h ≡ n = omega arith in d)
        ∙ sym (locations-within t a h n (omega arith)),
  )

  split_major :
      (k tl n : ℕ)
      → h ≢ 0
      → tl < bits t
      → bits t - h + (k * bits t + tl) ≡ n
      → Cut (suc (suc k)) tl n
  unfolding split_region live
  split_major k tl n z l e = (
    major h a (cells t (a + size_of t) k) (a + size_of t + k * size_of t) tl,
    ground (arith, split_last-cells t (a + size_of t) k),
    ap (λ l. within a h (bits t - h) ++ l) (sym (from_edge t (a + size_of t) k tl (omega arith)))
        ∙ sym (from_inside t a h (k * bits t + tl) h_in)
        ∙ ap (λ m. locations t (a, h) m) e,
  )

  split_region-Splits :
      (e tl n : ℕ) → 1 ≤ e → 1 ≤ tl → tl ≤ bits t → e * bits t + tl ≡ h + n + bits t → Cut e tl n
  split_region-Splits zero tl n o p q s = absurd (omega arith)
  split_region-Splits (suc k) tl n o p q s = elim (==_cases tl (bits t)) [
    | inl full ↦ rw full (elim (==_cases h 0) [
      | inl z ↦ split_spanning k n z (omega arith)
      | inr nz ↦ split_partial_head k n nz (omega arith)
    ])
    | inr part ↦ elim (==_cases h 0) [
      | inl z ↦ split_partial_tail k tl n z (omega arith) (omega arith)
      | inr nz ↦ inside k nz part s
    ]
  ]
    where
      inside :
          (k : ℕ) → h ≢ 0 → tl ≢ bits t → suc k * bits t + tl ≡ h + n + bits t → Cut (suc k) tl n
      inside zero nz part s = split_minor tl n nz (omega arith) (omega arith)
      inside (suc k) nz part s = split_major k tl n nz (omega arith) (omega arith)

-- For every packed region the conversion succeeds (no `expect` fails), and the live bits of its
-- parts, in order, are exactly the `len` bit locations that follow the region's first bit.
pub domain-Splits :
    (t : BitStore) (p : BitPtr)
    → IsBitPtr p
    → Splits t (pointer t p, head t p) (len_of t p) (domain t p)
unfolding domain elements
domain-Splits t p v = parts (len_of t p) (parts-IsRegion t p v).fits
  where
    r : IsRegion t (pointer t p) (head t p) (len_of t p)
    r = parts-IsRegion t p v

    a : ℕ
    a = pointer t p

    h : ℕ
    h = head t p

    spans : (n : ℕ) → suc n ≤ max_bits → Spans t h (suc n) (span_idx t h (suc n))
    spans n f = span_idx-Spans t h (suc n) r.head_in (omega arith) (omega arith)

    parts :
        (n : ℕ)
        → n ≤ max_bits
        → Splits t
            (a, h)
            n
            (split_region t h (span_idx t h n).0 (span_idx t h n).1 (cells t a (span_idx t h n).0))
    parts zero f =
        subst (λ (s : ℕ × ℕ). Splits t (a, h) 0 (split_region t h s.0 s.1 (cells t a s.0)))
          (sym (span_idx-zero t h))
          (empty, unfold split_region in refl, unfold live locations in refl)
    parts (suc n) f =
        split_region-Splits t a h r.head_in (span_idx t h (suc n)).0 (span_idx t h (suc n)).1
          (suc n) (omega (arith, spans n f)) (omega (arith, spans n f)) (omega (arith, spans n f))
          (omega (arith, spans n f))
