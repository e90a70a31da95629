-- ===== src/Domain/Bounds.antt =====
-- The edges of a domain lie inside their elements.
use bitvec_sgx.Base.{
  ℕ, zero, suc, ◌*◌, ◌≤◌, ◌<◌, ◌≡◌, sym, ap, arith, subst, List, [], ◌∷◌, Outcome, ok, panic,
}
use bitvec_sgx.Store.{BitStore, bits}
use bitvec_sgx.Indices.{span_idx}
use bitvec_sgx.Indices.Span.{span_idx-Spans, span_idx-zero}
use bitvec_sgx.Pointer.{BitPtr, pointer, head, len_of, elements, max_bits}
use bitvec_sgx.Pointer.Encoding.{IsBitPtr, IsRegion, parts-IsRegion}
use bitvec_sgx.Domain.{
  BitDomain, empty, minor, major, partial_head, partial_tail, spanning, cells, split_region, domain,
}

abbrev pub IsBounded : BitStore → BitDomain → Type 0
IsBounded t empty = Unit {0}
IsBounded t (minor h e tl) = (h < bits t) × (h ≤ tl) × (tl ≤ bits t) × (0 < tl)
IsBounded t (major h first body last tl) = (0 < h) × (h < bits t) × (0 < tl) × (tl < bits t)
IsBounded t (partial_head h first body) = (0 < h) × (h < bits t)
IsBounded t (partial_tail body last tl) = (0 < tl) × (tl < bits t)
IsBounded t (spanning body) = Unit {0}

abbrev pub AllOk {ℓ} : {A : Type ℓ} → (A → Type 0) → Outcome A → Type 0
AllOk P (ok a) = P a
AllOk P panic = Unit {0}

split_region-IsBounded :
    (t : BitStore) (h e tl : ℕ) (elts : List ℕ)
    → h < bits t
    → tl ≤ bits t
    → (e ≡ 1 → h ≤ tl)
    → (1 ≤ e → 1 ≤ tl)
    → AllOk (IsBounded t) (split_region t h e tl elts)
unfolding split_region
split_region-IsBounded t h e tl [] p q s g = ground arith
split_region-IsBounded t h e tl (x ∷ []) p q s g = ground arith
split_region-IsBounded t h e tl (x ∷ y ∷ l) p q s g = ground arith

pub domain-IsBounded : (t : BitStore) (p : BitPtr) → IsBitPtr p → AllOk (IsBounded t) (domain t p)
unfolding domain elements
domain-IsBounded t p v = parts (len_of t p) (parts-IsRegion t p v).fits
  where
    r : IsRegion t (pointer t p) (head t p) (len_of t p)
    r = parts-IsRegion t p v

    h : ℕ
    h = head t p

    tail_in : (n : ℕ) → n ≤ max_bits → (span_idx t h n).1 ≤ bits t
    tail_in zero f =
        subst (λ (s : ℕ × ℕ). s.1 ≤ bits t) (sym (span_idx-zero t h)) (omega (arith, r.head_in))
    tail_in (suc n) f =
        omega (arith, span_idx-Spans t h (suc n) r.head_in (omega arith) (omega arith))

    tail_pos : (n : ℕ) → n ≤ max_bits → 1 ≤ (span_idx t h n).0 → 1 ≤ (span_idx t h n).1
    tail_pos zero f =
        subst (λ (s : ℕ × ℕ). 1 ≤ s.0 → 1 ≤ s.1) (sym (span_idx-zero t h)) (λ z. omega arith)
    tail_pos (suc n) f =
        let s = span_idx-Spans t h (suc n) r.head_in (omega arith) (omega arith) in
        λ z. omega (arith, s)

    one_element : (n : ℕ) → n ≤ max_bits → (span_idx t h n).0 ≡ 1 → h ≤ (span_idx t h n).1
    one_element zero f =
        subst (λ (s : ℕ × ℕ). s.0 ≡ 1 → h ≤ s.1) (sym (span_idx-zero t h)) (λ z. omega arith)
    one_element (suc n) f =
        let s = span_idx-Spans t h (suc n) r.head_in (omega arith) (omega arith) in
        λ z. omega (arith, s, ap (λ (x : ℕ). x * bits t) z)

    parts :
        (n : ℕ)
        → n ≤ max_bits
        → AllOk (IsBounded t) (
            split_region t h
              (span_idx t h n).0
              (span_idx t h n).1
              (cells t (pointer t p) (span_idx t h n).0))
    parts n f =
        split_region-IsBounded t h (span_idx t h n).0 (span_idx t h n).1 _ r.head_in (tail_in n f)
          (one_element n f) (tail_pos n f)

pub IsBounded-ok :
    (t : BitStore) (o : Outcome BitDomain) (d : BitDomain)
    → AllOk (IsBounded t) o
    → o ≡ ok d
    → IsBounded t d
IsBounded-ok t o d h e = subst (AllOk (IsBounded t)) e h
