-- ===== src/Domain.antt =====
-- src/domain.rs: a region of bits split at the edges of its elements. An element reference
-- `&T::Access` is its address, and a slice of elements the list of their addresses.
pub mod Locations
pub mod Live
pub mod Bounds
use bitvec_sgx.Base.{
  ℕ, zero, suc, ◌+◌, ◌*◌, Bool, true, false, ◌==◌, ◌&&◌, if◌then◌else◌, Outcome, ok, panic, ◌>>=◌,
  List, [], ◌∷◌, Option, none, some, ◌⊎◌, inl, inr,
}
use bitvec_sgx.Store.{BitStore, size_of, bits}
use bitvec_sgx.Indices.{BitIdx, BitTail, span_idx}
use bitvec_sgx.Pointer.{BitPtr, pointer, head, len_of, elements}

pub data BitDomain : Type 0 where
  empty : BitDomain
  minor : BitIdx → ℕ → BitTail → BitDomain
  major : BitIdx → ℕ → List ℕ → ℕ → BitTail → BitDomain
  partial_head : BitIdx → ℕ → List ℕ → BitDomain
  partial_tail : List ℕ → ℕ → BitTail → BitDomain
  spanning : List ℕ → BitDomain

-- `slice::from_raw_parts`: the addresses of `n` elements from `a` on.
abbrev pub cells : BitStore → ℕ → ℕ → List ℕ
cells t a zero = []
cells t a (suc n) = a ∷ cells t (a + size_of t) n

-- `split_first` and `split_last` of the standard library, with `expect`.
abbrev pub split_first : List ℕ → Outcome (ℕ × List ℕ)
split_first [] = panic
split_first (x ∷ xs) = ok (x, xs)

abbrev pub split_last_from : ℕ → List ℕ → ℕ × List ℕ
split_last_from x [] = (x, [])
split_last_from x (y ∷ ys) = let (z, zs) = split_last_from y ys in (z, x ∷ zs)

abbrev pub split_last : List ℕ → Outcome (ℕ × List ℕ)
split_last [] = panic
split_last (x ∷ xs) = ok (split_last_from x xs)

-- `BitPtr::as_access_slice`
unfoldable pub as_access_slice : BitStore → BitPtr → List ℕ
as_access_slice t p = cells t (pointer t p) (elements t p)

-- The match of `From<BitPtr> for BitDomain`, over its parts.
unfoldable pub split_region : BitStore → BitIdx → ℕ → BitTail → List ℕ → Outcome BitDomain
split_region t h e tl elts =
    if e == 0
    then ok empty
    else if h == 0 && tl == bits t
    then ok (spanning elts)
    else if tl == bits t
    then (do (first, rest) ← split_first elts; ok (partial_head h first rest))
    else if h == 0
    then (do (last, rest) ← split_last elts; ok (partial_tail rest last tl))
    else if e == 1
    then (do (only, _) ← split_first elts; ok (minor h only tl))
    else (do
      (first, body) ← split_first elts
      (last, inner) ← split_last body
      ok (major h first inner last tl))

-- `From<BitPtr> for BitDomain`
unfoldable pub domain : BitStore → BitPtr → Outcome BitDomain
unfolding as_access_slice split_region
domain t p =
    let h = head t p in
    let (e, tl) = span_idx t h (len_of t p) in split_region t h e tl (as_access_slice t p)

-- `Splat`: the optional head, body and tail, or the one element with both edges inside.
abbrev pub Splat : Type 0
Splat = (Option (BitIdx × ℕ) × Option (List ℕ) × Option (ℕ × BitTail)) ⊎ (BitIdx × ℕ × BitTail)

-- `BitDomain::splat`
unfoldable pub splat : BitDomain → Splat
splat empty = inl (none, none, none)
splat (minor h e t) = inr (h, e, t)
splat (major h first body last t) = inl (some (h, first), some body, some (last, t))
splat (partial_head h first body) = inl (some (h, first), some body, none)
splat (partial_tail body last t) = inl (none, some body, some (last, t))
splat (spanning body) = inl (none, some body, none)

-- `BitDomain::is_spanning`
unfoldable pub is_spanning : BitDomain → Bool
is_spanning (spanning _) = true
is_spanning _ = false
