-- ===== src/Slice/Bulk.antt =====
-- src/slice.rs: the queries and fills that go by the elements of the domain.
pub mod Locations
pub mod Counts
pub mod Queries
pub mod Fill
use bitvec_sgx.Base.{
  ℕ, zero, suc, ◌+◌, ◌-◌, Bool, true, false, not, ◌&&◌, ◌==◌, ◌!=◌, if◌then◌else◌, List, [], ◌∷◌,
  Option, none, some, inl, inr, Outcome, ok, ◌>>=◌, all_range, any_range, count_range, for_range,
}
use bitvec_sgx.Store.{BitStore, bits, all_true, all_false}
use bitvec_sgx.Store.Element
use bitvec_sgx.Order.{BitOrder}
use bitvec_sgx.Access
use bitvec_sgx.Access.{Radium}
use bitvec_sgx.Indices.{BitIdx, BitTail}
use bitvec_sgx.Pointer.{BitPtr}
use bitvec_sgx.Domain.{Splat, domain, splat}
use bitvec_sgx.Memory.{Memory, write}
use bitvec_sgx.Slice.{bitptr, len}

-- `if let Some(..) = part { .. }`, with `otherwise` for `None`.
abbrev pub if_some {ℓ ℓ'} : {A : Type ℓ} {B : Type ℓ'} → Option A → B → (A → B) → B
if_some none otherwise f = otherwise
if_some (some a) otherwise f = f a

module _ (r : Radium) (o : BitOrder) (t : BitStore) where
  -- The iterators over the indices `from .. to` of a loaded element.
  abbrev pub element_all : Memory → ℕ → ℕ → ℕ → Bool
  element_all m e from to =
      let elt = r.load (m e) in all_range (to - from) from (λ n. Element.get o t elt n)

  abbrev pub element_any : Memory → ℕ → ℕ → ℕ → Bool
  element_any m e from to =
      let elt = r.load (m e) in any_range (to - from) from (λ n. Element.get o t elt n)

  abbrev pub element_count : Memory → ℕ → ℕ → ℕ → ℕ
  element_count m e from to =
      let elt = r.load (m e) in count_range (to - from) from (λ n. Element.get o t elt n)

  -- The iterators over whole elements.
  unfoldable pub body_all : Memory → List ℕ → Bool
  body_all m [] = true
  body_all m (e ∷ body) = r.load (m e) == all_true t && body_all m body

  unfoldable pub body_any : Memory → List ℕ → Bool
  body_any m [] = false
  body_any m (e ∷ body) = if r.load (m e) != all_false t then true else body_any m body

  unfoldable pub body_count : Memory → List ℕ → ℕ
  unfolding Element.count_ones
  body_count m [] = 0
  body_count m (e ∷ body) = Element.count_ones t (r.load (m e)) + body_count m body

  unfoldable pub all_parts : Memory → Splat → Bool
  unfolding body_all all_range Element.get
  all_parts m (inr (h, e, tl)) = element_all m e h tl
  all_parts m (inl (h, b, tl)) =
      if not (if_some h true (λ (h, head). element_all m head h (bits t)))
      then false
      else if not (if_some b true (λ body. body_all m body))
      then false
      else if not (if_some tl true (λ (tail, tl). element_all m tail 0 tl))
      then false
      else true

  unfoldable pub any_parts : Memory → Splat → Bool
  unfolding body_any any_range Element.get
  any_parts m (inr (h, e, tl)) = element_any m e h tl
  any_parts m (inl (h, b, tl)) =
      if if_some h false (λ (h, head). element_any m head h (bits t))
      then true
      else if if_some b false (λ body. body_any m body)
      then true
      else if if_some tl false (λ (tail, tl). element_any m tail 0 tl)
      then true
      else false

  unfoldable pub count_parts : Memory → Splat → ℕ
  unfolding body_count count_range Element.get
  count_parts m (inr (h, e, tl)) = element_count m e h tl
  count_parts m (inl (h, b, tl)) =
      let out = if_some h 0 (λ (h, head). element_count m head h (bits t)) in
      let out = out + if_some b 0 (λ body. body_count m body) in
      out + if_some tl 0 (λ (tail, tl). element_count m tail 0 tl)

  -- `BitSlice::all`
  unfoldable pub all : Memory → BitPtr → Outcome Bool
  unfolding all_parts splat
  all m s = do d ← domain t (bitptr s); ok (all_parts m (splat d))

  -- `BitSlice::any`
  unfoldable pub any : Memory → BitPtr → Outcome Bool
  unfolding any_parts splat
  any m s = do d ← domain t (bitptr s); ok (any_parts m (splat d))

  -- `BitSlice::not_all`
  unfoldable pub not_all : Memory → BitPtr → Outcome Bool
  not_all m s = do b ← all m s; ok (not b)

  -- `BitSlice::not_any`
  unfoldable pub not_any : Memory → BitPtr → Outcome Bool
  not_any m s = do b ← any m s; ok (not b)

  -- `BitSlice::some`
  unfoldable pub some_set : Memory → BitPtr → Outcome Bool
  some_set m s = do b ← any m s; if b then not_all m s else ok false

  -- `BitSlice::count_ones`
  unfoldable pub count_ones : Memory → BitPtr → Outcome ℕ
  unfolding count_parts splat
  count_ones m s = do d ← domain t (bitptr s); ok (count_parts m (splat d))

  -- `BitSlice::count_zeros`
  unfoldable pub count_zeros : Memory → BitPtr → Outcome ℕ
  count_zeros m s = do n ← count_ones m s; ok (len t s - n)

  -- `for n in from .. to { e.set(n, value) }`
  unfoldable pub element_set : ℕ → ℕ → ℕ → Bool → Memory → Memory
  unfolding for_range
  element_set e from to value m =
      for_range (to - from) from (λ n m. write m e (Access.set r o t (m e) n value)) m

  unfoldable pub body_store : List ℕ → Bool → Memory → Memory
  body_store [] value m = m
  body_store (e ∷ body) value m =
      body_store body value (write m e (r.store (m e) (if value then all_true t else all_false t)))

  unfoldable pub set_parts : Splat → Bool → Memory → Memory
  unfolding element_set body_store
  set_parts (inr (h, e, tl)) value m = element_set e h tl value m
  set_parts (inl (h, b, tl)) value m =
      let m = if_some h m (λ (h, head). element_set head h (bits t) value m) in
      let m = if_some b m (λ body. body_store body value m) in
      if_some tl m (λ (tail, tl). element_set tail 0 tl value m)

  -- `BitSlice::set_all`
  unfoldable pub set_all : Memory → BitPtr → Bool → Outcome Memory
  unfolding set_parts splat
  set_all m s value = do d ← domain t (bitptr s); ok (set_parts (splat d) value m)
