-- ===== src/Fields/Regions.antt =====
-- What the fields rely on in the domain of a slice: its chunks hold the slice's bits, each once,
-- and lie inside their elements.
use bitvec_sgx.Base.{
  ℕ, zero, suc, ◌+◌, ◌-◌, ◌≤◌, ◌≡◌, refl, sym, ◌∙◌, ap, arith, subst, List, [], ◌∷◌, ◌++◌, ok,
}
use bitvec_sgx.Store.{BitStore, bits}
use bitvec_sgx.Pointer.{BitPtr, pointer, head, len_of}
use bitvec_sgx.Domain.{BitDomain, empty, minor, major, partial_head, partial_tail, spanning, domain}
use bitvec_sgx.Domain.Bounds.{IsBounded, domain-IsBounded, IsBounded-ok}
use bitvec_sgx.Domain.Live.{live, domain-Splits}
use bitvec_sgx.Domain.Locations.{Location, locations, next_location, within, whole}
use bitvec_sgx.Slice.{bitptr}
use bitvec_sgx.Slice.Locate.{IsSlice}
use bitvec_sgx.Slice.Ranges.Views.{bitptr-IsSlice, len_of-bitptr}
use bitvec_sgx.Fields.Chunks.{width}
use bitvec_sgx.Fields.Values.{width-append}
use bitvec_sgx.Fields.Assignments.{
  chunks, whole_chunks, occurs, occurs_in, occurs_once, occurs_in-chunks,
}

abbrev length {ℓ} : {A : Type ℓ} → List A → ℕ
length [] = 0
length (x ∷ xs) = suc (length xs)

length-append {ℓ} : {A : Type ℓ} (xs ys : List A) → length (xs ++ ys) ≡ length xs + length ys
length-append [] ys = omega arith
length-append (x ∷ xs) ys = omega (arith, length-append xs ys)

length-locations : (t : BitStore) (l : Location) (n : ℕ) → length (locations t l n) ≡ n
unfolding locations
length-locations t l zero = refl
length-locations t l (suc n) = ap suc (length-locations t (next_location t l) n)

length-within : (e i n : ℕ) → length (within e i n) ≡ n
unfolding within
length-within e i zero = refl
length-within e i (suc n) = ap suc (length-within e (suc i) n)

width-whole : (t : BitStore) (es : List ℕ) → width (whole_chunks t es) ≡ length (whole t es)
unfolding width whole_chunks whole
width-whole t [] = refl
width-whole t (e ∷ es) = omega (
  arith,
  length-append {0} (within e 0 (bits t)) (whole t es),
  length-within e 0 (bits t),
  width-whole t es,
)

width_body_tail :
    (t : BitStore) (body : List ℕ) (e tl : ℕ)
    → width (whole_chunks t body ++ ((e, 0, tl) ∷ [])) ≡ length (whole t body ++ within e 0 tl)
unfolding width
width_body_tail t body e tl = omega (
  arith,
  width-append (whole_chunks t body) ((e, 0, tl) ∷ []),
  width-whole t body,
  length-append {0} (whole t body) (within e 0 tl),
  length-within e 0 tl,
)

width-chunks : (t : BitStore) (d : BitDomain) → width (chunks t d) ≡ length (live t d)
unfolding width chunks live
width-chunks t empty = refl
width-chunks t (minor h e tl) = omega (arith, length-within e h (tl - h))
width-chunks t (major h e body e' tl) = omega (
  arith,
  length-append {0} (within e h (bits t - h)) (whole t body ++ within e' 0 tl),
  length-within e h (bits t - h),
  width_body_tail t body e' tl,
)
width-chunks t (partial_head h e body) = omega (
  arith,
  length-append {0} (within e h (bits t - h)) (whole t body),
  length-within e h (bits t - h),
  width-whole t body,
)
width-chunks t (partial_tail body e' tl) = width_body_tail t body e' tl
width-chunks t (spanning body) = width-whole t body

-- The domain of a slice.
pub record IsDomainOf (t : BitStore) (s : BitPtr) (d : BitDomain) : Type 0 where
  pub found : domain t (bitptr s) ≡ ok d
  pub bounded : IsBounded t d
  pub wide : width (chunks t d) ≡ len_of t s
  pub once : (l : Location) → occurs_in l (chunks t d) ≤ 1
  pub alive : live t d ≡ locations t (pointer t (bitptr s), head t (bitptr s)) (len_of t (bitptr s))

pub domain_of : (t : BitStore) (s : BitPtr) → IsSlice t s → (d : BitDomain) × IsDomainOf t s d
domain_of t s v =
    let w = (bitptr-IsSlice t s v).words in
    let g = domain-Splits t (bitptr s) w in
    let start : Location = (pointer t (bitptr s), head t (bitptr s)) in
    let n = len_of t (bitptr s) in
    (
      g.0,
      record {
        found = g.1;
        bounded = IsBounded-ok t (domain t (bitptr s)) g.0 (domain-IsBounded t (bitptr s) w) g.1;
        wide = width-chunks t g.0 ∙ ap length g.2 ∙ length-locations t start n ∙ len_of-bitptr t s;
        once = λ l.
            subst (λ (k : ℕ). k ≤ 1) (sym (occurs_in-chunks t l g.0 ∙ ap (occurs l) g.2))
              (occurs_once t l start n);
        alive = g.2;
      },
    )
