-- ===== src/Fields/Values.antt =====
-- The accumulators of the loads hold the value of the chunks read so far.
use native.Mathlib.Nat.{add_comm, mod-eq_of_lt, div-one}
use bitvec_sgx.Base.{
  ℕ, suc, ◌+◌, ◌*◌, ◌/◌, ◌%◌, ◌^◌, ◌≤◌, ◌<◌, ◌≡◌, refl, sym, ◌∙◌, ap, ap₂, arith, Bool, List, [],
  ◌∷◌, ◌++◌,
}
use bitvec_sgx.Store.{BitStore, bits, usize}
use bitvec_sgx.Access.{Radium}
use bitvec_sgx.Memory.{Memory, IsMemory}
use bitvec_sgx.Domain.Locations.{Location, bits_pos}
use bitvec_sgx.Slice.{read}
use bitvec_sgx.Fields.{resize, push, load_forward, load_backward}
use bitvec_sgx.Fields.Words.{resize_lem, push_lem, bits_le, pow2_le}
use bitvec_sgx.Fields.Splits.{pow2_add}
use bitvec_sgx.Fields.Chunks.{
  LowBit, first, last, Chunk, chunk_value, chunk_value-lt, width, le_value, be_value,
}
use bitvec_sgx.Fields.Assignments.{whole_chunks}
use bitvec_sgx.Fields.Elements.{order, lowest, chunk_value-read}

-- Two digits.
pub digits-lt : (n a x y : ℕ) → x < 2 ^ n → y < 2 ^ a → x + 2 ^ n * y < 2 ^ (n + a)
digits-lt n a x y p q =
    let room : 2 ^ n * suc y ≤ 2 ^ n * 2 ^ a = mul_le (2 ^ n) (suc y) (2 ^ a) q in
    omega (arith, pow2_add n a, room)
  where
    mul_le : (c a b : ℕ) → a ≤ b → c * a ≤ c * b
    mul_le c a b h = grind arith

pub width-append : (cs ds : List Chunk) → width (cs ++ ds) ≡ width cs + width ds
unfolding width
width-append [] ds = omega arith
width-append ((e, i, n) ∷ cs) ds = omega (arith, width-append cs ds)

module _ (k : LowBit) (look : Location → Bool) where
  pub le_value-lt : (cs : List Chunk) → le_value k look cs < 2 ^ width cs
  unfolding le_value width
  le_value-lt [] = omega arith
  le_value-lt ((e, i, n) ∷ cs) =
      digits-lt n (width cs) (chunk_value k look e i n) (le_value k look cs)
        (chunk_value-lt k look e i n) (le_value-lt cs)

  pub be_value-lt : (cs : List Chunk) → be_value k look cs < 2 ^ width cs
  unfolding be_value width
  be_value-lt [] = omega arith
  be_value-lt ((e, i, n) ∷ cs) = omega (
    arith,
    digits-lt (width cs) n (be_value k look cs) (chunk_value k look e i n) (be_value-lt cs)
        (chunk_value-lt k look e i n),
    ap (λ (x : ℕ). 2 ^ x) (add_comm n (width cs)),
  )

  pub le_value-append :
      (cs ds : List Chunk)
      → le_value k look (cs ++ ds) ≡ le_value k look cs + 2 ^ width cs * le_value k look ds
  unfolding le_value width
  le_value-append [] ds = omega arith
  le_value-append ((e, i, n) ∷ cs) ds = omega (
    arith,
    ap (λ (x : ℕ). 2 ^ n * x) (le_value-append cs ds),
    ap (λ (x : ℕ). x * le_value k look ds) (pow2_add n (width cs)),
  )

  pub be_value-append :
      (cs ds : List Chunk)
      → be_value k look (cs ++ ds) ≡ 2 ^ width ds * be_value k look cs + be_value k look ds
  unfolding be_value
  be_value-append [] ds = omega arith
  be_value-append ((e, i, n) ∷ cs) ds = omega (
    arith,
    be_value-append cs ds,
    ap (λ (x : ℕ). 2 ^ x * chunk_value k look e i n)
        (width-append cs ds ∙ add_comm (width cs) (width ds)),
    ap (λ (x : ℕ). x * chunk_value k look e i n) (pow2_add (width ds) (width cs)),
  )

module _ (r : Radium) (k : LowBit) (t : BitStore) (m : Memory) (w : IsMemory t m) where
  abbrev pub bits_of : Location → Bool
  bits_of = read r (order k) t m

  -- The bits from an index on are the element without its other bits.
  pub chunk_value-element : (e : ℕ) → chunk_value k bits_of e 0 (bits t) ≡ m e
  chunk_value-element e =
      chunk_value-read r k t m e 0 (bits t) (omega arith)
      ∙ ap (λ x. m e / 2 ^ x % 2 ^ bits t) (none k)
      ∙ ap (λ x. x % 2 ^ bits t) (div-one (m e))
      ∙ mod-eq_of_lt (w e)
    where
      none : (k : LowBit) → lowest k t 0 (bits t) ≡ 0
      none first = refl
      none last = omega arith

  loaded : (e : ℕ) → resize t usize (r.load (m e)) ≡ chunk_value k bits_of e 0 (bits t)
  loaded e =
      ap (resize t usize) (r.load_lem (m e))
      ∙ resize_lem t usize (m e) (w e)
      ∙ mod-eq_of_lt (omega (arith, w e, pow2_le (bits t) 64 (bits_le t).0))
      ∙ sym (chunk_value-element e)

  pub load_backward_lem :
      (es : List ℕ) (acc a : ℕ)
      → acc < 2 ^ a
      → width (whole_chunks t es) + a ≤ 64
      → load_backward r t m es acc
        ≡ le_value k bits_of (whole_chunks t es) + 2 ^ width (whole_chunks t es) * acc
  unfolding load_backward le_value width whole_chunks
  load_backward_lem [] acc a h fits = omega arith
  load_backward_lem (e ∷ es) acc a h fits =
      let cs = whole_chunks t es in
      let inner : ℕ = le_value k bits_of cs + 2 ^ width cs * acc in
      let bound = digits-lt (width cs) a (le_value k bits_of cs) acc (le_value-lt k bits_of cs) h in
      let value = chunk_value k bits_of e 0 (bits t) in
      ap₂ (λ x y. push x (bits t) y) (load_backward_lem es acc a h (omega arith)) (loaded e)
      ∙ push_lem inner (width cs + a) (bits t) value bound (omega arith) (bits_pos t)
          (chunk_value-lt k bits_of e 0 (bits t))
      ∙ omega (arith, ap (λ (x : ℕ). x * acc) (pow2_add (bits t) (width cs)))

  pub load_forward_lem :
      (es : List ℕ) (acc a : ℕ)
      → acc < 2 ^ a
      → a + width (whole_chunks t es) ≤ 64
      → load_forward r t m es acc
        ≡ 2 ^ width (whole_chunks t es) * acc + be_value k bits_of (whole_chunks t es)
  unfolding load_forward be_value width whole_chunks
  load_forward_lem [] acc a h fits = omega arith
  load_forward_lem (e ∷ es) acc a h fits =
      let cs = whole_chunks t es in
      let value = chunk_value k bits_of e 0 (bits t) in
      let below = chunk_value-lt k bits_of e 0 (bits t) in
      let pushed : push acc (bits t) (resize t usize (r.load (m e))) ≡ 2 ^ bits t * acc + value =
        ap (push acc (bits t)) (loaded e)
        ∙ push_lem acc a (bits t) value h (omega arith) (bits_pos t) below in
      let bound : 2 ^ bits t * acc + value < 2 ^ (bits t + a) =
        omega (arith, digits-lt (bits t) a value acc below h) in
      ap (load_forward r t m es) pushed
      ∙ load_forward_lem es (2 ^ bits t * acc + value) (bits t + a) bound (omega arith)
      ∙ omega (arith, ap (λ (x : ℕ). x * acc) (pow2_add (bits t) (width cs)))
