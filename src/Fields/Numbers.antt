-- ===== src/Fields/Numbers.antt =====
-- Fields as numbers of the slice's bits by index, for the two combinations in which the elements
-- do not show: little endian with the first bit low, and big endian with the last bit low.
use mathlib.Core.List.{append-nil}
use bitvec_sgx.Base.{
  ℕ, zero, suc, ◌+◌, ◌-◌, ◌*◌, ◌^◌, ◌≤◌, ◌≡◌, refl, sym, ◌∙◌, ap, ap₂, arith, Bool, to_ℕ, List, [],
  ◌∷◌, ◌++◌, ok,
}
use bitvec_sgx.Bits.{pow2}
use bitvec_sgx.Store.{BitStore, bits}
use bitvec_sgx.Order.{lsb0, msb0}
use bitvec_sgx.Order.Laws.{lsb0-IsBitOrder, msb0-IsBitOrder}
use bitvec_sgx.Access.{Radium}
use bitvec_sgx.Memory.{Memory, IsMemory}
use bitvec_sgx.Pointer.{BitPtr, len_of}
use bitvec_sgx.Domain.{BitDomain, empty, minor, major, partial_head, partial_tail, spanning}
use bitvec_sgx.Domain.Locations.{Location, within, whole}
use bitvec_sgx.Domain.Live.{live}
use bitvec_sgx.Slice.{get_unchecked}
use bitvec_sgx.Slice.Locate.{IsSlice}
use bitvec_sgx.Slice.Bulk.Locations.{fold_range, fold_list}
use bitvec_sgx.Slice.Bulk.Queries.{live-eq-range}
use bitvec_sgx.Fields.Lsb0
use bitvec_sgx.Fields.Msb0
use bitvec_sgx.Fields.Lsb0.Loads.{load_le_value}
use bitvec_sgx.Fields.Msb0.Loads.{load_be_value}
use bitvec_sgx.Fields.Splits.{pow2_add}
use bitvec_sgx.Fields.Chunks.{first, last, Chunk, chunk_value, width, le_value, be_value}
use bitvec_sgx.Fields.Assignments.{chunks, whole_chunks}
use bitvec_sgx.Fields.Regions.{domain_of}

-- The number with bit `j` of weight `2 ^ j`, and that with bit `n - 1 - j` of it.
unfoldable pub lsb_number : ℕ → ℕ → (ℕ → Bool) → ℕ
lsb_number zero k f = 0
lsb_number (suc n) k f = to_ℕ (f k) + 2 * lsb_number n (suc k) f

unfoldable pub msb_number : ℕ → ℕ → (ℕ → Bool) → ℕ
msb_number zero k f = 0
msb_number (suc n) k f = to_ℕ (f k) * 2 ^ n + msb_number n (suc k) f

-- Both as folds; the second carries the weight.
lsb_op : ℕ → ℕ → ℕ
lsb_op b n = b + 2 * n

msb_op : ℕ × ℕ → ℕ × ℕ → ℕ × ℕ
msb_op (b, _) (n, weight) = (b * weight + n, 2 * weight)

abbrev digit : Bool → ℕ × ℕ
digit b = (to_ℕ b, 0)

lsb_number-fold :
    (n k : ℕ) (f : ℕ → Bool) → lsb_number n k f ≡ fold_range 0 lsb_op n k (λ i. to_ℕ (f i))
unfolding lsb_number fold_range lsb_op
lsb_number-fold zero k f = refl
lsb_number-fold (suc n) k f = ap (λ x. to_ℕ (f k) + 2 * x) (lsb_number-fold n (suc k) f)

msb_number-fold :
    (n k : ℕ) (f : ℕ → Bool)
    → (msb_number n k f, 2 ^ n) ≡ fold_range (0, 1) msb_op n k (λ i. digit (f i))
unfolding msb_number fold_range msb_op
msb_number-fold zero k f = refl
msb_number-fold (suc n) k f =
    ap (λ (w : ℕ). (to_ℕ (f k) * 2 ^ n + msb_number n (suc k) f, w)) (pow2 n)
    ∙ ap (msb_op (digit (f k))) (msb_number-fold n (suc k) f)

-- The locations of chunks.
keys : List Chunk → List Location
keys [] = []
keys ((e, i, n) ∷ cs) = within e i n ++ keys cs

append_lem : (a b c : List Location) → (a ++ b) ++ c ≡ a ++ (b ++ c)
append_lem [] b c = refl
append_lem (x ∷ a) b c = ap (◌∷◌ x) (append_lem a b c)

keys-whole :
    (t : BitStore) (es : List ℕ) (cs : List Chunk)
    → keys (whole_chunks t es ++ cs) ≡ whole t es ++ keys cs
unfolding keys whole_chunks whole
keys-whole t [] cs = refl
keys-whole t (e ∷ es) cs =
    ap (λ l. within e 0 (bits t) ++ l) (keys-whole t es cs)
    ∙ sym (append_lem (within e 0 (bits t)) (whole t es) (keys cs))

keys-body : (t : BitStore) (es : List ℕ) → keys (whole_chunks t es) ≡ whole t es
unfolding keys whole_chunks whole
keys-body t [] = refl
keys-body t (e ∷ es) = ap (λ l. within e 0 (bits t) ++ l) (keys-body t es)

body_then :
    (t : BitStore) (es : List ℕ) (e tl : ℕ)
    → keys (whole_chunks t es ++ ((e, 0, tl) ∷ [])) ≡ whole t es ++ within e 0 tl
unfolding keys
body_then t es e tl =
    keys-whole t es ((e, 0, tl) ∷ []) ∙ ap (λ l. whole t es ++ l) (append-nil (within e 0 tl))

keys-chunks : (t : BitStore) (d : BitDomain) → keys (chunks t d) ≡ live t d
unfolding keys chunks live
keys-chunks t empty = refl
keys-chunks t (minor h e tl) = append-nil (within e h (tl - h))
keys-chunks t (major h e body e' tl) =
    ap (λ l. within e h (bits t - h) ++ l) (body_then t body e' tl)
keys-chunks t (partial_head h e body) = ap (λ l. within e h (bits t - h) ++ l) (keys-body t body)
keys-chunks t (partial_tail body e' tl) = body_then t body e' tl
keys-chunks t (spanning body) = keys-body t body

module _ (look : Location → Bool) where
  abbrev lsb_fold : List Location → ℕ
  lsb_fold = fold_list 0 lsb_op (λ l. to_ℕ (look l))

  abbrev msb_fold : List Location → ℕ × ℕ
  msb_fold = fold_list (0, 1) msb_op (λ l. digit (look l))

  lsb_chunk :
      (e i n : ℕ) (ls : List Location)
      → lsb_fold (within e i n ++ ls) ≡ chunk_value first look e i n + 2 ^ n * lsb_fold ls
  unfolding fold_list within chunk_value lsb_op
  lsb_chunk e i zero ls = omega arith
  lsb_chunk e i (suc n) ls =
      omega (arith, lsb_chunk e (suc i) n ls, ap (λ (x : ℕ). x * lsb_fold ls) (pow2 n))

  msb_chunk :
      (e i n : ℕ) (ls : List Location)
      → msb_fold (within e i n ++ ls)
        ≡ (chunk_value last look e i n * (msb_fold ls).1 + (msb_fold ls).0, 2 ^ n * (msb_fold ls).1)
  unfolding fold_list within chunk_value msb_op
  msb_chunk e i zero ls = ap₂ (λ a b. (a, b)) (omega arith) (omega arith)
  msb_chunk e i (suc n) ls =
      ap (msb_op (digit (look (e, i)))) (msb_chunk e (suc i) n ls)
      ∙ ap₂ (λ a b. (a, b)) (omega arith)
          (omega (arith, ap (λ (x : ℕ). x * (msb_fold ls).1) (pow2 n)))

  le_value-fold : (cs : List Chunk) → le_value first look cs ≡ lsb_fold (keys cs)
  unfolding le_value keys fold_list
  le_value-fold [] = refl
  le_value-fold ((e, i, n) ∷ cs) =
      ap (λ x. chunk_value first look e i n + 2 ^ n * x) (le_value-fold cs)
      ∙ sym (lsb_chunk e i n (keys cs))

  be_value-fold : (cs : List Chunk) → (be_value last look cs, 2 ^ width cs) ≡ msb_fold (keys cs)
  unfolding be_value keys fold_list width
  be_value-fold [] = refl
  be_value-fold ((e, i, n) ∷ cs) =
      ap₂ (λ a b. (a, b)) (omega arith) (pow2_add n (width cs))
      ∙ ap (λ (x : ℕ × ℕ). (chunk_value last look e i n * x.1 + x.0, 2 ^ n * x.1))
          (be_value-fold cs)
      ∙ sym (msb_chunk e i n (keys cs))

module _ (r : Radium) (t u : BitStore) (m : Memory) (s : BitPtr) (w : IsMemory t m)
    (v : IsSlice t s) (some_bits : 1 ≤ len_of t s) (fits : len_of t s ≤ bits u) where
  -- For well-typed memory and a slice inside the address space, of 1 to `U::BITS` bits, `load_le`
  -- in `Lsb0` order does not panic and gives the number whose bit `i` is bit `i` of the slice.
  pub load_le-eq-lsb_number :
      Lsb0.load_le r t u m s ≡ ok (lsb_number (len_of t s) 0 (λ i. get_unchecked r lsb0 t m s i))
  load_le-eq-lsb_number =
      let d = domain_of t s v in
      load_le_value r t u m w s d.0 v d.1 some_bits fits
      ∙ ap ok (
          le_value-fold _ (chunks t d.0)
          ∙ ap (lsb_fold _) (keys-chunks t d.0)
          ∙ live-eq-range r lsb0 lsb0-IsBitOrder t m w 0 lsb_op to_ℕ s d.0 v d.1.alive
          ∙ sym (lsb_number-fold (len_of t s) 0 _))

  -- Under the same conditions, `load_be` in `Msb0` order does not panic and gives the number whose
  -- bits, from the most significant of `len` on, are those of the slice in order.
  pub load_be-eq-msb_number :
      Msb0.load_be r t u m s ≡ ok (msb_number (len_of t s) 0 (λ i. get_unchecked r msb0 t m s i))
  load_be-eq-msb_number =
      let d = domain_of t s v in
      load_be_value r t u m w s d.0 v d.1 some_bits fits
      ∙ ap (λ (x : ℕ × ℕ). ok x.0)
          (be_value-fold _ (chunks t d.0)
            ∙ ap (msb_fold _) (keys-chunks t d.0)
            ∙ live-eq-range r msb0 msb0-IsBitOrder t m w (0, 1) msb_op digit s d.0 v d.1.alive
            ∙ sym (msb_number-fold (len_of t s) 0 _))
