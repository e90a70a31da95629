-- ===== src/Fields/Chunks.antt =====
-- The value of a field, without words: the domain cuts the slice into chunks, one to an element;
-- the bits of a chunk are a number by the order, and the chunks are digits by the byte order.
use native.Mathlib.Nat.{add_comm}
use bitvec_sgx.Base.{
  ℕ, zero, suc, ◌+◌, ◌*◌, ◌/◌, ◌%◌, ◌^◌, ◌<◌, ◌≡◌, sym, ◌∙◌, ap, arith, Bool, to_ℕ, to_ℕ-le, List,
  [], ◌∷◌, ◌++◌,
}
use bitvec_sgx.Bits.{bit, bit-shr, pow2}
use bitvec_sgx.Domain.Locations.{Location}
use bitvec_sgx.Fields.Splits.{mod_split, mod_top_bit, mod_low_bit}

-- Which bit of a chunk is the least significant: that of the first index, or of the last.
pub data LowBit : Type 0 where
  first last : LowBit

-- An element, an index there, and a number of bits from that index on.
abbrev pub Chunk : Type 0
Chunk = ℕ × ℕ × ℕ

-- The number that the bits of a chunk make.
unfoldable pub chunk_value : LowBit → (Location → Bool) → ℕ → ℕ → ℕ → ℕ
chunk_value k look e i zero = 0
chunk_value first look e i (suc n) = to_ℕ (look (e, i)) + 2 * chunk_value first look e (suc i) n
chunk_value last look e i (suc n) = to_ℕ (look (e, i)) * 2 ^ n + chunk_value last look e (suc i) n

pub chunk_value-lt :
    (k : LowBit) (look : Location → Bool) (e i n : ℕ) → chunk_value k look e i n < 2 ^ n
unfolding chunk_value
chunk_value-lt k look e i zero = omega arith
chunk_value-lt first look e i (suc n) =
    omega (arith, pow2 n, to_ℕ-le (look (e, i)), chunk_value-lt first look e (suc i) n)
chunk_value-lt last look e i (suc n) = ground (arith, pow2 n, chunk_value-lt last look e (suc i) n)

-- Little endian: the first chunk is the least significant. Big endian: the last one is.
unfoldable pub width : List Chunk → ℕ
width [] = 0
width ((e, i, n) ∷ cs) = n + width cs

unfoldable pub le_value : LowBit → (Location → Bool) → List Chunk → ℕ
unfolding chunk_value
le_value k look [] = 0
le_value k look ((e, i, n) ∷ cs) = chunk_value k look e i n + 2 ^ n * le_value k look cs

unfoldable pub be_value : LowBit → (Location → Bool) → List Chunk → ℕ
unfolding chunk_value width
be_value k look [] = 0
be_value k look ((e, i, n) ∷ cs) = 2 ^ width cs * chunk_value k look e i n + be_value k look cs

-- Locations with the bits that a write gives them.
abbrev pub Assignment : Type 0
Assignment = List (Location × Bool)

unfoldable pub assign : LowBit → ℕ → ℕ → ℕ → ℕ → Assignment
unfolding bit
assign k v e i zero = []
assign first v e i (suc n) = ((e, i), bit v 0) ∷ assign first (v / 2) e (suc i) n
assign last v e i (suc n) = ((e, i), bit v n) ∷ assign last v e (suc i) n

unfoldable pub le_assign : LowBit → ℕ → List Chunk → Assignment
unfolding assign
le_assign k v [] = []
le_assign k v ((e, i, n) ∷ cs) = assign k v e i n ++ le_assign k (v / 2 ^ n) cs

-- In the order of the writes: from the last chunk to the first.
unfoldable pub be_assign : LowBit → ℕ → List Chunk → Assignment
unfolding assign width
be_assign k v [] = []
be_assign k v ((e, i, n) ∷ cs) = be_assign k v cs ++ assign k (v / 2 ^ width cs) e i n

abbrev pub Agrees : (Location → Bool) → Assignment → Type 0
Agrees look [] = Unit {0}
Agrees look ((l, b) ∷ a) = (look l ≡ b) × Agrees look a

Agrees-front : (look : Location → Bool) (a b : Assignment) → Agrees look (a ++ b) → Agrees look a
Agrees-front look [] b h = tt
Agrees-front look (x ∷ a) b h = (h.0, Agrees-front look a b h.1)

Agrees-back : (look : Location → Bool) (a b : Assignment) → Agrees look (a ++ b) → Agrees look b
Agrees-back look [] b h = h
Agrees-back look (x ∷ a) b h = Agrees-back look a b h.1

-- Where the assigned bits are read back, so is the number.
low_bit : (v : ℕ) → to_ℕ (bit v 0) ≡ v % 2
unfolding bit
low_bit v = ground arith

pub high_bit : (v n : ℕ) → to_ℕ (bit v n) ≡ v / 2 ^ n % 2
high_bit v n =
    let shifted : bit v n ≡ bit (v / 2 ^ n) 0 = ap (bit v) (omega arith) ∙ sym (bit-shr n v 0) in
    ap to_ℕ shifted ∙ low_bit (v / 2 ^ n)

pub chunk_value-assign :
    (k : LowBit) (look : Location → Bool) (v e i n : ℕ)
    → Agrees look (assign k v e i n)
    → chunk_value k look e i n ≡ v % 2 ^ n
unfolding chunk_value assign
chunk_value-assign k look v e i zero h = omega arith
chunk_value-assign first look v e i (suc n) h = omega (
  arith,
  ap to_ℕ h.0,
  low_bit v,
  mod_low_bit n v,
  chunk_value-assign first look (v / 2) e (suc i) n h.1,
)
chunk_value-assign last look v e i (suc n) h = omega (
  arith,
  ap (λ (b : Bool). to_ℕ b * 2 ^ n) h.0,
  ap (λ (x : ℕ). x * 2 ^ n) (high_bit v n),
  mod_top_bit n v,
  chunk_value-assign last look v e (suc i) n h.1,
)

pub le_value-assign :
    (k : LowBit) (look : Location → Bool) (v : ℕ) (cs : List Chunk)
    → Agrees look (le_assign k v cs)
    → le_value k look cs ≡ v % 2 ^ width cs
unfolding le_value le_assign width
le_value-assign k look v [] h = omega arith
le_value-assign k look v ((e, i, n) ∷ cs) h =
    let rest = le_value-assign k look (v / 2 ^ n) cs (Agrees-back look (assign k v e i n) _ h) in
    omega (
      arith,
      chunk_value-assign k look v e i n (Agrees-front look (assign k v e i n) _ h),
      ap (λ (x : ℕ). 2 ^ n * x) rest,
      mod_split n (width cs) v,
    )

pub be_value-assign :
    (k : LowBit) (look : Location → Bool) (v : ℕ) (cs : List Chunk)
    → Agrees look (be_assign k v cs)
    → be_value k look cs ≡ v % 2 ^ width cs
unfolding be_value be_assign width
be_value-assign k look v [] h = omega arith
be_value-assign k look v ((e, i, n) ∷ cs) h =
    let here =
      chunk_value-assign k look (v / 2 ^ width cs) e i n
        (Agrees-back look (be_assign k v cs) _ h) in
    omega (
      arith,
      ap (λ (x : ℕ). 2 ^ width cs * x) here,
      be_value-assign k look v cs (Agrees-front look (be_assign k v cs) _ h),
      mod_split (width cs) n v,
      ap (λ (x : ℕ). v % 2 ^ x) (add_comm n (width cs)),
    )
