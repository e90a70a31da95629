-- ===== src/Fields/Assignments.antt =====
-- Writes of bits at locations: each bit of a region is assigned once, so that what is assigned is
-- what is read afterwards.
use bitvec_sgx.Base.{
  ℕ, zero, suc, ◌+◌, ◌-◌, ◌≤◌, ◌<◌, ◌≡◌, refl, ap, arith, Bool, true, false, to_ℕ, to_ℕ-le, List,
  ◌/◌, ◌^◌, [], ◌∷◌, ◌++◌, leb, ltb, if◌then◌else◌, ◌==◌, ◌&&◌, Bool-cases, inl, inr, ◌⊎◌,
}
use bitvec_sgx.Bits.{bit}
use bitvec_sgx.Store.{BitStore, size_of, bits, u8, u16, u32, u64, usize}
use bitvec_sgx.Domain.{BitDomain, empty, minor, major, partial_head, partial_tail, spanning}
use bitvec_sgx.Domain.Locations.{Location, next_location, locations, within, whole}
use bitvec_sgx.Domain.Live.{live}
use bitvec_sgx.Slice.Bulk.Locations.{same, same_self}
use bitvec_sgx.Fields.Chunks.{
  LowBit, first, last, Chunk, Assignment, assign, le_assign, be_assign, Agrees, width,
}

-- The bit at `l` after the writes, from the bit before them.
unfoldable pub override : Bool → Location → Assignment → Bool
override b l [] = b
override b l ((x, v) ∷ a) = override (if same x l then v else b) l a

pub override-append :
    (b : Bool) (l : Location) (a a' : Assignment)
    → override b l (a ++ a') ≡ override (override b l a) l a'
unfolding override
override-append b l [] a' = refl
override-append b l ((x, v) ∷ a) a' = override-append (if same x l then v else b) l a a'

-- How often a location is assigned.
pub times : Location → Assignment → ℕ
times l [] = 0
times l ((x, v) ∷ a) = to_ℕ (same x l) + times l a

times-append : (l : Location) (a a' : Assignment) → times l (a ++ a') ≡ times l a + times l a'
unfolding times
times-append l [] a' = omega arith
times-append l (x ∷ a) a' = omega (arith, times-append l a a')

abbrev pub IsOnce : Assignment → Type 0
IsOnce a = (l : Location) → times l a ≤ 1

pub override_absent :
    (b : Bool) (l : Location) (a : Assignment) → times l a ≡ 0 → override b l a ≡ b
unfolding override times
override_absent b l [] h = refl
override_absent b l ((x, v) ∷ a) h = ground (arith, override_absent b l a)

-- What is assigned once is read back.
pub Agrees-override :
    (look : Location → Bool) (a : Assignment) → IsOnce a → Agrees (λ l. override (look l) l a) a
unfolding override times
Agrees-override look [] h = tt
Agrees-override look ((x, v) ∷ a) h = (
  ground (arith, same_self x, h x, override_absent v x a),
  Agrees-override (λ l. if same x l then v else look l) a (λ l. omega (arith, h l)),
)

-- How often a location occurs in a list, and in the chunks of a list.
unfoldable pub occurs : Location → List Location → ℕ
occurs l [] = 0
occurs l (x ∷ ls) = to_ℕ (same x l) + occurs l ls

occurs-append :
    (l : Location) (ls ms : List Location) → occurs l (ls ++ ms) ≡ occurs l ls + occurs l ms
unfolding occurs
occurs-append l [] ms = omega arith
occurs-append l (x ∷ ls) ms = omega (arith, occurs-append l ls ms)

pub occurs_in : Location → List Chunk → ℕ
occurs_in l [] = 0
occurs_in l ((e, i, n) ∷ cs) = occurs l (within e i n) + occurs_in l cs

times-assign :
    (k : LowBit) (l : Location) (v e i n : ℕ) → times l (assign k v e i n) ≡ occurs l (within e i n)
unfolding times assign occurs within
times-assign k l v e i zero = refl
times-assign first l v e i (suc n) = omega (arith, times-assign first l (v / 2) e (suc i) n)
times-assign last l v e i (suc n) = omega (arith, times-assign last l v e (suc i) n)

pub times-le_assign :
    (k : LowBit) (l : Location) (v : ℕ) (cs : List Chunk)
    → times l (le_assign k v cs) ≡ occurs_in l cs
unfolding times le_assign occurs_in
times-le_assign k l v [] = refl
times-le_assign k l v ((e, i, n) ∷ cs) = omega (
  arith,
  times-append l (assign k v e i n) (le_assign k (v / 2 ^ n) cs),
  times-assign k l v e i n,
  times-le_assign k l (v / 2 ^ n) cs,
)

pub times-be_assign :
    (k : LowBit) (l : Location) (v : ℕ) (cs : List Chunk)
    → times l (be_assign k v cs) ≡ occurs_in l cs
unfolding times be_assign occurs_in
times-be_assign k l v [] = refl
times-be_assign k l v ((e, i, n) ∷ cs) = omega (
  arith,
  times-append l (be_assign k v cs) (assign k (v / 2 ^ width cs) e i n),
  times-assign k l (v / 2 ^ width cs) e i n,
  times-be_assign k l v cs,
)

-- The chunks of a domain, in memory order.
unfoldable pub whole_chunks : BitStore → List ℕ → List Chunk
whole_chunks t [] = []
whole_chunks t (e ∷ es) = (e, 0, bits t) ∷ whole_chunks t es

unfoldable pub chunks : BitStore → BitDomain → List Chunk
unfolding whole_chunks
chunks t empty = []
chunks t (minor h e tl) = (e, h, tl - h) ∷ []
chunks t (major h e body e' tl) = (e, h, bits t - h) ∷ (whole_chunks t body ++ ((e', 0, tl) ∷ []))
chunks t (partial_head h e body) = (e, h, bits t - h) ∷ whole_chunks t body
chunks t (partial_tail body e' tl) = whole_chunks t body ++ ((e', 0, tl) ∷ [])
chunks t (spanning body) = whole_chunks t body

occurs_in-append :
    (l : Location) (cs ds : List Chunk) → occurs_in l (cs ++ ds) ≡ occurs_in l cs + occurs_in l ds
unfolding occurs_in
occurs_in-append l [] ds = omega arith
occurs_in-append l (c ∷ cs) ds = omega (arith, occurs_in-append l cs ds)

occurs_in-whole :
    (t : BitStore) (l : Location) (es : List ℕ)
    → occurs_in l (whole_chunks t es) ≡ occurs l (whole t es)
unfolding occurs_in occurs whole_chunks whole
occurs_in-whole t l [] = refl
occurs_in-whole t l (e ∷ es) =
    omega (arith, occurs_in-whole t l es, occurs-append l (within e 0 (bits t)) (whole t es))

body_and_tail :
    (t : BitStore) (l : Location) (body : List ℕ) (e' tl : ℕ)
    → occurs_in l (whole_chunks t body ++ ((e', 0, tl) ∷ []))
      ≡ occurs l (whole t body ++ within e' 0 tl)
unfolding occurs_in
body_and_tail t l body e' tl = omega (
  arith,
  occurs_in-append l (whole_chunks t body) ((e', 0, tl) ∷ []),
  occurs_in-whole t l body,
  occurs-append l (whole t body) (within e' 0 tl),
)

pub occurs_in-chunks :
    (t : BitStore) (l : Location) (d : BitDomain) → occurs_in l (chunks t d) ≡ occurs l (live t d)
unfolding occurs_in occurs chunks live
occurs_in-chunks t l empty = refl
occurs_in-chunks t l (minor h e tl) = omega arith
occurs_in-chunks t l (major h e body e' tl) = omega (
  arith,
  occurs-append l (within e h (bits t - h)) (whole t body ++ within e' 0 tl),
  body_and_tail t l body e' tl,
)
occurs_in-chunks t l (partial_head h e body) =
    omega
      (arith, occurs-append l (within e h (bits t - h)) (whole t body), occurs_in-whole t l body)
occurs_in-chunks t l (partial_tail body e' tl) = body_and_tail t l body e' tl
occurs_in-chunks t l (spanning body) = occurs_in-whole t l body

-- Locations in memory order do not repeat.
abbrev Before : Location → Location → Type 0
Before l s = (l.0 < s.0) ⊎ ((l.0 ≡ s.0) × (l.1 < s.1))

abbrev NotAfter : Location → Location → Type 0
NotAfter l s = (l.0 < s.0) ⊎ ((l.0 ≡ s.0) × (l.1 ≤ s.1))

size_pos : (t : BitStore) → 0 < size_of t
size_pos u8 = omega arith
size_pos u16 = omega arith
size_pos u32 = omega arith
size_pos u64 = omega arith
size_pos usize = omega arith

Before-next : (t : BitStore) (l s : Location) → NotAfter l s → Before l (next_location t s)
Before-next t (a, i) (b, j) h = ground (arith, size_pos t)

differs : (l s : Location) → Before l s → same s l ≡ false
differs (a, i) (b, j) h = ground arith

weaken : (l s : Location) → Before l s → NotAfter l s
weaken (a, i) (b, j) h = ground arith

same-NotAfter : (l s : Location) → same s l ≡ true → NotAfter l s
same-NotAfter (a, i) (b, j) h = ground arith

occurs-Before :
    (t : BitStore) (l s : Location) (n : ℕ) → Before l s → occurs l (locations t s n) ≡ 0
unfolding occurs locations
occurs-Before t l s zero h = refl
occurs-Before t l s (suc n) h =
    let later = occurs-Before t l (next_location t s) n (Before-next t l s (weaken l s h)) in
    rw (differs l s h) (omega arith)

pub occurs_once : (t : BitStore) (l s : Location) (n : ℕ) → occurs l (locations t s n) ≤ 1
unfolding occurs locations
occurs_once t l s zero = omega arith
occurs_once t l s (suc n) = elim (Bool-cases (same s l)) [
  | inl e ↦
      let later =
        occurs-Before t l (next_location t s) n (Before-next t l s (same-NotAfter l s e)) in
      omega (arith, later, to_ℕ-le (same s l))
  | inr e ↦ rw e (omega (arith, occurs_once t l (next_location t s) n))
]

-- Where a chunk assigns, and what.
abbrev pub position : LowBit → ℕ → ℕ → ℕ → ℕ
position first i n j = j - i
position last i n j = i + n - 1 - j

bit_at : (v p q : ℕ) → p ≡ q → bit v p ≡ bit v q
bit_at v p q e = ap (bit v) e

first_step : (v i j : ℕ) → suc i ≤ j → bit (v / 2) (j - suc i) ≡ bit v (j - i)
unfolding bit
first_step v i j h = let deeper : suc (j - suc i) ≡ j - i = omega arith in ap (bit v) deeper

pub override-assign :
    (k : LowBit) (b : Bool) (a j v e i n : ℕ)
    → override b (a, j) (assign k v e i n)
      ≡ (if (e == a) && leb i j && ltb j (i + n) then bit v (position k i n j) else b)
unfolding override assign
override-assign k b a j v e i zero = ground arith
override-assign first b a j v e i (suc n) = ground (
  arith,
  override-assign first (if same (e, i) (a, j) then bit v 0 else b) a j (v / 2) e (suc i) n,
  first_step v i j,
  bit_at v (j - i) 0,
)
override-assign last b a j v e i (suc n) = ground (
  arith,
  override-assign last (if same (e, i) (a, j) then bit v n else b) a j v e (suc i) n,
  bit_at v (suc i + n - 1 - j) (i + suc n - 1 - j),
  bit_at v (i + suc n - 1 - j) n,
)
