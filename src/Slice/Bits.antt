-- ===== src/Slice/Bits.antt =====
-- Reads and writes of single bits through a slice: a write is seen at its own index, at no other
-- index, and at no other bit of memory.
use bitvec_sgx.Base.{
  ℕ, ◌+◌, ◌*◌, ◌/◌, ◌%◌, ◌^◌, ◌<◌, ◌≡◌, ◌≢◌, sym, ◌∙◌, ap, arith, ◌==◌, ◌&&◌, if◌then◌else◌, Bool,
}
use bitvec_sgx.Bits.{bit}
use bitvec_sgx.Store.{BitStore, size_of, bits, u8, u16, u32, u64, usize}
use bitvec_sgx.Order.{BitOrder, IsBitOrder}
use bitvec_sgx.Access
use bitvec_sgx.Access.{Radium}
use bitvec_sgx.Access.Laws.{get_lem, bit-set, set-lt}
use bitvec_sgx.Domain.Locations.{Location}
use bitvec_sgx.Memory.{Memory, IsMemory, write}
use bitvec_sgx.Pointer.{BitPtr, pointer, head, len_of}
use bitvec_sgx.Slice.{read, get_unchecked, set_unchecked, locate}
use bitvec_sgx.Slice.Locate.{IsSlice, locate-eq-divmod}

div_parts : (t : BitStore) (n : ℕ) → (n ≡ n / bits t * bits t + n % bits t) × (n % bits t < bits t)
div_parts u8 n = omega arith
div_parts u16 n = omega arith
div_parts u32 n = omega arith
div_parts u64 n = omega arith
div_parts usize n = omega arith

same_element : (t : BitStore) (a q p : ℕ) → a + q * size_of t ≡ a + p * size_of t → q ≡ p
same_element u8 a q p e = omega arith
same_element u16 a q p e = omega arith
same_element u32 a q p e = omega arith
same_element u64 a q p e = omega arith
same_element usize a q p e = omega arith

pub locate_in :
    (t : BitStore) (s : BitPtr) (i : ℕ) → IsSlice t s → i < len_of t s → (locate t s i).1 < bits t
locate_in t s i v h = rw (locate-eq-divmod t s i v h) (div_parts t (head t s + i)).1

-- Different indices of a slice are different bits of memory.
pub locate_injective :
    (t : BitStore) (s : BitPtr) (i j : ℕ)
    → IsSlice t s
    → i < len_of t s
    → j < len_of t s
    → (locate t s i).0 ≡ (locate t s j).0
    → (locate t s i).1 ≡ (locate t s j).1
    → i ≡ j
locate_injective t s i j v p q e f =
    let li = locate-eq-divmod t s i v p in
    let lj = locate-eq-divmod t s j v q in
    let n = head t s + i in
    let k = head t s + j in
    let address : pointer t s + n / bits t * size_of t ≡ pointer t s + k / bits t * size_of t =
      sym (ap (λ (l : Location). l.0) li) ∙ e ∙ ap (λ (l : Location). l.0) lj in
    let place : n % bits t ≡ k % bits t =
      sym (ap (λ (l : Location). l.1) li) ∙ f ∙ ap (λ (l : Location). l.1) lj in
    omega (
      arith,
      place,
      ap (λ (q : ℕ). q * bits t) (same_element t (pointer t s) (n / bits t) (k / bits t) address),
      div_parts t n,
      div_parts t k,
    )

module _ (r : Radium) (o : BitOrder) (lawful : IsBitOrder o) (t : BitStore) where
  in_element :
      (c b b' : ℕ) (v : Bool)
      → c < 2 ^ bits t
      → b < bits t
      → b' < bits t
      → Access.get r o t (Access.set r o t c b v) b'
        ≡ (if b == b' then v else Access.get r o t c b')
  in_element c b b' v w p q = ground (
    arith,
    get_lem r o lawful t (Access.set r o t c b v) b' q,
    get_lem r o lawful t c b' q,
    bit-set r o lawful t c b (o.at t b') v w p,
    lawful.at_injective t b b' p q,
  )

  -- The write of one bit, at any bit of memory.
  pub read-write :
      (m : Memory) (a b a' b' : ℕ) (v : Bool)
      → IsMemory t m
      → b < bits t
      → b' < bits t
      → read r o t (write m a (Access.set r o t (m a) b v)) (a', b')
        ≡ (if a == a' && b == b' then v else read r o t m (a', b'))
  read-write m a b a' b' v w p q = ground (arith, in_element (m a) b b' v (w a) p q)

  -- For a lawful order and a slice inside the address space, reading an index below the
  -- length gives the bit of the located element at the position that the order assigns to the
  -- located index.
  pub get_unchecked_lem :
      (m : Memory) (s : BitPtr) (i : ℕ)
      → IsSlice t s
      → i < len_of t s
      → get_unchecked r o t m s i ≡ bit (m (locate t s i).0) (o.at t (locate t s i).1)
  unfolding get_unchecked
  get_unchecked_lem m s i v h =
      get_lem r o lawful t (m (locate t s i).0) (locate t s i).1 (locate_in t s i v h)

  -- For a lawful order, memory whose elements hold values of their type, and a slice inside
  -- the address space: after a bit is written at an index below the length, reading any index
  -- below the length gives the new bit at that index and the old bit at every other.
  pub get_unchecked-set_unchecked :
      (m : Memory) (s : BitPtr) (i j : ℕ) (v : Bool)
      → IsMemory t m
      → IsSlice t s
      → i < len_of t s
      → j < len_of t s
      → get_unchecked r o t (set_unchecked r o t m s i v) s j
        ≡ (if i == j then v else get_unchecked r o t m s j)
  unfolding get_unchecked set_unchecked
  get_unchecked-set_unchecked m s i j v w g p q = ground (
    arith,
    read-write m (locate t s i).0 (locate t s i).1 (locate t s j).0 (locate t s j).1 v w
        (locate_in t s i g p) (locate_in t s j g q),
    locate_injective t s i j g p q,
  )

  -- Under the same conditions, a bit of memory (an address and an index below the width) that
  -- is not the one written through the slice reads as before.
  pub set_unchecked_frame :
      (m : Memory) (s : BitPtr) (i : ℕ) (v : Bool) (l : Location)
      → IsMemory t m
      → IsSlice t s
      → i < len_of t s
      → l.1 < bits t
      → l ≢ locate t s i
      → read r o t (set_unchecked r o t m s i v) l ≡ read r o t m l
  unfolding set_unchecked
  set_unchecked_frame m s i v (a, b) w g p q ne = ground (
    arith,
    read-write m (locate t s i).0 (locate t s i).1 a b v w (locate_in t s i g p) q,
    λ (e : a ≡ (locate t s i).0) (f : b ≡ (locate t s i).1). ne (λ k. (e k, f k)),
  )

  -- A write through a slice keeps each element of memory a value of its type.
  pub set_unchecked-IsMemory :
      (m : Memory) (s : BitPtr) (i : ℕ) (v : Bool)
      → IsMemory t m
      → IsSlice t s
      → i < len_of t s
      → IsMemory t (set_unchecked r o t m s i v)
  unfolding set_unchecked
  set_unchecked-IsMemory m s i v w g p a = ground (
    arith,
    w a,
    set-lt r o lawful t (m (locate t s i).0) (locate t s i).1 v (w (locate t s i).0)
        (locate_in t s i g p),
  )
