-- ===== src/Access/Laws.antt =====
-- Bit access reads and writes the one bit that the order names, and leaves the others.
use bitvec_sgx.Base.{
  ℕ, ◌^◌, ◌<◌, ◌≡◌, arith, Bool, true, false, not, ◌==◌, if◌then◌else◌, ◌&&◌, ◌||◌,
}
use bitvec_sgx.Bits.{
  bit, bit_and-pow2, bit-bit_and, bit-bit_or, bit-bit_xor, bit-not, bit-pow2, bit_and-lt, bit_or-lt,
  bit_xor-lt, bit_beyond, pow2_pos,
}
use bitvec_sgx.Store.{BitStore, bits, not_word}
use bitvec_sgx.Order.{BitOrder, IsBitOrder}
use bitvec_sgx.Order.Laws.{pow2_lt}
use bitvec_sgx.Access.{Radium, get, set, clear_bit, set_bit, invert_bit}

module _ (r : Radium) (o : BitOrder) (lawful : IsBitOrder o) (t : BitStore) where
  one_hot_lt : (i : ℕ) → i < bits t → o.mask_at t i < 2 ^ bits t
  one_hot_lt i h = rw (lawful.one_hot t i h) (pow2_lt (o.at t i) (bits t) (lawful.at_lt t i h))

  -- For a lawful order and an index below the width, a read gives the bit of the element at
  -- the position that the order assigns.
  pub get_lem : (c i : ℕ) → i < bits t → get r o t c i ≡ bit c (o.at t i)
  unfolding get
  get_lem c i h =
      ground
        (arith, r.load_lem c, lawful.one_hot t i h, bit_and-pow2 c (o.at t i), pow2_pos (o.at t i))

  pub bit-set_bit :
      (c i k : ℕ) → i < bits t → bit (set_bit r o t c i) k ≡ bit c k || (o.at t i == k)
  unfolding set_bit
  bit-set_bit c i k h = rw (r.fetch_or_lem, lawful.one_hot t i h, bit-bit_or, bit-pow2)

  pub bit-clear_bit :
      (c i k : ℕ)
      → c < 2 ^ bits t
      → i < bits t
      → bit (clear_bit r o t c i) k ≡ bit c k && not (o.at t i == k)
  unfolding clear_bit
  bit-clear_bit c i k w h =
      rw
        (
          r.fetch_and_lem,
          lawful.one_hot t i h,
          bit-bit_and,
          bit-not (bits t) (2 ^ o.at t i) k (pow2_lt (o.at t i) (bits t) (lawful.at_lt t i h)),
          bit-pow2,
        )
        (ground (arith, bit_beyond (bits t) c k w))

  -- For a lawful order and an index below the width, inversion flips the bit at the assigned
  -- position and keeps every other bit.
  pub bit-invert_bit :
      (c i k : ℕ)
      → i < bits t
      → bit (invert_bit r o t c i) k ≡ (if o.at t i == k then not (bit c k) else bit c k)
  unfolding invert_bit
  bit-invert_bit c i k h =
      rw (r.fetch_xor_lem, lawful.one_hot t i h, bit-bit_xor, bit-pow2) (ground arith)

  -- For a lawful order, an element that holds a value of its type and an index below the
  -- width, a write sets the bit at the assigned position to the value and keeps every other
  -- bit.
  pub bit-set :
      (c i k : ℕ) (value : Bool)
      → c < 2 ^ bits t
      → i < bits t
      → bit (set r o t c i value) k ≡ (if o.at t i == k then value else bit c k)
  unfolding set
  bit-set c i k true w h = ground (arith, bit-set_bit c i k h)
  bit-set c i k false w h = ground (arith, bit-clear_bit c i k w h)

  pub set-lt :
      (c i : ℕ) (value : Bool) → c < 2 ^ bits t → i < bits t → set r o t c i value < 2 ^ bits t
  unfolding set set_bit clear_bit
  set-lt c i true w h = rw r.fetch_or_lem (bit_or-lt (bits t) c (o.mask_at t i) w (one_hot_lt i h))
  set-lt c i false w h = rw r.fetch_and_lem (bit_and-lt (bits t) c (not_word t (o.mask_at t i)) w)

  pub invert_bit-lt : (c i : ℕ) → c < 2 ^ bits t → i < bits t → invert_bit r o t c i < 2 ^ bits t
  unfolding invert_bit
  invert_bit-lt c i w h =
      rw r.fetch_xor_lem (bit_xor-lt (bits t) c (o.mask_at t i) w (one_hot_lt i h))
