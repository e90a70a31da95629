-- ===== src/Order.antt =====
-- src/order.rs: the trait `BitOrder` as an interface, and its two implementors.
pub mod Laws
use bitvec_sgx.Base.{ℕ, ◌+◌, ◌-◌, ◌*◌, ◌/◌, ◌%◌, ◌^◌, ◌<◌, ◌≡◌}
use bitvec_sgx.Store.{BitStore, bits, indx, mask, shl, shr}
use bitvec_sgx.Indices.{BitIdx, BitPos}

-- `at` and `mask`, for each element type. A `BitMask` wraps an element and stands as that word.
pub record BitOrder : Type 0 where
  pub at : BitStore → BitIdx → BitPos
  pub mask_at : BitStore → BitIdx → ℕ

-- The invariants that the trait's documentation asks of an implementor: `at` is total and
-- bijective on `.. T::BITS`, and `mask` is the one-hot encoding of `at`.
pub record IsBitOrder (o : BitOrder) : Type 0 where
  pub at_lt : (t : BitStore) (i : ℕ) → i < bits t → o.at t i < bits t
  pub at_injective :
      (t : BitStore) (i j : ℕ) → i < bits t → j < bits t → o.at t i ≡ o.at t j → i ≡ j
  pub at_onto : (t : BitStore) (p : ℕ) → p < bits t → (i : ℕ) × (i < bits t) × (o.at t i ≡ p)
  pub one_hot : (t : BitStore) (i : ℕ) → i < bits t → o.mask_at t i ≡ 2 ^ o.at t i

-- The default body of `BitOrder::mask`, over an implementor's `at`.
unfoldable pub default_mask : (BitStore → BitIdx → BitPos) → BitStore → BitIdx → ℕ
default_mask at t place = shl t 1 (at t place)

-- `impl BitOrder for Msb0`
abbrev pub msb0 : BitOrder
msb0 = record {
  at = λ t place. mask t - place;
  mask_at = λ t place. shr t (shl t 1 (mask t)) place;
}

-- `impl BitOrder for Lsb0`
abbrev pub lsb0 : BitOrder
lsb0 = record { at = λ t place. place; mask_at = λ t place. shl t 1 place }
