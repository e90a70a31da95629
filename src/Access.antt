-- ===== src/Access.antt =====
-- src/access.rs: single-bit access to one element through a shared reference.
pub mod Laws
use bitvec_sgx.Base.{
  ℕ, ◌+◌, ◌-◌, ◌*◌, ◌^◌, ◌<◌, ◌≡◌, bit_and, bit_or, bit_xor, Bool, ◌!=◌, if◌then◌else◌,
}
use bitvec_sgx.Store.{BitStore, bits, all_false, not_word}
use bitvec_sgx.Indices.{BitIdx}
use bitvec_sgx.Order.{BitOrder}

-- The crate `radium` behind `T::Access`: a cell or an atomic that holds an element. An operation
-- gives the content of the cell after it; the laws are its documentation.
pub record Radium : Type 0 where
  pub load : ℕ → ℕ
  pub store : ℕ → ℕ → ℕ
  pub fetch_and : ℕ → ℕ → ℕ
  pub fetch_or : ℕ → ℕ → ℕ
  pub fetch_xor : ℕ → ℕ → ℕ
  pub load_lem : (c : ℕ) → load c ≡ c
  pub store_lem : (c x : ℕ) → store c x ≡ x
  pub fetch_and_lem : (c x : ℕ) → fetch_and c x ≡ bit_and c x
  pub fetch_or_lem : (c x : ℕ) → fetch_or c x ≡ bit_or c x
  pub fetch_xor_lem : (c x : ℕ) → fetch_xor c x ≡ bit_xor c x

module _ (r : Radium) (o : BitOrder) (t : BitStore) where
  -- `BitAccess::clear_bit`
  unfoldable pub clear_bit : ℕ → BitIdx → ℕ
  clear_bit c place = r.fetch_and c (not_word t (o.mask_at t place))

  -- `BitAccess::set_bit`
  unfoldable pub set_bit : ℕ → BitIdx → ℕ
  set_bit c place = r.fetch_or c (o.mask_at t place)

  -- `BitAccess::invert_bit`
  unfoldable pub invert_bit : ℕ → BitIdx → ℕ
  invert_bit c place = r.fetch_xor c (o.mask_at t place)

  -- `BitAccess::get`
  unfoldable pub get : ℕ → BitIdx → Bool
  get c place = bit_and (r.load c) (o.mask_at t place) != all_false t

  -- `BitAccess::set`
  unfoldable pub set : ℕ → BitIdx → Bool → ℕ
  unfolding set_bit clear_bit
  set c place value = if value then set_bit c place else clear_bit c place

-- `BitAccess::clear_bits`
unfoldable pub clear_bits : Radium → ℕ → ℕ → ℕ
clear_bits r c m = r.fetch_and c m

-- `BitAccess::set_bits`
unfoldable pub set_bits : Radium → ℕ → ℕ → ℕ
set_bits r c m = r.fetch_or c m
