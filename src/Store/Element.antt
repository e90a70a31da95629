-- ===== src/Store/Element.antt =====
-- src/store.rs: the operations of `trait BitStore` on the value of an element.
use bitvec_sgx.Base.{ℕ, zero, suc, ◌+◌, ◌/◌, ◌%◌, ◌!=◌, bit_and, bit_or, Bool, if◌then◌else◌}
use bitvec_sgx.Store.{BitStore, bits, all_false, not_word}
use bitvec_sgx.Indices.{BitIdx}
use bitvec_sgx.Order.{BitOrder}

module _ (o : BitOrder) (t : BitStore) where
  -- `BitStore::get`
  unfoldable pub get : ℕ → BitIdx → Bool
  get x place = bit_and x (o.mask_at t place) != all_false t

  -- `BitStore::set`
  unfoldable pub set : ℕ → BitIdx → Bool → ℕ
  set x place value =
      let m = o.mask_at t place in if value then bit_or x m else bit_and x (not_word t m)

-- The population count of the standard library, on `w` bits.
unfoldable pub ones : ℕ → ℕ → ℕ
ones zero x = 0
ones (suc w) x = x % 2 + ones w (x / 2)

-- `BitStore::count_ones` and `BitStore::count_zeros`
unfoldable pub count_ones : BitStore → ℕ → ℕ
unfolding ones
count_ones t x = ones (bits t) x

unfoldable pub count_zeros : BitStore → ℕ → ℕ
unfolding count_ones
count_zeros t x = count_ones t (not_word t x)
