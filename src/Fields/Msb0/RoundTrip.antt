-- ===== src/Fields/Msb0/RoundTrip.antt =====
-- Storing a value in a field of `BitSlice<Msb0, T>` and loading it again.
use native.Mathlib.Nat.{mod-mod}
use bitvec_sgx.Base.{ℕ, ◌%◌, ◌^◌, ◌≤◌, ◌≡◌, ◌∙◌, ap, ok}
use bitvec_sgx.Store.{BitStore, bits}
use bitvec_sgx.Order.{msb0}
use bitvec_sgx.Access.{Radium}
use bitvec_sgx.Memory.{Memory, IsMemory}
use bitvec_sgx.Pointer.{BitPtr, len_of}
use bitvec_sgx.Domain.Locations.{Location}
use bitvec_sgx.Slice.{read}
use bitvec_sgx.Slice.Locate.{IsSlice}
use bitvec_sgx.Slice.Rewrites.{IsOutside}
use bitvec_sgx.Fields.Msb0.{load_le, load_be, store_le, store_be}
use bitvec_sgx.Fields.Msb0.Loads.{load_le_value, load_be_value}
use bitvec_sgx.Fields.Msb0.Stores.{store_le-IsStored, store_be-IsStored}
use bitvec_sgx.Fields.Chunks.{last}
use bitvec_sgx.Fields.Regions.{domain_of}
use bitvec_sgx.Fields.RoundTrip.{le_read_back, be_read_back, le_outside, be_outside}

module _ (r : Radium) (t u : BitStore) (m : Memory) (s : BitPtr) (value : ℕ) (w : IsMemory t m)
    (v : IsSlice t s) (some_bits : 1 ≤ len_of t s) (fits : len_of t s ≤ bits u) where
  abbrev truncated : ℕ
  truncated = value % 2 ^ len_of t s

  -- For well-typed memory and a slice inside the address space, of 1 to `U::BITS` bits,
  -- `store_le` does not panic, keeps memory well typed and every bit outside the slice, and
  -- `load_le` then gives the low `len` bits of the value (with `Msb0` order, in little-endian
  -- order of elements, for every element type and every integer type).
  pub load_le-store_le-msb0 :
      (m' : Memory) × (store_le r t u m s value ≡ ok m')
      × (load_le r t u m' s ≡ ok truncated)
      × IsMemory t m'
      × ((l : Location) → IsOutside t s l → read r msb0 t m' l ≡ read r msb0 t m l)
  load_le-store_le-msb0 =
      let d = domain_of t s v in
      let p = store_le-IsStored r t u m s d.0 value w d.1 some_bits fits in
      (
        p.0,
        p.1,
        load_le_value r t u p.0 p.2.memory s d.0 v d.1 some_bits fits
            ∙ ap ok (
                le_read_back r last t m p.0 s d.0 d.1 truncated p.2
                ∙ mod-mod value (2 ^ len_of t s)),
        p.2.memory,
        le_outside r last t m p.0 s d.0 d.1 truncated v p.2,
      )

  -- For well-typed memory and a slice inside the address space, of 1 to `U::BITS` bits,
  -- `store_be` does not panic, keeps memory well typed and every bit outside the slice, and
  -- `load_be` then gives the low `len` bits of the value (with `Msb0` order, in big-endian
  -- order of elements, for every element type and every integer type).
  pub load_be-store_be-msb0 :
      (m' : Memory) × (store_be r t u m s value ≡ ok m')
      × (load_be r t u m' s ≡ ok truncated)
      × IsMemory t m'
      × ((l : Location) → IsOutside t s l → read r msb0 t m' l ≡ read r msb0 t m l)
  load_be-store_be-msb0 =
      let d = domain_of t s v in
      let p = store_be-IsStored r t u m s d.0 value w d.1 some_bits fits in
      (
        p.0,
        p.1,
        load_be_value r t u p.0 p.2.memory s d.0 v d.1 some_bits fits
            ∙ ap ok (
                be_read_back r last t m p.0 s d.0 d.1 truncated p.2
                ∙ mod-mod value (2 ^ len_of t s)),
        p.2.memory,
        be_outside r last t m p.0 s d.0 d.1 truncated v p.2,
      )
