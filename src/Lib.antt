-- ===== src/Lib.antt =====
-- A model of the core of the `bitvec` crate: addressing of single bits in memory through packed
-- pointers, for any element type and any order of bits in an element.
--
-- The parts of the program and where they are modelled:
--
-- - src/store.rs, `BitStore`: Store.antt has the five element types of a 64-bit little-endian
--   target with their width, size and constants. Store/Element.antt has the reads and writes of a
--   bit in an element value and the bit counts.
-- - src/indices.rs: Indices.antt. `BitIdx`, `BitPos` and `BitTail` are numbers whose bounds are
--   hypotheses, as the source's constructors assert them; `BitMask` is the word that it wraps.
--   `offset` and `span` keep the source's machine arithmetic.
-- - src/order.rs, `BitOrder`: Order.antt has the trait as a record of functions, its documented
--   laws as the record `IsBitOrder`, and both implementors. A client takes any lawful order.
-- - src/access.rs, `BitAccess`: Access.antt. The cells come from the `radium` crate, which is a
--   parameter: the record `Radium` has its operations with their documented results as laws.
-- - src/pointer.rs, `BitPtr`: Pointer.antt, as the two words that the source packs. Constructors
--   that can panic give an `Outcome`.
-- - src/domain.rs: Domain.antt. A region of elements is the list of the elements' addresses.
-- - Memory.antt: memory as a function from an element's address to its value. Element addresses
--   are multiples of the element size, so no two of them overlap.
-- - src/slice.rs and src/slice/api.rs, `BitSlice`: Slice.antt has access to single bits,
--   Slice/Ranges.antt the subslices, Slice/Moves.antt the loops that move bits, Slice/Bulk.antt
--   the queries and fills that work by elements of the domain.
-- - src/fields.rs, `BitField`: Fields.antt has the masks, the machine shifts and the loops over
--   whole elements, Fields/Lsb0.antt and Fields/Msb0.antt the loads and stores of the two orders.
--   A shift takes its amount modulo the width, as a release build does.
-- - src/slice/ops.rs, and `rca1` of src/lib.rs: Slice/Ops.antt has the Boolean operators, the
--   additions, inversion and negation, Slice/Ops/Shifts.antt the shifts. An operand that is an
--   iterator is the list of its items. `ptr::copy` and `ptr::write_bytes` are written out.
-- - src/slice/iter.rs: Slice/Iterators.antt has what the iterators share and the run of one to its
--   end; a module under it for each of `Iter`, `Windows`, `Chunks`, `ChunksExact`, `RChunks` and
--   `RChunksExact` has the iterator as a record and a call of `next` as a function from a state to an
--   item and the next state.
-- - src/slice/api.rs, the rotations and the searches: Slice/Rotate.antt and Slice/Search.antt, on
--   top of the iterators, the shifts' moves and the comparison.
-- - src/slice/traits.rs: Slice/Compare.antt has the equality and the order of slices.
--
-- - src/vec.rs, src/vec/api.rs and src/vec/iter.rs, `BitVec`: Vec.antt, and for its
--   shifts in src/vec/ops.rs Vec/Ops.antt. The `Vec<T>` of the standard
--   library is a parameter: the record `Allocator` has the operations that the source calls, and
--   `IsAllocator` in Vec/Shape.antt their documented behaviour, on a machine that can hold a given
--   number of elements. An iterator that a vector is extended with is the list of its items and the
--   number that its `size_hint` announces.
--
-- Indexing goes through the pointer to the slice's head and tail, `offset` to an element and a
-- bit, `Access` to the element's cell, and the order to the bit's mask; the bulk operations go
-- through the pointer to the domain, and read or write whole elements where they can.
--
-- Base.antt, Bits.antt and their modules carry the machine integers, `Outcome` (a value or a panic)
-- and the bits of words. Slice/Rewrites.antt states what an operation on memory does to a slice and
-- to what is outside it.
--
-- Bounds and fuel: integers are natural numbers with the source's wrap written out, `isize` is an
-- integer with explicit bounds. `reverse` shrinks its slice by two bits each round and runs on
-- `len + 1` units of fuel, which is shown to be enough. `for_each` and `clone_from_slice` run
-- over a range of indices. An iterator over `n` bits
-- is run to its end on `n + 1` calls, and a rotation by `by` on `by + 1` rounds, which are shown to be
-- enough. The shifts run on fuel for the calls of themselves: one unit is enough
-- where a slice does not span whole elements, and none where a right shift calls itself with the
-- same arguments.
--
-- Conditions: `debug_assert!` is compiled out, as in a release build. Several references to the same
-- memory are outside the model, as Rust's borrow rules exclude them; a second slice that is
-- read has a memory of its own.
--
-- Not modelled: casts to Rust references and other unsafe conversions without a computation,
-- formatting, the iterators that split a slice at a predicate, hashing, the remaining operations of
-- `BitVec` (`drain`, `splice`, conversions), `BitBox`, deserialization, macros, and the enclave's test
-- crate.
pub mod Base
pub mod Bits
pub mod Store
pub mod Indices
pub mod Order
pub mod Access
pub mod Pointer
pub mod Domain
pub mod Memory
pub mod Slice
pub mod Vec
pub mod Fields
pub mod Examples
