-- ===== src/Vec.antt =====
-- src/vec.rs and src/vec/api.rs: `BitVec`, a `BitPtr` to elements that it owns and a capacity in
-- elements. The `Vec<T>` that grows them comes from the standard library and is a parameter.
pub mod Shape
pub mod Contents
pub mod Stack
pub mod Edits
pub mod Growth
pub mod Creation
pub mod Ops
pub mod Align
use bitvec_sgx.Base.{
  ◌&&◌, for_range, ℕ, zero, suc, ◌+◌, ◌-◌, ◌*◌, ◌/◌, ◌%◌, ◌^◌, ◌≤◌, ◌<◌, ◌≡◌, ◌≢◌, Bool, true,
  false, not, ltb, leb, ◌==◌, ◌||◌, if◌then◌else◌, Option, none, some, Outcome, ok, panic, assert,
  ◌>>=◌, ◌>>◌, List, [], ◌∷◌,
}
use bitvec_sgx.Store.{BitStore, size_of, bits, all_false}
use bitvec_sgx.Order.{BitOrder}
use bitvec_sgx.Access.{Radium}
use bitvec_sgx.Indices.{span_idx}
use bitvec_sgx.Pointer
use bitvec_sgx.Pointer.{
  BitPtr, uninhabited, pointer, set_pointer, head, set_head, len_of, elements, tail, max_bits,
}
use bitvec_sgx.Memory.{Memory}
use bitvec_sgx.Slice.{len, is_empty, get_unchecked, set_unchecked, swap, copy_unchecked}
use bitvec_sgx.Slice.Ranges.{range_from, range_unchecked, range_index}
use bitvec_sgx.Slice.Moves.{clone_from_slice}
use bitvec_sgx.Slice.Bulk.{set_all}
use bitvec_sgx.Slice.Rotate.{rotate_left, rotate_right}

-- The three parts of a `Vec<T>`, as `Vec::from_raw_parts` takes them.
pub record RawVec : Type 0 where
  pub address : ℕ
  pub length : ℕ
  pub capacity : ℕ

-- The operations of `Vec<T>` that the source calls, on memory and the parts.
pub record Allocator : Type 0 where
  pub vec_with_capacity : ℕ → Outcome RawVec
  pub vec_push : ℕ → Memory × RawVec → Outcome (Memory × RawVec)
  pub vec_reserve : ℕ → Memory × RawVec → Outcome (Memory × RawVec)

pub record BitVec : Type 0 where
  pub pointer : BitPtr
  pub capacity : ℕ

module _ (t : BitStore) where
  -- `BitVec::with_vec`
  unfoldable pub with_vec :
      (Memory × RawVec → Outcome (Memory × RawVec)) → Memory × BitVec → Outcome (Memory × BitVec)
  with_vec func (m, b) = do
    (m', v) ← func (
      m,
      record {
        address = pointer t b.pointer;
        length = elements t b.pointer;
        capacity = b.capacity;
      },
    )
    ok (m', record { pointer = set_pointer t b.pointer v.address; capacity = v.capacity })

  -- `BitVec::capacity`
  unfoldable pub bit_capacity : BitVec → Outcome ℕ
  bit_capacity b = if ltb (b.capacity * bits t) (2 ^ 64) then ok (b.capacity * bits t) else panic

  -- `BitVec::set_len`
  unfoldable pub set_len : BitVec → ℕ → Outcome BitVec
  set_len b new_len = do
    assert (leb new_len max_bits)
    cap ← bit_capacity b
    assert (leb new_len cap)
    ok (record b { pointer = Pointer.set_len t b.pointer new_len })

  -- `BitVec::truncate` and `BitVec::clear`
  unfoldable pub truncate : BitVec → ℕ → Outcome BitVec
  truncate b n = if ltb n (len t b.pointer) then set_len b n else ok b

  unfoldable pub clear : BitVec → Outcome BitVec
  clear b = set_len b 0

  module _ (a : Allocator) where
    -- `BitVec::with_capacity` and `BitVec::new`
    unfoldable pub with_capacity : ℕ → Outcome BitVec
    with_capacity n = do
      v ← a.vec_with_capacity (span_idx t 0 n).0
      p ← uninhabited t v.address
      ok (record { pointer = p; capacity = v.capacity })

    unfoldable pub new : Outcome BitVec
    new = with_capacity 0

    -- `BitVec::reserve`
    unfoldable pub reserve : ℕ → Memory × BitVec → Outcome (Memory × BitVec)
    reserve additional (m, b) =
        let newlen = (len t b.pointer + additional) % 2 ^ 64 in
        let total = (span_idx t (head t b.pointer) newlen).0 in
        let present = elements t b.pointer in
        assert (leb newlen max_bits)
        >> (if leb present total
            then with_vec (a.vec_reserve (total - present)) (m, b)
            else ok (m, b))

module _ (r : Radium) (o : BitOrder) (t : BitStore) where
  -- `BitVec::force_align`
  unfoldable pub force_align : Memory × BitVec → Memory × BitVec
  force_align (m, b) =
      let h = head t b.pointer in
      let n = len_of t b.pointer in
      if h == 0
      then (m, b)
      else let p = Pointer.set_len t (set_head t b.pointer 0) (h + n) in
        let m' = for_range n 0 (λ to m. copy_unchecked r o t m p (h + to) to) m in
        (m', record b { pointer = Pointer.set_len t p n })

module _ (r : Radium) (o : BitOrder) (t : BitStore) (a : Allocator) where
  -- `BitVec::push`
  unfoldable pub push : Bool → Memory × BitVec → Outcome (Memory × BitVec)
  push value (m, b) =
      let n = len t b.pointer in
      let full = is_empty t b.pointer || tail t b.pointer == bits t in
      (do
        assert (leb n max_bits)
        (m, b) ← if full then with_vec t (a.vec_push (all_false t)) (m, b) else ok (m, b)
        let p = Pointer.set_len t b.pointer (n + 1)
        ok (set_unchecked r o t m p n value, record b { pointer = p }))

  -- `BitVec::pop`
  unfoldable pub pop : Memory × BitVec → Outcome (Option Bool × BitVec)
  pop (m, b) =
      let n = len t b.pointer in
      if n == 0
      then ok (none, b)
      else (do b' ← set_len t b (n - 1); ok (some (get_unchecked r o t m b.pointer (n - 1)), b'))

  -- `self.pop().unwrap_or_else(|| unreachable_unchecked())`, on a vector that is not empty.
  unfoldable pub pop_some : Memory × BitVec → Outcome (Bool × Memory × BitVec)
  pop_some (m, b) = elim (pop (m, b)) [
    | ok (some bit, b') ↦ ok (bit, m, b')
    | ok (none, _) ↦ panic
    | panic ↦ panic
  ]

  -- `BitVec::swap_remove`
  unfoldable pub swap_remove : ℕ → Memory × BitVec → Outcome (Bool × Memory × BitVec)
  swap_remove index (m, b) =
      let n = len t b.pointer in
      (do
        assert (not (n == 0))
        assert (ltb index n)
        m ← swap r o t m b.pointer index (n - 1)
        pop_some (m, b))

  -- `BitVec::insert`. A rotation runs on fuel.
  unfoldable pub insert : ℕ → Bool → Memory × BitVec → Option (Outcome (Memory × BitVec))
  insert index value (m, b) =
      if leb index (len t b.pointer)
      then elim (push value (m, b)) [
        | panic ↦ some panic
        | ok (m, b) ↦
            elim (rotate_right r o t (range_unchecked t (range_from index) b.pointer) m 1) [
              | none ↦ none
              | some panic ↦ some panic
              | some (ok m) ↦ some (ok (m, b))
            ]
      ]
      else some panic

  -- `BitVec::remove`
  unfoldable pub remove : ℕ → Memory × BitVec → Option (Outcome (Bool × Memory × BitVec))
  remove index (m, b) =
      let n = len t b.pointer in
      if not (n == 0) && ltb index n
      then elim (rotate_left r o t (range_unchecked t (range_from index) b.pointer) m 1) [
        | none ↦ none
        | some panic ↦ some panic
        | some (ok m) ↦ some (pop_some (m, b))
      ]
      else some panic

  -- `BitVec::resize`
  unfoldable pub resize : ℕ → Bool → Memory × BitVec → Outcome (Memory × BitVec)
  resize new_len value (m, b) =
      let n = len t b.pointer in
      if ltb new_len n
      then (do b ← truncate t b new_len; ok (m, b))
      else if ltb n new_len
      then (do
        (m, b) ← reserve t a (new_len - n) (m, b)
        b ← set_len t b new_len
        rest ← range_index t (range_from n) b.pointer
        m ← set_all r o t m rest value
        ok (m, b))
      else ok (m, b)

  -- `BitVec::extend_from_slice`
  unfoldable pub extend_from_slice :
      BitOrder → BitStore → Memory → BitPtr → Memory × BitVec → Outcome (Memory × BitVec)
  extend_from_slice d u from other (m, b) =
      let n = len t b.pointer in
      let olen = len u other in
      (do
        (m, b) ← reserve t a olen (m, b)
        b ← set_len t b ((n + olen) % 2 ^ 64)
        rest ← range_index t (range_from n) b.pointer
        m ← clone_from_slice r o t m rest r d u from other
        ok (m, b))

  -- The loop of `extend` and of `from_iter`, on the items that the iterator yields.
  unfoldable pub push_all : List Bool → Memory × BitVec → Outcome (Memory × BitVec)
  push_all [] st = ok st
  push_all (bit ∷ src) st = do st' ← push bit st; push_all src st'

  -- `Extend::extend`, with the items and the number of them that `size_hint` gives: the upper
  -- bound, or the lower one where there is no upper.
  unfoldable pub extend : ℕ → List Bool → Memory × BitVec → Outcome (Memory × BitVec)
  extend hint src st = do st' ← reserve t a hint st; push_all src st'

  -- `FromIterator::from_iter`
  unfoldable pub from_iter : ℕ → List Bool → Memory → Outcome (Memory × BitVec)
  from_iter hint src m = do b ← with_capacity t a hint; push_all src (m, b)
