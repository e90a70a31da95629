-- ===== src/Slice/Ops/Shifts.antt =====
-- src/slice/ops.rs and src/slice.rs: the shifts in place. `ptr::copy` and `ptr::write_bytes` are
-- written out on the memory of elements.
pub mod Crawls
pub mod Whole
use bitvec_sgx.Base.{
  ℕ, zero, suc, ◌+◌, ◌-◌, ◌*◌, ◌/◌, ◌^◌, ◌%◌, Bool, true, false, ◌&&◌, ◌==◌, ltb, leb, bit_and,
  if◌then◌else◌, List, [], ◌∷◌, Option, none, some, inl, inr, Outcome, ok, panic, ◌>>=◌, for_range,
}
use bitvec_sgx.Store.{BitStore, size_of, bits, indx, shr, usize}
use bitvec_sgx.Order.{BitOrder}
use bitvec_sgx.Access.{Radium}
use bitvec_sgx.Pointer.{BitPtr, pointer, elements}
use bitvec_sgx.Domain.{
  BitDomain, empty, minor, major, partial_head, partial_tail, spanning, is_spanning, domain,
}
use bitvec_sgx.Memory.{Memory}
use bitvec_sgx.Slice.{bitptr, len, copy_unchecked}
use bitvec_sgx.Slice.Ranges.{range_from, range_to, range_index, sub_usize}
use bitvec_sgx.Slice.Bulk.{set_all}

-- The elements that `as_slice` and `as_mut_slice` give.
unfoldable pub body_elements : BitDomain → List ℕ
body_elements empty = []
body_elements (minor _ _ _) = []
body_elements (major _ _ body _ _) = body
body_elements (partial_head _ _ body) = body
body_elements (partial_tail body _ _) = body
body_elements (spanning body) = body

unfoldable pub as_slice : BitStore → BitPtr → Outcome (List ℕ)
unfolding body_elements
as_slice t s = do d ← domain t (bitptr s); ok (body_elements d)

-- `slice[i]`
unfoldable pub element_at : List ℕ → ℕ → Outcome ℕ
element_at [] i = panic
element_at (e ∷ es) zero = ok e
element_at (e ∷ es) (suc i) = element_at es i

-- `ptr::copy(from, to, n)` and `ptr::write_bytes(to, 0, n)` on elements.
unfoldable pub copy_elements : BitStore → ℕ → ℕ → ℕ → Memory → Memory
copy_elements t from to n m =
    λ a. if leb to a && ltb a (to + n * size_of t) then m (from + (a - to)) else m a

unfoldable pub zero_elements : BitStore → ℕ → ℕ → Memory → Memory
zero_elements t to n m = λ a. if leb to a && ltb a (to + n * size_of t) then 0 else m a

-- `rem << T::INDX`, which a release build wraps to a `usize`.
unfoldable pub element_bits : BitStore → ℕ → ℕ
element_bits t n = n * 2 ^ indx t % 2 ^ 64

module _ (r : Radium) (o : BitOrder) (t : BitStore) where
  -- The crawls: one bit at a time, from the front and from the back.
  unfoldable pub crawl_left : ℕ → ℕ → BitPtr → Memory → Memory
  unfolding for_range
  crawl_left n shamt s m = for_range n 0 (λ to m. copy_unchecked r o t m s (shamt + to) to) m

  unfoldable pub crawl_right : ℕ → ℕ → BitPtr → Memory → Memory
  crawl_right zero shamt s m = m
  crawl_right (suc from) shamt s m =
      crawl_right from shamt s (copy_unchecked r o t m s from (shamt + from))

  unfoldable pub shl_crawl : Memory → BitPtr → ℕ → Outcome Memory
  unfolding crawl_left
  shl_crawl m s shamt = do
    let m' = crawl_left (len t s - shamt) shamt s m
    sub ← range_index t (range_from (len t s - shamt)) s
    set_all r o t m' sub false

  unfoldable pub shr_crawl : Memory → BitPtr → ℕ → Outcome Memory
  unfolding crawl_right
  shr_crawl m s shamt = do
    let m' = crawl_right (len t s - shamt) shamt s m
    sub ← range_index t (range_to shamt) s
    set_all r o t m' sub false

  -- The moves of whole elements: memory, the slice that is left to shift, and by how much.
  unfoldable pub shl_elements : Memory → BitPtr → ℕ → Outcome (Memory × BitPtr × ℕ)
  unfolding element_bits copy_elements zero_elements element_at as_slice
  shl_elements m s shamt = do
    let offset = shamt / 2 ^ indx t
    let rem = sub_usize (elements t (bitptr s)) offset
    let to = pointer t (bitptr s)
    body ← as_slice t s
    from ← element_at body offset
    tail ← element_at body rem
    let m' = zero_elements t tail offset (copy_elements t from to rem m)
    sub ← range_index t (range_to (element_bits t rem)) s
    ok (m', sub, bit_and shamt (indx t))

  unfoldable pub shr_elements : Memory → BitPtr → ℕ → Outcome (Memory × BitPtr × ℕ)
  unfolding element_bits copy_elements zero_elements element_at as_slice
  shr_elements m s shamt = do
    let offset = shamt / 2 ^ indx t
    let rem = sub_usize (elements t (bitptr s)) offset
    let from = pointer t (bitptr s)
    body ← as_slice t s
    to ← element_at body offset
    let m' = zero_elements t from offset (copy_elements t from to rem m)
    sub ← range_index t (range_from (element_bits t offset)) s
    ok (m', sub, bit_and shamt (indx t))

  -- `ShlAssign::shl_assign` and `ShrAssign::shr_assign`, on fuel for the calls of themselves.
  unfoldable pub shl_assign : ℕ → Memory → BitPtr → ℕ → Option (Outcome Memory)
  unfolding shl_crawl shl_elements
  shl_assign zero m s shamt = none
  shl_assign (suc fuel) m s shamt =
      if shamt == 0
      then some (ok m)
      else (if leb (len t s) shamt
          then some (set_all r o t m s false)
          else elim (domain t (bitptr s)) [
            | panic ↦ some panic
            | ok d ↦
                if is_spanning d
                then elim (shl_elements m s shamt) [
                  | panic ↦ some panic
                  | ok (m', sub, rest) ↦ shl_assign fuel m' sub rest
                ]
                else some (shl_crawl m s shamt)
          ])

  unfoldable pub shr_assign : ℕ → Memory → BitPtr → ℕ → Option (Outcome Memory)
  unfolding shr_crawl shr_elements
  shr_assign zero m s shamt = none
  shr_assign (suc fuel) m s shamt =
      if shamt == 0
      then some (ok m)
      else (if leb (len t s) shamt
          then some (set_all r o t m s false)
          else elim (domain t (bitptr s)) [
            | panic ↦ some panic
            | ok d ↦
                if is_spanning d
                then elim (shr_elements m s shamt) [
                  | panic ↦ some panic
                  | ok (m', sub, rest) ↦ shr_assign fuel m' sub rest
                ]
                else some (shr_crawl m s shamt)
          ])
