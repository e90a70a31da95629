-- ===== src/Vec/Ops.antt =====
-- src/vec/ops.rs: the shifts of bit vectors, which change the length.
pub mod Loops
pub mod Shifts
use bitvec_sgx.Base.{
  ℕ, zero, suc, ◌+◌, ◌-◌, ◌^◌, Bool, false, leb, min, if◌then◌else◌, Outcome, ok, panic, ◌>>=◌,
}
use bitvec_sgx.Store.{BitStore}
use bitvec_sgx.Order.{BitOrder}
use bitvec_sgx.Access.{Radium}
use bitvec_sgx.Memory.{Memory}
use bitvec_sgx.Pointer.{BitPtr}
use bitvec_sgx.Slice.{len, index, set}
use bitvec_sgx.Slice.Bulk.{set_all}
use bitvec_sgx.Vec.{Allocator, BitVec, truncate, clear, push}

-- `for idx in a .. a + n`, and `for idx in (0 .. n).rev()`, with a body that can panic.
unfoldable pub each : (ℕ → Memory → Outcome Memory) → ℕ → ℕ → Memory → Outcome Memory
each body zero a m = ok m
each body (suc n) a m = do m' ← body a m; each body n (suc a) m'

unfoldable pub each_back : (ℕ → Memory → Outcome Memory) → ℕ → Memory → Outcome Memory
each_back body zero m = ok m
each_back body (suc n) m = do m' ← body n m; each_back body n m'

-- `usize::saturating_add`
abbrev pub saturating_add : ℕ → ℕ → ℕ
saturating_add a b = min (a + b) (2 ^ 64 - 1)

module _ (r : Radium) (o : BitOrder) (t : BitStore) where
  -- `let val = self[from]; self.set(to, val);`
  unfoldable pub move_bit : BitPtr → ℕ → ℕ → Memory → Outcome Memory
  move_bit s from to m = do val ← index r o t m s from; set r o t m s to val

  -- `ShlAssign::shl_assign`
  unfoldable pub shl_assign : ℕ → Memory × BitVec → Outcome (Memory × BitVec)
  shl_assign shamt (m, b) =
      let n = len t b.pointer in
      if leb n shamt
      then (do m ← set_all r o t m b.pointer false; b ← clear t b; ok (m, b))
      else (do
        m ← each (λ idx m. move_bit b.pointer idx (idx - shamt) m) (n - shamt) shamt m
        m ← each (λ idx m. set r o t m b.pointer idx false) (n - (n - shamt)) (n - shamt) m
        b ← truncate t b (n - shamt)
        ok (m, b))

  module _ (a : Allocator) where
    -- `for _ in 0 .. shamt { self.push(false) }`
    unfoldable pub lengthen : ℕ → Memory × BitVec → Outcome (Memory × BitVec)
    lengthen zero st = ok st
    lengthen (suc n) st = do st' ← push r o t a false st; lengthen n st'

    -- `ShrAssign::shr_assign`
    unfoldable pub shr_assign : ℕ → Memory × BitVec → Outcome (Memory × BitVec)
    shr_assign shamt (m, b) =
        let old_len = len t b.pointer in
        (do
          (m, b) ← lengthen shamt (m, b)
          m ← each_back (λ idx m. move_bit b.pointer idx (saturating_add idx shamt) m) old_len m
          m ← each (λ idx m. set r o t m b.pointer idx false) shamt 0 m
          ok (m, b))
