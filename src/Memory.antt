-- ===== src/Memory.antt =====
-- The memory that bit slices refer to: the content of the element at each address. Slices that
-- overlap share it.
use bitvec_sgx.Base.{ℕ, ◌==◌, if◌then◌else◌, ◌^◌, ◌<◌, ◌+◌, ◌-◌, ◌*◌, ◌%◌, suc}
use bitvec_sgx.Base.Int.{ℤ, pos, negsuc}
use bitvec_sgx.Store.{BitStore, size_of, bits}

abbrev pub Memory : Type 0
Memory = ℕ → ℕ

abbrev pub write : Memory → ℕ → ℕ → Memory
write m a v b = if a == b then v else m b

-- `p.offset(n)` of the standard library, for a pointer to elements.
abbrev pub ptr_offset : BitStore → ℕ → ℤ → ℕ
ptr_offset t a (pos n) = (a + n * size_of t) % 2 ^ 64
ptr_offset t a (negsuc n) = (a + 2 ^ 64 - suc n * size_of t % 2 ^ 64) % 2 ^ 64

-- Each element holds a value of its type.
abbrev pub IsMemory : BitStore → Memory → Type 0
IsMemory t m = (a : ℕ) → m a < 2 ^ bits t
