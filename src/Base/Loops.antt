-- ===== src/Base/Loops.antt =====
-- Loops over ranges of numbers.
use Prim.Native.Nat.{ℕ, zero, suc, ◌+◌}
use mathlib.Core.Bool.{Bool, true, false, ◌&&◌, ◌||◌}
use bitvec_sgx.Base.Tests.{to_ℕ}

-- `for k in i .. i + n { s = body(k, s) }`.
unfoldable pub for_range {ℓ} : {S : Type ℓ} → ℕ → ℕ → (ℕ → S → S) → S → S
for_range zero i body s = s
for_range (suc n) i body s = for_range n (suc i) body (body i s)

-- `(i .. i + n).all(f)`, `.any(f)` and `.filter(f).count()`.
unfoldable pub all_range : ℕ → ℕ → (ℕ → Bool) → Bool
all_range zero i f = true
all_range (suc n) i f = f i && all_range n (suc i) f

unfoldable pub any_range : ℕ → ℕ → (ℕ → Bool) → Bool
any_range zero i f = false
any_range (suc n) i f = f i || any_range n (suc i) f

unfoldable pub count_range : ℕ → ℕ → (ℕ → Bool) → ℕ
count_range zero i f = 0
count_range (suc n) i f = to_ℕ (f i) + count_range n (suc i) f
