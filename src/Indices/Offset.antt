-- ===== src/Indices/Offset.antt =====
-- A jump by `BitIdx::offset` lands where integer division says.
use bitvec_sgx.Base.{ℕ, ◌+◌, ◌-◌, ◌*◌, ◌%◌, ◌<◌, ◌≡◌, arith, bit_and}
use bitvec_sgx.Base.Int.{ℤ, pos, negsuc, pos_part, neg_part}
use bitvec_sgx.Base.Isize.{IsIsize, overflowing_add}
use bitvec_sgx.Bits.{bit_and-low}
use bitvec_sgx.Store.{BitStore, bits, mask, u8, u16, u32, u64, usize}
use bitvec_sgx.Indices.{offset}

-- A distance of `by` bits from bit `val` of an element is `elt` elements and bit `bit` there,
-- with `bit` in range, over the whole range of `isize`.
abbrev pub Lands : BitStore → ℕ → ℤ → ℤ × ℕ → Type 0
Lands t val by (elt, bit) =
    (bit < bits t)
    × (pos_part elt * bits t + bit + neg_part by ≡ pos_part by + val + neg_part elt * bits t)

-- `x & T::MASK` is the remainder by the width.
pub bit_and-mask : (t : BitStore) (x : ℕ) → bit_and x (mask t) ≡ x % bits t
bit_and-mask u8 x = bit_and-low 3 x
bit_and-mask u16 x = bit_and-low 4 x
bit_and-mask u32 x = bit_and-low 5 x
bit_and-mask u64 x = bit_and-low 6 x
bit_and-mask usize x = bit_and-low 6 x

-- From an index below the width, a jump by any `isize` gives an index below the width, and the
-- elements moved times the width plus the new index is the jump plus the old index, as
-- integers.
pub offset_lem :
    (t : BitStore) (val : ℕ) (by : ℤ) → val < bits t → IsIsize by → Lands t val by (offset t val by)
unfolding offset overflowing_add
offset_lem u8 val (pos n) h r = ground (arith, bit_and-mask u8 ((n + val) % 256))
offset_lem u8 val (negsuc n) h r =
    ground (arith, bit_and-mask u8 ((val - (n + 1)) % 256), bit_and-mask u8 (255 - (n - val) % 256))
offset_lem u16 val (pos n) h r = ground (arith, bit_and-mask u16 ((n + val) % 256))
offset_lem u16 val (negsuc n) h r =
    ground
      (arith, bit_and-mask u16 ((val - (n + 1)) % 256), bit_and-mask u16 (255 - (n - val) % 256))
offset_lem u32 val (pos n) h r = ground (arith, bit_and-mask u32 ((n + val) % 256))
offset_lem u32 val (negsuc n) h r =
    ground
      (arith, bit_and-mask u32 ((val - (n + 1)) % 256), bit_and-mask u32 (255 - (n - val) % 256))
offset_lem u64 val (pos n) h r = ground (arith, bit_and-mask u64 ((n + val) % 256))
offset_lem u64 val (negsuc n) h r =
    ground
      (arith, bit_and-mask u64 ((val - (n + 1)) % 256), bit_and-mask u64 (255 - (n - val) % 256))
offset_lem usize val (pos n) h r = ground (arith, bit_and-mask usize ((n + val) % 256))
offset_lem usize val (negsuc n) h r =
    ground (
      arith,
      bit_and-mask usize ((val - (n + 1)) % 256),
      bit_and-mask usize (255 - (n - val) % 256),
    )
