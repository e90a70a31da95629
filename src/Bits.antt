-- ===== src/Bits.antt =====
-- Machine words as bit patterns: the native `&`, `|`, `^`, and the shifts, bit by bit.
mod Digits
mod Test
mod Words
pub use Digits.{bit_and-halve, bit_or-halve, bit_xor-halve, bit_or-zero, zero-bit_or, bit_and-zero}
unfoldable pub use Test.*
pub use Words.*
