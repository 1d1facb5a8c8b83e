-- ===== src/Base/Bits.antt =====
-- The words of C as native numbers: `|`, `&` and `^` by their binary digits, shifts as products
-- and quotients, at every width.
mod Digits
pub mod Xor
pub mod Fields
pub use Digits.{bit_or_step, bit_and_step, bit_xor_step}
