-- ===== src/Bits.antt =====
-- The binary digits of machine words: what `&`, `|`, `<<` and `>>` do to each digit.
mod Native
pub mod Shift
pub use Native.{bit, bit-bit_or, bit-bit_and, bit_and-pow, bit_or-fields}
pub use Native.{bit_and_mask, bit_or_high, bit-le-one, bit_or-lt}
