-- ===== src/Prelude/Bits.antt =====
-- Machine words as native numbers: the bits of `&`, `|`, `!` and `<<`, at every width.
mod Digits
mod Words
mod Fields
unfoldable pub use Digits.{test_bit}
pub use Digits.{test_bit_none, test_bit-le, test_bit-and, test_bit-or}
pub use Digits.{bit_or-lt, bit_and-lt, test_bit-zero, test_bit-suc}
pub use Words.{test_bit-pow, test_bit-complement, eq_of_test_bit, bit_and-pow, test_bit_above}
pub use Words.{bit_and-pow_clear, pow-lt-pow, Bit-cases}
pub use Fields.{bit_or-field, bit_or_comm, bit_or_right_comm, test_bit_low, test_bit_high}
