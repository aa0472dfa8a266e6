-- ===== src/Drivers/Uart.antt =====
-- src/drivers/uart.rs: formatted output, and the receive ring that the interrupt handler fills.
-- What is written is the list of the bytes; the device registers are not modelled.
pub mod RxRing
use hr_os.Prelude.{
  ℕ, zero, suc, ◌+◌, ◌*◌, ◌/◌, ◌%◌, ◌^◌, List, [], ◌∷◌, ◌++◌, ◌==◌, if◌then◌else◌, codes, get_or,
}

abbrev pub hex_table : List ℕ
hex_table = codes "0123456789ABCDEF"

-- The nibbles from bit `4 * n - 4` down to bit 0.
unfoldable pub hex_nibbles : ℕ → ℕ → List ℕ
hex_nibbles zero value = []
hex_nibbles (suc n) value = get_or hex_table (value / 2 ^ (4 * n) % 16) 0 ∷ hex_nibbles n value

unfoldable pub write_hex_u32 : ℕ → List ℕ
unfolding hex_nibbles
write_hex_u32 value = codes "0x" ++ hex_nibbles 8 value

-- The digits, in the order in which they leave the scratch buffer: the last one found comes first.
unfoldable pub dec_digits : ℕ → ℕ → List ℕ → List ℕ
dec_digits zero value scratch = scratch
dec_digits (suc room) value scratch =
    let found = (b'0' + value % 10) ∷ scratch in
    let more = dec_digits room (value / 10) found in if value / 10 == 0 then found else more

-- The scratch buffer has room for ten digits.
unfoldable pub write_dec_u32 : ℕ → List ℕ
unfolding dec_digits
write_dec_u32 value = dec_digits 10 value []

unfoldable pub write_line : List ℕ → List ℕ
write_line s = s ++ 13 ∷ 10 ∷ []

unfoldable pub write_line_u32 : ℕ → List ℕ
write_line_u32 value = write_hex_u32 value ++ 13 ∷ 10 ∷ []
