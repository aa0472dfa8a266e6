-- ===== src/Drivers/Repl.antt =====
-- src/drivers/repl.rs: the line editor, and the commands on the registry. What is written to the
-- console is the list of the bytes.
pub mod Editor
pub mod Claims
pub mod Owners
mod Tests
use hr_os.Prelude.{
  ℕ, zero, suc, ◌+◌, ◌-◌, Bool, ◌||◌, ◌&&◌, Option, none, some, List, [], ◌∷◌, ◌++◌, Result, ltb,
  leb, ◌==◌, if◌then◌else◌, codes, set, take,
}
use hr_os.Caps.Registry.{RegistryBits, acquire, release, available}
use hr_os.Caps.Tokens.{resolve_name}
use hr_os.Compiler.Names.{
  ParseError, lex_error, unexpected_token, unsupported_operator, unknown_symbol, duplicate_fn,
  symbol_table_full, fn_table_full, stream_full, name_too_long, div_by_zero, missing_semicolon,
  empty_line, capability_violation, loop_too_large, NameBuf, as_slice,
}
use hr_os.Compiler.Expr.{Halt}
use hr_os.Compiler.Stream.{Compiler}
use hr_os.Compiler.Action.{Env}
use hr_os.Compiler.Command.{Outcome, parse}
use hr_os.Drivers.Uart.{write_hex_u32, write_dec_u32, write_line}

abbrev pub line_max : ℕ
line_max = 128

pub data State : Type 0 where
  idle reading evaluating printing : State

-- `LINE_BUF` and `LINE_LEN`.
pub record Line : Type 0 where
  pub line_buf : List ℕ
  pub line_len : ℕ

abbrev pub prompt : List ℕ
prompt = codes "holy> "

abbrev pub rubout : List ℕ
rubout = 0x08 ∷ b' ' ∷ 0x08 ∷ []

-- `for _ in 0..len { uart::write_str(b"\x08 \x08"); }`
unfoldable pub rubouts : ℕ → List ℕ
rubouts zero = []
rubouts (suc len) = rubout ++ rubouts len

unfoldable pub backspace : Line → State × Line × List ℕ
backspace l =
    if ltb 0 l.line_len
    then (State.reading, record l { line_len = l.line_len - 1 }, rubout)
    else (State.reading, l, [])

unfoldable pub typed : ℕ → Line → State × Line × List ℕ
typed byte l =
    if ltb l.line_len line_max
    then (
      State.reading,
      record l { line_buf = set l.line_buf l.line_len byte; line_len = l.line_len + 1 },
      byte ∷ [],
    )
    else (State.reading, l, [])

-- The `match byte`.
unfoldable pub feed_byte : ℕ → Line → State × Line × List ℕ
unfolding rubouts backspace typed
feed_byte byte l =
    if byte == 0x0D || byte == 0x0A
    then (State.evaluating, l, 0x0D ∷ 0x0A ∷ [])
    else if byte == 0x08 || byte == 0x7F
    then backspace l
    else if byte == 0x15
    then (State.reading, record l { line_len = 0 }, rubouts l.line_len)
    else if byte == 0x03
    then (State.idle, record l { line_len = 0 }, codes "^C" ++ 0x0D ∷ 0x0A ∷ prompt)
    else if leb 0x20 byte && leb byte 0x7E
    then typed byte l
    else (State.reading, l, [])

-- One incoming byte; a tab is a blank.
unfoldable pub feed : ℕ → Line → State × Line × List ℕ
unfolding feed_byte
feed byte l = feed_byte (if byte == 0x09 then b' ' else byte) l

-- The slice is of the buffer, whose length is set back to 0.
unfoldable pub take_line : Line → Line × List ℕ
take_line l = (record l { line_len = 0 }, take l.line_len l.line_buf)

-- An empty line is not compiled.
unfoldable pub compile : Env → List ℕ → Compiler → Compiler × Option (Result Halt Outcome)
unfolding parse
compile env [] c = (c, none)
compile env line c = let (c', r) = parse env line c in (c', some r)

unfoldable pub error_text : ParseError → List ℕ
error_text (lex_error message) = codes "LEX\n"
error_text unexpected_token = codes "UNEXPECTED TOKEN\n"
error_text (unsupported_operator op) = codes "UNSUPPORTED OPERATOR\n"
error_text unknown_symbol = codes "UNKNOWN SYMBOL\n"
error_text duplicate_fn = codes "FN REDEFINED\n"
error_text symbol_table_full = codes "SYMBOL TABLE FULL\n"
error_text fn_table_full = codes "FN TABLE FULL\n"
error_text stream_full = codes "STREAM FULL\n"
error_text name_too_long = codes "NAME TOO LONG\n"
error_text div_by_zero = codes "DIV BY ZERO\n"
error_text missing_semicolon = codes "MISSING SEMICOLON\n"
error_text empty_line = codes "\n"
error_text capability_violation =
    codes "E001: CAPABILITY_VIOLATION - Peripheral token not claimed\n"
error_text loop_too_large = codes "LOOP TOO LARGE (max 64 unroll)\n"

unfoldable pub write_value : ℕ → List ℕ
unfolding write_hex_u32 write_dec_u32 write_line
write_value value =
    write_hex_u32 value ++ codes " (" ++ write_dec_u32 value ++ write_line (codes ")")

abbrev pub unknown_resource : NameBuf → List ℕ
unfolding write_line as_slice
unknown_resource name = codes "ERR UNKNOWN RESOURCE " ++ write_line (as_slice name)

-- The `match` on the resolved name.
unfoldable pub claim_resolved : NameBuf → Option ℕ → RegistryBits → RegistryBits × List ℕ
unfolding acquire write_line write_dec_u32 as_slice
claim_resolved name none bits = (bits, unknown_resource name)
claim_resolved name (some id) bits =
    let (bits', won) = acquire bits id in
    (
      bits',
      if won
          then codes "CAP CLAIMED "
            ++ as_slice name
            ++ codes " id="
            ++ write_dec_u32 id
            ++ 0x0A ∷ []
          else codes "CAP BUSY " ++ write_line (as_slice name),
    )

unfoldable pub do_claim : NameBuf → RegistryBits → RegistryBits × List ℕ
unfolding resolve_name claim_resolved as_slice
do_claim name bits = claim_resolved name (resolve_name (as_slice name)) bits

unfoldable pub drop_resolved : NameBuf → Option ℕ → RegistryBits → RegistryBits × List ℕ
unfolding available release write_line as_slice
drop_resolved name none bits = (bits, unknown_resource name)
drop_resolved name (some id) bits =
    if available bits id
    then (bits, codes "CAP NOT HELD " ++ write_line (as_slice name))
    else (release bits id, codes "CAP RELEASED " ++ write_line (as_slice name))

unfoldable pub do_drop : NameBuf → RegistryBits → RegistryBits × List ℕ
unfolding resolve_name drop_resolved as_slice
do_drop name bits = drop_resolved name (resolve_name (as_slice name)) bits
